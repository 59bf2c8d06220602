-- ===== src/Security/Lockout.antt =====
-- server/src/security/lockout.rs: the guard that blocks a key after too many failures.
-- Instants and durations are natural numbers, and `duration_since` stops at 0 as `-` does. Each call
-- takes its `now`; the mutex makes it atomic.
pub mod Blocking
pub mod Counting
use mistake_agent.Prelude.{
  ℕ, ◌+◌, ◌-◌, max, Option, none, some, Bool, true, false, List, [], ltb, leb, String, str_eq,
  length, if◌then◌else◌, lookup, put, remove, retain,
}
use mistake_agent.Prelude.Results.{Result, ok, err}

abbrev pub default_keys_cap : ℕ
default_keys_cap = 50000

pub record FailureState : Type 0 where
  pub count : ℕ
  pub first_at : ℕ
  pub blocked_until : Option ℕ

pub record FailureGuard : Type 0 where
  pub states : List (String × FailureState)
  pub threshold : ℕ
  pub window : ℕ
  pub block : ℕ
  pub keys_cap : ℕ

unfoldable pub new_guard : ℕ → ℕ → ℕ → FailureGuard
new_guard threshold window block = record {
  states = [];
  threshold = max threshold 1;
  window = window;
  block = block;
  keys_cap = default_keys_cap;
}

unfoldable pub record_success : FailureGuard → String → FailureGuard
record_success guard key = record guard { states = remove str_eq key guard.states }

-- `check` on the entry that it finds, by its `blocked_until`.
abbrev pub check_block :
    FailureGuard → String → ℕ → ℕ → Option ℕ → Result ℕ (Unit {0}) × FailureGuard
check_block guard key now first_at (some until) =
    if ltb now until then (err (until - now), guard) else (ok tt, record_success guard key)
check_block guard key now first_at none =
    if leb guard.window (now - first_at) then (ok tt, record_success guard key) else (ok tt, guard)

abbrev pub check_entry :
    FailureGuard → String → ℕ → Option FailureState → Result ℕ (Unit {0}) × FailureGuard
check_entry guard key now none = (ok tt, guard)
check_entry guard key now (some st) = check_block guard key now st.first_at st.blocked_until

unfoldable pub check : FailureGuard → String → ℕ → Result ℕ (Unit {0}) × FailureGuard
unfolding record_success
check guard key now = check_entry guard key now (lookup str_eq key guard.states)

abbrev pub is_blocked_at : ℕ → Option ℕ → Bool
is_blocked_at now none = false
is_blocked_at now (some until) = ltb now until

-- The map after the eviction at the cap.
unfoldable pub evicted : FailureGuard → ℕ → List (String × FailureState)
evicted guard now =
    if leb guard.keys_cap (length guard.states)
    then retain (λ e. is_blocked_at now e.1.blocked_until) guard.states
    else guard.states

abbrev pub or_fresh : ℕ → Option FailureState → FailureState
or_fresh now none = record { count = 0; first_at = now; blocked_until = none }
or_fresh now (some st) = st

-- The window over, the count starts again.
abbrev pub renewed : FailureGuard → ℕ → FailureState → FailureState
renewed guard now st =
    if leb guard.window (now - st.first_at) then record st { count = 0; first_at = now } else st

abbrev pub after_failure : FailureGuard → ℕ → FailureState → Bool × FailureState
after_failure guard now st =
    if leb guard.threshold (st.count + 1)
    then (true, record { count = 0; first_at = now; blocked_until = some (now + guard.block) })
    else (false, record st { count = st.count + 1 })

unfoldable pub failed_entry : FailureGuard → String → ℕ → Bool × FailureState
unfolding evicted
failed_entry guard key now =
    after_failure guard now
      (renewed guard now (or_fresh now (lookup str_eq key (evicted guard now))))

unfoldable pub record_failure : FailureGuard → String → ℕ → Bool × FailureGuard
unfolding failed_entry evicted
record_failure guard key now =
    let (fired, st) = failed_entry guard key now in
    (fired, record guard { states = put str_eq key st (evicted guard now) })

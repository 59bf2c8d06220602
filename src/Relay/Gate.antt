-- ===== src/Relay/Gate.antt =====
-- server/src/relay/concurrency.rs: the gate on a user's concurrent requests.
-- The mutex makes each call atomic, so a history is a sequence of calls. The limit is an i32; a
-- negative one acts as 0 does.
pub mod Histories
pub mod Slots
use mistake_agent.Prelude.{
  ℕ, ◌+◌, ◌-◌, max, Option, none, some, Bool, List, [], ◌∷◌, leb, ◌==◌, if◌then◌else◌, lookup, put,
  remove,
}

-- The map behind the mutex.
pub record ConcurrencyGate : Type 0 where
  pub in_flight : List (ℕ × ℕ)

-- The guard; the gate that it points to is the one of the state.
pub record GateGuard : Type 0 where
  pub user_id : ℕ

abbrev pub new_gate : ConcurrencyGate
new_gate = record { in_flight = [] }

abbrev pub or_absent : Option ℕ → ℕ
or_absent none = 0
or_absent (some n) = n

-- `in_flight.get(&user_id).copied().unwrap_or(0)`.
abbrev pub in_flight : ConcurrencyGate → ℕ → ℕ
in_flight gate user = or_absent (lookup ◌==◌ user gate.in_flight)

abbrev pub set_count : ℕ → ℕ → ConcurrencyGate → ConcurrencyGate
set_count user count gate = record { in_flight = put ◌==◌ user count gate.in_flight }

-- `entry(user_id).or_insert(0)` writes the entry also where the limit is reached.
unfoldable pub acquire : ConcurrencyGate → ℕ → ℕ → Option GateGuard × ConcurrencyGate
acquire gate user limit =
    let count = in_flight gate user in
    if leb (max limit 1) count
    then (none, set_count user count gate)
    else (some (record { user_id = user }), set_count user (count + 1) gate)

-- `*count -= 1`, and the entry removed where that is 0 or less.
abbrev pub give_back : ConcurrencyGate → ℕ → Option ℕ → ConcurrencyGate
give_back gate user none = gate
give_back gate user (some count) =
    if leb count 1
    then record { in_flight = remove ◌==◌ user gate.in_flight }
    else set_count user (count - 1) gate

unfoldable pub drop : GateGuard → ConcurrencyGate → ConcurrencyGate
drop guard gate = give_back gate guard.user_id (lookup ◌==◌ guard.user_id gate.in_flight)

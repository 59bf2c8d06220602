-- ===== src/Security/Lockout/Blocking.antt =====
-- How long server/src/security/lockout.rs keeps a key blocked.
use mistake_agent.Prelude.{
  ℕ, ◌+◌, ◌-◌, ◌≤◌, ◌<◌, ◌≡◌, refl, Option, none, some, true, false, arith, ltb, leb, String,
  str_eq, str_eq_iff, length, lookup, retain, lookup-put, lookup-put_other, lookup-retain,
  lookup-remove_other, Bool-cases, Option-cases, inl, inr, subst, sym, ◌∙◌,
}
use mistake_agent.Prelude.Results.{err}
use mistake_agent.Security.Lockout.{
  FailureState, FailureGuard, record_success, check_entry, check, is_blocked_at, evicted, or_fresh,
  renewed, after_failure, failed_entry, record_failure,
}

-- The entry is blocked until `until` at least.
abbrev pub LastsUntil : ℕ → Option FailureState → Type 0
LastsUntil until none = ⊥
LastsUntil until (some st) = (u : ℕ) × (st.blocked_until ≡ some u) × (until ≤ u)

abbrev pub Holds : String → ℕ → FailureGuard → Type 0
Holds key until guard = LastsUntil until (lookup str_eq key guard.states)

-- What may happen before the block is over: any call but a success of the key.
pub data Meanwhile (key : String) (start until : ℕ) (g : FailureGuard) : FailureGuard → Type 0 where
  nothing : Meanwhile key start until g g
  checks :
      {h : FailureGuard} (k : String) (now : ℕ)
      → Meanwhile key start until g h
      → now < until
      → Meanwhile key start until g (check h k now).1
  fails :
      {h : FailureGuard} (k : String) (now : ℕ)
      → Meanwhile key start until g h
      → start ≤ now
      → now < until
      → Meanwhile key start until g (record_failure h k now).1
  succeeds :
      {h : FailureGuard} (k : String)
      → Meanwhile key start until g h
      → str_eq k key ≡ false
      → Meanwhile key start until g (record_success h k)

success-Holds :
    (key k : String) (until : ℕ) (g : FailureGuard)
    → str_eq k key ≡ false
    → Holds key until g
    → Holds key until (record_success g k)
unfolding record_success
success-Holds key k until g d h =
    subst (LastsUntil until) (sym (lookup-remove_other str_eq str_eq_iff key k g.states d)) h

check_entry-Holds :
    (key k : String) (until now : ℕ) (g : FailureGuard) (o : Option FailureState)
    → now < until
    → (str_eq k key ≡ true → LastsUntil until o)
    → Holds key until g
    → Holds key until (check_entry g k now o).1
check_entry-Holds key k until now g o early mine h = elim (Bool-cases (str_eq k key)) [
  | inl t ↦ blocked o (mine t)
  | inr d ↦ untouched o d
]
  where
    untouched :
        (o : Option FailureState) → str_eq k key ≡ false → Holds key until (check_entry g k now o).1
    untouched none d = h
    untouched (some st) d = elim (Option-cases st.blocked_until) [
      | inl e ↦ rw e (elim (Bool-cases (leb g.window (now - st.first_at))) [
        | inl t ↦ rw t (success-Holds key k until g d h)
        | inr f ↦ rw f h
      ])
      | inr (u, e) ↦ rw e (elim (Bool-cases (ltb now u)) [
        | inl t ↦ rw t h
        | inr f ↦ rw f (success-Holds key k until g d h)
      ])
    ]

    blocked :
        (o : Option FailureState) → LastsUntil until o → Holds key until (check_entry g k now o).1
    blocked none l = absurd l
    blocked (some st) (u, e, le) = rw e (let t : ltb now u ≡ true = ground arith in rw t h)

evicted-LastsUntil :
    (key : String) (until now : ℕ) (g : FailureGuard)
    → now < until
    → Holds key until g
    → LastsUntil until (lookup str_eq key (evicted g now))
unfolding evicted
evicted-LastsUntil key until now g early h = elim (Bool-cases (leb g.keys_cap (length g.states))) [
  | inl full ↦ rw full (still (lookup str_eq key g.states) refl h)
  | inr room ↦ rw room h
]
  where
    still :
        (o : Option FailureState)
        → lookup str_eq key g.states ≡ o
        → LastsUntil until o
        → LastsUntil until
            (lookup str_eq key (retain (λ e. is_blocked_at now e.1.blocked_until) g.states))
    still none e l = absurd l
    still (some st) e (u, b, le) =
        let t : is_blocked_at now st.blocked_until ≡ true = rw b (ground arith) in
        subst (LastsUntil until)
          (sym (lookup-retain str_eq (λ st. is_blocked_at now st.blocked_until) key g.states e t))
          (u, b, le)

renewed_block :
    (g : FailureGuard) (now : ℕ) (st : FailureState)
    → (renewed g now st).blocked_until ≡ st.blocked_until
renewed_block g now st = ground arith

after_failure-LastsUntil :
    (g : FailureGuard) (until now : ℕ) (o : Option FailureState)
    → until ≤ now + g.block
    → LastsUntil until o
    → LastsUntil until (some (after_failure g now (renewed g now (or_fresh now o))).1)
after_failure-LastsUntil g until now none le h = absurd h
after_failure-LastsUntil g until now (some st) le (u, e, l) =
    let kept = renewed_block g now st in
    elim (Bool-cases (leb g.threshold ((renewed g now st).count + 1))) [
      | inl t ↦ rw t (now + g.block, refl, le)
      | inr f ↦ rw f (u, kept ∙ e, l)
    ]

failed_entry-LastsUntil :
    (key : String) (until now : ℕ) (g : FailureGuard)
    → now < until
    → until ≤ now + g.block
    → Holds key until g
    → LastsUntil until (some (failed_entry g key now).1)
unfolding failed_entry
failed_entry-LastsUntil key until now g early le h =
    after_failure-LastsUntil g until now (lookup str_eq key (evicted g now)) le
      (evicted-LastsUntil key until now g early h)

record_failure-Holds :
    (key k : String) (until now : ℕ) (g : FailureGuard)
    → now < until
    → until ≤ now + g.block
    → Holds key until g
    → Holds key until (record_failure g k now).1
unfolding record_failure
record_failure-Holds key k until now g early le h = elim (Bool-cases (str_eq k key)) [
  | inl t ↦
      let same : k ≡ key = (str_eq_iff k key).0 t in
      subst (λ j. Holds key until (record_failure g j now).1) (sym same)
        (subst (LastsUntil until)
          (sym (lookup-put str_eq str_eq_iff key (failed_entry g key now).1 (evicted g now)))
          (failed_entry-LastsUntil key until now g early le h))
  | inr d ↦
      subst (LastsUntil until)
        (sym (lookup-put_other str_eq str_eq_iff key k (failed_entry g k now).1 (evicted g now) d))
        (evicted-LastsUntil key until now g early h)
]

check-block : (g : FailureGuard) (k : String) (now : ℕ) → (check g k now).1.block ≡ g.block
unfolding check record_success
check-block g k now = entry (lookup str_eq k g.states)
  where
    entry : (o : Option FailureState) → (check_entry g k now o).1.block ≡ g.block
    entry none = refl
    entry (some st) = elim (Option-cases st.blocked_until) [
      | inl e ↦ rw e (ground arith)
      | inr (u, e) ↦ rw e (ground arith)
    ]

-- The block stands, and the guard's duration of a block is what it was.
abbrev Stands : String → ℕ → ℕ → FailureGuard → Type 0
Stands key until block g = Holds key until g × (g.block ≡ block)

Meanwhile-Stands :
    (key : String) (start : ℕ) (g : FailureGuard) {h : FailureGuard}
    → Stands key (start + g.block) g.block g
    → Meanwhile key start (start + g.block) g h
    → Stands key (start + g.block) g.block h
unfolding check record_failure record_success
Meanwhile-Stands key start g v nothing = v
Meanwhile-Stands key start g v (checks {h = h} k now m early) =
    let (holds, same) = Meanwhile-Stands key start g v m in
    (
      check_entry-Holds key k (start + g.block) now h (lookup str_eq k h.states) early
          (λ t. subst (λ j. Holds j (start + g.block) h) (sym ((str_eq_iff k key).0 t)) holds)
          holds,
      check-block h k now ∙ same,
    )
Meanwhile-Stands key start g v (fails {h = h} k now m late early) =
    let (holds, same) = Meanwhile-Stands key start g v m in
    (record_failure-Holds key k (start + g.block) now h early (omega arith) holds, same)
Meanwhile-Stands key start g v (succeeds {h = h} k m d) =
    let (holds, same) = Meanwhile-Stands key start g v m in
    (success-Holds key k (start + g.block) h d holds, same)

after_failure-fires :
    (g : FailureGuard) (now : ℕ) (st : FailureState)
    → (after_failure g now st).0 ≡ true
    → LastsUntil (now + g.block) (some (after_failure g now st).1)
after_failure-fires g now st h = elim (Bool-cases (leb g.threshold (st.count + 1))) [
  | inl t ↦ rw t (now + g.block, refl, omega arith)
  | inr f ↦ let no : false ≡ true = rw f at h in absurd (cc no)
]

fires-Holds :
    (g : FailureGuard) (key : String) (start : ℕ)
    → (record_failure g key start).0 ≡ true
    → Stands key (start + g.block) g.block (record_failure g key start).1
unfolding record_failure failed_entry
fires-Holds g key start t = (
  subst (LastsUntil (start + g.block))
      (sym (lookup-put str_eq str_eq_iff key (failed_entry g key start).1 (evicted g start)))
      (after_failure-fires g start
        (renewed g start (or_fresh start (lookup str_eq key (evicted g start)))) t),
  refl,
)

-- Once the failures of a key have set off a block, every later check of the key is refused until
-- the block is over, and told to wait at least as long, whatever calls are made in between: checks
-- and failures of any key, the eviction at the cap included, and successes of other keys.
pub record_failure-check :
    (g : FailureGuard) (key : String) (start now : ℕ) {h : FailureGuard}
    → (record_failure g key start).0 ≡ true
    → Meanwhile key start (start + g.block) (record_failure g key start).1 h
    → now < start + g.block
    → (wait : ℕ) × ((check h key now).0 ≡ err wait) × (start + g.block ≤ now + wait)
unfolding check record_failure
record_failure-check g key start now {h = h} t m early =
    refused (lookup str_eq key h.states)
      (Meanwhile-Stands key start (record_failure g key start).1 (fires-Holds g key start t) m).0
  where
    refused :
        (o : Option FailureState)
        → LastsUntil (start + g.block) o
        → (wait : ℕ) × ((check_entry h key now o).0 ≡ err wait) × (start + g.block ≤ now + wait)
    refused none l = absurd l
    refused (some st) (u, e, le) =
        let t : ltb now u ≡ true = ground arith in rw (e, t) (u - now, refl, omega arith)

-- ===== src/Security/Lockout/Counting.antt =====
-- The number of failures after which server/src/security/lockout.rs blocks a key.
use mistake_agent.Prelude.{
  ℕ, suc, ◌+◌, ◌-◌, ◌≤◌, ◌<◌, ◌≡◌, refl, none, some, false, List, [], ◌∷◌, arith, leb, String,
  str_eq, str_eq_iff, length, length-retain-le, All, lookup, put, lookup-put, Bool-cases, inl, inr,
  subst, ap, ◌∙◌, not,
}
use mistake_agent.Security.Lockout.{
  FailureState, FailureGuard, evicted, or_fresh, renewed, after_failure, failed_entry,
  record_failure,
}

-- The failures of a key at these instants, one after the other.
abbrev pub failures : FailureGuard → String → List ℕ → FailureGuard
failures g key [] = g
failures g key (t ∷ ts) = failures (record_failure g key t).1 key ts

-- The key has failed `count` times since `first_at`, with room in the map for `spare` more keys.
record Counted (g : FailureGuard) (key : String) (first_at count spare : ℕ) : Type 0 where
  entry :
      lookup str_eq key g.states
      ≡ some (record { count = count; first_at = first_at; blocked_until = none })
  room : length g.states + spare ≤ g.keys_cap

length-put :
    (key : String) (st : FailureState) (m : List (String × FailureState))
    → length (put str_eq key st m) ≤ length m + 1
length-put key st m = omega (arith, length-retain-le (λ e. not (str_eq e.0 key)) m)

evicted-room :
    (g : FailureGuard) (now : ℕ) → length g.states < g.keys_cap → evicted g now ≡ g.states
unfolding evicted
evicted-room g now h = ground arith

abbrev counting : ℕ → ℕ → FailureState
counting count first_at = record { count = count; first_at = first_at; blocked_until = none }

-- What the entry becomes at a failure within the window.
failed_entry-Counted :
    (g : FailureGuard) (key : String) (first_at count spare now : ℕ)
    → Counted g key first_at count (suc spare)
    → first_at ≤ now
    → now < first_at + g.window
    → failed_entry g key now ≡ after_failure g now (counting count first_at)
unfolding failed_entry
failed_entry-Counted g key first_at count spare now c late early =
    ap (λ m. after_failure g now (renewed g now (or_fresh now (lookup str_eq key m))))
      (evicted-room g now (let r = c.room in omega arith))
    ∙ ap (λ o. after_failure g now (renewed g now (or_fresh now o))) c.entry
    ∙ ap (after_failure g now) within
  where
    within : renewed g now (counting count first_at) ≡ counting count first_at
    within = let f : leb g.window (now - first_at) ≡ false = ground arith in rw f refl

-- The first failure of a key that has no entry.
failed_entry-fresh :
    (g : FailureGuard) (key : String) (now : ℕ)
    → lookup str_eq key g.states ≡ none
    → length g.states < g.keys_cap
    → failed_entry g key now ≡ after_failure g now (counting 0 now)
unfolding failed_entry
failed_entry-fresh g key now e room =
    ap (λ m. after_failure g now (renewed g now (or_fresh now (lookup str_eq key m))))
      (evicted-room g now room)
    ∙ ap (λ o. after_failure g now (renewed g now (or_fresh now o))) e
    ∙ ap (after_failure g now) {y = counting 0 now} (ground arith)

-- A failure that does not reach the threshold adds one to the count.
counts_on :
    (g : FailureGuard) (key : String) (first_at count spare now : ℕ)
    → failed_entry g key now ≡ after_failure g now (counting count first_at)
    → length g.states + suc spare ≤ g.keys_cap
    → count + 1 < g.threshold
    → Counted (record_failure g key now).1 key first_at (count + 1) spare
unfolding record_failure
counts_on g key first_at count spare now e room below =
    let short : leb g.threshold (count + 1) ≡ false = ground arith in
    let st : (failed_entry g key now).1 ≡ counting (count + 1) first_at =
      ap (λ r. r.1) e ∙ rw short refl in
    record {
      entry =
          lookup-put str_eq str_eq_iff key (failed_entry g key now).1 (evicted g now) ∙ ap some st;
      room =
          let same = evicted-room g now (omega arith) in
          let longer = length-put key (failed_entry g key now).1 (evicted g now) in
          let size : length (evicted g now) ≡ length g.states = ap length same in omega arith;
    }

fires_at :
    (g : FailureGuard) (key : String) (first_at count now : ℕ)
    → failed_entry g key now ≡ after_failure g now (counting count first_at)
    → (record_failure g key now).0 ≡ leb g.threshold (count + 1)
unfolding record_failure
fires_at g key first_at count now e =
    ap (λ r. r.0) e
    ∙ elim (Bool-cases (leb g.threshold (count + 1))) [ inl t ↦ rw t refl | inr f ↦ rw f refl ]

abbrev InWindow : FailureGuard → ℕ → ℕ → Type 0
InWindow g first_at t = (first_at ≤ t) × (t < first_at + g.window)

failures-Counted :
    (g : FailureGuard) (key : String) (first_at count spare : ℕ) (ts : List ℕ)
    → Counted g key first_at count (length ts + spare)
    → All (InWindow g first_at) ts
    → count + length ts < g.threshold
    → Counted (failures g key ts) key first_at (count + length ts) spare
unfolding record_failure
failures-Counted g key first_at count spare [] c w below =
    subst (λ n. Counted g key first_at n spare) (omega arith)
      (subst (Counted g key first_at count) (omega arith) c)
failures-Counted g key first_at count spare (t ∷ ts) c w below =
    subst (λ n. Counted (failures g key (t ∷ ts)) key first_at n spare) (omega arith)
      (failures-Counted (record_failure g key t).1 key first_at (count + 1) spare ts
        (counts_on g key first_at count (length ts + spare) t
          (failed_entry-Counted g key first_at count (length ts + spare) t more w.0.0 w.0.1)
          more.room (omega arith))
        w.1 (omega arith))
  where
    more : Counted g key first_at count (suc (length ts + spare))
    more = subst (Counted g key first_at count) (omega arith) c

-- A failure changes none of the guard's parameters.
failures-same :
    (g : FailureGuard) (key : String) (ts : List ℕ)
    → ((failures g key ts).window ≡ g.window) × ((failures g key ts).threshold ≡ g.threshold)
unfolding record_failure
failures-same g key [] = (refl, refl)
failures-same g key (t ∷ ts) = failures-same (record_failure g key t).1 key ts

-- With room in the map, a key that has no entry is blocked by its failures within one window
-- exactly when their number reaches the threshold: of `length ts + 2` failures, none of the earlier
-- having set off a block, the last sets one off if and only if that many are the threshold or more.
pub failures-threshold :
    (g : FailureGuard) (key : String) (first_at now : ℕ) (ts : List ℕ)
    → lookup str_eq key g.states ≡ none
    → length g.states + (length ts + 2) ≤ g.keys_cap
    → All (InWindow g first_at) ts
    → InWindow g first_at now
    → length ts + 1 < g.threshold
    → ((record_failure g key first_at).0 ≡ false)
      × ((record_failure (failures g key (first_at ∷ ts)) key now).0
          ≡ leb g.threshold (length ts + 2))
unfolding record_failure
failures-threshold g key first_at now ts e room w early below =
    let fresh = failed_entry-fresh g key first_at e (omega arith) in
    let first =
      counts_on g key first_at 0 (length ts + 1) first_at fresh (omega arith) (omega arith) in
    let most =
      failures-Counted (record_failure g key first_at).1 key first_at (0 + 1) 1 ts first w
        (omega arith) in
    let (window, threshold) = failures-same g key (first_at ∷ ts) in
    let last = fires_at (failures g key (first_at ∷ ts)) key first_at (0 + 1 + length ts) now (
      failed_entry-Counted (failures g key (first_at ∷ ts)) key first_at (0 + 1 + length ts) 0 now
        most early.0 (rw window early.1)) in
    (
      fires_at g key first_at 0 first_at fresh ∙ ground arith,
      last ∙ (λ i. leb (threshold i) (sum i)),
    )
  where
    sum : 0 + 1 + length ts + 1 ≡ length ts + 2
    sum = omega arith

-- ===== src/Billing/Reads/Effective.antt =====
-- Which entitlement pays: `find_entitlement_tx` (server/src/billing/store.rs).
use mathlib.Core.List.{Memᴰ}
use mistake_agent.Prelude.{
  ℕ, ◌≤◌, ◌≡◌, refl, subst, sym, ◌∙◌, Option, none, some, true, List, [], ◌∷◌, arith, if◌then◌else◌,
  find, All, All-append, All-map, Option-cases, Bool-cases, inl, inr, ◌⊎◌, ◌==◌,
}
use mistake_agent.Prelude.Results.{ok, >>=-eq-ok}
use mistake_agent.Billing.Model.{Plan, Entitlement}
use mistake_agent.Billing.Quota.{HasRoom}
use mistake_agent.Billing.Tables.{PlanRow, EntitlementRow, Db}
use mistake_agent.Billing.Reads.Decode.{split-Decoded}
use mistake_agent.Billing.Reads.{
  BillingRow, split, has_uses_left, is_effective, effective_rows, sooner, earliest, split_found,
  find_entitlement,
}

-- The sooner of two is one of them, and is no later than either.
sooner_cases :
    (row : BillingRow) (o : Option BillingRow) {best : BillingRow}
    → sooner row o ≡ some best
    → ((best ≡ row) ⊎ (o ≡ some best)) × (best.e.expires_at ≤ row.e.expires_at)
sooner_cases row none h = ground arith
sooner_cases row (some b) h = ground arith

sooner_le :
    (row b : BillingRow) {best : BillingRow}
    → sooner row (some b) ≡ some best
    → best.e.expires_at ≤ b.e.expires_at
sooner_le row b h = ground arith

earliest_mem :
    (rows : List BillingRow) {best : BillingRow} → earliest rows ≡ some best → Memᴰ best rows
unfolding earliest
earliest_mem [] h = absurd (cc h)
earliest_mem (row ∷ rows) {best} h = elim (sooner_cases row (earliest rows) h).0 [
  | inl e ↦ Memᴰ.head e
  | inr e ↦ Memᴰ.tail (earliest_mem rows e)
]

earliest-none : (rows : List BillingRow) → earliest rows ≡ none → rows ≡ []
unfolding earliest
earliest-none [] h = refl
earliest-none (row ∷ rows) h = elim (Option-cases (earliest rows)) [
  | inl e ↦ absurd (let k : sooner row none ≡ none = rw e at h in cc)
  | inr (b, e) ↦ absurd (not_none b (rw e at h))
]
  where
    not_none : (b : BillingRow) → sooner row (some b) ≡ none → ⊥
    not_none b k = ground arith

earliest_least :
    (rows : List BillingRow) {best : BillingRow}
    → earliest rows ≡ some best
    → All (λ row. best.e.expires_at ≤ row.e.expires_at) rows
unfolding earliest
earliest_least [] h = tt
earliest_least (row ∷ rows) {best} h = (
  (sooner_cases row (earliest rows) h).1,
  elim (Option-cases (earliest rows)) [
    | inl e ↦ rw (earliest-none rows e) tt
    | inr (b, e) ↦
        let le : best.e.expires_at ≤ b.e.expires_at = sooner_le row b (rw e at h) in
        All-map _ _ rows (λ r k. omega arith) (earliest_least rows e)
  ],
)

effective_rows-All :
    (plans : List PlanRow) (now user : ℕ) (es : List EntitlementRow)
    → All (λ row. is_effective now user row ≡ true) (effective_rows plans now user es)
unfolding effective_rows
effective_rows-All plans now user [] = tt
effective_rows-All plans now user (e ∷ es) =
    elim (Option-cases (find (λ p. p.id == e.plan_id) plans)) [
      | inl q ↦ rw (q, effective_rows) (effective_rows-All plans now user es)
      | inr (p, q) ↦
          rw (q, effective_rows)
            (All-append _ _ _ (only (record { e = e; p = p }))
              (effective_rows-All plans now user es))
    ]
  where
    only :
        (row : BillingRow)
        → All
            (λ r. is_effective now user r ≡ true)
            (if is_effective now user row then row ∷ [] else [])
    only row = elim (Bool-cases (is_effective now user row)) [
      | inl t ↦ rw t (t, tt)
      | inr f ↦ rw f tt
    ]

All_of_mem {ℓ} :
    (P : BillingRow → Type ℓ) (rows : List BillingRow) {row : BillingRow}
    → All P rows
    → Memᴰ row rows
    → P row
All_of_mem P [] a m = elim m [ ]
All_of_mem P (x ∷ rows) a (Memᴰ.head e) = subst P (sym e) a.0
All_of_mem P (x ∷ rows) a (Memᴰ.tail m) = All_of_mem P rows a.1 m

split_found-some :
    (o : Option BillingRow) (e : Entitlement) (p : Plan)
    → split_found o ≡ ok (some (e, p))
    → (row : BillingRow) × (o ≡ some row) × (split row ≡ ok (e, p))
split_found-some none e p h = absurd (cc h)
split_found-some (some row) e p h =
    let (found, q, last) = >>=-eq-ok (split row) (λ f. ok (some f)) h in (row, refl, q ∙ cc last)

-- The entitlement that pays is decoded from a row that is effective now for this user, and no
-- other effective row expires sooner.
pub find_entitlement-earliest :
    (db : Db) (now user : ℕ) (e : Entitlement) (p : Plan)
    → find_entitlement db now user ≡ ok (some (e, p))
    → let rows = effective_rows db.plans now user db.entitlements in
      (row : BillingRow) × Memᴰ row rows
      × (split row ≡ ok (e, p))
      × (is_effective now user row ≡ true)
      × All (λ other. e.expires_at ≤ other.e.expires_at) rows
unfolding find_entitlement
find_entitlement-earliest db now user e p h =
    let rows = effective_rows db.plans now user db.entitlements in
    let (row, q, s) = split_found-some (earliest rows) e p h in
    let m = earliest_mem rows q in
    let same : e.expires_at ≡ row.e.expires_at = (split-Decoded row e p s).same_expiry in
    (
      row,
      m,
      s,
      All_of_mem _ rows (effective_rows-All db.plans now user db.entitlements) m,
      rw same (earliest_least rows q),
    )

is_effective-HasRoom :
    (now user : ℕ) (row : BillingRow)
    → is_effective now user row ≡ true
    → HasRoom row.e.total_uses row.e.used_uses
unfolding is_effective
is_effective-HasRoom now user row h = has_room row.e.total_uses row.e.used_uses (ground arith)
  where
    has_room : (total : Option ℕ) (used : ℕ) → has_uses_left total used ≡ true → HasRoom total used
    has_room none used h = tt
    has_room (some total) used h = ground arith

-- An experience package that is used up is never the one that pays.
pub find_entitlement-HasRoom :
    (db : Db) (now user : ℕ) (e : Entitlement) (p : Plan)
    → find_entitlement db now user ≡ ok (some (e, p))
    → HasRoom e.total_uses e.used_uses
find_entitlement-HasRoom db now user e p h =
    let (row, _, s, live, _) = find_entitlement-earliest db now user e p h in
    let d = split-Decoded row e p s in
    rw (d.same_total, d.same_used) (is_effective-HasRoom now user row live)

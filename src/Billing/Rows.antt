-- ===== src/Billing/Rows.antt =====
-- The rows of `usage_events` in the order of their ids, and what an update of one row changes.
use mistake_agent.Prelude.{
  ℕ, suc, ◌+◌, ◌≤◌, ◌<◌, ◌≡◌, refl, some, Bool, true, false, List, [], ◌∷◌, ◌++◌, arith, ◌==◌,
  if◌then◌else◌, find, update_where, update_where_none, ==_refl, sum_by, All, Bool-cases, inl, inr,
  subst, ap, sym, ◌∙◌,
}
use mistake_agent.Billing.Tables.{UsageEvent}
use mistake_agent.Billing.Settle.{set_billed}

-- The ids grow along the table, from `lo` on.
abbrev pub Ascending : ℕ → List UsageEvent → Type 0
Ascending lo [] = Unit {0}
Ascending lo (r ∷ rows) = (lo ≤ r.id) × Ascending (suc r.id) rows

pub Ascending-mono :
    (a b : ℕ) (rows : List UsageEvent) → a ≤ b → Ascending b rows → Ascending a rows
Ascending-mono a b [] h k = tt
Ascending-mono a b (r ∷ rows) h k = (omega arith, k.1)

pub Ascending-append :
    (lo n : ℕ) (rows : List UsageEvent) (r : UsageEvent)
    → lo ≤ n
    → n ≤ r.id
    → Ascending lo rows
    → All (λ x. x.id < n) rows
    → Ascending lo (rows ++ (r ∷ []))
Ascending-append lo n [] r l h k a = (omega arith, tt)
Ascending-append lo n (x ∷ rows) r l h k a =
    (k.0, Ascending-append (suc x.id) n rows r (omega (arith, a.0)) h k.1 a.1)

-- An update that keeps the ids keeps their order.
pub Ascending-update :
    (lo : ℕ) (p : UsageEvent → Bool) (f : UsageEvent → UsageEvent) (rows : List UsageEvent)
    → ((r : UsageEvent) → (f r).id ≡ r.id)
    → Ascending lo rows
    → Ascending lo (update_where p f rows)
Ascending-update lo p f [] same k = tt
Ascending-update lo p f (r ∷ rows) same k =
    row (p r) (Ascending-update (suc r.id) p f rows same k.1)
  where
    row :
        (b : Bool)
        → Ascending (suc r.id) (update_where p f rows)
        → Ascending lo ((if b then f r else r) ∷ update_where p f rows)
    row true rest = (rw (same r) k.0, rw (same r) rest)
    row false rest = (k.0, rest)

pub find-Ascending :
    (lo : ℕ) (p : UsageEvent → Bool) (rows : List UsageEvent) {r : UsageEvent}
    → Ascending lo rows
    → find p rows ≡ some r
    → lo ≤ r.id
find-Ascending lo p [] a h = absurd (cc h)
find-Ascending lo p (x ∷ rows) {r} a h = elim (Bool-cases (p x)) [
  | inl t ↦ (let e : some x ≡ some r = rw t at h in let same : x ≡ r = cc e in rw (← same) a.0)
  | inr f ↦
      let below = find-Ascending (suc x.id) p rows a.1 (rw f at h) in omega (arith, a.0, below)
]

pub Ascending-ne :
    (lo n : ℕ) (rows : List UsageEvent)
    → n < lo
    → Ascending lo rows
    → All (λ x. (x.id == n) ≡ false) rows
Ascending-ne lo n [] h a = tt
Ascending-ne lo n (x ∷ rows) h a =
    (ground arith, Ascending-ne (suc x.id) n rows (omega (arith, a.0)) a.1)

-- Setting what the row `first` is billed changes a sum over the table by that row alone.
pub sum_by-set_billed :
    (m : UsageEvent → ℕ) (lo d : ℕ) (p : UsageEvent → Bool) (rows : List UsageEvent)
    {first : UsageEvent}
    → Ascending lo rows
    → find p rows ≡ some first
    → sum_by m (set_billed first.id d rows) + m first
      ≡ sum_by m rows + m (record first { billed_uses = d })
sum_by-set_billed m lo d p [] a h = absurd (cc h)
sum_by-set_billed m lo d p (x ∷ rows) {first} a h = elim (Bool-cases (p x)) [
  | inl t ↦
      let e : some x ≡ some first = rw t at h in
      let same : x ≡ first = cc e in
      subst
        (λ f.
          sum_by m (set_billed f.id d (x ∷ rows)) + m f
          ≡ sum_by m (x ∷ rows) + m (record f { billed_uses = d }))
        same (at_head x rows a.1)
  | inr f ↦
      let found : find p rows ≡ some first = rw f at h in
      let later = find-Ascending (suc x.id) p rows a.1 found in
      let other : (x.id == first.id) ≡ false = ground arith in
      rw other (omega (arith, sum_by-set_billed m (suc x.id) d p rows a.1 found))
]
  where
    at_head :
        (x : UsageEvent) (rows : List UsageEvent)
        → Ascending (suc x.id) rows
        → sum_by m (set_billed x.id d (x ∷ rows)) + m x
          ≡ sum_by m (x ∷ rows) + m (record x { billed_uses = d })
    at_head x rows a =
        rw
          (
            ==_refl x.id,
            update_where_none (λ r. r.id == x.id) (λ r. record r { billed_uses = d }) rows
                (Ascending-ne (suc x.id) x.id rows (omega arith) a),
          )
          (omega arith)

-- Setting what `first` is billed already changes nothing.
pub set_billed-same :
    (lo d : ℕ) (p : UsageEvent → Bool) (rows : List UsageEvent) {first : UsageEvent}
    → Ascending lo rows
    → find p rows ≡ some first
    → first.billed_uses ≡ d
    → set_billed first.id d rows ≡ rows
set_billed-same lo d p [] a h q = refl
set_billed-same lo d p (x ∷ rows) {first} a h q = elim (Bool-cases (p x)) [
  | inl t ↦
      let e : some x ≡ some first = rw t at h in
      let same : x ≡ first = cc e in
      subst (λ (f : UsageEvent). set_billed f.id d (x ∷ rows) ≡ x ∷ rows) same
        (at_head x rows a.1 (ap (λ (f : UsageEvent). f.billed_uses) same ∙ q))
  | inr f ↦
      let found : find p rows ≡ some first = rw f at h in
      let later = find-Ascending (suc x.id) p rows a.1 found in
      let other : (x.id == first.id) ≡ false = ground arith in
      rw other (ap (◌∷◌ x) (set_billed-same (suc x.id) d p rows a.1 found q))
]
  where
    at_head :
        (x : UsageEvent) (rows : List UsageEvent)
        → Ascending (suc x.id) rows
        → x.billed_uses ≡ d
        → set_billed x.id d (x ∷ rows) ≡ x ∷ rows
    at_head x rows a e =
        rw
          (
            ==_refl x.id,
            update_where_none (λ r. r.id == x.id) (λ r. record r { billed_uses = d }) rows
                (Ascending-ne (suc x.id) x.id rows (omega arith) a),
          )
          (λ i. record x { billed_uses = sym e i } ∷ rows)

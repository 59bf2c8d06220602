-- ===== src/Kernel/Migration/Partition/Climbing.antt =====
-- The walk up the parents comes to an end (src/kernel/plugin/storage/file/migrate.rs).
use mistake_agent.Prelude.{
  ℕ, suc, zero, ◌+◌, ◌≤◌, ◌≡◌, refl, Option, none, some, true, false, List, [], ◌∷◌, ◌==◌, ==_iff,
  if◌then◌else◌, any, arith, length, lookup, All, Bool-cases, inl, inr, sym, subst, sum_by,
}
use mistake_agent.Kernel.Migration.{Parents, Segments, flatten, climb}

-- The segments are those of the boundaries, and 0.
abbrev pub AreUpTo : ℕ → Segments → Type 0
AreUpTo n = All (λ e. e.1 ≤ n)

pub lookup-AreUpTo :
    (n k : ℕ) (m : Segments) {s : ℕ} → AreUpTo n m → lookup ◌==◌ k m ≡ some s → s ≤ n
lookup-AreUpTo n k [] h e = absurd (cc e)
lookup-AreUpTo n k (x ∷ m) {s} (h, hs) e = elim (Bool-cases (x.0 == k)) [
  | inl t ↦
      let q : some x.1 ≡ some s = rw t at e in
      let value : x.1 ≡ s = cc q in subst (λ v. v ≤ n) value h
  | inr f ↦ lookup-AreUpTo n k m hs (rw f at e)
]

-- The messages that the walk has not come to.
abbrev pub unseen : List ℕ → Parents → ℕ
unseen seen parents = sum_by (λ e. if any (λ q. q == e.0) seen then 0 else 1) parents

pub unseen-start : (parents : Parents) → unseen [] parents ≤ length parents
unseen-start [] = omega arith
unseen-start (e ∷ parents) = omega (arith, unseen-start parents)

unseen-more :
    (p : ℕ) (seen : List ℕ) (parents : Parents) → unseen (p ∷ seen) parents ≤ unseen seen parents
unseen-more p seen [] = omega arith
unseen-more p seen (e ∷ parents) = ground (arith, unseen-more p seen parents)

unseen-less :
    (p : ℕ) (seen : List ℕ) (parents : Parents) {o : Option ℕ}
    → any (λ q. q == p) seen ≡ false
    → lookup ◌==◌ p parents ≡ some o
    → suc (unseen (p ∷ seen) parents) ≤ unseen seen parents
unseen-less p seen [] new h = absurd (cc h)
unseen-less p seen (e ∷ parents) new h = elim (Bool-cases (e.0 == p)) [
  | inl t ↦
      let same : e.0 ≡ p = (==_iff e.0 p).0 t in
      let here : (p == e.0) ≡ true = (==_iff p e.0).1 (sym same) in
      let fresh : any (λ q. q == e.0) seen ≡ false =
        subst (λ k. any (λ q. q == k) seen ≡ false) (sym same) new in
      rw (here, fresh) (omega (arith, unseen-more p seen parents))
  | inr f ↦ ground (arith, unseen-less p seen parents new (rw f at h))
]

climb-none :
    (fuel : ℕ) (parents : Parents) (segments : Segments) (seen : List ℕ)
    → 1 ≤ fuel
    → climb fuel parents segments seen none ≡ some 0
unfolding climb
climb-none zero parents segments seen h = absurd (omega arith)
climb-none (suc fuel) parents segments seen h = refl

-- The fuel is enough: each round but the last two comes to one of the messages for the first time.
pub climb-answers :
    (n fuel : ℕ) (parents : Parents) (segments : Segments) (seen : List ℕ) (cur : Option ℕ)
    → AreUpTo n segments
    → unseen seen parents + 2 ≤ fuel
    → (s : ℕ) × (climb fuel parents segments seen cur ≡ some s) × (s ≤ n)
unfolding climb
climb-answers n zero parents segments seen cur h enough = absurd (omega arith)
climb-answers n (suc fuel) parents segments seen none h enough = (0, refl, omega arith)
climb-answers n (suc fuel) parents segments seen (some p) h enough =
    elim (Bool-cases (any (λ q. q == p) seen)) [
      | inl t ↦ (0, rw t refl, omega arith)
      | inr f ↦
          by_segment (λ cur enough. climb-answers n fuel parents segments (p ∷ seen) cur h enough)
            (lookup ◌==◌ p segments) refl f
    ]
  where
    by_parent :
        ((cur : Option ℕ)
          → unseen (p ∷ seen) parents + 2 ≤ fuel
          → (s : ℕ) × (climb fuel parents segments (p ∷ seen) cur ≡ some s) × (s ≤ n))
        → (o : Option (Option ℕ)) → lookup ◌==◌ p parents ≡ o
        → any (λ q. q == p) seen ≡ false
        → (s : ℕ) × (climb fuel parents segments (p ∷ seen) (flatten o) ≡ some s) × (s ≤ n)
    by_parent further none e f =
        (0, climb-none fuel parents segments (p ∷ seen) (omega arith), omega arith)
    by_parent further (some cur) e f = further cur (omega (arith, unseen-less p seen parents f e))

    by_segment :
        ((cur : Option ℕ)
          → unseen (p ∷ seen) parents + 2 ≤ fuel
          → (s : ℕ) × (climb fuel parents segments (p ∷ seen) cur ≡ some s) × (s ≤ n))
        → (o : Option ℕ) → lookup ◌==◌ p segments ≡ o
        → any (λ q. q == p) seen ≡ false
        → (s : ℕ) × (climb (suc fuel) parents segments seen (some p) ≡ some s) × (s ≤ n)
    by_segment further (some s) e f = (s, rw (f, e) refl, lookup-AreUpTo n p segments h e)
    by_segment further none e f =
        let (s, answer, bound) = by_parent further (lookup ◌==◌ p parents) refl f in
        (s, rw (f, e) answer, bound)

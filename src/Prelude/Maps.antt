-- ===== src/Prelude/Maps.antt =====
-- `HashMap` as a list of entries with different keys; `same` is the equality of keys.
use mathlib.Core.Logic.{◌↔◌, inl, inr}
use mathlib.Core.Path.{◌≡◌, refl, subst, ap, sym}
use mathlib.Core.Bool.{Bool, true, false, not}
use mathlib.Core.Option.{Option, none, some}
use mathlib.Core.List.{List, [], ◌∷◌}
use mistake_agent.Prelude.Tests.{if◌then◌else◌, Bool-cases}
use mistake_agent.Prelude.Lists.{retain, All-retain, any, update_where, All}

apart {ℓ} :
    {K : Type ℓ} (same : K → K → Bool)
    → ((x y : K) → (same x y ≡ true) ↔ (x ≡ y))
    → (x k j : K) → same x j ≡ true
    → same j k ≡ false
    → same x k ≡ false
apart same lawful x k j t d = subst (λ y. same y k ≡ false) (sym ((lawful x j).0 t)) d

module _ {ℓ κ} {K : Type ℓ} {V : Type κ} (same : K → K → Bool) where
  abbrev pub lookup : K → List (K × V) → Option V
  lookup k [] = none
  lookup k (e ∷ m) = if same e.0 k then some e.1 else lookup k m

  abbrev pub remove : K → List (K × V) → List (K × V)
  remove k m = retain (λ e. not (same e.0 k)) m

  abbrev pub put : K → V → List (K × V) → List (K × V)
  put k v m = (k, v) ∷ remove k m

  pub lookup-retain :
      (p : V → Bool) (k : K) (m : List (K × V)) {v : V}
      → lookup k m ≡ some v
      → p v ≡ true
      → lookup k (retain (λ e. p e.1) m) ≡ some v
  lookup-retain p k [] h t = absurd (cc h)
  lookup-retain p k (e ∷ m) {v = v} h t = elim (Bool-cases (same e.0 k)) [
    | inl here ↦
        let q : some e.1 ≡ some v = rw here at h in
        let value : e.1 ≡ v = cc q in rw (value, t, here) refl
    | inr away ↦
        let q : lookup k m ≡ some v = rw away at h in
        elim (Bool-cases (p e.1)) [
          | inl kept ↦ rw (kept, away) (lookup-retain p k m q t)
          | inr dropped ↦ rw dropped (lookup-retain p k m q t)
        ]
  ]

  abbrev pub change_at : K → (V → V) → List (K × V) → List (K × V)
  change_at k f m = update_where (λ e. same e.0 k) (λ e. (e.0, f e.1)) m

  abbrev pub map_some : (V → V) → Option V → Option V
  map_some f none = none
  map_some f (some v) = some (f v)

  pub lookup-change_at :
      (k : K) (f : V → V) (m : List (K × V)) → lookup k (change_at k f m) ≡ map_some f (lookup k m)
  lookup-change_at k f [] = refl
  lookup-change_at k f (e ∷ m) = elim (Bool-cases (same e.0 k)) [
    | inl t ↦ rw (t, t) refl
    | inr n ↦ rw (n, n) (lookup-change_at k f m)
  ]

  pub lookup-any :
      (k : K) (m : List (K × V)) → any (λ e. same e.0 k) m ≡ true → (v : V) × (lookup k m ≡ some v)
  lookup-any k [] h = absurd (cc h)
  lookup-any k (e ∷ m) h = elim (Bool-cases (same e.0 k)) [
    | inl t ↦ (e.1, rw t refl)
    | inr n ↦ let (v, q) = lookup-any k m (rw n at h) in (v, rw n q)
  ]

  pub lookup-any-none :
      (k : K) (m : List (K × V)) → any (λ e. same e.0 k) m ≡ false → lookup k m ≡ none
  lookup-any-none k [] h = refl
  lookup-any-none k (e ∷ m) h = elim (Bool-cases (same e.0 k)) [
    | inl t ↦ absurd (cc (rw t at h))
    | inr n ↦ rw n (lookup-any-none k m (rw n at h))
  ]

  pub remove-absent : (k : K) (m : List (K × V)) → any (λ e. same e.0 k) m ≡ false → remove k m ≡ m
  remove-absent k [] h = refl
  remove-absent k (e ∷ m) h = elim (Bool-cases (same e.0 k)) [
    | inl t ↦ absurd (cc (rw t at h))
    | inr n ↦ rw n (ap (◌∷◌ e) (remove-absent k m (rw n at h)))
  ]

  pub All-remove {ι} :
      (P : K × V → Type ι) (k : K) (m : List (K × V)) → All P m → All P (remove k m)
  All-remove P k m h = All-retain P (λ e. not (same e.0 k)) m h

  pub All-put {ι} :
      (P : K × V → Type ι) (k : K) (v : V) (m : List (K × V))
      → P (k, v)
      → All P m
      → All P (put k v m)
  All-put P k v m p h = (p, All-remove P k m h)

  -- What the members under the other keys have, all that are left have.
  pub All-remove_other {ι ν} :
      (P : K × V → Type ι) (Q : K × V → Type ν) (k : K)
      → ((e : K × V) → same e.0 k ≡ false → P e → Q e)
      → (m : List (K × V)) → All P m
      → All Q (remove k m)
  All-remove_other P Q k f [] h = tt
  All-remove_other P Q k f (e ∷ m) (p, h) = elim (Bool-cases (same e.0 k)) [
    | inl t ↦ rw t (All-remove_other P Q k f m h)
    | inr n ↦ rw n (f e n p, All-remove_other P Q k f m h)
  ]

  module _ (lawful : (x y : K) → (same x y ≡ true) ↔ (x ≡ y)) where
    pub lookup-remove : (k : K) (m : List (K × V)) → lookup k (remove k m) ≡ none
    lookup-remove k [] = refl
    lookup-remove k (e ∷ m) = elim (Bool-cases (same e.0 k)) [
      | inl t ↦ rw t (lookup-remove k m)
      | inr f ↦ rw (f, f) (lookup-remove k m)
    ]

    pub lookup-remove_other :
        (k j : K) (m : List (K × V)) → same j k ≡ false → lookup k (remove j m) ≡ lookup k m
    lookup-remove_other k j [] d = refl
    lookup-remove_other k j (e ∷ m) d = elim (Bool-cases (same e.0 j)) [
      | inl t ↦ rw (t, apart same lawful e.0 k j t d) (lookup-remove_other k j m d)
      | inr f ↦ rw f (ap (λ r. if same e.0 k then some e.1 else r) (lookup-remove_other k j m d))
    ]

    pub lookup-change_at_other :
        (k j : K) (f : V → V) (m : List (K × V))
        → same j k ≡ false
        → lookup k (change_at j f m) ≡ lookup k m
    lookup-change_at_other k j f [] d = refl
    lookup-change_at_other k j f (e ∷ m) d = elim (Bool-cases (same e.0 j)) [
      | inl t ↦ rw (t, apart same lawful e.0 k j t d) (lookup-change_at_other k j f m d)
      | inr n ↦
          rw n (ap (λ r. if same e.0 k then some e.1 else r) (lookup-change_at_other k j f m d))
    ]

    pub lookup-put_other :
        (k j : K) (v : V) (m : List (K × V)) → same j k ≡ false → lookup k (put j v m) ≡ lookup k m
    lookup-put_other k j v m d = rw d (lookup-remove_other k j m d)

    pub lookup-put : (k : K) (v : V) (m : List (K × V)) → lookup k (put k v m) ≡ some v
    lookup-put k v m = rw ((lawful k k).1 refl)

-- ===== src/Prelude/Lists.antt =====
-- Lists under Boolean tests.
use Prim.Native.Nat.{ℕ, suc, ◌+◌, ◌≤◌}
use mathlib.Core.Logic.{◌⊎◌, inl, inr}
use mathlib.Core.Path.{◌≡◌, refl, subst, ap}
use mathlib.Core.Bool.{Bool, true, false, ◌||◌}
use mathlib.Core.Option.{Option, none, some}
use mathlib.Core.List.{List, [], ◌∷◌, ◌++◌}
use native.Mathlib.Omega.{arith}
use mistake_agent.Prelude.Tests.{if◌then◌else◌, Bool-cases}

module _ {ℓ} {A : Type ℓ} where
  abbrev pub length : List A → ℕ
  length [] = 0
  length (x ∷ xs) = suc (length xs)

  pub length-append : (xs ys : List A) → length (xs ++ ys) ≡ length xs + length ys
  length-append [] ys = omega arith
  length-append (x ∷ xs) ys = omega (arith, length-append xs ys)

  -- The rows for which a predicate holds, all of them.
  abbrev pub All {κ} : (A → Type κ) → List A → Type κ
  All P [] = Unit
  All P (x ∷ xs) = P x × All P xs

  pub All-append {κ} : (P : A → Type κ) (xs ys : List A) → All P xs → All P ys → All P (xs ++ ys)
  All-append P [] ys h k = k
  All-append P (x ∷ xs) ys h k = (h.0, All-append P xs ys h.1 k)

  pub All-map {κ κ'} :
      (P : A → Type κ) (Q : A → Type κ') (xs : List A) → ((x : A) → P x → Q x) → All P xs → All Q xs
  All-map P Q [] f h = tt
  All-map P Q (x ∷ xs) f h = (f x h.0, All-map P Q xs f h.1)

  -- Some row for which a predicate holds.
  abbrev pub Exists : (A → Type 0) → List A → Type 0
  Exists P [] = ⊥
  Exists P (x ∷ xs) = P x ⊎ Exists P xs

  pub Exists-map :
      (P : A → Type 0) (Q : A → Type 0) (xs : List A)
      → ((x : A) → P x → Q x)
      → Exists P xs
      → Exists Q xs
  Exists-map P Q [] f h = absurd h
  Exists-map P Q (x ∷ xs) f (inl h) = inl (f x h)
  Exists-map P Q (x ∷ xs) f (inr h) = inr (Exists-map P Q xs f h)

  -- `iter().any`.
  abbrev pub any : (A → Bool) → List A → Bool
  any p [] = false
  any p (x ∷ xs) = p x || any p xs

  -- `iter().find`.
  abbrev pub find : (A → Bool) → List A → Option A
  find p [] = none
  find p (x ∷ xs) = if p x then some x else find p xs

  -- `retain`, or `WHERE` over a table.
  abbrev pub retain : (A → Bool) → List A → List A
  retain p [] = []
  retain p (x ∷ xs) = if p x then x ∷ retain p xs else retain p xs

  -- `UPDATE … SET … WHERE`, or a loop over `iter_mut()`.
  abbrev pub update_where : (A → Bool) → (A → A) → List A → List A
  update_where p f [] = []
  update_where p f (x ∷ xs) = (if p x then f x else x) ∷ update_where p f xs

  -- `SUM(f)`.
  abbrev pub sum_by : (A → ℕ) → List A → ℕ
  sum_by f [] = 0
  sum_by f (x ∷ xs) = f x + sum_by f xs

  pub sum_by-append : (f : A → ℕ) (xs ys : List A) → sum_by f (xs ++ ys) ≡ sum_by f xs + sum_by f ys
  sum_by-append f [] ys = omega arith
  sum_by-append f (x ∷ xs) ys = omega (arith, sum_by-append f xs ys)

  pub retain-append :
      (p : A → Bool) (xs ys : List A) → retain p (xs ++ ys) ≡ retain p xs ++ retain p ys
  retain-append p [] ys = refl
  retain-append p (x ∷ xs) ys = elim (Bool-cases (p x)) [
    | inl h ↦ rw (h, retain-append p xs ys)
    | inr h ↦ rw (h, retain-append p xs ys)
  ]

  pub length-retain-le : (p : A → Bool) (xs : List A) → length (retain p xs) ≤ length xs
  length-retain-le p [] = omega arith
  length-retain-le p (x ∷ xs) = ground (arith, length-retain-le p xs)

  pub find-some : (p : A → Bool) (xs : List A) {x : A} → find p xs ≡ some x → p x ≡ true
  find-some p [] h = cc
  find-some p (y ∷ xs) {x} h = elim (Bool-cases (p y)) [
    | inl t ↦ ground arith
    | inr f ↦ find-some p xs (rw f at h)
  ]

  pub All-find {κ} :
      (P : A → Type κ) (p : A → Bool) (xs : List A) {x : A} → All P xs → find p xs ≡ some x → P x
  All-find P p [] a h = absurd (cc)
  All-find P p (y ∷ xs) {x} a h = elim (Bool-cases (p y)) [
    | inl t ↦ (let e : some y ≡ some x = rw t at h in let e' : y ≡ x = cc in subst P e' a.0)
    | inr f ↦ All-find P p xs a.1 (rw f at h)
  ]

  pub All-update_where {κ} :
      (P : A → Type κ) (p : A → Bool) (f : A → A) (xs : List A)
      → ((x : A) → P x → P (f x))
      → All P xs
      → All P (update_where p f xs)
  All-update_where P p f [] keep h = tt
  All-update_where P p f (x ∷ xs) keep h = (head_keeps (p x), All-update_where P p f xs keep h.1)
    where
      head_keeps : (b : Bool) → P (if b then f x else x)
      head_keeps true = keep x h.0
      head_keeps false = h.0

  pub All-retain {κ} :
      (P : A → Type κ) (p : A → Bool) (xs : List A) → All P xs → All P (retain p xs)
  All-retain P p [] h = tt
  All-retain P p (x ∷ xs) h = elim (Bool-cases (p x)) [
    | inl t ↦ rw t (h.0, All-retain P p xs h.1)
    | inr f ↦ rw f (All-retain P p xs h.1)
  ]

  pub find-none : (p : A → Bool) (xs : List A) → All (λ x. p x ≡ false) xs → find p xs ≡ none
  find-none p [] h = refl
  find-none p (x ∷ xs) h = rw h.0 (find-none p xs h.1)

  -- The first row that is kept is the one that is found.
  pub find-retain :
      (p : A → Bool) (xs : List A) {x : A} {rest : List A}
      → retain p xs ≡ x ∷ rest
      → find p xs ≡ some x
  find-retain p [] h = absurd (cc h)
  find-retain p (y ∷ xs) {x} {rest} h = elim (Bool-cases (p y)) [
    | inl t ↦
        let e : y ∷ retain p xs ≡ x ∷ rest = rw t at h in
        let same : y ≡ x = cc e in rw t (ap some same)
    | inr f ↦ rw f (find-retain p xs (rw f at h))
  ]

-- ===== src/Prelude/Updates.antt =====
-- What an update of the rows of a list keeps.
use Prim.Native.Nat.{ℕ, ◌≤◌}
use mathlib.Core.Logic.{inl, inr}
use mathlib.Core.Path.{◌≡◌, refl, subst, ap, sym}
use mathlib.Core.Bool.{Bool, true, false, ◌||◌}
use mathlib.Core.Option.{some}
use mathlib.Core.List.{List, [], ◌∷◌}
use native.Mathlib.Omega.{arith}
use mistake_agent.Prelude.Tests.{if◌then◌else◌, Bool-cases}
use mistake_agent.Prelude.Lists.{All, any, find, retain, update_where, sum_by}

module _ {ℓ} {A : Type ℓ} where
  pub update_where_none :
      (p : A → Bool) (f : A → A) (xs : List A)
      → All (λ x. p x ≡ false) xs
      → update_where p f xs ≡ xs
  update_where_none p f [] h = refl
  update_where_none p f (x ∷ xs) h = rw h.0 (ap (◌∷◌ x) (update_where_none p f xs h.1))

  -- Two updates that commute on each row commute on the table.
  pub update_where_comm :
      (p q : A → Bool) (f g : A → A)
      → ((x : A)
          → (if q (if p x then f x else x)
              then g (if p x then f x else x)
              else if p x
              then f x
              else x)
            ≡ (if p (if q x then g x else x)
                then f (if q x then g x else x)
                else if q x
                then g x
                else x))
      → (xs : List A)
      → update_where q g (update_where p f xs) ≡ update_where p f (update_where q g xs)
  update_where_comm p q f g h [] = refl
  update_where_comm p q f g h (x ∷ xs) = λ i. h x i ∷ update_where_comm p q f g h xs i

  -- So do two updates that touch different columns, neither of which moves rows in or out of the
  -- other's selection.
  pub update_where_swap :
      (p q : A → Bool) (f g : A → A)
      → ((x : A) → q (f x) ≡ q x)
      → ((x : A) → p (g x) ≡ p x)
      → ((x : A) → g (f x) ≡ f (g x))
      → (xs : List A)
      → update_where q g (update_where p f xs) ≡ update_where p f (update_where q g xs)
  update_where_swap p q f g hq hp h = update_where_comm p q f g (λ x. elim (Bool-cases (p x)) [
    | inl s ↦ elim (Bool-cases (q x)) [
      | inl t ↦ rw (s, t, hq x, t, hp x, s) (h x)
      | inr t ↦ rw (s, t, hq x, t, s)
    ]
    | inr s ↦ elim (Bool-cases (q x)) [ inl t ↦ rw (s, t, hp x, s) | inr t ↦ rw (s, t, s) ]
  ])

  pub sum_by-update_where_le :
      (m : A → ℕ) (p : A → Bool) (f : A → A)
      → ((x : A) → m (f x) ≤ m x)
      → (xs : List A) → sum_by m (update_where p f xs) ≤ sum_by m xs
  sum_by-update_where_le m p f h [] = omega arith
  sum_by-update_where_le m p f h (x ∷ xs) = ground (arith, h x, sum_by-update_where_le m p f h xs)

  pub sum_by-update_where_eq :
      (m : A → ℕ) (p : A → Bool) (f : A → A)
      → ((x : A) → m (f x) ≡ m x)
      → (xs : List A) → sum_by m (update_where p f xs) ≡ sum_by m xs
  sum_by-update_where_eq m p f h [] = omega arith
  sum_by-update_where_eq m p f h (x ∷ xs) = ground (arith, h x, sum_by-update_where_eq m p f h xs)

  -- A property of each row before an update gives one of each row after it.
  pub All-updated {κ ι} :
      (P : A → Type κ) (Q : A → Type ι) (p : A → Bool) (f : A → A) (xs : List A)
      → ((x : A) → P x → Q (if p x then f x else x))
      → All P xs
      → All Q (update_where p f xs)
  All-updated P Q p f [] h a = tt
  All-updated P Q p f (x ∷ xs) h a = (h x a.0, All-updated P Q p f xs h a.1)

  -- Updates that do not move rows in or out of a selection commute with it.
  pub retain-update_where :
      (p q : A → Bool) (f : A → A)
      → ((x : A) → p (if q x then f x else x) ≡ p x)
      → (xs : List A) → retain p (update_where q f xs) ≡ update_where q f (retain p xs)
  retain-update_where p q f keep [] = refl
  retain-update_where p q f keep (x ∷ xs) = elim (Bool-cases (p x)) [
    | inl t ↦ rw (keep x, t) (ap (◌∷◌ (if q x then f x else x)) (retain-update_where p q f keep xs))
    | inr e ↦ rw (keep x, e) (retain-update_where p q f keep xs)
  ]

  pub find-update_where :
      (p q : A → Bool) (f : A → A)
      → ((x : A) → p (if q x then f x else x) ≡ p x)
      → (xs : List A) {x : A} → find p xs ≡ some x
      → find p (update_where q f xs) ≡ some (if q x then f x else x)
  find-update_where p q f keep [] h = absurd (cc h)
  find-update_where p q f keep (y ∷ xs) {x} h = elim (Bool-cases (p y)) [
    | inl t ↦
        let e : some y ≡ some x = rw t at h in
        let same : y ≡ x = cc e in rw (keep y, t) (ap (λ z. some (if q z then f z else z)) same)
    | inr n ↦ rw (keep y, n) (find-update_where p q f keep xs (rw n at h))
  ]

  pub any-retain :
      (p q s : A → Bool) (xs : List A) {x : A}
      → find p xs ≡ some x
      → q x ≡ true
      → s x ≡ true
      → any s (retain q xs) ≡ true
  any-retain p q s [] h a b = absurd (cc h)
  any-retain p q s (y ∷ xs) {x} h a b = elim (Bool-cases (p y)) [
    | inl t ↦
        let e : some y ≡ some x = rw t at h in
        let same : y ≡ x = cc e in
        let a' : q y ≡ true = subst (λ z. q z ≡ true) (sym same) a in
        let b' : s y ≡ true = subst (λ z. s z ≡ true) (sym same) b in rw a' (rw b')
    | inr n ↦
        let rest = any-retain p q s xs (rw n at h) a b in
        elim (Bool-cases (q y)) [ inl k ↦ rw k (rw rest (or_true (s y))) | inr k ↦ rw k rest ]
  ]
    where
      or_true : (c : Bool) → (c || true) ≡ true
      or_true true = refl
      or_true false = refl

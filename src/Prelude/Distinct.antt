-- ===== src/Prelude/Distinct.antt =====
-- Lists whose members are all different, under a Boolean test `same`.
use Prim.Native.Nat.{ℕ, ◌+◌, ◌≤◌}
use mathlib.Core.Logic.{◌↔◌, inl, inr}
use mathlib.Core.Path.{◌≡◌, refl, sym, subst}
use mathlib.Core.Bool.{Bool, true, false}
use mathlib.Core.List.{List, [], ◌∷◌, ◌++◌}
use native.Mathlib.Omega.{arith}
use mistake_agent.Prelude.Tests.{if◌then◌else◌, Bool-cases}
use mistake_agent.Prelude.Lists.{any}

module _ {ℓ} {A : Type ℓ} (same : A → A → Bool) where
  abbrev pub count : A → List A → ℕ
  count x [] = 0
  count x (y ∷ l) = (if same x y then 1 else 0) + count x l

  abbrev pub IsDistinct : List A → Type ℓ
  IsDistinct l = (x : A) → count x l ≤ 1

  pub count-append : (x : A) (l m : List A) → count x (l ++ m) ≡ count x l + count x m
  count-append x [] m = omega arith
  count-append x (y ∷ l) m = omega (arith, count-append x l m)

  pub count-none : (x : A) (l : List A) → any (same x) l ≡ false → count x l ≡ 0
  count-none x [] h = refl
  count-none x (y ∷ l) h = elim (Bool-cases (same x y)) [
    | inl t ↦ absurd (cc (rw t at h))
    | inr n ↦ rw n (omega (arith, count-none x l (rw n at h)))
  ]

  module _ (lawful : (x y : A) → (same x y ≡ true) ↔ (x ≡ y)) where
    -- A member that is not there yet is put in front.
    pub IsDistinct-insert :
        (x : A) (l : List A) → any (same x) l ≡ false → IsDistinct l → IsDistinct (x ∷ l)
    IsDistinct-insert x l fresh distinct y = elim (Bool-cases (same y x)) [
      | inl t ↦
          let zero : count y l ≡ 0 =
            subst (λ z. count z l ≡ 0) (sym ((lawful y x).0 t)) (count-none x l fresh) in
          rw (t, zero) (omega arith)
      | inr n ↦ rw n (omega (arith, distinct y))
    ]

  -- The place of a member does not matter.
  pub IsDistinct-move :
      (x : A) (l m : List A) → IsDistinct (l ++ (x ∷ m)) → IsDistinct (x ∷ (l ++ m))
  IsDistinct-move x l m h y = omega (arith, h y, count-append y l (x ∷ m), count-append y l m)

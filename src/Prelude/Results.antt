-- ===== src/Prelude/Results.antt =====
-- `Result<A, E>`; a do block is a chain of `?`.
use mathlib.Core.Path.{◌≡◌, refl}

pub data Result {e a} (E : Type e) (A : Type a) : Type (e ⊔ a) where
  err : E → Result E A
  ok : A → Result E A

infixl 5 ◌>>=◌
abbrev pub ◌>>=◌ {e a b} :
    {E : Type e} {A : Type a} {B : Type b} → Result E A → (A → Result E B) → Result E B
first >>= next = elim first [ err failure ↦ err failure | ok value ↦ next value ]

-- Where the chain succeeds, each of its two parts does.
pub >>=-eq-ok {e a b} :
    {E : Type e} {A : Type a} {B : Type b} (first : Result E A) (next : A → Result E B) {y : B}
    → (first >>= next) ≡ ok y
    → (x : A) × (first ≡ ok x) × (next x ≡ ok y)
>>=-eq-ok (err failure) next q = cc
>>=-eq-ok (ok x) next q = (x, refl, q)

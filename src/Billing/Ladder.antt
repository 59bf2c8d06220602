-- ===== src/Billing/Ladder.antt =====
-- server/src/billing/ladder.rs: how many uses a number of tokens costs.
-- Integers are natural numbers; the saturating u64 and u32 operations are written out.
use mistake_agent.Prelude.{
  ℕ, ◌+◌, ◌≤◌, ◌<◌, ◌≡◌, refl, min, Option, none, some, List, [], ◌∷◌, ◌++◌, arith, ltb,
  if◌then◌else◌, length, All,
}

abbrev pub u32_max : ℕ
u32_max = 4294967295

abbrev pub u64_max : ℕ
u64_max = 18446744073709551615

-- `u64::saturating_add`.
abbrev pub saturating_add_u64 : ℕ → ℕ → ℕ
saturating_add_u64 a b = min (a + b) u64_max

-- `u32::saturating_add`.
abbrev pub saturating_add_u32 : ℕ → ℕ → ℕ
saturating_add_u32 a b = min (a + b) u32_max

-- `u32::try_from(n).unwrap_or(u32::MAX)`.
abbrev pub to_u32 : ℕ → ℕ
to_u32 n = min n u32_max

abbrev pub unwrap_or_zero : Option ℕ → ℕ
unwrap_or_zero none = 0
unwrap_or_zero (some n) = n

unfoldable pub total_tokens : Option ℕ → Option ℕ → ℕ
total_tokens input_tokens output_tokens =
    saturating_add_u64 (unwrap_or_zero input_tokens) (unwrap_or_zero output_tokens)

-- `.filter(|&&threshold| total_tokens > threshold).count()`.
unfoldable pub crossed : ℕ → List ℕ → ℕ
crossed total [] = 0
crossed total (threshold ∷ ladder) = (if ltb threshold total then 1 else 0) + crossed total ladder

unfoldable pub billed_uses : ℕ → List ℕ → ℕ
billed_uses total ladder = saturating_add_u32 (to_u32 (crossed total ladder)) 1

pub crossed-le-length : (total : ℕ) (ladder : List ℕ) → crossed total ladder ≤ length ladder
unfolding crossed
crossed-le-length total [] = omega arith
crossed-le-length total (t ∷ ladder) = ground (arith, crossed-le-length total ladder)

crossed_mono : (a b : ℕ) (ladder : List ℕ) → a ≤ b → crossed a ladder ≤ crossed b ladder
unfolding crossed
crossed_mono a b [] h = omega arith
crossed_mono a b (t ∷ ladder) h = ground (arith, crossed_mono a b ladder h)

crossed-append :
    (total : ℕ) (xs ys : List ℕ) → crossed total (xs ++ ys) ≡ crossed total xs + crossed total ys
unfolding crossed
crossed-append total [] ys = omega arith
crossed-append total (t ∷ xs) ys = omega (arith, crossed-append total xs ys)

crossed-All : (total : ℕ) (xs : List ℕ) → All (λ t. t < total) xs → crossed total xs ≡ length xs
unfolding crossed
crossed-All total [] h = refl
crossed-All total (t ∷ xs) h = ground (arith, crossed-All total xs h.1)

crossed_none : (total : ℕ) (xs : List ℕ) → All (λ t. total ≤ t) xs → crossed total xs ≡ 0
unfolding crossed
crossed_none total [] h = refl
crossed_none total (t ∷ xs) h = ground (arith, crossed_none total xs h.1)

-- More tokens never cost fewer uses; the cost is at least one use, and at most one more than the
-- ladder has rungs.
pub billed_uses_mono :
    (a b : ℕ) (ladder : List ℕ)
    → a ≤ b
    → (1 ≤ billed_uses a ladder)
      × (billed_uses a ladder ≤ billed_uses b ladder)
      × (billed_uses b ladder ≤ length ladder + 1)
unfolding billed_uses
billed_uses_mono a b ladder h =
    let below = crossed_mono a b ladder h in
    let most = crossed-le-length b ladder in (omega arith, omega arith, omega arith)

-- Where the total lies above the rungs `lo` and at most at the rungs `hi`, the request costs one
-- use and one more for each rung of `lo` (a rung itself still belongs to the cheaper tier), as
-- long as the ladder is short of the u32 range.
pub billed_uses_tier :
    (total : ℕ) (lo hi : List ℕ)
    → All (λ t. t < total) lo
    → All (λ t. total ≤ t) hi
    → length lo < u32_max
    → billed_uses total (lo ++ hi) ≡ length lo + 1
unfolding billed_uses
billed_uses_tier total lo hi below above short =
    omega
      (arith, crossed-append total lo hi, crossed-All total lo below, crossed_none total hi above)

-- ===== src/Common/Rounding.antt =====
-- Python's `round(x, 2)` on a quotient of whole hundredths: the nearest hundredth. At an exact
-- half the binary representation of the float decides, which `up` stands for.
use Prim.Native.Nat.{ℕ, ◌+◌, ◌-◌, ◌*◌, ◌/◌, ◌%◌, ◌<◌, ◌≤◌}
use mathlib.Core.Path.{◌≡◌}
use mathlib.Core.Bool.{Bool, true, false}
use native.Mathlib.Omega.{arith}
use native.Mathlib.Decide.{dec_lt}
use native.Mathlib.Nat.{mul-le-mul, le_refl, div-add-mod', mod-lt}
use upstox_gtt.Common.Tests.{ltb, if◌then◌else◌}
use upstox_gtt.Common.Int.{ℤ, pos, negsuc, pos_part, neg_part, ◌+ℤ◌, ◌≤ℤ◌}

-- The quotient rounded down, and what is left.
abbrev pub floor_div : ℤ → ℕ → ℤ
floor_div (pos n) d = pos (n / d)
floor_div (negsuc n) d = negsuc (n / d)

abbrev pub floor_rem : ℤ → ℕ → ℕ
floor_rem (pos n) d = n % d
floor_rem (negsuc n) d = d - 1 - n % d

abbrev pub round_up_by : Bool → ℤ → ℤ
round_up_by false q = q
round_up_by true q = q +ℤ pos 1

unfoldable pub round_div : Bool → ℤ → ℕ → ℤ
round_div up num den =
    round_up_by
      (if ltb (2 * floor_rem num den) den
        then false
        else if ltb den (2 * floor_rem num den)
        then true
        else up)
      (floor_div num den)

-- The mean of two prices, rounded, lies between them.
pub round_div_between :
    (up : Bool) (a b s : ℤ)
    → pos_part s + neg_part a + neg_part b ≡ neg_part s + pos_part a + pos_part b
    → a ≤ℤ b
    → (a ≤ℤ round_div up s 2) × (round_div up s 2 ≤ℤ b)
unfolding round_div ◌+ℤ◌
round_div_between up a b (pos n) h k = ground arith
round_div_between up a b (negsuc n) h k = ground arith

-- A factor is below another if their products with one number are.
lt_of_mul-lt : (a b d : ℕ) → a * d < b * d → a < b
lt_of_mul-lt a b d h = elim (dec_lt a b) [
  | yes p ↦ p
  | no p ↦
      let q : b ≤ a = omega arith in
      let m : b * d ≤ a * d = mul-le-mul q (le_refl d) in absurd (omega arith)
]

-- A quotient that lies between two whole numbers is rounded to a number between them.
pub round_div_bounds :
    (up : Bool) (n d lo hi : ℕ)
    → 0 < d
    → lo * d ≤ n
    → n ≤ hi * d
    → (pos lo ≤ℤ round_div up (pos n) d) × (round_div up (pos n) d ≤ℤ pos hi)
unfolding round_div ◌+ℤ◌
round_div_bounds up n d lo hi some_ below above =
    let whole : n / d * d + n % d ≡ n = div-add-mod' n d in
    let small : n % d < d = mod-lt n some_ in
    let over : lo * d < (n / d + 1) * d = omega arith in
    let low : lo < n / d + 1 = lt_of_mul-lt lo (n / d + 1) d over in
    ground (arith, lt_of_mul-lt (n / d) hi d, lt_of_mul-lt (n / d) (hi + 1) d)

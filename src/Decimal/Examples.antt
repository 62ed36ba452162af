-- ===== src/Decimal/Examples.antt =====
-- The tests of decimal.rs on small values, and its theorems at concrete inputs.
use Prim.Native.Nat.{max}
use mathlib.Core.Bool.{xor}
use mlmforge.Prelude.{◌+◌, ◌*◌, ◌^◌, ◌<◌, ◌≡◌, refl, true, false, arith}
use mlmforge.Prelude.Int.{pos, negsuc, ◌*ℤ◌, ◌+ℤ◌, -ℤ◌, div_trunc}
use mlmforge.Prelude.Results.{ok, err}
use mlmforge.Decimal.{
  Decimal, fit, limit_96, try_add, try_sub, try_mul, wide_sum, with_error, overflow, precision,
}
use mlmforge.Decimal.NumericOp.{add, sub, mul}
use mlmforge.Prelude.{List, [], ◌∷◌, ◌-◌, ℕ, ◌≤◌}
use mlmforge.Decimal.{dec_one}
use mlmforge.Prelude.Int.{signed, abs}
use mlmforge.Decimal.Divide.{floor_div, floor_quotient, mul_div_trunc}
use mlmforge.Decimal.Divide.Truncated.{IsTruncated, mul_div_trunc-IsTruncated}
use mlmforge.Prelude.Int.{ℤ}
use mlmforge.Decimal.Divide.Floor.{IsFloor, floor_div-IsFloor}
use mlmforge.Decimal.Allocate.{
  allocate_largest_remainder, allocate_at, common_scale, at_common, allocate_units, fit_units,
  or_fail,
}
use mlmforge.Decimal.Allocate.Whole.{AreUnits, sum, allocate_largest_remainder-whole}
use mlmforge.Decimal.Exact.{InRange, IsValue, fit-exact, fit_complete}
use mlmforge.Decimal.Sums.{try_ops-fit}
use mlmforge.Decimal.Ratio.{round_quotient, round_ratio, round_dropping}
use mlmforge.Decimal.Ratio.Nearest.{IsRounded, round_quotient-IsRounded}

-- 3 and 0.5
abbrev three : Decimal
three = record { mantissa = pos 3; scale = 0 }

abbrev half : Decimal
half = record { mantissa = pos 5; scale = 1 }

sums :
    (try_add three half ≡ ok (record { mantissa = pos 35; scale = 1 }))
    × (try_sub half three ≡ ok (record { mantissa = negsuc 24; scale = 1 }))
    × (try_mul three half ≡ ok (record { mantissa = pos 15; scale = 1 }))
unfolding try_add try_sub try_mul limit_96 ◌*ℤ◌ ◌+ℤ◌ -ℤ◌ xor
sums = (refl, refl, refl)

-- A scale of 30 falls to 28 over two zeros, and does not over one.
fits :
    (fit (negsuc 499) 30 ≡ ok (record { mantissa = negsuc 4; scale = 28 }))
    × (fit (pos 50) 30 ≡ err precision)
unfolding fit limit_96 div_trunc xor
fits = (refl, refl)

limits : (fit (pos (2 ^ 96)) 0 ≡ err overflow) × (fit (pos (2 ^ 96 * 10)) 1 ≡ err overflow)
unfolding fit limit_96 div_trunc xor
limits = (refl, refl)

fit-exact_example :
    InRange (record { mantissa = negsuc 4; scale = 28 })
    × IsValue (negsuc 499) 30 (record { mantissa = negsuc 4; scale = 28 })
fit-exact_example = fit-exact (negsuc 499) 30 (record { mantissa = negsuc 4; scale = 28 }) fits.0

five_small : 5 < limit_96
unfolding limit_96
five_small = omega arith

-- 5.00 at scale 2 is also 5 at scale 0.
fit_complete_example : (e : Decimal) × (fit (pos 500) 2 ≡ ok e)
fit_complete_example =
    fit_complete (pos 500) 2 (record { mantissa = pos 5; scale = 0 }) (omega arith, five_small)
      (refl, omega arith)

try_ops-fit_example :
    (try_add three half ≡ with_error three add half (fit (wide_sum three half false) (max 0 1)))
    × (try_sub three half ≡ with_error three sub half (fit (wide_sum three half true) (max 0 1)))
    × (try_mul three half ≡ with_error three mul half (fit (pos 3 *ℤ pos 5) (0 + 1)))
try_ops-fit_example = try_ops-fit three half

-- -2.5 divided by 2 is -1.25, which rounds down to -2.
abbrev minus_two_half : Decimal
minus_two_half = record { mantissa = negsuc 24; scale = 1 }

abbrev two : Decimal
two = record { mantissa = pos 2; scale = 0 }

abbrev minus_two : Decimal
minus_two = record { mantissa = negsuc 1; scale = 0 }

floored : floor_div minus_two_half two ≡ ok (record { mantissa = negsuc 1; scale = 0 })
unfolding floor_div floor_quotient div_trunc ◌*ℤ◌ ◌+ℤ◌ xor fit limit_96 with_error
floored = refl

floor_div-IsFloor_example :
    (1 ≤ abs two.mantissa)
    × (minus_two.scale ≡ 0)
    × IsFloor (signed (xor true false) (25 * 10 ^ (0 - 1))) (2 * 10 ^ (1 - 0)) (negsuc 1)
floor_div-IsFloor_example = floor_div-IsFloor minus_two_half two minus_two floored

-- 1.00 in three equal parts of cents.
abbrev one_dollar : Decimal
one_dollar = record { mantissa = pos 100; scale = 2 }

abbrev cents : ℕ → Decimal
cents n = record { mantissa = pos n; scale = 2 }

abbrev thirds : List Decimal
thirds = dec_one ∷ dec_one ∷ dec_one ∷ []

abbrev parts : List Decimal
parts = cents 34 ∷ cents 33 ∷ cents 33 ∷ []

allocated : allocate_largest_remainder thirds one_dollar 2 ≡ ok parts
unfolding allocate_largest_remainder allocate_at common_scale at_common allocate_units fit_units
    or_fail fit limit_96
allocated = refl

allocate_largest_remainder-whole_example :
    (units : List ℕ) × AreUnits 2 units parts × (sum units * 10 ^ 2 ≡ 100 * 10 ^ 2)
allocate_largest_remainder-whole_example =
    allocate_largest_remainder-whole thirds one_dollar 2 parts allocated

-- -2.5 * 3 / 2 is -3.75, without its fraction -3.
abbrev minus_three : Decimal
minus_three = record { mantissa = negsuc 2; scale = 0 }

truncated : mul_div_trunc minus_two_half three two 0 ≡ ok minus_three
unfolding mul_div_trunc fit limit_96 ◌*ℤ◌ div_trunc with_error xor
truncated = refl

mul_div_trunc-IsTruncated_example :
    (1 ≤ abs two.mantissa)
    × (0 ≤ 28)
    × InRange minus_three
    × ((q : ℤ) × IsTruncated
          (xor (xor true false) false)
          (25 * 3 * 10 ^ (0 + 0 - (1 + 0)))
          (2 * 10 ^ (1 + 0 - (0 + 0)))
          q
        × IsValue q 0 minus_three)
mul_div_trunc-IsTruncated_example =
    mul_div_trunc-IsTruncated minus_two_half three two minus_three 0 truncated

-- 5 / 3 is 1.67 at two places, above the exact quotient.
abbrev five_thirds : Decimal
five_thirds = record { mantissa = pos 167; scale = 2 }

rounded_up : round_quotient false 5 0 3 0 2 ≡ ok five_thirds
unfolding round_quotient round_ratio round_dropping limit_96
rounded_up = refl

round_quotient-IsRounded_example :
    IsRounded false (5 * 10 ^ (2 + 0 - 0)) (3 * 10 ^ (0 - (2 + 0))) 2 five_thirds
round_quotient-IsRounded_example =
    round_quotient-IsRounded false 5 0 3 0 2 five_thirds (omega arith) rounded_up

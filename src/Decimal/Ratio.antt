-- ===== src/Decimal/Ratio.antt =====
-- decimal.rs: `sum_exceeds`, and the quotients that are rounded: `div_ratio` and `mul_div_ratio`. A `U1024` is
-- a natural number, since no value that the operations form reaches 2 ^ 1024.
pub mod Nearest
use Prim.Native.Nat.{max}
use mathlib.Core.Bool.{xor}
use mlmforge.Prelude.{
  ℕ, zero, suc, ◌+◌, ◌-◌, ◌*◌, ◌/◌, ◌%◌, ◌^◌, Bool, true, false, ◌&&◌, ◌||◌, Option, none, some,
  List, [], ◌∷◌, ltb, leb, ◌==◌, if◌then◌else◌,
}
use mlmforge.Prelude.Int.{ℤ, pos, abs, is_negative, signed, ltb_ℤ, ◌+ℤ◌, ◌*ℤ◌}
use mlmforge.Prelude.Results.{Result, ok, err, ◌>>=◌}
use mlmforge.Decimal.{
  Decimal, NumericErrorKind, NumericOp, NumericError, overflow, division_by_zero, limit_96, error,
  try_mul,
}
use mlmforge.Decimal.Divide.{is_zero}
use mlmforge.Decimal.Allocate.{common_scale, or_fail}

-- The value of a decimal in units of a scale at or above its own.
abbrev pub units_at : ℕ → Decimal → ℤ
units_at common x = x.mantissa *ℤ pos (10 ^ (common - x.scale))

abbrev pub units_sum : ℕ → List Decimal → ℤ
units_sum common [] = pos 0
units_sum common (v ∷ values) = units_at common v +ℤ units_sum common values

unfoldable pub sum_exceeds : List Decimal → Decimal → Bool
unfolding common_scale
sum_exceeds values bound =
    let common = common_scale values bound.scale in
    ltb_ℤ (units_at common bound) (units_sum common values)

-- The scale of a payout.
abbrev pub payout_scale : ℕ
payout_scale = 13

-- A coefficient is rounded half to even by what is discarded, in units of 1 / den.
abbrev pub round_even_by : ℕ → ℕ → ℕ → ℕ
round_even_by twice_dropped whole_unit kept =
    if ltb whole_unit twice_dropped || ((twice_dropped == whole_unit) && (kept % 2 == 1))
    then kept + 1
    else kept

-- The loop over `drop`, by the rounds left.
unfoldable pub round_dropping : Bool → ℕ → ℕ → ℕ → ℕ → ℕ → ℕ → Result NumericErrorKind Decimal
round_dropping negative quotient remainder den max_scale drop zero = err overflow
round_dropping negative quotient remainder den max_scale drop (suc rounds) =
    let rest = round_dropping negative quotient remainder den max_scale (drop + 1) rounds in
    let unit = 10 ^ drop in
    let kept =
      round_even_by (((quotient % unit) * den + remainder) * 2) (unit * den) (quotient / unit) in
    if leb limit_96 (quotient / unit / 10)
    then rest
    else if ltb kept limit_96
    then ok (record { mantissa = signed negative kept; scale = max_scale - drop })
    else rest

unfoldable pub round_ratio : Bool → ℕ → ℕ → ℕ → Result NumericErrorKind Decimal
unfolding round_dropping
round_ratio negative num den max_scale =
    round_dropping negative (num / den) (num % den) den max_scale 0 (max_scale + 1)

unfoldable pub round_quotient : Bool → ℕ → ℕ → ℕ → ℕ → ℕ → Result NumericErrorKind Decimal
unfolding round_ratio
round_quotient negative num num_scale den den_scale max_scale =
    if leb num_scale (max_scale + den_scale)
    then round_ratio negative (num * 10 ^ (max_scale + den_scale - num_scale)) den max_scale
    else round_ratio negative num (den * 10 ^ (num_scale - (max_scale + den_scale))) max_scale

abbrev pub is_negative_product : List Decimal → Bool
is_negative_product [] = false
is_negative_product (f ∷ factors) = xor (is_negative f.mantissa) (is_negative_product factors)

abbrev pub magnitudes : List Decimal → ℕ
magnitudes [] = 1
magnitudes (f ∷ factors) = abs f.mantissa * magnitudes factors

abbrev pub scales : List Decimal → ℕ
scales [] = 0
scales (f ∷ factors) = f.scale + scales factors

unfoldable pub wide_mul_div_ratio : List Decimal → Decimal → ℕ → Result NumericErrorKind Decimal
unfolding round_quotient
wide_mul_div_ratio factors divisor max_scale =
    round_quotient (xor (is_negative_product factors) (is_negative divisor.mantissa))
      (magnitudes factors) (scales factors) (abs divisor.mantissa) divisor.scale max_scale

-- `rust_decimal`'s division, its rounding half to even, and its form without trailing zeros.
module _ (checked_div : Decimal → Decimal → Option Decimal) (round_even : Decimal → ℕ → Decimal)
    (normalize : Decimal → Decimal) where
  abbrev pub or_overflow : Decimal → Decimal → Option Decimal → Result NumericError Decimal
  unfolding error
  or_overflow a b none = err (error a NumericOp.div_ratio b overflow)
  or_overflow a b (some q) = ok q

  unfoldable pub div_ratio : Decimal → Decimal → Result NumericError Decimal
  unfolding is_zero error
  div_ratio a b =
      if is_zero b
      then err (error a NumericOp.div_ratio b division_by_zero)
      else or_overflow a b (checked_div a b)

  abbrev pub settle_held : Option Decimal → Option Decimal
  settle_held none = none
  settle_held (some q) =
      let unit = 10 ^ (q.scale - payout_scale) in
      if leb q.scale payout_scale
      then some q
      else if (abs q.mantissa % unit) * 2 == unit
      then none
      else some (round_even q payout_scale)

  unfoldable pub round_held_quotient : Decimal → Decimal → Option Decimal
  round_held_quotient product divisor = settle_held (checked_div product divisor)

  -- The product of four factors, if it can be held at each step.
  unfoldable pub held_product : Decimal → Decimal → Decimal → Decimal → Result NumericError Decimal
  unfolding try_mul
  held_product a b c d = do p ← try_mul a b; q ← try_mul p c; try_mul q d

  abbrev pub narrow_quotient : Decimal → Result NumericError Decimal → Option Decimal
  unfolding round_held_quotient
  narrow_quotient divisor (ok p) = round_held_quotient p divisor
  narrow_quotient divisor (err e) = none

  abbrev pub normalized : Result NumericErrorKind Decimal → Result NumericErrorKind Decimal
  normalized (ok q) = ok (normalize q)
  normalized (err kind) = err kind

  abbrev pub or_wide :
      (NumericErrorKind → NumericError)
      → Result NumericErrorKind Decimal
      → Option Decimal
      → Result NumericError Decimal
  unfolding or_fail
  or_wide fail wide none = or_fail fail (normalized wide)
  or_wide fail wide (some q) = ok (normalize q)

  unfoldable pub mul_div_ratio :
      Decimal → Decimal → Decimal → Decimal → Decimal → Result NumericError Decimal
  unfolding is_zero held_product round_held_quotient wide_mul_div_ratio error or_fail
  mul_div_ratio a b c d divisor =
      let fail =
        λ (kind : NumericErrorKind). error c (NumericOp.mul_div_ratio a b divisor) d kind in
      if is_zero divisor
      then err (fail division_by_zero)
      else or_wide fail (wide_mul_div_ratio (a ∷ b ∷ c ∷ d ∷ []) divisor payout_scale)
          (narrow_quotient divisor (held_product a b c d))

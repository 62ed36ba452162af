-- ===== src/Decimal/Divide.antt =====
-- decimal.rs: `sum`, `mul_div_trunc` and `floor_div`.
pub mod Floor
pub mod Truncated
use mathlib.Core.Bool.{xor}
use mlmforge.Prelude.{
  ℕ, ◌+◌, ◌-◌, ◌*◌, ◌%◌, ◌^◌, Bool, true, not, ◌&&◌, List, [], ◌∷◌, ltb, leb, ◌==◌, if◌then◌else◌,
}
use mlmforge.Prelude.Int.{ℤ, pos, negsuc, abs, is_negative, ◌+ℤ◌, ◌*ℤ◌, div_trunc}
use mlmforge.Prelude.Results.{Result, ok, err, ◌>>=◌}
use mlmforge.Decimal.{
  Decimal, NumericOp, NumericError, max_scale, fit, error, with_error, try_add, dec_zero,
  division_by_zero, precision,
}

-- `try_fold(Dec::ZERO, Dec::try_add)`
unfoldable pub fold_sum : Decimal → List Decimal → Result NumericError Decimal
fold_sum acc [] = ok acc
fold_sum acc (v ∷ values) = try_add acc v >>= λ acc'. fold_sum acc' values

unfoldable pub sum : List Decimal → Result NumericError Decimal
unfolding fold_sum
sum values = fold_sum dec_zero values

unfoldable pub is_zero : Decimal → Bool
is_zero d = abs d.mantissa == 0

-- Division of two numbers, the second not zero, truncated and then rounded down.
unfoldable pub floor_quotient : ℤ → ℤ → ℤ
floor_quotient num den =
    if not (abs num % abs den == 0) && xor (is_negative num) (is_negative den)
    then div_trunc num den +ℤ negsuc 0
    else div_trunc num den

-- A power of ten by which one side of a quotient is scaled, where the shift is not negative.
abbrev pub scaled : ℤ → ℕ → ℤ
scaled m shift = m *ℤ pos (10 ^ shift)

unfoldable pub floor_div : Decimal → Decimal → Result NumericError Decimal
unfolding is_zero
floor_div a b =
    if is_zero b
    then err (error a NumericOp.floor_div b division_by_zero)
    else if leb a.scale b.scale
    then with_error a NumericOp.floor_div b
        (fit (floor_quotient (scaled a.mantissa (b.scale - a.scale)) b.mantissa) 0)
    else with_error a NumericOp.floor_div b
        (fit (floor_quotient a.mantissa (scaled b.mantissa (a.scale - b.scale))) 0)

unfoldable pub mul_div_trunc : Decimal → Decimal → Decimal → ℕ → Result NumericError Decimal
unfolding is_zero
mul_div_trunc a b c scale =
    let op = NumericOp.mul_div_trunc c scale in
    let product = a.mantissa *ℤ b.mantissa in
    let up = c.scale + scale in
    let down = a.scale + b.scale in
    if is_zero c
    then err (error a op b division_by_zero)
    else if ltb max_scale scale
    then err (error a op b precision)
    else if leb down up
    then with_error a op b (fit (div_trunc (scaled product (up - down)) c.mantissa) scale)
    else with_error a op b (fit (div_trunc product (scaled c.mantissa (down - up))) scale)

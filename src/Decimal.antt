-- ===== src/Decimal.antt =====
-- decimal.rs: exact decimals. A `rust_decimal::Decimal` is read as its mantissa and its scale, the
-- number mantissa / 10 ^ scale; that crate keeps the mantissa within 96 bits and the scale within 28.
pub mod Exact
pub mod Sums
pub mod Allocate
pub mod Divide
pub mod Ratio
pub mod Examples
use Prim.Native.Nat.{max}
use mlmforge.Prelude.{
  ℕ, zero, suc, ◌+◌, ◌-◌, ◌*◌, ◌/◌, ◌%◌, ◌^◌, ◌≤◌, ◌<◌, Bool, true, false, not, ◌&&◌, ◌||◌, Option,
  none, some, List, [], ◌∷◌, ltb, leb, ◌==◌, if◌then◌else◌,
}
use mlmforge.Prelude.Int.{
  ℤ, pos, negsuc, pos_part, neg_part, abs, is_negative, signed, ltb_ℤ, ◌+ℤ◌, ◌*ℤ◌, -ℤ◌, div_trunc,
}
use mlmforge.Prelude.Results.{Result, ok, err}

pub record Decimal : Type 0 where
  pub mantissa : ℤ
  pub scale : ℕ

pub data NumericErrorKind : Type 0 where
  overflow precision division_by_zero negative not_whole_units : NumericErrorKind

pub data NumericOp : Type 0 where
  add sub mul div_ratio floor_div : NumericOp
  mul_div_trunc : Decimal → ℕ → NumericOp
  mul_div_ratio : Decimal → Decimal → Decimal → NumericOp
  allocate : ℕ → NumericOp

pub record NumericError : Type 0 where
  pub op : NumericOp
  pub lhs : Decimal
  pub rhs : Decimal
  pub kind : NumericErrorKind

abbrev pub max_scale : ℕ
max_scale = 28

unfoldable pub limit_96 : ℕ
limit_96 = 2 ^ 96

unfoldable pub fits_96_bits : ℤ → Bool
fits_96_bits m = ltb (abs m) limit_96

-- The value is held as it is, or the kind of error says whether its integer part would fit. (Where
-- 10 ^ s is beyond `I512` the source answers `Precision`: the integer part of an `I512` is then 0.)
unfoldable pub settle : ℤ → ℕ → Result NumericErrorKind Decimal
unfolding fits_96_bits
settle m s =
    if leb s max_scale && fits_96_bits m
    then ok (record { mantissa = m; scale = s })
    else if fits_96_bits (div_trunc m (pos (10 ^ s)))
    then err precision
    else err overflow

-- The `while` of `fit` falls by one scale a round.
unfoldable pub fit : ℤ → ℕ → Result NumericErrorKind Decimal
unfolding settle fits_96_bits
fit m zero = settle m zero
fit m (suc s) =
    let shorter = fit (signed (is_negative m) (abs m / 10)) s in
    if (ltb max_scale (suc s) || not (fits_96_bits m)) && (abs m % 10 == 0)
    then shorter
    else settle m (suc s)

-- The result of a checked `i128` operation, whose exact value is given.
unfoldable pub checked_i128 : ℤ → Option ℤ
checked_i128 (pos n) = if ltb n (2 ^ 127) then some (pos n) else none
checked_i128 (negsuc n) = if ltb n (2 ^ 127) then some (negsuc n) else none

-- `Decimal::try_from_i128_with_scale(m, s).ok()`
unfoldable pub try_decimal : ℤ → ℕ → Option Decimal
unfolding fits_96_bits
try_decimal m s =
    if leb s max_scale && fits_96_bits m then some (record { mantissa = m; scale = s }) else none

infixl 5 ◌>>=◌
abbrev pub ◌>>=◌ {ℓ κ} : {A : Type ℓ} {B : Type κ} → Option A → (A → Option B) → Option B
none >>= f = none
some a >>= f = f a

unfoldable pub fast_add : Decimal → Decimal → Bool → Option Decimal
unfolding checked_i128 try_decimal
fast_add a b negate_b = do
  let s = max a.scale b.scale
  pa ← checked_i128 (pos (10 ^ (s - a.scale)))
  ma ← checked_i128 (a.mantissa *ℤ pa)
  pb ← checked_i128 (pos (10 ^ (s - b.scale)))
  mb ← checked_i128 (b.mantissa *ℤ pb)
  mb' ← if negate_b then checked_i128 (-ℤ◌ mb) else some mb
  m ← checked_i128 (ma +ℤ mb')
  try_decimal m s

unfoldable pub fast_mul : Decimal → Decimal → Option Decimal
unfolding checked_i128 try_decimal
fast_mul a b = do m ← checked_i128 (a.mantissa *ℤ b.mantissa); try_decimal m (a.scale + b.scale)

unfoldable pub error : Decimal → NumericOp → Decimal → NumericErrorKind → NumericError
error lhs op rhs kind = record { op = op; lhs = lhs; rhs = rhs; kind = kind }

-- `result.map(Decimal).map_err(|kind| lhs.error(op, rhs, kind))`
unfoldable pub with_error :
    Decimal → NumericOp → Decimal → Result NumericErrorKind Decimal → Result NumericError Decimal
unfolding error
with_error lhs op rhs (ok d) = ok d
with_error lhs op rhs (err kind) = err (error lhs op rhs kind)

-- The exact sum or difference at the larger scale, before it is fitted.
unfoldable pub wide_sum : Decimal → Decimal → Bool → ℤ
wide_sum a b negate_b =
    let s = max a.scale b.scale in
    let ma = a.mantissa *ℤ pos (10 ^ (s - a.scale)) in
    let mb = b.mantissa *ℤ pos (10 ^ (s - b.scale)) in if negate_b then ma +ℤ -ℤ◌ mb else ma +ℤ mb

unfoldable pub wide_add : Decimal → Decimal → Bool → Result NumericError Decimal
unfolding wide_sum with_error fit
wide_add a b negate_b =
    with_error a (if negate_b then sub else add) b
      (fit (wide_sum a b negate_b) (max a.scale b.scale))

unfoldable pub or_else : Option Decimal → Result NumericError Decimal → Result NumericError Decimal
or_else (some d) r = ok d
or_else none r = r

unfoldable pub try_add : Decimal → Decimal → Result NumericError Decimal
unfolding fast_add wide_add or_else
try_add a b = or_else (fast_add a b false) (wide_add a b false)

unfoldable pub try_sub : Decimal → Decimal → Result NumericError Decimal
unfolding fast_add wide_add or_else
try_sub a b = or_else (fast_add a b true) (wide_add a b true)

unfoldable pub try_mul : Decimal → Decimal → Result NumericError Decimal
unfolding fast_mul or_else with_error fit
try_mul a b =
    or_else (fast_mul a b) (with_error a mul b (fit (a.mantissa *ℤ b.mantissa) (a.scale + b.scale)))

abbrev pub dec_zero : Decimal
dec_zero = record { mantissa = pos 0; scale = 0 }

abbrev pub dec_one : Decimal
dec_one = record { mantissa = pos 1; scale = 0 }

-- The order of decimals: by their values.
unfoldable pub dec_lt : Decimal → Decimal → Bool
dec_lt a b =
    ltb_ℤ (signed (is_negative a.mantissa) (abs a.mantissa * 10 ^ b.scale))
      (signed (is_negative b.mantissa) (abs b.mantissa * 10 ^ a.scale))

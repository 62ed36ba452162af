-- ===== src/Decimal/Divide/Truncated.antt =====
-- decimal.rs: `mul_div_trunc` truncates towards zero.
use mathlib.Core.Bool.{xor}
use native.Mathlib.Nat.{div-add-mod'}
use mlmforge.Prelude.{
  ℕ, zero, suc, ◌+◌, ◌-◌, ◌*◌, ◌/◌, ◌%◌, ◌^◌, ◌≤◌, ◌<◌, ◌≡◌, refl, ap, ◌∙◌, Bool, true, false,
  arith, leb, ltb, ◌==◌, Bool-cases, inl, inr,
}
use mlmforge.Prelude.Int.{ℤ, pos, negsuc, abs, is_negative, signed, ◌*ℤ◌, div_trunc, abs-signed}
use mlmforge.Prelude.Results.{Result, ok, err}
use mlmforge.Decimal.{Decimal, max_scale, NumericOp, NumericError, fit}
use mlmforge.Decimal.Exact.{InRange, IsValue, fit-exact, pow_pos}
use mlmforge.Decimal.Divide.{scaled, mul_div_trunc}
use mlmforge.Decimal.Divide.Floor.{with_error-ok}

-- q is n / d, below zero if the flag is set, without its fraction.
abbrev pub IsTruncated : Bool → ℕ → ℕ → ℤ → Type 0
IsTruncated below n d q = (q ≡ signed below (abs q)) × (abs q * d ≤ n) × (n < (abs q + 1) * d)

signed_zero : (x : Bool) → signed x 0 ≡ pos 0
signed_zero false = refl
signed_zero true = refl

signed-is_negative : (m : ℤ) → m ≡ signed (is_negative m) (abs m)
signed-is_negative (pos n) = refl
signed-is_negative (negsuc n) = refl

scaled-signed : (x : Bool) (n k : ℕ) → scaled (signed x n) k ≡ signed x (n * 10 ^ k)
unfolding ◌*ℤ◌ xor
scaled-signed false n k = refl
scaled-signed true zero k = let none_left : 0 * 10 ^ k ≡ 0 = omega arith in rw none_left refl
scaled-signed true (suc n) k = refl

div_trunc-signed :
    (x y : Bool) (n d : ℕ) → 1 ≤ d → div_trunc (signed x n) (signed y d) ≡ signed (xor x y) (n / d)
unfolding div_trunc xor
div_trunc-signed x y n zero h = absurd (omega arith)
div_trunc-signed false false n (suc d) h = refl
div_trunc-signed false true n (suc d) h = refl
div_trunc-signed true false (suc n) (suc d) h = refl
div_trunc-signed true true (suc n) (suc d) h = refl
div_trunc-signed true false zero (suc d) h =
    let none_left : 0 / suc d ≡ 0 = grind arith in rw none_left refl
div_trunc-signed true true zero (suc d) h =
    let none_left : 0 / suc d ≡ 0 = grind arith in rw none_left refl

div_trunc-IsTruncated :
    (x y : Bool) (n d : ℕ) → 1 ≤ d → IsTruncated (xor x y) n d (div_trunc (signed x n) (signed y d))
div_trunc-IsTruncated x y n d h =
    let size = abs-signed (xor x y) (n / d) in
    let whole = div-add-mod' n d in
    let small : n % d < d = grind arith in
    rw (div_trunc-signed x y n d h, size) (refl, omega arith, omega arith)

times_one : (n k : ℕ) → k ≡ 0 → n ≡ n * 10 ^ k
times_one n k e = rw e (omega arith)

-- The quotient of two numbers of known sign and size.
IsTruncated-parts :
    (num den : ℤ) (x y : Bool) (n d : ℕ)
    → num ≡ signed x n
    → den ≡ signed y d
    → 1 ≤ d
    → IsTruncated (xor x y) n d (div_trunc num den)
IsTruncated-parts num den x y n d p q h = rw (p, q) (div_trunc-IsTruncated x y n d h)

scaled-parts : (m : ℤ) (x : Bool) (n k : ℕ) → m ≡ signed x n → scaled m k ≡ signed x (n * 10 ^ k)
scaled-parts m x n k p = rw p (scaled-signed x n k)

-- If `mul_div_trunc a b c scale` succeeds, c is not zero, the scale is at most 28, and the result
-- is a decimal in range that is exactly the value of a whole number of units of 10 ^ -scale: that of
-- a * b / c cut off towards zero. (The quotient is written as that of two whole numbers.)
pub mul_div_trunc-IsTruncated :
    (a b c d : Decimal) (scale : ℕ)
    → mul_div_trunc a b c scale ≡ ok d
    → (1 ≤ abs c.mantissa)
      × (scale ≤ 28)
      × InRange d
      × ((q : ℤ) × IsTruncated
            (xor (xor (is_negative a.mantissa) (is_negative b.mantissa)) (is_negative c.mantissa))
            (abs a.mantissa * abs b.mantissa * 10 ^ (c.scale + scale - (a.scale + b.scale)))
            (abs c.mantissa * 10 ^ (a.scale + b.scale - (c.scale + scale)))
            q
          × IsValue q scale d)
unfolding mul_div_trunc ◌*ℤ◌
mul_div_trunc-IsTruncated a b c d scale h = elim (Bool-cases (abs c.mantissa == 0)) [
  | inl z ↦ absurd (refused _ (rw (z, mul_div_trunc) at h))
  | inr nz ↦ elim (Bool-cases (ltb max_scale scale)) [
    | inl wide ↦ absurd (refused _ (rw (nz, wide, mul_div_trunc) at h))
    | inr narrow ↦ elim (Bool-cases (leb (a.scale + b.scale) (c.scale + scale))) [
      | inl up ↦
          held (ground arith) (ground arith)
            (scaled product (c.scale + scale - (a.scale + b.scale))) c.mantissa
            (scaled-parts product sign _ (c.scale + scale - (a.scale + b.scale)) refl)
            (signed-is_negative c.mantissa
              ∙ ap (signed (is_negative c.mantissa)) (
                  times_one (abs c.mantissa) (a.scale + b.scale - (c.scale + scale))
                    (ground arith)))
            (with_error-ok a b (NumericOp.mul_div_trunc c scale) _ d
              (rw (nz, narrow, up, mul_div_trunc) at h))
      | inr down ↦
          held (ground arith) (ground arith) product
            (scaled c.mantissa (a.scale + b.scale - (c.scale + scale)))
            (ap (signed sign) (
              times_one (abs a.mantissa * abs b.mantissa) (c.scale + scale - (a.scale + b.scale))
                (ground arith)))
            (scaled-parts c.mantissa (is_negative c.mantissa) (abs c.mantissa)
              (a.scale + b.scale - (c.scale + scale)) (signed-is_negative c.mantissa))
            (with_error-ok a b (NumericOp.mul_div_trunc c scale) _ d
              (rw (nz, narrow, down, mul_div_trunc) at h))
    ]
  ]
]
  where
    product : ℤ
    product =
        signed (xor (is_negative a.mantissa) (is_negative b.mantissa))
          (abs a.mantissa * abs b.mantissa)

    sign : Bool
    sign = xor (is_negative a.mantissa) (is_negative b.mantissa)

    refused : (e : NumericError) → Path (Result NumericError Decimal) (err e) (ok d) → ⊥
    refused e p = cc

    held :
        1 ≤ abs c.mantissa
        → scale ≤ 28
        → (num den : ℤ)
        → num
          ≡ signed sign
              (abs a.mantissa * abs b.mantissa * 10 ^ (c.scale + scale - (a.scale + b.scale)))
        → den
          ≡ signed
              (is_negative c.mantissa)
              (abs c.mantissa * 10 ^ (a.scale + b.scale - (c.scale + scale)))
        → fit (div_trunc num den) scale ≡ ok d
        → (1 ≤ abs c.mantissa)
          × (scale ≤ 28)
          × InRange d
          × ((q : ℤ) × IsTruncated
                (xor sign (is_negative c.mantissa))
                (abs a.mantissa * abs b.mantissa * 10 ^ (c.scale + scale - (a.scale + b.scale)))
                (abs c.mantissa * 10 ^ (a.scale + b.scale - (c.scale + scale)))
                q
              × IsValue q scale d)
    held some_c small num den pn pd e =
        let power = pow_pos (a.scale + b.scale - (c.scale + scale)) in
        let (range, exact) = fit-exact (div_trunc num den) scale d e in
        (
          some_c,
          small,
          range,
          (
            div_trunc num den,
            IsTruncated-parts num den sign (is_negative c.mantissa) _ _ pn pd (grind arith),
            exact,
          ),
        )

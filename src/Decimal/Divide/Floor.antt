-- ===== src/Decimal/Divide/Floor.antt =====
-- decimal.rs: `floor_div` rounds down, also below zero.
use mathlib.Core.Path.{subst}
use mathlib.Core.Bool.{xor}
use native.Mathlib.Nat.{div-add-mod'}
use mlmforge.Prelude.{
  ==_iff, ℕ, zero, suc, ◌+◌, ◌-◌, ◌*◌, ◌/◌, ◌%◌, ◌^◌, ◌≤◌, ◌<◌, ◌≡◌, refl, sym, ap, Bool, true,
  false, not, ◌&&◌, arith, leb, ◌==◌, if◌then◌else◌, Bool-cases, inl, inr,
}
use mlmforge.Prelude.Int.{
  ℤ, pos, negsuc, abs, is_negative, pos_part, neg_part, signed, ◌+ℤ◌, ◌*ℤ◌, div_trunc, abs-signed,
}
use mlmforge.Prelude.Results.{Result, ok, err, ok_inj}
use mlmforge.Decimal.{Decimal, NumericErrorKind, NumericOp, NumericError, fit, with_error}
use mlmforge.Decimal.Exact.{settle-ok, pow_pos}
use mlmforge.Decimal.Divide.{floor_quotient, scaled, floor_div}

-- q is the largest integer that is at most v / d: q * d ≤ v < (q + 1) * d.
abbrev pub IsFloor : ℤ → ℕ → ℤ → Type 0
IsFloor v d q =
    (pos_part q * d + neg_part v ≤ pos_part v + neg_part q * d)
    × (pos_part v + neg_part q * d < (pos_part q + 1) * d + neg_part v)

signed_parts : (k : ℕ) → (pos_part (signed true k) ≡ 0) × (neg_part (signed true k) ≡ k)
signed_parts zero = (refl, refl)
signed_parts (suc k) = (refl, refl)

lowered_parts :
    (k : ℕ)
    → (pos_part (signed true k +ℤ negsuc 0) ≡ 0) × (neg_part (signed true k +ℤ negsuc 0) ≡ k + 1)
unfolding ◌+ℤ◌
lowered_parts zero = (refl, refl)
lowered_parts (suc k) = (ground arith, ground arith)

-- A number below zero whose parts are known.
IsFloor-below :
    (n d c : ℕ) (q : ℤ)
    → pos_part q ≡ 0
    → neg_part q ≡ c
    → n ≤ c * d
    → c * d < d + n
    → IsFloor (signed true n) d q
IsFloor-below n d c q p r lo hi =
    let (vp, vn) = signed_parts n in rw (p, r, vp, vn) (omega arith, omega arith)

-- By the sign of the quotient, its size and what is left of it.
IsFloor-signed :
    (x : Bool) (n d : ℕ)
    → 1 ≤ d
    → IsFloor
        (signed x n)
        d
        (if not (n % d == 0) && x then signed x (n / d) +ℤ negsuc 0 else signed x (n / d))
IsFloor-signed false n d h = elim (Bool-cases (n % d == 0)) [
  | inl c ↦ rw c (positive n d h)
  | inr c ↦ rw c (positive n d h)
]
  where
    positive : (n d : ℕ) → 1 ≤ d → IsFloor (pos n) d (pos (n / d))
    positive n d h =
        let whole = div-add-mod' n d in
        let small : n % d < d = grind arith in (omega arith, omega arith)
IsFloor-signed true n d h = elim (Bool-cases (n % d == 0)) [
  | inl c ↦
      let whole = div-add-mod' n d in
      let none_left : n % d ≡ 0 = (==_iff (n % d) 0).0 c in
      let (p, r) = signed_parts (n / d) in
      rw c (IsFloor-below n d (n / d) (signed true (n / d)) p r (omega arith) (omega arith))
  | inr c ↦
      let whole = div-add-mod' n d in
      let small : n % d < d = grind arith in
      let some_left : 1 ≤ n % d = ground arith in
      let (p, r) = lowered_parts (n / d) in
      rw c (
        IsFloor-below n d (n / d + 1) (signed true (n / d) +ℤ negsuc 0) p r (omega arith)
          (omega arith))
]

-- The value of a quotient of two integers, as a signed number over a positive one.
floor_quotient-IsFloor :
    (num den : ℤ)
    → 1 ≤ abs den
    → IsFloor
        (signed (xor (is_negative num) (is_negative den)) (abs num))
        (abs den)
        (floor_quotient num den)
unfolding floor_quotient div_trunc
floor_quotient-IsFloor num den h =
    IsFloor-signed (xor (is_negative num) (is_negative den)) (abs num) (abs den) h

-- What is held at scale 0 is the number itself.
fit-zero : (q : ℤ) (d : Decimal) → fit q 0 ≡ ok d → d ≡ record { mantissa = q; scale = 0 }
unfolding fit
fit-zero q d h = let (e, _, _) = settle-ok q 0 d h in e

pub with_error-ok :
    (a b : Decimal) (op : NumericOp) (r : Result NumericErrorKind Decimal) (d : Decimal)
    → with_error a op b r ≡ ok d
    → r ≡ ok d
unfolding with_error
with_error-ok a b op (ok d') d h = ap ok (ok_inj h)
with_error-ok a b op (err kind) d h = cc

scaled_size : (m : ℤ) (k : ℕ) → (abs (scaled m k) ≡ abs m * 10 ^ k)
unfolding ◌*ℤ◌
scaled_size m k = abs-signed (xor (is_negative m) false) (abs m * 10 ^ k)

scaled_sign : (m : ℤ) (k : ℕ) → is_negative (scaled m k) ≡ is_negative m
unfolding ◌*ℤ◌ xor
scaled_sign (pos n) k = refl
scaled_sign (negsuc n) k = signed_below (suc n * 10 ^ k) (at_least n (10 ^ k) (pow_pos k))
  where
    signed_below : (m : ℕ) → 1 ≤ m → is_negative (signed true m) ≡ true
    signed_below zero h = absurd (omega arith)
    signed_below (suc m) h = refl

    at_least : (n p : ℕ) → 1 ≤ p → 1 ≤ suc n * p
    at_least n p h = grind arith

-- If `floor_div a b` succeeds, b is not zero, and the result is the whole number, at scale 0, that is
-- the largest at most a / b. (The quotient is written as that of two numbers, at the same scale.)
pub floor_div-IsFloor :
    (a b d : Decimal)
    → floor_div a b ≡ ok d
    → (1 ≤ abs b.mantissa)
      × (d.scale ≡ 0)
      × IsFloor
          (signed
            (xor (is_negative a.mantissa) (is_negative b.mantissa))
            (abs a.mantissa * 10 ^ (b.scale - a.scale)))
          (abs b.mantissa * 10 ^ (a.scale - b.scale))
          d.mantissa
unfolding floor_div
floor_div-IsFloor a b d h = elim (Bool-cases (abs b.mantissa == 0)) [
  | inl z ↦ absurd (refused _ (rw (z, floor_div) at h))
  | inr nz ↦
      let some_b : 1 ≤ abs b.mantissa = ground arith in
      elim (Bool-cases (leb a.scale b.scale)) [
        | inl c ↦
            let none_up : a.scale - b.scale ≡ 0 = ground arith in
            let size : abs b.mantissa ≡ abs b.mantissa * 10 ^ (a.scale - b.scale) =
              rw none_up (omega arith) in
            rounded some_b (scaled a.mantissa (b.scale - a.scale)) b.mantissa
              (scaled_sign a.mantissa (b.scale - a.scale)) refl
              (scaled_size a.mantissa (b.scale - a.scale)) size
              (with_error-ok a b NumericOp.floor_div _ d (rw (nz, floor_div, c) at h))
        | inr c ↦
            let none_up : b.scale - a.scale ≡ 0 = ground arith in
            let size : abs a.mantissa ≡ abs a.mantissa * 10 ^ (b.scale - a.scale) =
              rw none_up (omega arith) in
            rounded some_b a.mantissa (scaled b.mantissa (a.scale - b.scale)) refl
              (scaled_sign b.mantissa (a.scale - b.scale)) size
              (scaled_size b.mantissa (a.scale - b.scale))
              (with_error-ok a b NumericOp.floor_div _ d (rw (nz, floor_div, c) at h))
      ]
]
  where
    refused : (e : NumericError) → Path (Result NumericError Decimal) (err e) (ok d) → ⊥
    refused e p = cc

    rounded :
        1 ≤ abs b.mantissa
        → (num den : ℤ) → is_negative num ≡ is_negative a.mantissa
        → is_negative den ≡ is_negative b.mantissa
        → abs num ≡ abs a.mantissa * 10 ^ (b.scale - a.scale)
        → abs den ≡ abs b.mantissa * 10 ^ (a.scale - b.scale)
        → fit (floor_quotient num den) 0 ≡ ok d
        → (1 ≤ abs b.mantissa)
          × (d.scale ≡ 0)
          × IsFloor
              (signed
                (xor (is_negative a.mantissa) (is_negative b.mantissa))
                (abs a.mantissa * 10 ^ (b.scale - a.scale)))
              (abs b.mantissa * 10 ^ (a.scale - b.scale))
              d.mantissa
    rounded some_b num den sn sd size_n size_d held =
        let power = pow_pos (a.scale - b.scale) in
        let some_den : 1 ≤ abs den = rw size_d (grind arith) in
        let e = fit-zero (floor_quotient num den) d held in
        let floor = floor_quotient-IsFloor num den some_den in
        let value : signed (xor (is_negative num) (is_negative den)) (abs num)
            ≡ signed (xor (is_negative a.mantissa) (is_negative b.mantissa))
                (abs a.mantissa * 10 ^ (b.scale - a.scale)) =
          λ i. signed (xor (sn i) (sd i)) (size_n i) in
        (
          some_b,
          ap (λ (x : Decimal). x.scale) e,
          subst
              (λ (q : ℤ).
                IsFloor
                  (signed (xor (is_negative a.mantissa) (is_negative b.mantissa))
                    (abs a.mantissa * 10 ^ (b.scale - a.scale)))
                  (abs b.mantissa * 10 ^ (a.scale - b.scale)) q)
              (sym (ap (λ (x : Decimal). x.mantissa) e))
              (subst
                (λ (m : ℕ).
                  IsFloor
                    (signed (xor (is_negative a.mantissa) (is_negative b.mantissa))
                      (abs a.mantissa * 10 ^ (b.scale - a.scale)))
                    m (floor_quotient num den))
                size_d
                (subst (λ (v : ℤ). IsFloor v (abs den) (floor_quotient num den)) value floor)),
        )

-- ===== src/Decimal/Sums.antt =====
-- `try_add`, `try_sub` and `try_mul` of decimal.rs: the `i128` path and the wide one give one answer.
use Prim.Native.Nat.{max}
use mlmforge.Prelude.{
  ℕ, ◌-◌, ◌^◌, ◌≤◌, ◌<◌, ◌≡◌, refl, sym, ap, ◌∙◌, true, false, Bool, Option, none, some, arith, ◌+◌,
  ◌⊎◌, ltb, Bool-cases, inl, inr,
}
use mlmforge.Prelude.Int.{ℤ, pos, abs, ◌+ℤ◌, ◌*ℤ◌, -ℤ◌}
use mlmforge.Prelude.Results.{Result, ok, err, ok_inj}
use mlmforge.Decimal.{
  Decimal, NumericOp, NumericError, NumericErrorKind, limit_96, fit, checked_i128, try_decimal,
  fast_add, fast_mul, wide_sum, wide_add, or_else, with_error, try_add, try_sub, try_mul, ◌>>=◌,
}
use mlmforge.Decimal.NumericOp.{add, sub, mul}
use mlmforge.Decimal.Exact.{InRange, IsValue, fit-exact, fit-settled}

bind_some {ℓ κ} :
    {A : Type ℓ} {B : Type κ} (o : Option A) (f : A → Option B) {b : B}
    → (o >>= f) ≡ some b
    → (a : A) × (o ≡ some a) × (f a ≡ some b)
bind_some none f h = cc
bind_some (some a) f h = (a, refl, h)

checked-some : (m : ℤ) {m' : ℤ} → checked_i128 m ≡ some m' → m' ≡ m
unfolding checked_i128
checked-some (pos n) h = ground arith
checked-some (ℤ.negsuc n) h = ground arith

checked-cases : (m : ℤ) → (checked_i128 m ≡ some m) ⊎ (checked_i128 m ≡ none)
unfolding checked_i128
checked-cases (pos n) = elim (Bool-cases (ltb n (2 ^ 127))) [
  | inl e ↦ inl (rw e)
  | inr e ↦ inr (rw e)
]
checked-cases (ℤ.negsuc n) = elim (Bool-cases (ltb n (2 ^ 127))) [
  | inl e ↦ inl (rw e)
  | inr e ↦ inr (rw e)
]

-- A checked operation that succeeds passes the exact value on.
bind_checked {ℓ} :
    {B : Type ℓ} (m : ℤ) (f : ℤ → Option B) {b : B} → (checked_i128 m >>= f) ≡ some b → f m ≡ some b
bind_checked m f h =
    let (m', e, r) = bind_some (checked_i128 m) f h in ap f (sym (checked-some m e)) ∙ r

-- What fits the `i128` path is what `fit` gives.
try_decimal-fit : (m : ℤ) (s : ℕ) (d : Decimal) → try_decimal m s ≡ some d → fit m s ≡ ok d
unfolding try_decimal
try_decimal-fit m s d h =
    let lo : s ≤ 28 = ground arith in
    let hi : abs m < limit_96 = ground arith in
    let e : record { mantissa = m; scale = s } ≡ d = ground arith in fit-settled m s lo hi ∙ ap ok e

fast_add-fit :
    (a b : Decimal) (negate_b : Bool) (d : Decimal)
    → fast_add a b negate_b ≡ some d
    → fit (wide_sum a b negate_b) (max a.scale b.scale) ≡ ok d
unfolding fast_add wide_sum
fast_add-fit a b negate_b d h =
    let s = max a.scale b.scale in
    let pa = pos (10 ^ (s - a.scale)) in
    let pb = pos (10 ^ (s - b.scale)) in
    let ma = a.mantissa *ℤ pa in
    let mb = b.mantissa *ℤ pb in
    try_decimal-fit _ s d (
      ground (
        arith,
        checked-cases pa,
        checked-cases ma,
        checked-cases pb,
        checked-cases mb,
        checked-cases (-ℤ◌ mb),
        checked-cases (ma +ℤ mb),
        checked-cases (ma +ℤ -ℤ◌ mb),
      ))

fast_mul-fit :
    (a b : Decimal) (d : Decimal)
    → fast_mul a b ≡ some d
    → fit (a.mantissa *ℤ b.mantissa) (a.scale + b.scale) ≡ ok d
unfolding fast_mul
fast_mul-fit a b d h =
    try_decimal-fit _ _ d
      (bind_checked (a.mantissa *ℤ b.mantissa) (λ m. try_decimal m (a.scale + b.scale)) h)

-- The fast path is only a shortcut where it agrees with the wide one.
or_else-absorb :
    (o : Option Decimal) (a b : Decimal) (op : NumericOp) (r : Result _ Decimal)
    → ((d : Decimal) → o ≡ some d → r ≡ ok d)
    → or_else o (with_error a op b r) ≡ with_error a op b r
unfolding or_else with_error
or_else-absorb none a b op r h = refl
or_else-absorb (some d) a b op r h = rw (h d refl)

-- `try_add`, `try_sub` and `try_mul` are `fit` of the exact sum, difference and product, with the
-- error's operands: which of the two paths an operation takes never shows.
pub try_ops-fit :
    (a b : Decimal)
    → (try_add a b ≡ with_error a add b (fit (wide_sum a b false) (max a.scale b.scale)))
      × (try_sub a b ≡ with_error a sub b (fit (wide_sum a b true) (max a.scale b.scale)))
      × (try_mul a b ≡ with_error a mul b (fit (a.mantissa *ℤ b.mantissa) (a.scale + b.scale)))
unfolding try_add try_sub try_mul wide_add
try_ops-fit a b = (
  or_else-absorb (fast_add a b false) a b add _ (fast_add-fit a b false),
  or_else-absorb (fast_add a b true) a b sub _ (fast_add-fit a b true),
  or_else-absorb (fast_mul a b) a b mul _ (fast_mul-fit a b),
)

-- The third decimal is in range and exactly the product of the first two.
abbrev pub IsProduct : Decimal → Decimal → Decimal → Type 0
IsProduct a b c = InRange c × IsValue (a.mantissa *ℤ b.mantissa) (a.scale + b.scale) c

with_error-ok :
    (a b : Decimal) (op : NumericOp) (r : Result NumericErrorKind Decimal) {d : Decimal}
    → Path (Result NumericError Decimal) (with_error a op b r) (ok d)
    → r ≡ ok d
unfolding with_error
with_error-ok a b op (ok c) h = ap ok (ok_inj h)
with_error-ok a b op (err e) h = cc

pub try_mul-IsProduct : (a b c : Decimal) → try_mul a b ≡ ok c → IsProduct a b c
try_mul-IsProduct a b c h =
    let wide = (try_ops-fit a b).2 in
    fit-exact (a.mantissa *ℤ b.mantissa) (a.scale + b.scale) c
      (with_error-ok a b mul _ (sym wide ∙ h))

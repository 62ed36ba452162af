-- ===== src/Decimal/Exact.antt =====
-- `fit` of decimal.rs holds a value exactly or refuses it, and refuses only what no decimal holds.
use native.Mathlib.Nat.{pow-suc, pow-zero, zero-add, mul-div_cancel}
use native.Mathlib.Decide.{dec_le}
use mlmforge.Prelude.{
  ◌≢◌, ℕ, zero, suc, ◌+◌, ◌-◌, ◌*◌, ◌/◌, ◌%◌, ◌^◌, ◌≤◌, ◌<◌, ◌≡◌, refl, sym, ap, ◌∙◌, true, false,
  not, ◌&&◌, ◌||◌, arith, ltb, ◌==◌, Bool-cases, inl, inr,
}
use mlmforge.Prelude.Int.{ℤ, pos, negsuc, abs, is_negative, signed, abs-signed}
use mlmforge.Prelude.Results.{ok}
use mlmforge.Decimal.{Decimal, max_scale, limit_96, fits_96_bits, settle, fit}

-- The decimal is within the range that is held.
abbrev pub InRange : Decimal → Type 0
InRange d = (d.scale ≤ 28) × (abs d.mantissa < limit_96)

-- The decimal is the value m / 10 ^ s.
abbrev pub IsValue : ℤ → ℕ → Decimal → Type 0
IsValue m s d =
    (is_negative d.mantissa ≡ is_negative m) × (abs d.mantissa * 10 ^ s ≡ abs m * 10 ^ d.scale)

pub settle-ok :
    (m : ℤ) (s : ℕ) (d : Decimal)
    → settle m s ≡ ok d
    → (d ≡ record { mantissa = m; scale = s }) × (s ≤ 28) × (abs m < limit_96)
unfolding settle
settle-ok m s d h = ground arith

tenth_sign :
    (m : ℤ) → abs m % 10 ≡ 0 → is_negative (signed (is_negative m) (abs m / 10)) ≡ is_negative m
tenth_sign (pos n) h = refl
tenth_sign (negsuc n) h = go (suc n / 10) refl
  where
    go : (q : ℕ) → suc n / 10 ≡ q → is_negative (signed true q) ≡ true
    go zero e = absurd (omega arith)
    go (suc q) e = refl

-- What `fit` holds is in range and is the exact value.
pub fit-exact : (m : ℤ) (s : ℕ) (d : Decimal) → fit m s ≡ ok d → InRange d × IsValue m s d
unfolding fit
fit-exact m zero d h = let (e, lo, hi) = settle-ok m zero d h in rw e ((lo, hi), (refl, refl))
fit-exact m (suc s) d h =
    elim (Bool-cases ((ltb max_scale (suc s) || not (fits_96_bits m)) && (abs m % 10 == 0))) [
      | inl c ↦
          let m' = signed (is_negative m) (abs m / 10) in
          let (range, same) = fit-exact m' s d (rw (c, fit) at h) in
          let round : abs m % 10 ≡ 0 = ground arith in
          let size = abs-signed (is_negative m) (abs m / 10) in
          let up : abs d.mantissa * 10 ^ suc s ≡ 10 * (abs d.mantissa * 10 ^ s) =
            rw (pow-suc 10 s) (omega arith) in
          let down : abs m * 10 ^ d.scale ≡ 10 * (abs m' * 10 ^ d.scale) =
            let whole : abs m ≡ 10 * (abs m / 10) = omega arith in
            rw size (ap (λ (t : ℕ). t * 10 ^ d.scale) whole ∙ omega arith) in
          (range, (same.0 ∙ tenth_sign m round, up ∙ ap (λ (t : ℕ). 10 * t) same.1 ∙ sym down))
      | inr c ↦
          let (e, lo, hi) = settle-ok m (suc s) d (rw (c, fit) at h) in
          rw e ((lo, hi), (refl, refl))
    ]

-- A value that is in range is held as it is.
pub fit-settled :
    (m : ℤ) (s : ℕ) → s ≤ 28 → abs m < limit_96 → fit m s ≡ ok (record { mantissa = m; scale = s })
unfolding fit
fit-settled m zero lo hi = ground arith
fit-settled m (suc s) lo hi = ground arith

pub pow_add : (n a b : ℕ) → n ^ (a + b) ≡ n ^ a * n ^ b
pow_add n zero b = rw (zero-add b, pow-zero n) (omega arith)
pow_add n (suc a) b =
    let e : suc a + b ≡ suc (a + b) = omega arith in
    rw (e, pow-suc n (a + b), pow-suc n a, pow_add n a b) (omega arith)

pub pow_pos : (n : ℕ) → 1 ≤ 10 ^ n
pow_pos zero = omega arith
pow_pos (suc n) = rw (pow-suc 10 n) (omega (arith, pow_pos n))

le_mul : (a p : ℕ) → 1 ≤ p → a ≤ a * p
le_mul a p h = grind arith

pub mul_cancel : (x y p : ℕ) → 1 ≤ p → x * p ≡ y * p → x ≡ y
mul_cancel x y p h e = sym (mul-div_cancel x h) ∙ ap (λ (t : ℕ). t / p) e ∙ mul-div_cancel y h

-- A value that ends in no zero is held at its own scale, or not at all.
held_shortest :
    (m : ℤ) (s : ℕ) (d : Decimal)
    → abs m % 10 ≢ 0
    → InRange d
    → IsValue m (suc s) d
    → (suc s ≤ 28) × (abs m < limit_96)
held_shortest m s d odd range v = elim (dec_le (suc s) d.scale) [
  | yes le ↦ longer (d.scale - suc s) (omega arith)
  | no gt ↦ absurd (shorter (s - d.scale) (omega arith))
]
  where
    longer : (k : ℕ) → d.scale ≡ suc s + k → (suc s ≤ 28) × (abs m < limit_96)
    longer k e =
        let split : 10 ^ d.scale ≡ 10 ^ suc s * 10 ^ k = rw e (pow_add 10 (suc s) k) in
        let same : abs d.mantissa * 10 ^ suc s ≡ (abs m * 10 ^ k) * 10 ^ suc s =
          v.1 ∙ ap (λ (t : ℕ). abs m * t) split ∙ omega arith in
        let size =
          mul_cancel (abs d.mantissa) (abs m * 10 ^ k) (10 ^ suc s) (pow_pos (suc s)) same in
        let bound = le_mul (abs m) (10 ^ k) (pow_pos k) in (omega arith, omega arith)

    shorter : (k : ℕ) → suc s ≡ d.scale + suc k → ⊥
    shorter k e =
        let split : 10 ^ suc s ≡ 10 ^ d.scale * 10 ^ suc k = rw e (pow_add 10 d.scale (suc k)) in
        let same : (abs d.mantissa * 10 ^ suc k) * 10 ^ d.scale ≡ abs m * 10 ^ d.scale =
          (omega arith ∙ ap (λ (t : ℕ). abs d.mantissa * t) (sym split)) ∙ v.1 in
        let size : abs d.mantissa * 10 ^ suc k ≡ abs m =
          mul_cancel _ _ (10 ^ d.scale) (pow_pos d.scale) same in
        let ten : 10 * (abs d.mantissa * 10 ^ k) ≡ abs m =
          (omega arith ∙ ap (λ (t : ℕ). abs d.mantissa * t) (sym (pow-suc 10 k))) ∙ size in
        odd (omega arith)

settle-kept :
    (m : ℤ) (s : ℕ)
    → s ≤ 28
    → abs m < limit_96
    → settle m s ≡ ok (record { mantissa = m; scale = s })
unfolding settle
settle-kept m s lo hi = ground arith

kept_range :
    (m : ℤ) (s : ℕ) (d : Decimal)
    → ((ltb max_scale (suc s) || not (fits_96_bits m)) && (abs m % 10 == 0)) ≡ false
    → InRange d
    → IsValue m (suc s) d
    → (suc s ≤ 28) × (abs m < limit_96)
unfolding fits_96_bits
kept_range m s d c range v = elim (Bool-cases (abs m % 10 == 0)) [
  | inl e ↦ (ground arith, ground arith)
  | inr e ↦ held_shortest m s d (ground arith) range v
]

-- Whatever some decimal in range holds, `fit` holds.
pub fit_complete :
    (m : ℤ) (s : ℕ) (d : Decimal) → InRange d → IsValue m s d → (e : Decimal) × (fit m s ≡ ok e)
unfolding fit
fit_complete m zero d range v =
    let small = le_mul (abs m) (10 ^ d.scale) (pow_pos d.scale) in
    (_, fit-settled m zero (omega arith) (omega arith))
fit_complete m (suc s) d range v =
    elim (Bool-cases ((ltb max_scale (suc s) || not (fits_96_bits m)) && (abs m % 10 == 0))) [
      | inl c ↦
          let m' = signed (is_negative m) (abs m / 10) in
          let round : abs m % 10 ≡ 0 = ground arith in
          let size = abs-signed (is_negative m) (abs m / 10) in
          let up : abs d.mantissa * 10 ^ suc s ≡ 10 * (abs d.mantissa * 10 ^ s) =
            rw (pow-suc 10 s) (omega arith) in
          let whole : abs m ≡ 10 * abs m' = omega arith in
          let down : abs m * 10 ^ d.scale ≡ 10 * (abs m' * 10 ^ d.scale) =
            ap (λ (t : ℕ). t * 10 ^ d.scale) whole ∙ omega arith in
          rw (c, fit)
            (fit_complete m' s d range (v.0 ∙ sym (tenth_sign m round), omega (arith, v.1)))
      | inr c ↦
          let range_of = kept_range m s d c range v in
          rw (c, fit) (_, settle-kept m (suc s) range_of.0 range_of.1)
    ]

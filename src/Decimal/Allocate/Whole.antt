-- ===== src/Decimal/Allocate/Whole.antt =====
-- decimal.rs: the parts of an allocation add up to the cap.
use Prim.Native.Nat.{max}
use mathlib.Core.Path.{subst}
use mlmforge.Prelude.{
  ℕ, zero, suc, ◌+◌, ◌-◌, ◌*◌, ◌/◌, ◌%◌, ◌^◌, ◌≤◌, ◌<◌, ◌≡◌, refl, sym, ap, ◌∙◌, ◌||◌, List, [],
  ◌∷◌, map, ltb, ◌==◌, length, length-map, get_or, set, range, sum_over, arith, All, Bool-cases,
  inl, inr, sum_over-set, length-set, length-range,
}
use mlmforge.Prelude.Int.{pos, abs, is_negative}
use mlmforge.Prelude.Results.{Result, ok, err, bind_ok, ok_inj}
use mlmforge.Decimal.{Decimal, max_scale, NumericErrorKind, NumericError, fit}
use mlmforge.Decimal.Exact.{InRange, IsValue, fit-exact, pow_add, pow_pos, mul_cancel}
use mlmforge.Decimal.Allocate.{
  any_negative, common_scale, at_common, served_before, insert_served, sort_served, hand_out,
  allocate_units, fit_units, or_fail, allocate_error, allocate_at, allocate_largest_remainder,
}

abbrev pub sum : List ℕ → ℕ
sum = sum_over λ u. u

abbrev Below : ℕ → List ℕ → Type 0
Below n = All λ i. i < n

insert_served-Below :
    (n : ℕ) (remainders : List ℕ) (a : ℕ) (bs : List ℕ)
    → a < n
    → Below n bs
    → Below n (insert_served remainders a bs)
unfolding insert_served
insert_served-Below n remainders a [] lo h = (lo, tt)
insert_served-Below n remainders a (b ∷ bs) lo (h, hs) =
    elim (Bool-cases (served_before remainders b a)) [
      | inl c ↦ rw c (h, insert_served-Below n remainders a bs lo hs)
      | inr c ↦ rw c (lo, (h, hs))
    ]

sort_served-Below :
    (n : ℕ) (remainders order : List ℕ) → Below n order → Below n (sort_served remainders order)
unfolding sort_served
sort_served-Below n remainders [] h = tt
sort_served-Below n remainders (a ∷ order) (h, hs) =
    insert_served-Below n remainders a (sort_served remainders order) h
      (sort_served-Below n remainders order hs)

length-insert_served :
    (remainders : List ℕ) (a : ℕ) (bs : List ℕ)
    → length (insert_served remainders a bs) ≡ suc (length bs)
unfolding insert_served
length-insert_served remainders a [] = refl
length-insert_served remainders a (b ∷ bs) = elim (Bool-cases (served_before remainders b a)) [
  | inl c ↦ rw c (ap suc (length-insert_served remainders a bs))
  | inr c ↦ rw c
]

length-sort_served :
    (remainders order : List ℕ) → length (sort_served remainders order) ≡ length order
unfolding sort_served
length-sort_served remainders [] = refl
length-sort_served remainders (a ∷ order) =
    length-insert_served remainders a (sort_served remainders order)
    ∙ ap suc (length-sort_served remainders order)

range-Below : (a n : ℕ) → Below (a + n) (range a n)
range-Below a zero = tt
range-Below a (suc n) =
    let e : suc a + n ≡ a + suc n = omega arith in (omega arith, rw e at (range-Below (suc a) n))

-- As many units go out as are left over, if the order is long enough.
sum-hand_out :
    (order : List ℕ) (leftover : ℕ) (units : List ℕ)
    → Below (length units) order
    → leftover ≤ length order
    → sum (hand_out order leftover units) ≡ sum units + leftover
unfolding hand_out
sum-hand_out [] leftover units h le = omega arith
sum-hand_out (i ∷ order) leftover units (h, hs) le = elim (Bool-cases (leftover == 0)) [
  | inl c ↦ rw c (ground arith)
  | inr c ↦
      let one = sum_over-set (λ u. u) units i (get_or units i 0 + 1) 0 h in
      let size = length-set units i (get_or units i 0 + 1) in
      let rest =
        sum-hand_out order (leftover - 1) (set units i (get_or units i 0 + 1)) (rw size hs)
          (ground arith) in
      let some_left : 1 ≤ leftover = ground arith in rw c (omega arith)
]

le_cancel : (x y p : ℕ) → 1 ≤ p → x * p ≤ y * p → x ≤ y
le_cancel x y p h e = grind arith

-- The quotients and the remainders of the shares.
module _ (cap_units total : ℕ) (some_share : 1 ≤ total) where
  abbrev quotients : List ℕ → List ℕ
  quotients = map λ (s : ℕ). s * cap_units / total

  abbrev remainders : List ℕ → List ℕ
  remainders = map λ (s : ℕ). s * cap_units % total

  split_sum :
      (shares : List ℕ)
      → sum shares * cap_units ≡ sum (quotients shares) * total + sum (remainders shares)
  split_sum [] = omega arith
  split_sum (s ∷ shares) =
      let whole : s * cap_units ≡ s * cap_units / total * total + s * cap_units % total =
        grind arith in
      omega (arith, split_sum shares)

  remainders_bound : (shares : List ℕ) → sum (remainders shares) ≤ length shares * total
  remainders_bound [] = omega arith
  remainders_bound (s ∷ shares) =
      let small : s * cap_units % total < total = grind arith in
      omega (arith, remainders_bound shares)

  -- The units that are handed out add up.
  sum-allocate_units :
      (shares : List ℕ)
      → total ≡ sum shares
      → sum (allocate_units shares cap_units total) ≡ cap_units
  unfolding allocate_units
  sum-allocate_units shares is_total =
      let all : total * cap_units ≡ sum (quotients shares) * total + sum (remainders shares) =
        ap (λ (t : ℕ). t * cap_units) is_total ∙ split_sum shares in
      let most : sum (quotients shares) ≤ cap_units =
        le_cancel _ _ total some_share (omega arith) in
      let over = cap_units - sum (quotients shares) in
      let parts : cap_units ≡ sum (quotients shares) + over = omega arith in
      let spread : cap_units * total ≡ sum (quotients shares) * total + over * total =
        ap (λ (t : ℕ). t * total) parts ∙ omega arith in
      let left : over ≤ length shares =
        le_cancel _ _ total some_share (omega (arith, remainders_bound shares)) in
      let size = length-map (λ (s : ℕ). s * cap_units / total) shares in
      let start : 0 + length shares ≡ length shares = omega arith in
      let order = sort_served (remainders shares) (range 0 (length shares)) in
      let below : Below (length shares) order =
        sort_served-Below (length shares) (remainders shares) (range 0 (length shares))
          (rw start at (range-Below 0 (length shares))) in
      let long : length order ≡ length shares =
        length-sort_served (remainders shares) (range 0 (length shares))
        ∙ length-range 0 (length shares) in
      sum-hand_out order over (quotients shares) (subst (λ (n : ℕ). Below n order) (sym size) below)
        (omega arith)
      ∙ omega arith

-- The decimals are the units at that scale, one by one.
abbrev pub AreUnits : ℕ → List ℕ → List Decimal → Type 0
AreUnits scale [] [] = Unit
AreUnits scale [] (d ∷ ds) = ⊥
AreUnits scale (u ∷ us) [] = ⊥
AreUnits scale (u ∷ us) (d ∷ ds) = InRange d × IsValue (pos u) scale d × AreUnits scale us ds

or_fail-ok :
    (fail : NumericErrorKind → NumericError) (r : Result NumericErrorKind Decimal) (d : Decimal)
    → or_fail fail r ≡ ok d
    → r ≡ ok d
unfolding or_fail
or_fail-ok fail (ok d') d h = ap ok (ok_inj h)
or_fail-ok fail (err kind) d h = cc

fit_units-AreUnits :
    (fail : NumericErrorKind → NumericError) (scale : ℕ) (units : List ℕ) (ds : List Decimal)
    → fit_units fail scale units ≡ ok ds
    → AreUnits scale units ds
unfolding fit_units
fit_units-AreUnits fail scale [] ds h = rw (← ok_inj h) tt
fit_units-AreUnits fail scale (u ∷ us) ds h =
    let (d, one, h₁) = bind_ok (or_fail fail (fit (pos u) scale)) _ h in
    let (ds', rest, h₂) = bind_ok (fit_units fail scale us) _ h₁ in
    let (range, value) = fit-exact (pos u) scale d (or_fail-ok fail (fit (pos u) scale) d one) in
    rw (← ok_inj h₂) (range, value, fit_units-AreUnits fail scale us ds' rest)

-- The common scale is as large as every scale asked for.
le-common_scale : (shares : List Decimal) (others : ℕ) → others ≤ common_scale shares others
unfolding common_scale
le-common_scale [] others = omega arith
le-common_scale (s ∷ shares) others = omega (arith, le-common_scale shares others)

-- A whole number of units at the common scale is that number at the unit's own scale.
whole_units :
    (m a b common n : ℕ)
    → a ≤ common
    → b ≤ common
    → m * 10 ^ (common - a) ≡ n * 10 ^ (common - b)
    → m * 10 ^ b ≡ n * 10 ^ a
whole_units m a b common n la lb e =
    let as_a : 10 ^ common ≡ 10 ^ a * 10 ^ (common - a) =
      ap (λ (k : ℕ). 10 ^ k) (omega arith) ∙ pow_add 10 a (common - a) in
    let as_b : 10 ^ common ≡ 10 ^ b * 10 ^ (common - b) =
      ap (λ (k : ℕ). 10 ^ k) (omega arith) ∙ pow_add 10 b (common - b) in
    let left : m * 10 ^ b * 10 ^ (common - b) ≡ m * 10 ^ (common - a) * 10 ^ a =
      omega arith ∙ ap (λ (t : ℕ). m * t) (sym as_b ∙ as_a) ∙ omega arith in
    mul_cancel _ _ (10 ^ (common - b)) (pow_pos (common - b))
      (left ∙ ap (λ (t : ℕ). t * 10 ^ a) e ∙ omega arith)

module _ (shares : List Decimal) (cap : Decimal) (scale : ℕ) (ds : List Decimal) where
  allocate_at-whole :
      (common : ℕ)
      → cap.scale ≤ common
      → scale ≤ common
      → allocate_at shares cap scale common ≡ ok ds
      → (units : List ℕ) × AreUnits scale units ds
        × (sum units * 10 ^ cap.scale ≡ abs cap.mantissa * 10 ^ scale)
  unfolding allocate_at at_common
  allocate_at-whole common lc ls h = elim (Bool-cases (total == 0)) [
    | inl c ↦ absurd (refused _ (rw (c, allocate_at) at h))
    | inr c ↦ elim (Bool-cases (at_common common cap % unit == 0)) [
      | inl w ↦
          let whole : at_common common cap / unit * unit ≡ at_common common cap = grind arith in
          let sums =
            sum-allocate_units (at_common common cap / unit) total (ground arith) parts refl in
          (
            allocate_units parts (at_common common cap / unit) total,
            fit_units-AreUnits (allocate_error shares cap scale) scale _ ds
                (rw (c, allocate_at, w) at h),
            whole_units (sum (allocate_units parts (at_common common cap / unit) total)) scale
                cap.scale common (abs cap.mantissa) ls lc (ap (λ (t : ℕ). t * unit) sums ∙ whole),
          )
      | inr w ↦ absurd (refused _ (rw (c, allocate_at, w) at h))
    ]
  ]
    where
      parts : List ℕ
      parts = map (at_common common) shares

      total : ℕ
      total = sum parts

      unit : ℕ
      unit = 10 ^ (common - scale)

      refused : (e : NumericError) → Path (Result NumericError (List Decimal)) (err e) (ok ds) → ⊥
      refused e p = cc

  -- If an allocation succeeds, its parts are decimals in range, each a whole number of units of
  -- 10 ^ -scale, and the units add up to the cap exactly.
  pub allocate_largest_remainder-whole :
      allocate_largest_remainder shares cap scale ≡ ok ds
      → (units : List ℕ) × AreUnits scale units ds
        × (sum units * 10 ^ cap.scale ≡ abs cap.mantissa * 10 ^ scale)
  unfolding allocate_largest_remainder
  allocate_largest_remainder-whole h = elim (Bool-cases (ltb max_scale scale)) [
    | inl c ↦ absurd (refused _ (rw (c, allocate_largest_remainder) at h))
    | inr c ↦ elim (Bool-cases (is_negative cap.mantissa || any_negative shares)) [
      | inl n ↦ absurd (refused _ (rw (c, allocate_largest_remainder, n) at h))
      | inr n ↦
          let enough = le-common_scale shares (max cap.scale scale) in
          allocate_at-whole (common_scale shares (max cap.scale scale)) (omega arith) (omega arith)
            (rw (c, allocate_largest_remainder, n) at h)
    ]
  ]
    where
      refused : (e : NumericError) → Path (Result NumericError (List Decimal)) (err e) (ok ds) → ⊥
      refused e p = cc

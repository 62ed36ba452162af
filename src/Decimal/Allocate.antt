-- ===== src/Decimal/Allocate.antt =====
-- decimal.rs: `allocate_largest_remainder`. Behind its guard no value is negative, so the `I512` values
-- are natural numbers, and `-` is only used where it does not pass below zero.
pub mod Whole
pub mod Length
use Prim.Native.Nat.{max}
use mlmforge.Prelude.{
  ℕ, zero, suc, ◌+◌, ◌-◌, ◌*◌, ◌/◌, ◌%◌, ◌^◌, Bool, true, false, not, ◌||◌, List, [], ◌∷◌, map, ltb,
  ◌==◌, if◌then◌else◌, length, get_or, set, range, sum_over,
}
use mlmforge.Prelude.Int.{pos, abs, is_negative}
use mlmforge.Prelude.Results.{Result, ok, err, ◌>>=◌}
use mlmforge.Decimal.{
  Decimal, NumericErrorKind, NumericOp, NumericError, allocate, precision, negative,
  division_by_zero, not_whole_units, max_scale, fit, error,
}

unfoldable pub any_negative : List Decimal → Bool
any_negative [] = false
any_negative (s ∷ shares) = is_negative s.mantissa || any_negative shares

-- The largest scale of the shares, the cap and the units.
unfoldable pub common_scale : List Decimal → ℕ → ℕ
common_scale [] others = others
common_scale (s ∷ shares) others = max s.scale (common_scale shares others)

unfoldable pub at_common : ℕ → Decimal → ℕ
at_common common x = abs x.mantissa * 10 ^ (common - x.scale)

-- `remainders[b].cmp(&remainders[a]).then(a.cmp(&b))`
unfoldable pub served_before : List ℕ → ℕ → ℕ → Bool
served_before remainders a b =
    if ltb (get_or remainders b 0) (get_or remainders a 0)
    then true
    else if ltb (get_or remainders a 0) (get_or remainders b 0)
    then false
    else ltb a b

unfoldable pub insert_served : List ℕ → ℕ → List ℕ → List ℕ
unfolding served_before
insert_served remainders a [] = a ∷ []
insert_served remainders a (b ∷ bs) =
    let rest = insert_served remainders a bs in
    if served_before remainders b a then b ∷ rest else a ∷ b ∷ bs

unfoldable pub sort_served : List ℕ → List ℕ → List ℕ
unfolding insert_served
sort_served remainders [] = []
sort_served remainders (a ∷ order) = insert_served remainders a (sort_served remainders order)

-- The loop over the order, one unit to each, until nothing is left over.
unfoldable pub hand_out : List ℕ → ℕ → List ℕ → List ℕ
hand_out [] leftover units = units
hand_out (i ∷ order) leftover units =
    let rest = hand_out order (leftover - 1) (set units i (get_or units i 0 + 1)) in
    if leftover == 0 then units else rest

unfoldable pub allocate_units : List ℕ → ℕ → ℕ → List ℕ
unfolding sort_served hand_out
allocate_units shares cap_units total =
    let units = map (λ (s : ℕ). s * cap_units / total) shares in
    let remainders = map (λ (s : ℕ). s * cap_units % total) shares in
    let order = sort_served remainders (range 0 (length shares)) in
    hand_out order (cap_units - sum_over (λ (u : ℕ). u) units) units

-- `.map_err(error)`
unfoldable pub or_fail :
    (NumericErrorKind → NumericError)
    → Result NumericErrorKind Decimal
    → Result NumericError Decimal
or_fail fail (ok d) = ok d
or_fail fail (err kind) = err (fail kind)

-- The units as decimals, or the first that cannot be held.
unfoldable pub fit_units :
    (NumericErrorKind → NumericError) → ℕ → List ℕ → Result NumericError (List Decimal)
fit_units fail scale [] = ok []
fit_units fail scale (u ∷ units) = do
  d ← or_fail fail (fit (pos u) scale)
  ds ← fit_units fail scale units
  ok (d ∷ ds)

unfoldable pub allocate_error : List Decimal → Decimal → ℕ → NumericErrorKind → NumericError
unfolding error
allocate_error shares cap scale kind =
    error cap (allocate scale) (record { mantissa = pos (length shares); scale = 0 }) kind

unfoldable pub allocate_at : List Decimal → Decimal → ℕ → ℕ → Result NumericError (List Decimal)
allocate_at shares cap scale common =
    let fail = allocate_error shares cap scale in
    let parts = map (at_common common) shares in
    let total = sum_over (λ (s : ℕ). s) parts in
    let unit = 10 ^ (common - scale) in
    if total == 0
    then err (fail division_by_zero)
    else if not (at_common common cap % unit == 0)
    then err (fail not_whole_units)
    else fit_units fail scale (allocate_units parts (at_common common cap / unit) total)

unfoldable pub allocate_largest_remainder :
    List Decimal → Decimal → ℕ → Result NumericError (List Decimal)
unfolding any_negative
allocate_largest_remainder shares cap scale =
    if ltb max_scale scale
    then err (allocate_error shares cap scale precision)
    else if is_negative cap.mantissa || any_negative shares
    then err (allocate_error shares cap scale negative)
    else allocate_at shares cap scale (common_scale shares (max cap.scale scale))

-- ===== src/Commission/Binary/Settle.antt =====
-- commission/binary.rs: the caps and the rounding of the earnings, and what is carried forward.
use mlmforge.Prelude.{
  ℕ, Bool, true, false, not, ◌&&◌, Option, none, some, List, [], ◌∷◌, ◌++◌, map, ◌==◌,
  if◌then◌else◌, is_some,
}
use mlmforge.Prelude.Int.{is_negative}
use mlmforge.Prelude.Results.{Result, ok, err, ◌>>=◌}
use mlmforge.Decimal.{Decimal, NumericError, dec_zero, dec_lt}
use mlmforge.Decimal.Allocate.{allocate_largest_remainder}
use mlmforge.Decimal.Ratio.{sum_exceeds}
use mlmforge.Commission.Types.{CalculationError, negative_cap, cap_not_whole_minor_units}
use mlmforge.Commission.Finalize.{Cmp, then_with, cmp_ℕ, sort_by}
use mlmforge.Commission.Binary.Config.{
  MultiPositionCapMode, per_position, aggregate, LegVolumes, BinaryCommissionEarning,
}

-- `Ord::min` and `Ord::max`
unfoldable pub dec_min : Decimal → Decimal → Decimal
unfolding dec_lt
dec_min a b = if dec_lt b a then b else a

unfoldable pub dec_max : Decimal → Decimal → Decimal
unfolding dec_lt
dec_max a b = if dec_lt b a then a else b

abbrev pub compare_binary : BinaryCommissionEarning → BinaryCommissionEarning → Cmp
compare_binary a b = then_with (cmp_ℕ a.earner_id b.earner_id) (cmp_ℕ a.position_id b.position_id)

unfoldable pub sort_binary : List BinaryCommissionEarning → List BinaryCommissionEarning
unfolding sort_by
sort_binary = sort_by compare_binary

-- An element joins the first of the groups if it has its earner.
abbrev pub join_group :
    BinaryCommissionEarning
    → List (List BinaryCommissionEarning)
    → List (List BinaryCommissionEarning)
join_group e [] = (e ∷ []) ∷ []
join_group e ([] ∷ groups) = (e ∷ []) ∷ groups
join_group e ((f ∷ group) ∷ groups) =
    if e.earner_id == f.earner_id then (e ∷ f ∷ group) ∷ groups else (e ∷ []) ∷ (f ∷ group) ∷ groups

-- `chunk_by_mut(|a, b| a.earner_id == b.earner_id)`
unfoldable pub chunk_by_earner : List BinaryCommissionEarning → List (List BinaryCommissionEarning)
chunk_by_earner [] = []
chunk_by_earner (e ∷ earnings) = join_group e (chunk_by_earner earnings)

abbrev pub amounts : List BinaryCommissionEarning → List Decimal
amounts = map λ e. e.dollar_amount

-- `for (e, amount) in group.iter_mut().zip(amounts)`
unfoldable pub with_amounts :
    Bool → List BinaryCommissionEarning → List Decimal → List BinaryCommissionEarning
with_amounts mark [] shares = []
with_amounts mark (e ∷ group) [] = e ∷ group
with_amounts mark (e ∷ group) (amount ∷ shares) =
    record e { dollar_amount = amount; capped = if mark then true else e.capped }
    ∷ with_amounts mark group shares

module _ (round_minor : Decimal → ℕ → Decimal) where
  abbrev pub rounded : ℕ → Decimal → Decimal
  rounded minor_units a = round_minor a minor_units

  unfoldable pub settle_group :
      Decimal
      → ℕ
      → List BinaryCommissionEarning
      → Result NumericError (List BinaryCommissionEarning)
  unfolding sum_exceeds with_amounts allocate_largest_remainder
  settle_group cap minor_units group =
      let raw = amounts group in
      let whole = map (rounded minor_units) raw in
      let settled = allocate_largest_remainder raw cap minor_units >>= λ shares.
      ok (with_amounts true group shares) in
      if not (sum_exceeds raw cap) && not (sum_exceeds whole cap)
      then ok (with_amounts false group whole)
      else settled

  unfoldable pub settle_groups :
      Decimal
      → ℕ
      → List (List BinaryCommissionEarning)
      → Result NumericError (List BinaryCommissionEarning)
  unfolding settle_group
  settle_groups cap minor_units [] = ok []
  settle_groups cap minor_units (group ∷ groups) = do
    first ← settle_group cap minor_units group
    rest ← settle_groups cap minor_units groups
    ok (first ++ rest)

  unfoldable pub apply_aggregate_cap :
      List BinaryCommissionEarning
      → Decimal
      → ℕ
      → Result NumericError (List BinaryCommissionEarning)
  unfolding sort_binary chunk_by_earner settle_groups
  apply_aggregate_cap earnings cap minor_units =
      settle_groups cap minor_units (chunk_by_earner (sort_binary earnings))

  unfoldable pub finalize_earnings :
      List BinaryCommissionEarning
      → Option Decimal
      → ℕ
      → Result NumericError (List BinaryCommissionEarning)
  unfolding apply_aggregate_cap
  finalize_earnings earnings (some cap) minor_units = apply_aggregate_cap earnings cap minor_units
  finalize_earnings earnings none minor_units = ok (
      map
        (λ (e : BinaryCommissionEarning). record e {
          dollar_amount = round_minor e.dollar_amount minor_units;
        })
        earnings)

  abbrev pub is_same : Decimal → Decimal → Bool
  unfolding dec_lt
  is_same a b = not (dec_lt a b) && not (dec_lt b a)

  unfoldable pub check_cap : Option Decimal → ℕ → ℕ → Result CalculationError (Unit {0})
  unfolding dec_lt
  check_cap none base_currency minor_units = ok tt
  check_cap (some cap) base_currency minor_units =
      if is_negative cap.mantissa
      then err (negative_cap cap)
      else if not (is_same (round_minor cap minor_units) cap)
      then err (cap_not_whole_minor_units cap base_currency)
      else ok tt

-- Aggregate mode needs an ownership map.
abbrev pub use_aggregate : MultiPositionCapMode → Option (List (ℕ × ℕ)) → Bool
use_aggregate per_position ownership = false
use_aggregate aggregate ownership = is_some ownership

-- `.filter(|_| use_aggregate_cap)`
abbrev pub aggregate_cap : Bool → Option Decimal → Option Decimal
aggregate_cap held cap = if held then cap else none

-- A position's amount against the cap on each position, with the flag.
unfoldable pub cap_amount : Bool → Option Decimal → Decimal → Decimal × Bool
unfolding dec_lt
cap_amount held none amount = (amount, false)
cap_amount held (some cap) amount =
    if not held && dec_lt cap amount then (cap, true) else (amount, false)

abbrev pub cap_leg : Option Decimal → Decimal → Decimal
unfolding dec_min
cap_leg none volume = volume
cap_leg (some cap) volume = dec_min volume cap

-- What is carried of the legs that are left.
unfoldable pub carried : Option Decimal → LegVolumes → LegVolumes
unfolding dec_max dec_min
carried cap legs = record {
  left = dec_max (cap_leg cap legs.left) dec_zero;
  right = dec_max (cap_leg cap legs.right) dec_zero;
}

-- ===== src/Commission/Binary/Config.antt =====
-- config/binary.rs and the binary data of commission/types.rs.
use mlmforge.Prelude.{ℕ, Bool, not, Option, none, some, List, [], ◌∷◌, if◌then◌else◌}
use mlmforge.Prelude.Int.{is_negative}
use mlmforge.Prelude.Results.{Result, ok, err, ◌>>=◌}
use mlmforge.Decimal.{Decimal, dec_zero, dec_lt}
use mlmforge.Commission.Types.{
  ConfigMessage, no_steps, threshold_not_positive, amount_not_positive, duplicate_threshold,
  net_off_unsupported, negative_period_cap, negative_carry_cap,
}
use mlmforge.Commission.Finalize.{Cmp, less, equal, greater, sort_by}

pub data PairingCalculation : Type 0 where
  weaker_leg volume_ratio : PairingCalculation

pub data VolumeAfterPayout : Type 0 where
  full_flush net_off carry_forward : VolumeAfterPayout

pub data MultiPositionCapMode : Type 0 where
  per_position aggregate : MultiPositionCapMode

pub record PairingConfig : Type 0 where
  pub percent : Decimal
  pub calculation : PairingCalculation
  pub cap_per_period : Option Decimal
  pub volume_after_payout : VolumeAfterPayout
  pub carry_forward_cap : Option Decimal
  pub multi_position_cap_mode : MultiPositionCapMode

pub record CycleStep : Type 0 where
  pub threshold : Decimal
  pub amount : Decimal

pub record CycleStepConfig : Type 0 where
  pub steps : List CycleStep
  pub volume_after_cycle : VolumeAfterPayout
  pub cap_per_period : Option Decimal
  pub carry_forward_cap : Option Decimal
  pub multi_position_cap_mode : MultiPositionCapMode

pub data BinaryCommissionMode : Type 0 where
  pairing : PairingConfig → BinaryCommissionMode
  cycle_step : CycleStepConfig → BinaryCommissionMode

pub record BinaryCommissionConfig : Type 0 where
  pub volume_to_dollar_multiplier : Option Decimal
  pub mode : BinaryCommissionMode

pub record LegVolumes : Type 0 where
  pub left : Decimal
  pub right : Decimal

pub record BinaryCommissionEarning : Type 0 where
  pub earner_id : ℕ
  pub position_id : ℕ
  pub left_volume : Decimal
  pub right_volume : Decimal
  pub matched_volume : Decimal
  pub ratio : Decimal
  pub percent : Decimal
  pub dollar_amount : Decimal
  pub capped : Bool

pub record BinaryCalculationResult : Type 0 where
  pub earnings : List BinaryCommissionEarning
  pub carry_forward : List (ℕ × LegVolumes)

-- The order of decimals.
abbrev pub cmp_dec : Decimal → Decimal → Cmp
unfolding dec_lt
cmp_dec a b = if dec_lt a b then less else if dec_lt b a then greater else equal

-- The loop over the steps, in their given order.
unfoldable pub check_positive : List CycleStep → Result ConfigMessage (Unit {0})
unfolding dec_lt
check_positive [] = ok tt
check_positive (step ∷ steps) =
    let rest = check_positive steps in
    if not (dec_lt dec_zero step.threshold)
    then err threshold_not_positive
    else if not (dec_lt dec_zero step.amount)
    then err amount_not_positive
    else rest

-- The loop over each two neighbours.
unfoldable pub check_neighbours : CycleStep → List CycleStep → Result ConfigMessage (Unit {0})
check_neighbours a [] = ok tt
check_neighbours a (b ∷ steps) =
    let rest = check_neighbours b steps in
    elim (cmp_dec a.threshold b.threshold) [
      | equal ↦ err (duplicate_threshold a.threshold)
      | _ ↦ rest
    ]

unfoldable pub check_distinct : List CycleStep → Result ConfigMessage (Unit {0})
unfolding check_neighbours
check_distinct [] = ok tt
check_distinct (a ∷ steps) = check_neighbours a steps

abbrev pub refuse_net_off : VolumeAfterPayout → Result ConfigMessage (Unit {0})
refuse_net_off net_off = err net_off_unsupported
refuse_net_off full_flush = ok tt
refuse_net_off carry_forward = ok tt

abbrev pub refuse_negative : ConfigMessage → Option Decimal → Result ConfigMessage (Unit {0})
refuse_negative message none = ok tt
refuse_negative message (some cap) = if is_negative cap.mantissa then err message else ok tt

abbrev pub refuse_empty : List CycleStep → Result ConfigMessage (Unit {0})
refuse_empty [] = err no_steps
refuse_empty (step ∷ steps) = ok tt

unfoldable pub sort_steps : List CycleStep → List CycleStep
unfolding sort_by
sort_steps = sort_by λ a b. cmp_dec a.threshold b.threshold

-- `validate` also leaves the steps sorted.
unfoldable pub validate : CycleStepConfig → Result ConfigMessage CycleStepConfig
unfolding check_positive check_distinct sort_steps
validate config = do
  filled ← refuse_empty config.steps
  positive ← check_positive config.steps
  distinct ← check_distinct (sort_steps config.steps)
  handled ← refuse_net_off config.volume_after_cycle
  capped ← refuse_negative negative_period_cap config.cap_per_period
  carried ← refuse_negative negative_carry_cap config.carry_forward_cap
  ok (record config { steps = sort_steps config.steps })

-- ===== src/Commission/Binary/Paid.antt =====
-- commission/binary.rs: whom a whole calculation pays, and how much.
use mlmforge.Prelude.{ℕ, ◌≡◌, Bool, Option, some, List}
use mlmforge.Prelude.Assoc.{contains_key}
use mlmforge.Prelude.Results.{Result, ok}
use mlmforge.Decimal.{Decimal}
use mlmforge.Tree.Binary.{BinaryTree}
use mlmforge.Commission.Types.{DistributorSnapshot, VolumeSource, CalculationError}
use mlmforge.Commission.Walk.{unwrap_or}
use mlmforge.Commission.Unilevel.{CompensationPlan}
use mlmforge.Commission.Binary.Config.{
  CycleStepConfig, MultiPositionCapMode, BinaryCommissionMode, pairing, cycle_step, LegVolumes,
  validate,
}
use mlmforge.Commission.Binary.Settle.{use_aggregate}
use mlmforge.Commission.Binary.{BinaryStructureConfig, owner_is_eligible, prepare}
use mlmforge.Prelude.{true}
use mlmforge.Commission.Binary.Config.{BinaryCommissionEarning}
use mlmforge.Commission.Binary.Earned.{legs_of, IsRawCycle, IsSettled}
use mlmforge.Commission.Binary.Priced.{IsOwner, IsEligible, IsWeaker, IsWorth}

module _ (minor_units_of : ℕ → Option ℕ) (round_minor : Decimal → ℕ → Decimal)
    (checked_div : Decimal → Decimal → Option Decimal) (round_even : Decimal → ℕ → Decimal)
    (normalize : Decimal → Decimal) (tree : BinaryTree) (plan : CompensationPlan)
    (snapshots : List (ℕ × DistributorSnapshot)) (volume : List VolumeSource)
    (carry_forward : List (ℕ × LegVolumes)) (ownership : Option (List (ℕ × ℕ))) where
  abbrev eligible : ℕ → Bool
  eligible =
      owner_is_eligible minor_units_of round_minor checked_div round_even normalize tree plan
        snapshots volume carry_forward ownership

  abbrev prepared : Option Decimal → ℕ → Result CalculationError (List (ℕ × LegVolumes))
  prepared =
      prepare minor_units_of round_minor checked_div round_even normalize tree plan snapshots volume
        carry_forward ownership

  abbrev is_in : ℕ → Bool
  is_in x = contains_key x tree.arena.index

  -- An earning is of a position in the tree, for its owner, who is eligible, on the weaker leg.
  abbrev pub IsEarner : BinaryCommissionEarning → Type 0
  IsEarner e =
      (contains_key e.position_id tree.arena.index ≡ true)
      × IsOwner ownership e.position_id e.earner_id
      × IsEligible snapshots plan.eligibility e.earner_id
      × IsWeaker e.left_volume e.right_volume e.matched_volume

  -- What is paid for the worth of the legs that it reports, by the caps and the currency's minor units.
  abbrev pub IsPaidFor :
      (LegVolumes → Decimal → Type 0)
      → MultiPositionCapMode
      → Option Decimal
      → BinaryCommissionEarning
      → Type 0
  IsPaidFor IsRaw mode cap e =
      (minor_units : ℕ) × (raw : Decimal) × (minor_units_of plan.base_currency ≡ some minor_units)
      × IsRaw (legs_of e) raw
      × IsSettled round_minor minor_units (use_aggregate mode ownership) cap raw e.dollar_amount
          e.capped

  -- The amount by the mode: of a pairing, the worth of the legs; by cycles, what `run_cycles` gives for
  -- them, by the configuration that passes the validation.
  abbrev pub IsPricedBy : BinaryCommissionMode → Decimal → BinaryCommissionEarning → Type 0
  IsPricedBy (pairing config) multiplier e =
      IsPaidFor
        (IsWorth checked_div round_even normalize config.percent multiplier config.calculation)
        config.multi_position_cap_mode config.cap_per_period e
  IsPricedBy (cycle_step given) multiplier e =
      (config : CycleStepConfig) × (validate given ≡ ok config)
      × IsPaidFor (IsRawCycle config) config.multi_position_cap_mode config.cap_per_period e

  abbrev pub IsPaidHere : BinaryStructureConfig → BinaryCommissionEarning → Type 0
  IsPaidHere structure e =
      IsEarner e
      × IsPricedBy structure.binary_commission.mode
          (unwrap_or plan.volume_to_dollar_multiplier
            structure.binary_commission.volume_to_dollar_multiplier)
          e

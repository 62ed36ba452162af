-- ===== src/Commission/Binary.antt =====
-- commission/binary.rs: the binary calculators, pairing and cycles. Their parts are in the children.
pub mod Config
pub mod Prep
pub mod Settle
pub mod Pairing
pub mod CycleStep
pub mod Carried
pub mod Keys
pub mod NextPeriod
pub mod Earned
pub mod Settled
pub mod Priced
pub mod Paid
pub mod Examples
use mlmforge.Prelude.{ℕ, Bool, false, Option, List, [], map}
use mlmforge.Prelude.Assoc.{lookup}
use mlmforge.Prelude.Results.{Result, ok, err, ◌>>=◌}
use mlmforge.Decimal.{Decimal}
use mlmforge.Tree.Binary.{BinaryTree}
use mlmforge.Commission.Types.{
  DistributorSnapshot, VolumeSource, CalculationError, config_error, ConfigMessage,
}
use mlmforge.Commission.Checks.{validate_snapshots}
use mlmforge.Commission.Walk.{unwrap_or, from_numeric}
use mlmforge.Commission.Finalize.{plan_minor_units}
use mlmforge.Commission.Unilevel.{CompensationPlan}
use mlmforge.Commission.Binary.Config.{
  PairingConfig, CycleStepConfig, BinaryCommissionMode, pairing, cycle_step, BinaryCommissionConfig,
  LegVolumes, BinaryCalculationResult, validate,
}
use mlmforge.Commission.Binary.Prep.{
  resolve_owner, aggregate_volume, evaluate_eligibility, accumulate_leg_volumes, check_carried_legs,
  sorted_positions,
}
use mlmforge.Commission.Binary.Settle.{
  use_aggregate, aggregate_cap, check_cap, finalize_earnings, sort_binary,
}
use mlmforge.Commission.Binary.Pairing.{check_percent, pair_each, carry_each}
use mlmforge.Commission.Binary.CycleStep.{cycle_each, carry_cycles}

pub record BinaryStructureConfig : Type 0 where
  pub name : ℕ
  pub binary_commission : BinaryCommissionConfig

-- `.map_err(CalculationError::ConfigError)`
abbrev pub from_config :
    Result ConfigMessage CycleStepConfig → Result CalculationError CycleStepConfig
from_config (ok config) = ok config
from_config (err message) = err (config_error message)

-- What is the same of every calculation.
module _ (minor_units_of : ℕ → Option ℕ) (round_minor : Decimal → ℕ → Decimal)
    (checked_div : Decimal → Decimal → Option Decimal) (round_even : Decimal → ℕ → Decimal)
    (normalize : Decimal → Decimal) (tree : BinaryTree) (plan : CompensationPlan)
    (snapshots : List (ℕ × DistributorSnapshot)) (volume : List VolumeSource)
    (carry_forward : List (ℕ × LegVolumes)) (ownership : Option (List (ℕ × ℕ))) where
  -- Whether the owner of a position is eligible.
  abbrev pub owner_is_eligible : ℕ → Bool
  unfolding evaluate_eligibility resolve_owner unwrap_or lookup
  owner_is_eligible uid =
      unwrap_or false
        (lookup (resolve_owner ownership uid) (evaluate_eligibility snapshots plan.eligibility))

  -- The checks of the inputs, and then the legs of each position.
  unfoldable pub prepare : Option Decimal → ℕ → Result CalculationError (List (ℕ × LegVolumes))
  unfolding check_cap check_carried_legs resolve_owner aggregate_volume from_numeric
      accumulate_leg_volumes
  prepare cap minor_units = do
    whole ← check_cap round_minor cap plan.base_currency minor_units
    carried ← check_carried_legs carry_forward
    valid ←
        validate_snapshots plan.ranks snapshots
          (map (λ (entry : ℕ × ℕ). resolve_owner ownership entry.0) tree.arena.index)
    totals ← aggregate_volume tree snapshots volume ownership
    from_numeric (accumulate_leg_volumes tree totals carry_forward)

  unfoldable pub calculate_pairing :
      PairingConfig → Decimal → Result CalculationError BinaryCalculationResult
  unfolding check_percent prepare pair_each carry_each finalize_earnings from_numeric sort_binary
      sorted_positions resolve_owner
  calculate_pairing config multiplier =
      let held = use_aggregate config.multi_position_cap_mode ownership in
      do
        valid ← check_percent config
        minor_units ← plan_minor_units minor_units_of plan.base_currency
        working ← prepare config.cap_per_period minor_units
        let positions = sorted_positions working
        paired ← from_numeric (
            pair_each checked_div round_even normalize config multiplier held
              (resolve_owner ownership) owner_is_eligible working positions)
        earnings ← from_numeric (
            finalize_earnings round_minor paired (aggregate_cap held config.cap_per_period)
              minor_units)
        next ← from_numeric (carry_each config owner_is_eligible working [] positions)
        ok (record { earnings = sort_binary earnings; carry_forward = next })

  unfoldable pub calculate_binary_cycle_step :
      CycleStepConfig → Result CalculationError BinaryCalculationResult
  unfolding validate prepare cycle_each carry_cycles finalize_earnings from_numeric sort_binary
      sorted_positions resolve_owner
  calculate_binary_cycle_step given = do
    config ← from_config (validate given)
    minor_units ← plan_minor_units minor_units_of plan.base_currency
    working ← prepare config.cap_per_period minor_units
    let held = use_aggregate config.multi_position_cap_mode ownership
    cycled ← from_numeric (
        cycle_each config held (resolve_owner ownership) owner_is_eligible working []
          (sorted_positions working))
    earnings ← from_numeric (
        finalize_earnings round_minor cycled.1 (aggregate_cap held config.cap_per_period)
          minor_units)
    ok (record {
      earnings = sort_binary earnings;
      carry_forward =
          carry_cycles config cycled.0 [] (map (λ (entry : ℕ × LegVolumes). entry.0) working);
    })

  unfoldable pub calculate_binary_pairing :
      BinaryStructureConfig → Result CalculationError BinaryCalculationResult
  unfolding calculate_pairing calculate_binary_cycle_step unwrap_or
  calculate_binary_pairing structure = elim structure.binary_commission.mode [
    | pairing config ↦ calculate_pairing config (
        unwrap_or plan.volume_to_dollar_multiplier
          structure.binary_commission.volume_to_dollar_multiplier)
    | cycle_step config ↦ calculate_binary_cycle_step config
  ]

-- ===== src/Commission/Unilevel.antt =====
-- commission/unilevel.rs: the unilevel calculator.
pub mod Resolution
use mlmforge.Prelude.{ℕ, false, Option, none, some, List, []}
use mlmforge.Prelude.Results.{Result, ok, ◌>>=◌}
use mlmforge.Decimal.{Decimal}
use mlmforge.Tree.Navigator.{TreeNavigator}
use mlmforge.Commission.Types.{
  DistributorSnapshot, VolumeSource, CalculationError, LevelCommissionConfig, CompressionConfig,
  CommissionEligibility, PassUpConfig, RankDefinition, PlanIdentity, CommissionCalculationResult,
}
use mlmforge.Commission.Eligibility.{
  evaluate_eligibility, build_pass_up_context, build_rank_ordinals, resolve_threshold_ordinal,
}
use mlmforge.Commission.Checks.{validate_snapshots}
use mlmforge.Commission.Walk.{LevelWalkConfig, unwrap_or, walk_level_commissions}
use mlmforge.Commission.Finalize.{plan_minor_units, assemble}

-- What the calculator reads of the plan.
pub record CompensationPlan : Type 0 where
  pub base_currency : ℕ
  pub volume_to_dollar_multiplier : Decimal
  pub ranks : List RankDefinition
  pub eligibility : CommissionEligibility

pub record UnilevelStructureConfig : Type 0 where
  pub name : ℕ
  pub level_commission : LevelCommissionConfig
  pub compression : Option CompressionConfig
  pub pass_up : Option PassUpConfig

unfoldable pub pass_up_context : TreeNavigator → Option PassUpConfig → Option (List (ℕ × List ℕ))
pass_up_context tree none = none
pass_up_context tree (some pu) = some (build_pass_up_context tree pu tree.user_ids)

unfoldable pub walk_config :
    TreeNavigator → CompensationPlan → UnilevelStructureConfig → LevelWalkConfig
unfolding pass_up_context unwrap_or
walk_config tree plan structure = record {
  max_depth = structure.level_commission.max_depth;
  broad_pct = structure.level_commission.broad_commission_percent;
  multiplier =
      unwrap_or plan.volume_to_dollar_multiplier
        structure.level_commission.volume_to_dollar_multiplier;
  compression = structure.compression;
  threshold_ordinal =
      resolve_threshold_ordinal structure.compression (build_rank_ordinals plan.ranks);
  rank_ordinals = build_rank_ordinals plan.ranks;
  rate_table = structure.level_commission.rate_table;
  pass_up = pass_up_context tree structure.pass_up;
  dynamic_thresholds = none;
}

module _ (minor_units_of : ℕ → Option ℕ) (round_minor : Decimal → ℕ → Decimal) where
  -- `ok none` where `assemble` panics.
  unfoldable pub calculate_unilevel :
      TreeNavigator
      → CompensationPlan
      → UnilevelStructureConfig
      → List (ℕ × DistributorSnapshot)
      → List VolumeSource
      → PlanIdentity
      → Result CalculationError (Option CommissionCalculationResult)
  unfolding walk_config
  calculate_unilevel tree plan structure snapshots volume plan_identity = do
    minor_units ← plan_minor_units minor_units_of plan.base_currency
    valid ← validate_snapshots plan.ranks snapshots tree.user_ids
    (earnings, walks) ←
        walk_level_commissions (walk_config tree plan structure)
          (evaluate_eligibility snapshots tree plan.eligibility) snapshots (λ _. false) tree volume
          []
    ok (
        assemble round_minor earnings walks volume (build_rank_ordinals plan.ranks) plan_identity
          minor_units)

-- ===== src/Commission/Types.antt =====
-- commission/types.rs, config/commission.rs and config/eligibility.rs: the data of the calculators.
use mlmforge.Prelude.{ℕ, Bool, Option, List}
use mlmforge.Decimal.{Decimal, NumericError}

-- Point-in-time facts about a distributor. (`AuthoredDec` wraps a decimal.)
pub record DistributorSnapshot : Type 0 where
  pub rank : ℕ
  pub personal_volume : Decimal
  pub status : ℕ
  pub has_order_in_period : Bool

pub record VolumeSource : Type 0 where
  pub source_id : ℕ
  pub cv_amount : Decimal

pub record CommissionEarning : Type 0 where
  pub earner_id : ℕ
  pub source_id : ℕ
  pub level : ℕ
  pub rate : Option Decimal
  pub cv_amount : Decimal
  pub dollar_amount : Decimal
  pub walk : Option ℕ

pub data BinaryLeg : Type 0 where
  left right : BinaryLeg

pub data SpilloverDirection : Type 0 where
  breadth_first depth_first : SpilloverDirection

-- The messages of `CycleStepConfig::validate`.
pub data ConfigMessage : Type 0 where
  no_steps threshold_not_positive amount_not_positive : ConfigMessage
  duplicate_threshold : Decimal → ConfigMessage
  net_off_unsupported negative_period_cap negative_carry_cap : ConfigMessage

pub data CalculationError : Type 0 where
  negative_carried_leg_volume : ℕ → BinaryLeg → Decimal → CalculationError
  source_not_in_tree source_not_in_snapshot upline_not_in_snapshot : ℕ → CalculationError
  distributor_not_in_snapshot : ℕ → CalculationError
  unknown_snapshot_rank : ℕ → ℕ → CalculationError
  invalid_cv_amount invalid_personal_volume : ℕ → Decimal → CalculationError
  config_error : ConfigMessage → CalculationError
  pairing_percent_out_of_range negative_cap : Decimal → CalculationError
  cap_not_whole_minor_units : Decimal → ℕ → CalculationError
  unknown_currency : ℕ → CalculationError
  numeric : NumericError → CalculationError
  tree_config_mismatch : ℕ → ℕ → ℕ → SpilloverDirection → SpilloverDirection → CalculationError

pub data WalkKind : Type 0 where
  level generation : WalkKind

pub data StepOutcome : Type 0 where
  paid forfeited : StepOutcome

pub data WalkStop : Type 0 where
  root_reached max_depth_reached boundary_reached max_generations_reached : WalkStop

pub record WalkStep : Type 0 where
  pub node_id : ℕ
  pub outcome : StepOutcome
  pub consumed : Bool
  pub earner_rank : Option ℕ

pub record Walk : Type 0 where
  pub index : ℕ
  pub source_id : ℕ
  pub kind : WalkKind
  pub stream_id : Option ℕ
  pub rank : Option ℕ
  pub steps : List WalkStep
  pub stop : WalkStop
  pub stopped_at : Option ℕ

pub record PlanIdentity : Type 0 where
  pub name : ℕ
  pub version : ℕ
  pub hash : ℕ

pub record CommissionCalculationResult : Type 0 where
  pub earnings : List CommissionEarning
  pub walks : List Walk
  pub plan : PlanIdentity

pub record LevelCommissionConfig : Type 0 where
  pub broad_commission_percent : Decimal
  pub volume_to_dollar_multiplier : Option Decimal
  pub max_depth : ℕ
  -- A rank's rates by level.
  pub rate_table : List (ℕ × List (ℕ × Decimal))

pub data CompressionMode : Type 0 where
  skip_inactive skip_below_rank : CompressionMode

pub record CompressionConfig : Type 0 where
  pub enabled : Bool
  pub mode : CompressionMode
  pub rank_threshold : Option ℕ

pub record ActiveLegTier : Type 0 where
  pub min_active_legs : ℕ
  pub max_commission_depth : ℕ

pub record CommissionEligibility : Type 0 where
  pub minimum_pv : Decimal
  pub require_order_in_period : Bool
  pub eligible_statuses : List ℕ
  pub active_leg_tiers : List ActiveLegTier

pub record PassUpConfig : Type 0 where
  pub count : ℕ
  pub includes_commissions : Bool

-- What the calculators read of a rank's definition.
pub record RankDefinition : Type 0 where
  pub name : ℕ
  pub ordinal : ℕ

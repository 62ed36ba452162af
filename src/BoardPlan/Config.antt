-- ===== src/BoardPlan/Config.antt =====
-- config/board_plan.rs, and the data of board_plan/types.rs and board_plan/error.rs.
use mlmforge.Prelude.{ℕ, Bool, List, Option}
use mlmforge.Prelude.Int.{ℤ}

pub data ReEntryPosition : Type 0 where
  bottom sponsor_board : ReEntryPosition

-- `cycle_commission` is of the type of amounts, which only the commission calculator reads.
pub record BoardPlanConfig (Amount : Type 0) : Type 0 where
  pub cycle_commission : Amount
  pub re_entry_enabled : Bool
  pub re_entry_position : ReEntryPosition
  pub max_cycles_per_period : ℕ
  pub max_cascade_depth : ℕ
  pub stall_threshold_periods : ℕ
  pub inactive_compression : Bool

pub record CycleEvent : Type 0 where
  pub board_id : ℕ
  pub cycled_member : ℕ
  pub new_boards : List ℕ
  pub re_entry_board : Option ℕ

pub record AddMemberResult : Type 0 where
  pub board_id : ℕ
  pub position : ℕ
  pub cycle_events : List CycleEvent

pub record RemoveMemberResult : Type 0 where
  pub compacted : List ℕ
  pub cycle_events : List CycleEvent

pub record StalledBoard : Type 0 where
  pub board_id : ℕ
  pub last_activity_at : ℤ
  pub filled_positions : ℕ
  pub total_positions : ℕ
  pub members : List ℕ

pub record DissolutionResult : Type 0 where
  pub dissolved_board_id : ℕ
  pub displaced_members : List ℕ
  pub cycle_events : List CycleEvent

pub record CompressedMember : Type 0 where
  pub user_id : ℕ
  pub board_id : ℕ

pub record CompressionResult : Type 0 where
  pub compressed : List CompressedMember
  pub cycle_events : List CycleEvent

pub record BoardSummary : Type 0 where
  pub id : ℕ
  pub filled_count : ℕ
  pub total_positions : ℕ
  pub created_at : ℤ
  pub last_activity_at : ℤ
  pub parent_board_id : Option ℕ

-- The text of `InvalidDimensions` is left out.
pub data BoardPlanError : Type 0 where
  member_already_exists member_awaiting_reassignment sponsor_not_found : ℕ → BoardPlanError
  board_not_found member_not_found : ℕ → BoardPlanError
  no_boards_available : BoardPlanError
  board_full : ℕ → ℕ → ℕ → BoardPlanError
  invalid_dimensions : ℕ → ℕ → BoardPlanError

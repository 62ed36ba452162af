-- ===== src/Tree/Node.antt =====
-- tree/node.rs, tree/error.rs and the position record of types.rs. A user's UUID is a number.
use mlmforge.Prelude.{ℕ, Option, List}
use mlmforge.Prelude.Int.{ℤ}

pub record Node : Type 0 where
  pub user_id : ℕ
  pub parent : Option ℕ
  pub children : List ℕ
  pub sponsor : Option ℕ
  pub sponsored : List ℕ
  pub depth : ℕ
  pub enrolled_at : ℤ

pub record Responsored : Type 0 where
  pub user_id : ℕ
  pub new_sponsor_id : ℕ

pub data TreeError : Type 0 where
  user_not_found user_already_exists : ℕ → TreeError
  position_out_of_range : ℕ → ℕ → ℕ → TreeError
  has_children : ℕ → ℕ → TreeError
  root_already_exists : TreeError
  position_occupied : ℕ → ℕ → TreeError
  invalid_width : ℕ → TreeError
  tree_empty cannot_remove_root : TreeError
  sponsor_not_found user_not_in_holding_tank user_in_holding_tank : ℕ → TreeError
  sponsor_in_holding_tank : ℕ → ℕ → TreeError
  unsupported_spillover : TreeError
  subtree_full : ℕ → TreeError
  sponsorless_with_recruits sponsor_cycle : ℕ → ℕ → TreeError
  nil_user_id : TreeError

pub record TreePosition : Type 0 where
  pub user_id : ℕ
  pub parent_user_id : Option ℕ
  pub sponsor_user_id : Option ℕ
  pub position : ℕ
  pub depth : ℕ
  pub child_count : ℕ
  pub downline_counts : List (ℕ × ℕ)
  pub enrolled_at : ℤ

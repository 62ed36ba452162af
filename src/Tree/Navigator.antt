-- ===== src/Tree/Navigator.antt =====
-- tree/navigator.rs: what a calculator may ask of a tree, whichever kind of tree it is.
use mlmforge.Prelude.{ℕ, Bool, Option, List}
use mlmforge.Prelude.Results.{Result}
use mlmforge.Tree.Node.{Node, TreeError, TreePosition}

pub record TreeNavigator : Type 0 where
  pub contains : ℕ → Bool
  pub get_parent : ℕ → Result TreeError (Option Node)
  pub get_children : ℕ → Result TreeError (List Node)
  pub get_upline : ℕ → ℕ → Result TreeError (List Node)
  pub get_downline : ℕ → ℕ → Result TreeError (List Node)
  pub get_position : ℕ → Result TreeError TreePosition
  pub get_branch : ℕ → ℕ → Result TreeError (List Node)
  pub count_downline : ℕ → ℕ → Result TreeError ℕ
  pub count_branch : ℕ → ℕ → Result TreeError ℕ
  pub is_descendant_of : ℕ → ℕ → Result TreeError Bool
  pub get_sponsor : ℕ → Result TreeError (Option Node)
  pub get_sponsor_upline : ℕ → ℕ → Result TreeError (List Node)
  pub get_sponsored : ℕ → Result TreeError (List Node)
  pub user_ids : List ℕ

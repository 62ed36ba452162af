-- ===== src/Tree/Unilevel/Navigate.antt =====
-- tree/arena.rs (`impl_arena_delegations!`) and tree/navigator.rs (`impl_tree_navigator!`): the queries of
-- a unilevel tree, by user.
use mathlib.Core.Option
use mlmforge.Prelude.{ℕ, Bool, false, Option, List, map, ◌==◌, if◌then◌else◌}
use mlmforge.Prelude.Assoc.{lookup, contains_key}
use mlmforge.Prelude.Results.{Result, ok, ◌>>=◌}
use mlmforge.Tree.Node.{Node, TreeError, TreePosition}
use mlmforge.Tree.Navigator.{TreeNavigator}
use mlmforge.Tree.Arena.{node_at, resolve}
use mlmforge.Tree.Arena.Walk.{
  walk_upline, bfs_downline, count_downline, is_descendant_of, walk_sponsor_upline,
}
use mlmforge.Tree.Arena.Walk
use mlmforge.Tree.Arena.Position
use mlmforge.Tree.Unilevel.{UnilevelTree}

module _ (t : UnilevelTree) where
  unfoldable pub contains : ℕ → Bool
  unfolding lookup
  contains user_id = contains_key user_id t.index

  unfoldable pub user_ids : List ℕ
  user_ids = map (λ (entry : ℕ × ℕ). entry.0) t.index

  unfoldable pub get_parent : ℕ → Result TreeError (Option Node)
  unfolding resolve
  get_parent user_id = do i ← resolve t user_id; ok (Option.map (node_at t) (node_at t i).parent)

  unfoldable pub get_children : ℕ → Result TreeError (List Node)
  unfolding resolve
  get_children user_id = do i ← resolve t user_id; ok (map (node_at t) (node_at t i).children)

  unfoldable pub get_upline : ℕ → ℕ → Result TreeError (List Node)
  unfolding resolve walk_upline
  get_upline user_id depth = do i ← resolve t user_id; ok (walk_upline t i depth).0

  unfoldable pub get_downline : ℕ → ℕ → Result TreeError (List Node)
  unfolding resolve bfs_downline
  get_downline user_id depth = do i ← resolve t user_id; ok (bfs_downline t i depth).0

  unfoldable pub get_position : ℕ → Result TreeError TreePosition
  unfolding resolve Position.get_position
  get_position user_id = do i ← resolve t user_id; ok (Position.get_position t i)

  unfoldable pub get_branch : ℕ → ℕ → Result TreeError (List Node)
  unfolding resolve Walk.get_branch
  get_branch user_id position = do
    i ← resolve t user_id
    branch ← Walk.get_branch t i position
    ok branch.0

  unfoldable pub count_downline_of : ℕ → ℕ → Result TreeError ℕ
  unfolding resolve count_downline
  count_downline_of user_id depth = do i ← resolve t user_id; ok (count_downline t i depth)

  unfoldable pub count_branch : ℕ → ℕ → Result TreeError ℕ
  unfolding resolve Walk.count_branch
  count_branch user_id position = do i ← resolve t user_id; Walk.count_branch t i position

  unfoldable pub descends_from : ℕ → ℕ → Result TreeError Bool
  unfolding resolve is_descendant_of
  descends_from user_id ancestor_id = resolve t ancestor_id >>= λ ancestor.
      if user_id == ancestor_id
      then ok false
      else (resolve t user_id >>= λ user. ok (is_descendant_of t user ancestor))

  unfoldable pub get_sponsor : ℕ → Result TreeError (Option Node)
  unfolding resolve Walk.get_sponsor
  get_sponsor user_id = do i ← resolve t user_id; ok (Walk.get_sponsor t i)

  unfoldable pub get_sponsor_upline : ℕ → ℕ → Result TreeError (List Node)
  unfolding resolve walk_sponsor_upline
  get_sponsor_upline user_id depth = do i ← resolve t user_id; ok (walk_sponsor_upline t i depth).0

  unfoldable pub get_sponsored : ℕ → Result TreeError (List Node)
  unfolding resolve Walk.get_sponsored
  get_sponsored user_id = do i ← resolve t user_id; ok (Walk.get_sponsored t i)

  -- The tree as the calculators see it.
  unfoldable pub navigate : TreeNavigator
  unfolding contains user_ids get_parent get_children get_upline get_downline get_position
      get_branch count_downline_of count_branch descends_from get_sponsor get_sponsor_upline
      get_sponsored
  navigate = record {
    contains = contains;
    get_parent = get_parent;
    get_children = get_children;
    get_upline = get_upline;
    get_downline = get_downline;
    get_position = get_position;
    get_branch = get_branch;
    count_downline = count_downline_of;
    count_branch = count_branch;
    is_descendant_of = descends_from;
    get_sponsor = get_sponsor;
    get_sponsor_upline = get_sponsor_upline;
    get_sponsored = get_sponsored;
    user_ids = user_ids;
  }

-- ===== src/Tree/Arena/Walk.antt =====
-- tree/arena.rs: the walks over a tree. A walk is run for a number of rounds and returns what it has
-- left to do, too.
use mathlib.Core.Option
use mlmforge.Prelude.{
  ℕ, zero, suc, ◌+◌, ◌-◌, Bool, true, false, ◌&&◌, ◌||◌, Option, none, some, List, [], ◌∷◌, ◌++◌,
  map, ltb, leb, ◌==◌, if◌then◌else◌, length, get_elem?,
}
use mlmforge.Prelude.Results.{Result, ok, err}
use mlmforge.Tree.Node.{Node, TreeError, position_out_of_range}
use mlmforge.Tree.Arena.{Arena, node_at}

-- The loop of a walk upward along `up`, by the rounds left; `steps` is counted up to the limit, where
-- 0 is none. What is left is the next node, if the walk has not ended.
unfoldable pub walk_up : (Node → Option ℕ) → Arena → ℕ → ℕ → ℕ → Option ℕ → List Node × Option ℕ
walk_up up a depth zero steps current = ([], current)
walk_up up a depth (suc rounds) steps none = ([], none)
walk_up up a depth (suc rounds) steps (some i) =
    let rest = walk_up up a depth rounds (steps + 1) (up (node_at a i)) in
    if ltb 0 depth && leb depth steps then ([], none) else (node_at a i ∷ rest.0, rest.1)

abbrev pub parent_of : Node → Option ℕ
parent_of n = n.parent

abbrev pub sponsor_of : Node → Option ℕ
sponsor_of n = n.sponsor

unfoldable pub walk_upline : Arena → ℕ → ℕ → List Node × Option ℕ
unfolding walk_up
walk_upline a start depth =
    walk_up parent_of a depth (length a.nodes + 1) 0 (node_at a start).parent

unfoldable pub walk_sponsor_upline : Arena → ℕ → ℕ → List Node × Option ℕ
unfolding walk_up
walk_sponsor_upline a start depth =
    walk_up sponsor_of a depth (length a.nodes + 1) 0 (node_at a start).sponsor

-- The loop of a walk downward, breadth first, by the rounds left, with the queue that is left.
unfoldable pub walk_down : Arena → ℕ → ℕ → ℕ → List ℕ → List Node × List ℕ
walk_down a depth start_depth zero queue = ([], queue)
walk_down a depth start_depth (suc rounds) [] = ([], [])
walk_down a depth start_depth (suc rounds) (i ∷ queue) =
    let n = node_at a i in
    let more = if depth == 0 || ltb (n.depth - start_depth) depth then n.children else [] in
    let rest = walk_down a depth start_depth rounds (queue ++ more) in (n ∷ rest.0, rest.1)

unfoldable pub bfs_downline : Arena → ℕ → ℕ → List Node × List ℕ
unfolding walk_down
bfs_downline a start depth =
    walk_down a depth (node_at a start).depth (length a.nodes) (node_at a start).children

-- The same loop with a counter in place of the list.
unfoldable pub count_down : Arena → ℕ → ℕ → ℕ → List ℕ → ℕ → ℕ
count_down a depth start_depth zero queue count = count
count_down a depth start_depth (suc rounds) [] count = count
count_down a depth start_depth (suc rounds) (i ∷ queue) count =
    let n = node_at a i in
    let more = if depth == 0 || ltb (n.depth - start_depth) depth then n.children else [] in
    count_down a depth start_depth rounds (queue ++ more) (count + 1)

unfoldable pub count_downline : Arena → ℕ → ℕ → ℕ
unfolding count_down
count_downline a start depth =
    count_down a depth (node_at a start).depth (length a.nodes) (node_at a start).children 0

-- A branch is a walk without a limit from the child at the position.
abbrev pub branch_from : Arena → ℕ → ℕ → Option ℕ → Result TreeError (List Node × List ℕ)
unfolding walk_down
branch_from a parent position none =
    let n = node_at a parent in err (position_out_of_range n.user_id position (length n.children))
branch_from a parent position (some child) = ok (walk_down a 0 0 (length a.nodes) (child ∷ []))

unfoldable pub get_branch : Arena → ℕ → ℕ → Result TreeError (List Node × List ℕ)
unfolding branch_from walk_down
get_branch a parent position =
    branch_from a parent position (get_elem? (node_at a parent).children position)

abbrev pub count_from : Arena → ℕ → ℕ → Option ℕ → Result TreeError ℕ
unfolding count_down
count_from a parent position none =
    let n = node_at a parent in err (position_out_of_range n.user_id position (length n.children))
count_from a parent position (some child) = ok (count_down a 0 0 (length a.nodes) (child ∷ []) 0)

unfoldable pub count_branch : Arena → ℕ → ℕ → Result TreeError ℕ
unfolding count_from count_down
count_branch a parent position =
    count_from a parent position (get_elem? (node_at a parent).children position)

unfoldable pub count_subtree : Arena → ℕ → ℕ
unfolding count_downline
count_subtree a start = count_downline a start 0

unfoldable pub collect_subtree : Arena → ℕ → List Node × List ℕ
unfolding walk_down
collect_subtree a root = walk_down a 0 0 (length a.nodes) (root ∷ [])

-- The loop over the parents, by the rounds left.
unfoldable pub descends : Arena → ℕ → ℕ → Option ℕ → Bool
descends a ancestor zero current = false
descends a ancestor (suc rounds) none = false
descends a ancestor (suc rounds) (some i) =
    let rest = descends a ancestor rounds (node_at a i).parent in
    if i == ancestor then true else rest

unfoldable pub is_descendant_of : Arena → ℕ → ℕ → Bool
unfolding descends
is_descendant_of a user ancestor =
    if user == ancestor
    then false
    else descends a ancestor (length a.nodes + 1) (node_at a user).parent

unfoldable pub get_sponsor : Arena → ℕ → Option Node
get_sponsor a i = Option.map (node_at a) (node_at a i).sponsor

unfoldable pub get_sponsored : Arena → ℕ → List Node
get_sponsored a i = map (node_at a) (node_at a i).sponsored

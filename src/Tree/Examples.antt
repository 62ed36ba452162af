-- ===== src/Tree/Examples.antt =====
-- The trees' theorems at concrete inputs: 10 at the root, 11 below and sponsored by 10, 12 below 10 and
-- sponsored by 11.
use mlmforge.Prelude.{
  ℕ, zero, suc, ◌≡◌, ◌↔◌, refl, true, none, some, [], ◌∷◌, length, arith, get_elem?,
}
use mlmforge.Prelude.Int.{pos}
use mlmforge.Prelude.Assoc.{lookup}
use mlmforge.Prelude.Results.{ok, err}
use mlmforge.Tree.Node.{Node, Responsored, has_children}
use mlmforge.Tree.Arena.{Arena, blank, node_at, resolve}
use mlmforge.Tree.Arena.WellFormed.{IsWellFormed}
use mlmforge.Tree.Arena.Walk.{
  parent_of, sponsor_of, walk_upline, walk_sponsor_upline, bfs_downline, is_descendant_of,
  count_downline,
}
use mlmforge.Tree.Arena.Upline.{
  IsWholeWalk, walk_upline-IsWholeWalk, walk_sponsor_upline-IsWholeWalk,
}
use mlmforge.Tree.Arena.Downline.{IsBelow}
use mlmforge.Tree.Arena.Subtree.{Gives, bfs_downline-Gives, count_downline-bfs_downline}
use mlmforge.Tree.Arena.Descent.{is_descendant_of-IsBelow}
use mlmforge.Tree.Arena.Position.{IsCountOf, get_position, get_position-elem}
use mlmforge.Tree.Unilevel.{UnilevelTree, new, add_root, add_node, remove_node}
use mlmforge.Tree.Unilevel.Added.{AreShallow, Joins, add_node-IsWellFormed}
use mlmforge.Tree.Unilevel.Rooted.{new-IsWellFormed, add_root-IsWellFormed}
use mlmforge.Tree.Unilevel.Removal.{remove_node-IsWellFormed}
use mlmforge.Tree.Unilevel.Removal.Released.{PassesOn}

abbrev root : Node
root = record blank { user_id = 10; enrolled_at = pos 1 }

abbrev only : UnilevelTree
only = record { nodes = root ∷ []; index = (10, 0) ∷ []; free_list = []; root = some 0 }

abbrev child : ℕ → ℕ → Node
child id sponsor = record blank {
  user_id = id;
  parent = some 0;
  sponsor = some sponsor;
  depth = 1;
  enrolled_at = pos id;
}

abbrev pair : UnilevelTree
pair = record {
  nodes = record root { children = 1 ∷ []; sponsored = 1 ∷ [] } ∷ child 11 0 ∷ [];
  index = (10, 0) ∷ (11, 1) ∷ [];
  free_list = [];
  root = some 0;
}

abbrev three : UnilevelTree
three = record {
  nodes =
      record root { children = 1 ∷ 2 ∷ []; sponsored = 1 ∷ [] }
      ∷ record (child 11 0) { sponsored = 2 ∷ [] }
      ∷ child 12 1
      ∷ [];
  index = (10, 0) ∷ (11, 1) ∷ (12, 2) ∷ [];
  free_list = [];
  root = some 0;
}

-- 11 is gone, and 12 is sponsored by 10.
abbrev passed_on : UnilevelTree
passed_on = record {
  nodes = record root { children = 2 ∷ []; sponsored = 2 ∷ [] } ∷ blank ∷ child 12 0 ∷ [];
  index = (10, 0) ∷ (12, 2) ∷ [];
  free_list = 1 ∷ [];
  root = some 0;
}

rooted : add_root new 10 (pos 1) ≡ ok (only, 0)
unfolding add_root
rooted = refl

paired : add_node only 11 10 10 (pos 11) ≡ ok (pair, 1)
unfolding add_node
paired = refl

joined : add_node pair 12 10 11 (pos 12) ≡ ok (three, 2)
unfolding add_node
joined = refl

abbrev to_ten : Responsored
to_ten = record { user_id = 12; new_sponsor_id = 10 }

left : remove_node three 11 ≡ ok (passed_on, to_ten ∷ [])
unfolding remove_node
left = refl

kept : remove_node three 10 ≡ err (has_children 10 2)
unfolding remove_node
kept = refl

only-AreShallow : AreShallow only
only-AreShallow zero = omega arith
only-AreShallow (suc i) = omega arith

pair-AreShallow : AreShallow pair
pair-AreShallow zero = omega arith
pair-AreShallow (suc zero) = omega arith
pair-AreShallow (suc (suc i)) = omega arith

only-IsWellFormed : IsWellFormed only
only-IsWellFormed = (add_root-IsWellFormed new only 10 0 (pos 1) new-IsWellFormed rooted).1

pair-IsWellFormed : IsWellFormed pair
pair-IsWellFormed =
    (add_node-IsWellFormed only pair 11 10 10 1 (pos 11) only-IsWellFormed only-AreShallow paired).0

three-IsWellFormed : IsWellFormed three
three-IsWellFormed =
    (add_node-IsWellFormed pair three 12 10 11 2 (pos 12) pair-IsWellFormed pair-AreShallow
      joined).0

add_root-IsWellFormed_example :
    (Arena.root new ≡ none)
    × IsWellFormed only
    × (only.root ≡ some 0)
    × ((node_at only 0).user_id ≡ 10)
    × ((node_at only 0).parent ≡ none)
add_root-IsWellFormed_example = add_root-IsWellFormed new only 10 0 (pos 1) new-IsWellFormed rooted

add_node-IsWellFormed_example : IsWellFormed three × Joins three 2 12 10 11
add_node-IsWellFormed_example =
    add_node-IsWellFormed pair three 12 10 11 2 (pos 12) pair-IsWellFormed pair-AreShallow joined

remove_node-IsWellFormed_example :
    IsWellFormed passed_on
    × (lookup 11 passed_on.index ≡ none)
    × ((i : ℕ) × (resolve three 11 ≡ ok i) × PassesOn three passed_on i)
remove_node-IsWellFormed_example =
    remove_node-IsWellFormed three passed_on 11 (to_ten ∷ []) three-IsWellFormed left

walk_upline-IsWholeWalk_example : IsWholeWalk parent_of three 0 2 (walk_upline three 2 0)
walk_upline-IsWholeWalk_example =
    walk_upline-IsWholeWalk three 2 0 three-IsWellFormed (λ e. omega arith)

walk_sponsor_upline-IsWholeWalk_example :
    IsWholeWalk sponsor_of three 1 2 (walk_sponsor_upline three 2 1)
walk_sponsor_upline-IsWholeWalk_example =
    walk_sponsor_upline-IsWholeWalk three 2 1 three-IsWellFormed (λ e. omega arith)

bfs_downline-Gives_example : Gives three (IsBelow three 0 0) (bfs_downline three 0 0)
bfs_downline-Gives_example = bfs_downline-Gives three 0 0 three-IsWellFormed (λ e. omega arith)

count_downline-bfs_downline_example : count_downline three 0 1 ≡ length (bfs_downline three 0 1).0
count_downline-bfs_downline_example = count_downline-bfs_downline three 0 1

is_descendant_of-IsBelow_example : (is_descendant_of three 2 0 ≡ true) ↔ IsBelow three 0 0 2
is_descendant_of-IsBelow_example =
    is_descendant_of-IsBelow three 2 0 three-IsWellFormed (λ e. omega arith)

get_position-elem_example :
    ((p : ℕ)
      → (node_at three 2).parent ≡ some p
      → get_elem? (node_at three p).children (get_position three 2).position ≡ some 2)
    × IsCountOf three
        (get_elem? (node_at three 2).children 0)
        (lookup 0 (get_position three 2).downline_counts)
get_position-elem_example = get_position-elem three 2 0 three-IsWellFormed

-- ===== src/Tree/Binary/Examples.antt =====
-- The binary tree's theorems at concrete inputs: 10 at the root, 11 to its right, sponsored by it, and then 12
-- to its left, sponsored by 11.
use mlmforge.Prelude.{ℕ, zero, suc, ◌≤◌, ◌≡◌, refl, none, some, List, [], ◌∷◌, arith}
use mlmforge.Prelude.Int.{pos}
use mlmforge.Prelude.Assoc.{lookup}
use mlmforge.Prelude.Results.{ok, err, map_ok}
use mlmforge.Tree.Node.{Node, Responsored, TreePosition, position_occupied, position_out_of_range}
use mlmforge.Tree.Arena.{blank, node_at, resolve}
use mlmforge.Tree.Unilevel
use mlmforge.Tree.Unilevel.Added.{AreShallow, Joins}
use mlmforge.Tree.Unilevel.Removal.Released.{PassesOn}
use mlmforge.Tree.Binary.{BinaryTree, slots_of, slot_at, new, add_root, add_node, remove_node}
use mlmforge.Tree.Binary.Slotted.{IsBinary, new-IsBinary, add_root-IsBinary}
use mlmforge.Tree.Binary.Added.{add_node-IsBinary}
use mlmforge.Tree.Binary.Removal.{remove_node-unilevel, remove_node-IsBinary}
use mlmforge.Tree.Binary.Navigate.{get_position, IsSlotCount, get_position-slot}

abbrev root : Node
root = record blank { user_id = 10; enrolled_at = pos 1 }

abbrev only : BinaryTree
only = record {
  arena = record { nodes = root ∷ []; index = (10, 0) ∷ []; free_list = []; root = some 0 };
  slots = (0, (none, none)) ∷ [];
}

abbrev child : ℕ → ℕ → Node
child id sponsor = record blank {
  user_id = id;
  parent = some 0;
  sponsor = some sponsor;
  depth = 1;
  enrolled_at = pos id;
}

abbrev pair : BinaryTree
pair = record {
  arena = record {
    nodes = record root { children = 1 ∷ []; sponsored = 1 ∷ [] } ∷ child 11 0 ∷ [];
    index = (10, 0) ∷ (11, 1) ∷ [];
    free_list = [];
    root = some 0;
  };
  slots = (0, (none, some 1)) ∷ (1, (none, none)) ∷ [];
}

-- The left child stands first.
abbrev three : BinaryTree
three = record {
  arena = record {
    nodes =
        record root { children = 2 ∷ 1 ∷ []; sponsored = 1 ∷ [] }
        ∷ record (child 11 0) { sponsored = 2 ∷ [] }
        ∷ child 12 1
        ∷ [];
    index = (10, 0) ∷ (11, 1) ∷ (12, 2) ∷ [];
    free_list = [];
    root = some 0;
  };
  slots = (0, (some 2, some 1)) ∷ (1, (none, none)) ∷ (2, (none, none)) ∷ [];
}

-- 11 is gone, and 12 is sponsored by 10.
abbrev passed_on : BinaryTree
passed_on = record {
  arena = record {
    nodes = record root { children = 2 ∷ []; sponsored = 2 ∷ [] } ∷ blank ∷ child 12 0 ∷ [];
    index = (10, 0) ∷ (12, 2) ∷ [];
    free_list = 1 ∷ [];
    root = some 0;
  };
  slots = (0, (some 2, none)) ∷ (2, (none, none)) ∷ [];
}

rooted : add_root new 10 (pos 1) ≡ ok (only, 0)
unfolding add_root
rooted = refl

paired : add_node only 11 10 1 10 (pos 11) ≡ ok (pair, 1)
unfolding add_node
paired = refl

joined : add_node pair 12 10 0 11 (pos 12) ≡ ok (three, 2)
unfolding add_node
joined = refl

taken : add_node pair 12 10 1 11 (pos 12) ≡ err (position_occupied 10 1)
unfolding add_node
taken = refl

too_far : add_node pair 12 10 2 11 (pos 12) ≡ err (position_out_of_range 10 2 2)
unfolding add_node
too_far = refl

abbrev to_ten : Responsored
to_ten = record { user_id = 12; new_sponsor_id = 10 }

left : remove_node three 11 ≡ ok (passed_on, to_ten ∷ [])
unfolding remove_node
left = refl

abbrev left_of_ten : TreePosition
left_of_ten = record {
  user_id = 12;
  parent_user_id = some 10;
  sponsor_user_id = some 11;
  position = 0;
  depth = 1;
  child_count = 0;
  downline_counts = (0, 0) ∷ (1, 0) ∷ [];
  enrolled_at = pos 12;
}

located : get_position three 12 ≡ ok left_of_ten
unfolding get_position
located = refl

only-AreShallow : AreShallow only.arena
only-AreShallow zero = omega arith
only-AreShallow (suc i) = omega arith

pair-AreShallow : AreShallow pair.arena
pair-AreShallow zero = omega arith
pair-AreShallow (suc zero) = omega arith
pair-AreShallow (suc (suc i)) = omega arith

only-IsBinary : IsBinary only
only-IsBinary = (add_root-IsBinary new only 10 0 (pos 1) new-IsBinary rooted).1

pair-IsBinary : IsBinary pair
pair-IsBinary =
    (add_node-IsBinary only pair 11 10 1 10 1 (pos 11) only-IsBinary only-AreShallow paired).0

three-IsBinary : IsBinary three
three-IsBinary =
    (add_node-IsBinary pair three 12 10 0 11 2 (pos 12) pair-IsBinary pair-AreShallow joined).0

add_root-IsBinary_example : (new.arena.root ≡ none) × IsBinary only × (only.arena.root ≡ some 0)
add_root-IsBinary_example = add_root-IsBinary new only 10 0 (pos 1) new-IsBinary rooted

add_node-IsBinary_example :
    IsBinary three
    × Joins three.arena 2 12 10 11
    × (0 ≤ 1)
    × ((p : ℕ) × (resolve pair.arena 10 ≡ ok p)
        × (slot_at (slots_of p pair.slots) 0 ≡ none)
        × (slot_at (slots_of p three.slots) 0 ≡ some 2))
add_node-IsBinary_example =
    add_node-IsBinary pair three 12 10 0 11 2 (pos 12) pair-IsBinary pair-AreShallow joined

remove_node-unilevel_example :
    map_ok (λ (r : BinaryTree × List Responsored). (r.0.arena, r.1)) (remove_node three 11)
    ≡ Unilevel.remove_node three.arena 11
remove_node-unilevel_example = remove_node-unilevel three 11 three-IsBinary

remove_node-IsBinary_example :
    IsBinary passed_on
    × (lookup 11 passed_on.arena.index ≡ none)
    × ((i : ℕ) × (resolve three.arena 11 ≡ ok i) × PassesOn three.arena passed_on.arena i)
remove_node-IsBinary_example =
    remove_node-IsBinary three passed_on 11 (to_ten ∷ []) three-IsBinary left

get_position-slot_example :
    (i : ℕ) × (resolve three.arena 12 ≡ ok i)
    × ((p : ℕ)
        → (node_at three.arena i).parent ≡ some p
        → (left_of_ten.position ≤ 1)
          × (slot_at (slots_of p three.slots) left_of_ten.position ≡ some i))
    × ((k : ℕ)
        → k ≤ 1
        → (n : ℕ) × (lookup k left_of_ten.downline_counts ≡ some n)
          × IsSlotCount three (slot_at (slots_of i three.slots) k) n)
get_position-slot_example = get_position-slot three 12 left_of_ten three-IsBinary located

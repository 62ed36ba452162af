-- ===== src/Tree/Binary.antt =====
-- tree/binary.rs: the tree whose nodes have a left and a right child slot, on the same arena.
--
-- The code panics where the slot map has no entry for a node in use; the model reads such an entry as two
-- open slots. In the trees that the operations build (Binary/Slotted.antt) none is missing.
pub mod Slotted
pub mod Reordered
pub mod Placed
pub mod Added
pub mod Removal
pub mod Navigate
pub mod Examples
use mathlib.Core.Option
use mlmforge.Prelude.{
  ℕ, zero, suc, ◌+◌, ◌%◌, ◌^◌, Bool, true, false, Option, none, some, List, [], ◌∷◌, ◌++◌, ltb,
  ◌==◌, if◌then◌else◌, is_some,
}
use mlmforge.Prelude.Int.{ℤ}
use mlmforge.Prelude.Assoc.{lookup, insert, remove, contains_key}
use mlmforge.Prelude.Results.{Result, ok, err, ◌>>=◌}
use mlmforge.Tree.Node.{
  Node, TreeError, Responsored, TreePosition, user_already_exists, position_out_of_range,
  position_occupied,
}
use mlmforge.Tree.Arena
use mlmforge.Tree.Arena.{
  Arena, node_at, modify_node, resolve, check_user_id, alloc_slot, tombstone, add_sponsored,
  reparent_sponsored,
}
use mlmforge.Tree.Unilevel
use mlmforge.Tree.Unilevel.{
  as_sponsor, child_node, index_node, drop_sponsored, modify_some, clear_root,
}

-- The left and the right child.
abbrev pub ChildSlots : Type 0
ChildSlots = Option ℕ × Option ℕ

abbrev pub open_slots : ChildSlots
open_slots = (none, none)

pub record BinaryTree : Type 0 where
  pub arena : Arena
  pub slots : List (ℕ × ChildSlots)

abbrev pub new : BinaryTree
new = record { arena = Arena.new; slots = [] }

abbrev pub or_open : Option ChildSlots → ChildSlots
or_open none = open_slots
or_open (some s) = s

abbrev pub slots_of : ℕ → List (ℕ × ChildSlots) → ChildSlots
slots_of i slots = or_open (lookup i slots)

-- A position is 0 or 1.
abbrev pub slot_at : ChildSlots → ℕ → Option ℕ
slot_at s zero = s.0
slot_at s (suc k) = s.1

abbrev pub fill_slot : ℕ → ℕ → ChildSlots → ChildSlots
fill_slot zero i s = (some i, s.1)
fill_slot (suc k) i s = (s.0, some i)

abbrev pub push_some : Option ℕ → List ℕ → List ℕ
push_some none children = children
push_some (some c) children = c ∷ children

-- The occupied slots, left first.
abbrev pub occupied : ChildSlots → List ℕ
occupied s = push_some s.0 (push_some s.1 [])

abbrev pub with_children : List ℕ → Node → Node
with_children children n = record n { children = children }

unfoldable pub rebuild_children : ℕ → BinaryTree → BinaryTree
unfolding lookup
rebuild_children parent t = record t {
  arena = modify_node parent (with_children (occupied (slots_of parent t.slots))) t.arena;
}

-- The checks are those of a unilevel tree.
unfoldable pub check_add_root : BinaryTree → ℕ → Result TreeError (Unit {0})
unfolding Unilevel.check_add_root
check_add_root t user_id = Unilevel.check_add_root t.arena user_id

-- The slots of the new node are open.
abbrev pub open_for : List (ℕ × ChildSlots) → Arena × ℕ → BinaryTree × ℕ
unfolding insert
open_for slots (a, i) = (record { arena = a; slots = insert i open_slots slots }, i)

unfoldable pub add_root : BinaryTree → ℕ → ℤ → Result TreeError (BinaryTree × ℕ)
unfolding check_add_root Unilevel.place_root insert
add_root t user_id enrolled_at = check_add_root t user_id >>= λ _.
    ok (open_for t.slots (Unilevel.place_root t.arena user_id enrolled_at))

abbrev pub refuse_occupied : ℕ → ℕ → Option ℕ → Result TreeError (Unit {0})
refuse_occupied parent_id position slot =
    if is_some slot then err (position_occupied parent_id position) else ok tt

unfoldable pub check_add_node : BinaryTree → ℕ → ℕ → ℕ → ℕ → Result TreeError (Unit {0})
unfolding check_user_id lookup resolve
check_add_node t user_id parent_id position sponsor_id = check_user_id user_id >>= λ _.
    if ltb 1 position
    then err (position_out_of_range parent_id position 2)
    else if contains_key user_id t.arena.index
    then err (user_already_exists user_id)
    else (resolve t.arena parent_id >>= λ parent. as_sponsor (resolve t.arena sponsor_id) >>= λ _.
        refuse_occupied parent_id position (slot_at (slots_of parent t.slots) position))

-- The parent's slot is taken.
unfoldable pub fill : ℕ → ℕ → ℕ → BinaryTree → BinaryTree
unfolding lookup insert
fill parent position i t = record t {
  slots = insert parent (fill_slot position i (slots_of parent t.slots)) t.slots;
}

-- The depth is a `u32`.
unfoldable pub place_node : BinaryTree → ℕ → ℕ → ℕ → ℕ → ℤ → BinaryTree × ℕ
unfolding alloc_slot insert fill rebuild_children
place_node t user_id parent position sponsor enrolled_at =
    let depth = ((node_at t.arena parent).depth + 1) % 2 ^ 32 in
    let node = child_node user_id parent sponsor depth enrolled_at in
    let (t', i) = open_for t.slots (index_node user_id (alloc_slot t.arena node)) in
    let t'' = rebuild_children parent (fill parent position i t') in
    (record t'' { arena = modify_node sponsor (add_sponsored i) t''.arena }, i)

unfoldable pub add_node : BinaryTree → ℕ → ℕ → ℕ → ℕ → ℤ → Result TreeError (BinaryTree × ℕ)
unfolding check_add_node resolve place_node
add_node t user_id parent_id position sponsor_id enrolled_at =
    check_add_node t user_id parent_id position sponsor_id >>= λ _.
    resolve t.arena parent_id >>= λ parent. resolve t.arena sponsor_id >>= λ sponsor.
    ok (place_node t user_id parent position sponsor enrolled_at)

unfoldable pub check_remove_node : BinaryTree → ℕ → Result TreeError (Unit {0})
unfolding Unilevel.check_remove_node
check_remove_node t user_id = Unilevel.check_remove_node t.arena user_id

abbrev pub clear_slot : ℕ → Option ℕ → Option ℕ
clear_slot i none = none
clear_slot i (some c) = if c == i then none else some c

abbrev pub clear_slots : ℕ → ChildSlots → ChildSlots
clear_slots i s = (clear_slot i s.0, clear_slot i s.1)

-- The node leaves its parent's slots.
unfoldable pub vacate : ℕ → Option ℕ → BinaryTree → BinaryTree
unfolding lookup insert rebuild_children
vacate i none t = t
vacate i (some parent) t =
    rebuild_children parent
      (record t { slots = insert parent (clear_slots i (slots_of parent t.slots)) t.slots })

-- And its sponsor's list, and the root.
unfoldable pub detach : BinaryTree → ℕ → BinaryTree
unfolding vacate
detach t i =
    let t' = vacate i (node_at t.arena i).parent t in
    let a = modify_some (node_at t'.arena i).sponsor (drop_sponsored i) t'.arena in
    record t' { arena = record a { root = clear_root i a.root } }

unfoldable pub release :
    ℕ → ℕ → List (ℕ × ChildSlots) → Arena × List Responsored → BinaryTree × List Responsored
unfolding tombstone remove
release user_id i slots (a, moved) = (
  record {
    arena = tombstone i (record a { index = remove user_id a.index });
    slots = remove i slots;
  },
  moved,
)

unfoldable pub remove_node : BinaryTree → ℕ → Result TreeError (BinaryTree × List Responsored)
unfolding check_remove_node resolve detach reparent_sponsored release
remove_node t user_id = check_remove_node t user_id >>= λ _. resolve t.arena user_id >>= λ i.
    let t' = detach t i in
    reparent_sponsored (i ∷ []) t'.arena >>= λ moved. ok (release user_id i t'.slots moved)

-- ===== src/Tree/Unilevel.antt =====
-- tree/unilevel.rs: the tree of unbounded width, an arena with the operations below.
pub mod Placed
pub mod Added
pub mod Rooted
pub mod Detached
pub mod Removed
pub mod Removal
pub mod Navigate
use mlmforge.Prelude.{
  ℕ, zero, suc, ◌+◌, ◌%◌, ◌^◌, Bool, true, false, not, Option, none, some, List, [], ◌∷◌, ◌++◌, map,
  ltb, ◌==◌, if◌then◌else◌, is_some, length, filter,
}
use mathlib.Core.Option
use mlmforge.Prelude.Int.{ℤ}
use mlmforge.Prelude.Assoc.{lookup, insert, remove, contains_key}
use mlmforge.Prelude.Results.{Result, ok, err, ◌>>=◌}
use mlmforge.Tree.Node.{
  Node, TreeError, Responsored, TreePosition, user_not_found, user_already_exists,
  sponsor_not_found, root_already_exists, has_children,
}
use mlmforge.Tree.Arena
use mlmforge.Tree.Arena.{
  Arena, node_at, modify_node, resolve, check_user_id, alloc_slot, tombstone, add_sponsored,
  check_sponsored_removable, reparent_sponsored,
}
use mlmforge.Tree.Arena.Walk.{
  count_subtree, get_branch, count_branch, get_sponsor, get_sponsored, walk_upline,
  walk_sponsor_upline, bfs_downline, count_downline, is_descendant_of,
}

-- The struct has the arena as its only field.
abbrev pub UnilevelTree : Type 0
UnilevelTree = Arena

abbrev pub new : UnilevelTree
new = Arena.new

unfoldable pub check_add_root : UnilevelTree → ℕ → Result TreeError (Unit {0})
unfolding check_user_id lookup
check_add_root t user_id = check_user_id user_id >>= λ _.
    if is_some t.root
    then err root_already_exists
    else if contains_key user_id t.index
    then err (user_already_exists user_id)
    else ok tt

abbrev pub root_node : ℕ → ℤ → Node
root_node user_id enrolled_at = record {
  user_id = user_id;
  parent = none;
  children = [];
  sponsor = none;
  sponsored = [];
  depth = 0;
  enrolled_at = enrolled_at;
}

-- The entry of the new node in the index.
abbrev pub index_node : ℕ → Arena × ℕ → Arena × ℕ
index_node user_id (a, i) = (record a { index = insert user_id i a.index }, i)

unfoldable pub place_root : UnilevelTree → ℕ → ℤ → UnilevelTree × ℕ
unfolding alloc_slot insert
place_root t user_id enrolled_at =
    let (t', i) = index_node user_id (alloc_slot t (root_node user_id enrolled_at)) in
    (record t' { root = some i }, i)

unfoldable pub add_root : UnilevelTree → ℕ → ℤ → Result TreeError (UnilevelTree × ℕ)
unfolding check_add_root place_root
add_root t user_id enrolled_at =
    check_add_root t user_id >>= λ _. ok (place_root t user_id enrolled_at)

-- A missing sponsor has an error of its own.
abbrev pub as_sponsor : Result TreeError ℕ → Result TreeError (Unit {0})
as_sponsor (ok i) = ok tt
as_sponsor (err (user_not_found id)) = err (sponsor_not_found id)
as_sponsor (err e) = err e

unfoldable pub check_add_node : UnilevelTree → ℕ → ℕ → ℕ → Result TreeError (Unit {0})
unfolding check_user_id lookup resolve
check_add_node t user_id parent_id sponsor_id = check_user_id user_id >>= λ _.
    if contains_key user_id t.index
    then err (user_already_exists user_id)
    else (resolve t parent_id >>= λ _. as_sponsor (resolve t sponsor_id))

abbrev pub child_node : ℕ → ℕ → ℕ → ℕ → ℤ → Node
child_node user_id parent sponsor depth enrolled_at = record {
  user_id = user_id;
  parent = some parent;
  children = [];
  sponsor = some sponsor;
  sponsored = [];
  depth = depth;
  enrolled_at = enrolled_at;
}

abbrev pub add_child : ℕ → Node → Node
add_child i n = record n { children = n.children ++ i ∷ [] }

-- The depth is a `u32`.
unfoldable pub place_node : UnilevelTree → ℕ → ℕ → ℕ → ℤ → UnilevelTree × ℕ
unfolding alloc_slot insert
place_node t user_id parent sponsor enrolled_at =
    let depth = ((node_at t parent).depth + 1) % 2 ^ 32 in
    let (t', i) =
      index_node user_id (alloc_slot t (child_node user_id parent sponsor depth enrolled_at)) in
    (modify_node sponsor (add_sponsored i) (modify_node parent (add_child i) t'), i)

unfoldable pub add_node : UnilevelTree → ℕ → ℕ → ℕ → ℤ → Result TreeError (UnilevelTree × ℕ)
unfolding check_add_node resolve place_node
add_node t user_id parent_id sponsor_id enrolled_at =
    check_add_node t user_id parent_id sponsor_id >>= λ _. resolve t parent_id >>= λ parent.
    resolve t sponsor_id >>= λ sponsor. ok (place_node t user_id parent sponsor enrolled_at)

abbrev pub refuse_children : ℕ → List ℕ → Result TreeError (Unit {0})
refuse_children user_id children =
    if ltb 0 (length children) then err (has_children user_id (length children)) else ok tt

unfoldable pub check_remove_node : UnilevelTree → ℕ → Result TreeError (Unit {0})
unfolding resolve check_sponsored_removable
check_remove_node t user_id = resolve t user_id >>= λ i.
    refuse_children user_id (node_at t i).children >>= λ _. check_sponsored_removable t (i ∷ [])

-- `retain(|x| x != i)`
abbrev pub retain_ne : ℕ → List ℕ → List ℕ
retain_ne i = filter λ x. not (x == i)

abbrev pub drop_child : ℕ → Node → Node
drop_child i n = record n { children = retain_ne i n.children }

abbrev pub drop_sponsored : ℕ → Node → Node
drop_sponsored i n = record n { sponsored = retain_ne i n.sponsored }

abbrev pub modify_some : Option ℕ → (Node → Node) → Arena → Arena
modify_some none f a = a
modify_some (some i) f a = modify_node i f a

abbrev pub clear_root : ℕ → Option ℕ → Option ℕ
clear_root i none = none
clear_root i (some r) = if r == i then none else some r

-- The node leaves its parent's and its sponsor's lists, and the root.
unfoldable pub detach : UnilevelTree → ℕ → UnilevelTree
detach t i =
    let t' = modify_some (node_at t i).parent (drop_child i) t in
    let t'' = modify_some (node_at t' i).sponsor (drop_sponsored i) t' in
    record t'' { root = clear_root i t''.root }

-- The slot is freed, and the user forgotten.
unfoldable pub release : ℕ → ℕ → Arena × List Responsored → UnilevelTree × List Responsored
unfolding tombstone remove
release user_id i (a, moved) = (tombstone i (record a { index = remove user_id a.index }), moved)

unfoldable pub remove_node : UnilevelTree → ℕ → Result TreeError (UnilevelTree × List Responsored)
unfolding check_remove_node resolve detach reparent_sponsored release
remove_node t user_id = check_remove_node t user_id >>= λ _. resolve t user_id >>= λ i.
    reparent_sponsored (i ∷ []) (detach t i) >>= λ moved. ok (release user_id i moved)

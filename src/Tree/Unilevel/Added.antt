-- ===== src/Tree/Unilevel/Added.antt =====
-- tree/unilevel.rs: an arena stays well formed when a node is added.
use mathlib.Core.Path.{subst, fun_ext}
use mlmforge.Prelude.Results.{ok, bind_ok, ok_inj}
use mlmforge.Prelude.{
  ℕ, ◌+◌, ◌%◌, ◌^◌, ◌<◌, ◌≡◌, ◌≢◌, refl, ap, ◌∙◌, Option, none, some, List, arith, length,
}
use mlmforge.Prelude.Int.{ℤ}
use mlmforge.Prelude.Assoc.{lookup}
use mlmforge.Tree.Node.{Node}
use mlmforge.Tree.Arena.{
  Arena, modify, blank, nil, node_at, alloc_at, alloc_slot, add_sponsored, resolve, found_index,
  check_user_id,
}
use mlmforge.Tree.Arena.Slots.{length-modify, get_or-modify, live-lt}
use mlmforge.Tree.Arena.WellFormed.{
  AreFree, IsWellFormed, alloc_at-at, alloc_at-fresh, alloc_at-free, alloc_at-grows, alloc_at-keeps,
  AreFree-same,
}
use mlmforge.Tree.Unilevel.Placed.{
  placed, placed-user_id, placed-parent, placed-sponsor, placed-AreWellFormed,
}
use mlmforge.Tree.Unilevel.{
  UnilevelTree, child_node, add_child, place_node, add_node, check_add_node,
}

-- The user that an index entry leads to.
pub resolved-live :
    (a : Arena) (user_id i : ℕ)
    → IsWellFormed a
    → resolve a user_id ≡ ok i
    → (user_id ≢ nil) × ((node_at a i).user_id ≡ user_id) × (lookup user_id a.index ≡ some i)
unfolding resolve
resolved-live a user_id i wf h =
    let (distinct, nobody, there) = wf.held.indexed in
    let hit : lookup user_id a.index ≡ some i = found (lookup user_id a.index) h in
    let named : user_id ≢ nil = λ e. let gone = rw e at hit in cc in
    (named, (there user_id i named).0 hit, hit)
  where
    found : (o : Option ℕ) → found_index user_id o ≡ ok i → o ≡ some i
    found none e = cc
    found (some k) e = cc

-- The node is of that user, below a node of the parent, and sponsored by one of the sponsor.
abbrev pub Joins : UnilevelTree → ℕ → ℕ → ℕ → ℕ → Type 0
Joins t i user_id parent_id sponsor_id =
    ((node_at t i).user_id ≡ user_id)
    × ((p : ℕ) × ((node_at t i).parent ≡ some p) × ((node_at t p).user_id ≡ parent_id))
    × ((s : ℕ) × ((node_at t i).sponsor ≡ some s) × ((node_at t s).user_id ≡ sponsor_id))

module _ (t : UnilevelTree) (user_id p s : ℕ) (enrolled_at : ℤ) (wf : IsWellFormed t)
    (at_parent : (node_at t p).user_id ≢ nil) (at_sponsor : (node_at t s).user_id ≢ nil)
    (named : user_id ≢ nil) (new : lookup user_id t.index ≡ none)
    (room : (node_at t p).depth + 1 < 2 ^ 32) where
  abbrev depth : ℕ
  depth = ((node_at t p).depth + 1) % 2 ^ 32

  abbrev node : Node
  node = child_node user_id p s depth enrolled_at

  abbrev slot : ℕ
  slot = (alloc_at t node t.free_list).1

  abbrev after : UnilevelTree
  after = (place_node t user_id p s enrolled_at).0

  -- The arena with the new slot, and then with the parent's list changed.
  abbrev grown : Arena
  grown = (alloc_at t node t.free_list).0

  abbrev listed : List Node
  listed = modify grown.nodes p (add_child slot)

  fresh : node_at t slot ≡ blank
  fresh = alloc_at-fresh t node t.free_list wf.held.cleared wf.freed

  parent_inside : p < length grown.nodes
  parent_inside = omega (arith, live-lt t p at_parent, alloc_at-grows t node t.free_list)

  sponsor_inside : s < length listed
  sponsor_inside = omega (
    arith,
    live-lt t s at_sponsor,
    alloc_at-grows t node t.free_list,
    length-modify grown.nodes p (add_child slot),
  )

  after-at : (j : ℕ) → node_at after j ≡ placed (node_at t) slot p s user_id depth enrolled_at j
  unfolding place_node alloc_slot placed
  after-at j =
      rw
        (
          get_or-modify listed s j (add_sponsored slot) blank sponsor_inside,
          get_or-modify grown.nodes p j (add_child slot) blank parent_inside,
          alloc_at-at t node t.free_list j wf.freed,
        )
        refl

  after-user_id : (j : ℕ) → (node_at after j).user_id ≡ (node_at grown j).user_id
  after-user_id j =
      rw
        (
          after-at j,
          placed-user_id (node_at t) slot p s user_id depth enrolled_at fresh at_parent at_sponsor
              named j,
          alloc_at-at t node t.free_list j wf.freed,
        )
        (ground arith)

  after-freed : AreFree (node_at after) (length after.nodes) after.free_list
  unfolding place_node alloc_slot
  after-freed =
      AreFree-same (node_at grown) (node_at after) _ _ grown.free_list after-user_id
        (length-modify listed s (add_sponsored slot) ∙ length-modify grown.nodes p (add_child slot))
        (alloc_at-free t node t.free_list named wf.freed)

  pub place_node-IsWellFormed : IsWellFormed after
  unfolding place_node alloc_slot
  place_node-IsWellFormed =
      let below : depth ≡ (node_at t p).depth + 1 = omega arith in
      let (index, root) = alloc_at-keeps t node t.free_list in
      record {
        held =
            rw (fun_ext after-at, index, root)
              (placed-AreWellFormed (node_at t) slot p s user_id depth enrolled_at fresh at_parent
                at_sponsor named t.index t.root below new wf.held);
        freed = after-freed;
      }

  pub place_node-Joins :
      Joins after
        (place_node t user_id p s enrolled_at).1
        user_id
        (node_at t p).user_id
        (node_at t s).user_id
  unfolding place_node alloc_slot
  place_node-Joins =
      let of_user = λ (j : ℕ).
        ap (λ (n : Node). n.user_id) (after-at j)
        ∙ placed-user_id (node_at t) slot p s user_id depth enrolled_at fresh at_parent at_sponsor
            named j in
      let dead : (node_at t slot).user_id ≡ nil = ap (λ (n : Node). n.user_id) fresh in
      let parent =
        ap (λ (n : Node). n.parent) (after-at slot)
        ∙ placed-parent (node_at t) slot p s user_id depth enrolled_at fresh at_parent at_sponsor
            named slot in
      let sponsor =
        ap (λ (n : Node). n.sponsor) (after-at slot)
        ∙ placed-sponsor (node_at t) slot p s user_id depth enrolled_at fresh at_parent at_sponsor
            named slot in
      (
        ground (arith, of_user slot),
        (p, ground (arith, parent), ground (arith, of_user p, dead)),
        (s, ground (arith, sponsor), ground (arith, of_user s, dead)),
      )

-- The depths leave room for one more level in a `u32`.
abbrev pub AreShallow : UnilevelTree → Type 0
AreShallow t = (i : ℕ) → (node_at t i).depth + 1 < 2 ^ 32

check_add_node-ok :
    (t : UnilevelTree) (user_id parent_id sponsor_id : ℕ) {u : Unit {0}}
    → check_add_node t user_id parent_id sponsor_id ≡ ok u
    → (user_id ≢ nil) × (lookup user_id t.index ≡ none)
unfolding check_add_node check_user_id
check_add_node-ok t user_id parent_id sponsor_id h = (ground arith, ground arith)

-- If `add_node` succeeds on a well-formed tree whose depths leave room for one more level, the new tree
-- is well formed, and the node at the index that is returned is of the user, below a node of the
-- parent, and sponsored by one of the sponsor.
pub add_node-IsWellFormed :
    (t t' : UnilevelTree) (user_id parent_id sponsor_id i : ℕ) (enrolled_at : ℤ)
    → IsWellFormed t
    → AreShallow t
    → add_node t user_id parent_id sponsor_id enrolled_at ≡ ok (t', i)
    → IsWellFormed t' × Joins t' i user_id parent_id sponsor_id
unfolding add_node
add_node-IsWellFormed t t' user_id parent_id sponsor_id i enrolled_at wf shallow h =
    let (checked, passed, h1) = bind_ok (check_add_node t user_id parent_id sponsor_id) _ h in
    let (p, found_p, h2) = bind_ok (resolve t parent_id) _ h1 in
    let (s, found_s, h3) = bind_ok (resolve t sponsor_id) _ h2 in
    let (named_p, user_p, hit_p) = resolved-live t parent_id p wf found_p in
    let (named_s, user_s, hit_s) = resolved-live t sponsor_id s wf found_s in
    let (named, new) = check_add_node-ok t user_id parent_id sponsor_id passed in
    let lp : (node_at t p).user_id ≢ nil = rw user_p named_p in
    let ls : (node_at t s).user_id ≢ nil = rw user_s named_s in
    let made : place_node t user_id p s enrolled_at ≡ (t', i) = ok_inj h3 in
    let kept = place_node-IsWellFormed t user_id p s enrolled_at wf lp ls named new (shallow p) in
    let joins = place_node-Joins t user_id p s enrolled_at wf lp ls named new (shallow p) in
    subst (λ (r : UnilevelTree × ℕ). IsWellFormed r.0 × Joins r.0 r.1 user_id parent_id sponsor_id)
      made
      (
        kept,
        subst
            (λ (v : ℕ × ℕ).
              let r = place_node t user_id p s enrolled_at in Joins r.0 r.1 user_id v.0 v.1)
            (λ k. (user_p k, user_s k)) joins,
      )

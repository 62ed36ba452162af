-- ===== src/Tree/Binary/Added.antt =====
-- tree/binary.rs: `add_node`.
use mathlib.Core.Path.{subst}
use mlmforge.Prelude.{ℕ, ◌≤◌, ◌≡◌, ◌≢◌, sym, ◌∙◌, false, none, some, arith, ltb}
use mlmforge.Prelude.Int.{ℤ}
use mlmforge.Prelude.Assoc.{lookup}
use mlmforge.Prelude.Results.{ok, bind_ok, ok_inj}
use mlmforge.Tree.Arena.{nil, node_at, resolve, check_user_id}
use mlmforge.Tree.Unilevel.{as_sponsor}
use mlmforge.Tree.Unilevel.Added.{resolved-live, Joins, AreShallow}
use mlmforge.Tree.Binary.{BinaryTree, slots_of, slot_at, place_node, add_node, check_add_node}
use mlmforge.Tree.Binary.Slotted.{IsBinary}
use mlmforge.Tree.Binary.Placed.{place_node-IsBinary, place_node-Fills, place_node-Joins}

-- What `check_add_node` finds out.
check_add_node-ok :
    (t : BinaryTree) (user_id parent_id position sponsor_id : ℕ) {u : Unit {0}}
    → check_add_node t user_id parent_id position sponsor_id ≡ ok u
    → (user_id ≢ nil)
      × (position ≤ 1)
      × (lookup user_id t.arena.index ≡ none)
      × ((p : ℕ) × (resolve t.arena parent_id ≡ ok p)
          × (slot_at (slots_of p t.slots) position ≡ none))
unfolding check_add_node check_user_id
check_add_node-ok t user_id parent_id position sponsor_id h =
    let (u, passed, h1) = bind_ok (check_user_id user_id) _ h in
    let near : ltb 1 position ≡ false = ground arith in
    let absent : lookup user_id t.arena.index ≡ none = ground arith in
    let h2 = rw (near, absent) at h1 in
    let (p, found, h3) = bind_ok (resolve t.arena parent_id) _ h2 in
    let (v, sponsored, h4) = bind_ok (as_sponsor (resolve t.arena sponsor_id)) _ h3 in
    (ground arith, ground arith, absent, (p, found, ground arith))

-- If `add_node` succeeds on a binary tree whose arena is well formed, whose slot map agrees with it, and
-- whose depths leave room for one more level, both hold of the new tree. The position was 0 or 1, and the
-- parent's slot there was open and holds the index that is returned, where the user's node stands, below
-- a node of the parent and sponsored by one of the sponsor.
pub add_node-IsBinary :
    (t t' : BinaryTree) (user_id parent_id position sponsor_id i : ℕ) (enrolled_at : ℤ)
    → IsBinary t
    → AreShallow t.arena
    → add_node t user_id parent_id position sponsor_id enrolled_at ≡ ok (t', i)
    → IsBinary t'
      × Joins t'.arena i user_id parent_id sponsor_id
      × (position ≤ 1)
      × ((p : ℕ) × (resolve t.arena parent_id ≡ ok p)
          × (slot_at (slots_of p t.slots) position ≡ none)
          × (slot_at (slots_of p t'.slots) position ≡ some i))
unfolding add_node
add_node-IsBinary t t' user_id parent_id position sponsor_id i enrolled_at b shallow h =
    let (u, passed, h1) = bind_ok (check_add_node t user_id parent_id position sponsor_id) _ h in
    let (p, found_p, h2) = bind_ok (resolve t.arena parent_id) _ h1 in
    let (s, found_s, h3) = bind_ok (resolve t.arena sponsor_id) _ h2 in
    let (named_p, user_p, hit_p) = resolved-live t.arena parent_id p b.held found_p in
    let (named_s, user_s, hit_s) = resolved-live t.arena sponsor_id s b.held found_s in
    let (named, near, new, (p', found', open')) =
      check_add_node-ok t user_id parent_id position sponsor_id passed in
    let same : p' ≡ p = ok_inj (sym found' ∙ found_p) in
    let is_open = subst (λ (k : ℕ). slot_at (slots_of k t.slots) position ≡ none) same open' in
    let lp : (node_at t.arena p).user_id ≢ nil = rw user_p named_p in
    let ls : (node_at t.arena s).user_id ≢ nil = rw user_s named_s in
    let kept =
      place_node-IsBinary t user_id p position s enrolled_at b lp ls named new (shallow p)
        is_open in
    let joins =
      place_node-Joins t user_id p position s enrolled_at b lp ls named new (shallow p) is_open in
    let fills =
      place_node-Fills t user_id p position s enrolled_at b lp ls named new (shallow p) is_open in
    subst
      (λ (r : BinaryTree × ℕ).
        IsBinary r.0
        × Joins r.0.arena r.1 user_id parent_id sponsor_id
        × (position ≤ 1)
        × ((p : ℕ) × (resolve t.arena parent_id ≡ ok p)
            × (slot_at (slots_of p t.slots) position ≡ none)
            × (slot_at (slots_of p r.0.slots) position ≡ some r.1)))
      (ok_inj h3)
      (
        kept,
        subst
            (λ (v : ℕ × ℕ).
              let r = place_node t user_id p position s enrolled_at in
              Joins r.0.arena r.1 user_id v.0 v.1)
            (λ k. (user_p k, user_s k)) joins,
        near,
        (p, found_p, is_open, fills),
      )

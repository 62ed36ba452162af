-- ===== src/Tree/Binary/Placed.antt =====
-- tree/binary.rs: a new node fills a slot, and is placed in the arena as in a unilevel tree, up to the
-- order of the parent's children.
use mlmforge.Prelude.{
  ℕ, zero, suc, ◌+◌, ◌%◌, ◌^◌, ◌<◌, ◌≡◌, ◌≢◌, refl, sym, ap, ◌∙◌, true, false, none, some, List, [],
  ◌∷◌, ◌++◌, arith, ◌==◌, ==_iff, if◌then◌else◌, Bool-cases, inl, inr, length,
}
use mlmforge.Prelude.Int.{ℤ}
use mlmforge.Prelude.Assoc.{lookup, insert, lookup-insert, insert-HasDistinctKeys}
use mlmforge.Tree.Node.{Node}
use mlmforge.Tree.Arena.{Arena, blank, nil, node_at, modify, alloc_at, alloc_slot, add_sponsored}
use mlmforge.Tree.Arena.Slots.{times, length-modify, get_or-modify, live-lt}
use mlmforge.Tree.Arena.WellFormed.{alloc_at-at, alloc_at-fresh, alloc_at-grows}
use mlmforge.Tree.Unilevel
use mlmforge.Tree.Unilevel.{as_sponsor, child_node, add_child}
use mlmforge.Tree.Unilevel.Added
use mlmforge.Tree.Unilevel.Added.{resolved-live, Joins, AreShallow, place_node-IsWellFormed}
use mlmforge.Tree.Binary.{
  BinaryTree, ChildSlots, open_slots, slots_of, slot_at, fill_slot, occupied, with_children,
  rebuild_children, fill, place_node,
}
use mlmforge.Tree.Binary.Slotted.{IsSlotted, IsBinary, IsSlotted-some, IsSlotted-same}
use mlmforge.Tree.Binary.Reordered.{
  IsReordered, IsReordered-user_id, IsReordered-parent, IsReordered-sponsor,
  IsReordered-IsWellFormed,
}

-- A child in an open slot is one more child.
times-fill_slot :
    (position i c : ℕ) (s : ChildSlots)
    → slot_at s position ≡ none
    → times c (occupied (fill_slot position i s)) ≡ times c (occupied s ++ i ∷ [])
times-fill_slot zero i c (none, none) h = refl
times-fill_slot zero i c (none, some r) h = omega arith
times-fill_slot zero i c (some l, r) h = cc
times-fill_slot (suc k) i c (none, none) h = refl
times-fill_slot (suc k) i c (some l, none) h = refl
times-fill_slot (suc k) i c (l, some r) h = cc

slot_at-fill_slot :
    (position i : ℕ) (s : ChildSlots) → slot_at (fill_slot position i s) position ≡ some i
slot_at-fill_slot zero i s = refl
slot_at-fill_slot (suc k) i s = refl

module _ (t : BinaryTree) (user_id p position s : ℕ) (enrolled_at : ℤ) (b : IsBinary t)
    (at_parent : (node_at t.arena p).user_id ≢ nil) (at_sponsor : (node_at t.arena s).user_id ≢ nil)
    (named : user_id ≢ nil) (new : lookup user_id t.arena.index ≡ none)
    (room : (node_at t.arena p).depth + 1 < 2 ^ 32)
    (is_open : slot_at (slots_of p t.slots) position ≡ none) where
  abbrev node : Node
  node = child_node user_id p s (((node_at t.arena p).depth + 1) % 2 ^ 32) enrolled_at

  abbrev grown : Arena
  grown = (alloc_at t.arena node t.arena.free_list).0

  abbrev slot : ℕ
  slot = (alloc_at t.arena node t.arena.free_list).1

  -- The tree after the placement, and the arena as a unilevel tree leaves it.
  abbrev after : BinaryTree
  after = (place_node t user_id p position s enrolled_at).0

  abbrev unilevel : Arena
  unilevel = (Unilevel.place_node t.arena user_id p s enrolled_at).0

  abbrev filled : ChildSlots
  filled = fill_slot position slot (slots_of p t.slots)

  not_parent : slot ≢ p
  not_parent = λ e. at_parent (
      ap (λ (k : ℕ). (node_at t.arena k).user_id) (sym e)
      ∙ ap (λ (n : Node). n.user_id)
          (alloc_at-fresh t.arena node t.arena.free_list b.held.held.cleared b.held.freed))

  not_sponsor : slot ≢ s
  not_sponsor = λ e. at_sponsor (
      ap (λ (k : ℕ). (node_at t.arena k).user_id) (sym e)
      ∙ ap (λ (n : Node). n.user_id)
          (alloc_at-fresh t.arena node t.arena.free_list b.held.held.cleared b.held.freed))

  parent_entry :
      (e : ChildSlots) × (lookup p t.slots ≡ some e) × ((node_at t.arena p).children ≡ occupied e)
  parent_entry = IsSlotted-some (node_at t.arena p) (lookup p t.slots) (b.slotted p) at_parent

  -- A node after both changes of its lists.
  abbrev changed : (Node → Node) → ℕ → Node
  changed f j =
      let n = if slot == j then node else node_at t.arena j in
      let listed = if p == j then f n else n in if s == j then add_sponsored slot listed else listed

  changed-at :
      (f : Node → Node) (j : ℕ)
      → node_at (record grown { nodes = modify (modify grown.nodes p f) s (add_sponsored slot) }) j
        ≡ changed f j
  changed-at f j =
      let grows = alloc_at-grows t.arena node t.arena.free_list in
      let parent_inside : p < length grown.nodes =
        omega (arith, live-lt t.arena p at_parent, grows) in
      let sponsor_inside : s < length (modify grown.nodes p f) =
        omega (arith, live-lt t.arena s at_sponsor, grows, length-modify grown.nodes p f) in
      rw
        (
          get_or-modify (modify grown.nodes p f) s j (add_sponsored slot) blank sponsor_inside,
          get_or-modify grown.nodes p j f blank parent_inside,
          alloc_at-at t.arena node t.arena.free_list j b.held.freed,
        )
        refl

  entry-filled :
      slots_of p (
        insert p
          (fill_slot position slot (slots_of p (insert slot open_slots t.slots)))
          (insert slot open_slots t.slots))
      ≡ filled
  entry-filled =
      let self : p == p ≡ true = ground arith in
      let differs : slot == p ≡ false = ground (arith, not_parent) in
      rw (lookup-insert, self, lookup-insert, differs) refl

  after-at : (j : ℕ) → node_at after.arena j ≡ changed (with_children (occupied filled)) j
  unfolding place_node alloc_slot fill rebuild_children
  after-at j =
      (λ k.
        node_at
          (record grown {
            nodes =
                modify (modify grown.nodes p (with_children (occupied (entry-filled k)))) s
                  (add_sponsored slot);
          })
          j)
      ∙ changed-at (with_children (occupied filled)) j

  unilevel-at : (j : ℕ) → node_at unilevel j ≡ changed (add_child slot) j
  unfolding Unilevel.place_node alloc_slot
  unilevel-at j = changed-at (add_child slot) j

  -- Both changes leave the same node, up to its children.
  changed-slots :
      (cs : List ℕ) (j : ℕ)
      → changed (with_children cs) j
        ≡ with_children (changed (with_children cs) j).children (changed (add_child slot) j)
  changed-slots cs j = ground arith

  changed-children :
      (j c : ℕ)
      → times c (changed (with_children (occupied filled)) j).children
        ≡ times c (changed (add_child slot) j).children
  changed-children j c = elim (Bool-cases (p == j)) [
    | inl e ↦
        let (entry, hit, kids) = parent_entry in
        let same : p ≡ j = (==_iff p j).0 e in
        let old : occupied (slots_of p t.slots) ≡ (node_at t.arena j).children =
          rw hit (sym kids) ∙ ap (λ (k : ℕ). (node_at t.arena k).children) same in
        let one : times c (occupied filled) ≡ times c ((node_at t.arena j).children ++ slot ∷ []) =
          times-fill_slot position slot c (slots_of p t.slots) is_open
          ∙ ap (λ (cs : List ℕ). times c (cs ++ slot ∷ [])) old in
        let differs : slot == j ≡ false = ground (arith, not_parent) in
        rw (e, differs) (ground (arith, one))
    | inr e ↦ rw e refl
  ]

  after-IsReordered : IsReordered unilevel after.arena
  unfolding place_node Unilevel.place_node alloc_slot fill rebuild_children
  after-IsReordered = record {
    size =
        length-modify _ s (add_sponsored slot)
        ∙ length-modify grown.nodes p _
        ∙ sym (
            length-modify (modify grown.nodes p (add_child slot)) s (add_sponsored slot)
            ∙ length-modify grown.nodes p (add_child slot));
    index = refl;
    free_list = refl;
    root = refl;
    slots = λ j.
        after-at j
        ∙ changed-slots (occupied filled) j
        ∙ sym (λ k. with_children (after-at j k).children (unilevel-at j k));
    children = λ j c.
        ap (λ (n : Node). times c n.children) (after-at j)
        ∙ changed-children j c
        ∙ sym (ap (λ (n : Node). times c n.children) (unilevel-at j));
  }

  after-lookup :
      (j : ℕ)
      → lookup j after.slots
        ≡ (if p == j then some filled else if slot == j then some open_slots else lookup j t.slots)
  unfolding place_node alloc_slot fill rebuild_children
  after-lookup j =
      let differs : slot == p ≡ false = ground (arith, not_parent) in
      rw (lookup-insert, lookup-insert, lookup-insert, differs) refl

  changed-user_id :
      (cs : List ℕ) (j : ℕ)
      → (changed (with_children cs) j).user_id
        ≡ (if slot == j then user_id else (node_at t.arena j).user_id)
  changed-user_id cs j = ground arith

  changed-kept :
      (cs : List ℕ) (j : ℕ)
      → p == j ≡ false
      → (changed (with_children cs) j).children
        ≡ (if slot == j then [] else (node_at t.arena j).children)
  changed-kept cs j h = ground arith

  after-IsSlotted : (j : ℕ) → IsSlotted (node_at after.arena j) (lookup j after.slots)
  after-IsSlotted j = elim (Bool-cases (p == j)) [
    | inl e ↦
        let same : p ≡ j = (==_iff p j).0 e in
        let live : (node_at t.arena j).user_id ≢ nil =
          λ d. at_parent (ap (λ (k : ℕ). (node_at t.arena k).user_id) same ∙ d) in
        let user = changed-user_id (occupied filled) j in
        rw (after-at j, after-lookup j, e) (λ d. ground (arith, live, named), ground arith)
    | inr e ↦ elim (Bool-cases (slot == j)) [
      | inl e' ↦ rw (after-at j, after-lookup j, e, e') (ground (arith, named), ground arith)
      | inr e' ↦
          rw (after-lookup j, e, e')
            (IsSlotted-same (node_at t.arena j) (node_at after.arena j) (lookup j t.slots)
              (ap (λ (n : Node). n.user_id) (after-at j)
                ∙ changed-user_id (occupied filled) j
                ∙ rw e' refl)
              (ap (λ (n : Node). n.children) (after-at j)
                ∙ changed-kept (occupied filled) j e
                ∙ rw e' refl)
              (b.slotted j))
    ]
  ]

  pub place_node-IsBinary : IsBinary after
  unfolding place_node alloc_slot fill rebuild_children
  place_node-IsBinary = record {
    held = IsReordered-IsWellFormed unilevel after.arena after-IsReordered (
        place_node-IsWellFormed t.arena user_id p s enrolled_at b.held at_parent at_sponsor named
          new room);
    distinct =
        insert-HasDistinctKeys p _ (insert slot open_slots t.slots)
          (insert-HasDistinctKeys slot open_slots t.slots b.distinct);
    slotted = after-IsSlotted;
  }

  pub place_node-Fills :
      let r = place_node t user_id p position s enrolled_at in
      slot_at (slots_of p r.0.slots) position ≡ some r.1
  unfolding place_node alloc_slot
  place_node-Fills =
      let self : p == p ≡ true = ground arith in
      rw (after-lookup p, self) (slot_at-fill_slot position slot (slots_of p t.slots))

  pub place_node-Joins :
      let r = place_node t user_id p position s enrolled_at in
      Joins r.0.arena r.1 user_id (node_at t.arena p).user_id (node_at t.arena s).user_id
  unfolding place_node Unilevel.place_node alloc_slot fill rebuild_children
  place_node-Joins =
      let (user, (q, parent, of_parent), (r, sponsor, of_sponsor)) =
        Added.place_node-Joins t.arena user_id p s enrolled_at b.held at_parent at_sponsor named new
          room in
      (
        IsReordered-user_id unilevel after.arena after-IsReordered slot ∙ user,
        (
          q,
          IsReordered-parent unilevel after.arena after-IsReordered slot ∙ parent,
          IsReordered-user_id unilevel after.arena after-IsReordered q ∙ of_parent,
        ),
        (
          r,
          IsReordered-sponsor unilevel after.arena after-IsReordered slot ∙ sponsor,
          IsReordered-user_id unilevel after.arena after-IsReordered r ∙ of_sponsor,
        ),
      )

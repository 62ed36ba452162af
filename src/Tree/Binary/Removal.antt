-- ===== src/Tree/Binary/Removal.antt =====
-- tree/binary.rs: `remove_node` is that of a unilevel tree on the arena, and the slot map follows.
use mathlib.Core.Path.{subst}
use mlmforge.Prelude.{
  ℕ, zero, suc, ◌≡◌, refl, sym, ap, ◌∙◌, Option, none, some, List, [], ◌∷◌, arith, ◌==◌, ==_iff,
  true, if◌then◌else◌, Bool-cases, inl, inr, get_or,
}
use mlmforge.Prelude.Assoc.{
  lookup, remove, lookup-insert, lookup-remove, HasDistinctKeys, insert-HasDistinctKeys,
  remove-HasDistinctKeys,
}
use mlmforge.Prelude.Results.{ok, ◌>>=◌, map_ok, map_ok-bind, bind_cong, bind_ok, ok_inj}
use mlmforge.Tree.Node.{Node, Responsored}
use mlmforge.Tree.Arena.{Arena, blank, node_at, modify, resolve, reparent_sponsored}
use mlmforge.Tree.Arena.Slots.{times, filter-times}
use mlmforge.Tree.Arena.WellFormed.{parent-live}
use mlmforge.Tree.Unilevel
use mlmforge.Tree.Unilevel.{retain_ne, drop_child, modify_some}
use mlmforge.Tree.Unilevel.Removal.{remove_node-IsWellFormed}
use mlmforge.Tree.Unilevel.Removal.Released.{PassesOn}
use mlmforge.Tree.Binary.{
  BinaryTree, ChildSlots, slots_of, occupied, clear_slots, rebuild_children, vacate, detach,
  release, remove_node, check_remove_node,
}
use mlmforge.Tree.Binary.Slotted.{IsSlotted, IsBinary, IsSlotted-some, IsSlotted-same}

occupied-clear_slots :
    (i : ℕ) (s : ChildSlots) → occupied (clear_slots i s) ≡ retain_ne i (occupied s)
occupied-clear_slots i (none, none) = refl
occupied-clear_slots i (none, some r) = ground arith
occupied-clear_slots i (some l, none) = ground arith
occupied-clear_slots i (some l, some r) = ground arith

-- Two changes that agree on a slot.
modify_cong {ℓ} :
    {A : Type ℓ} (xs : List A) (i : ℕ) (f g : A → A) (d : A)
    → f (get_or xs i d) ≡ g (get_or xs i d)
    → modify xs i f ≡ modify xs i g
modify_cong [] i f g d h = refl
modify_cong (x ∷ xs) zero f g d h = ap (λ y. y ∷ xs) h
modify_cong (x ∷ xs) (suc i) f g d h = ap (λ ys. x ∷ ys) (modify_cong xs i f g d h)

module _ (t : BinaryTree) (b : IsBinary t) (i : ℕ) where
  -- The parent's entry.
  parent_entry :
      (p : ℕ)
      → (node_at t.arena i).parent ≡ some p
      → (s : ChildSlots) × (lookup p t.slots ≡ some s) × ((node_at t.arena p).children ≡ occupied s)
  parent_entry p h =
      IsSlotted-some (node_at t.arena p) (lookup p t.slots) (b.slotted p)
        (parent-live (node_at t.arena) i p b.held.held.cleared b.held.held.children h)

  vacate-arena :
      (o : Option ℕ)
      → (node_at t.arena i).parent ≡ o
      → (vacate i o t).arena ≡ modify_some o (drop_child i) t.arena
  unfolding vacate rebuild_children
  vacate-arena none h = refl
  vacate-arena (some p) h =
      let (s, hit, kids) = parent_entry p h in
      let self : p == p ≡ true = ground arith in
      ap (λ (ns : List Node). record t.arena { nodes = ns })
        (modify_cong t.arena.nodes p _ (drop_child i) blank (
          ap (λ (cs : List ℕ). record (node_at t.arena p) { children = cs })
            (rw (lookup-insert, self, hit, kids) (occupied-clear_slots i s))))

  detach-arena : (detach t i).arena ≡ Unilevel.detach t.arena i
  unfolding detach Unilevel.detach
  detach-arena =
      ap
        (λ (a : Arena).
          let a' = modify_some (node_at a i).sponsor (Unilevel.drop_sponsored i) a in
          record a' { root = Unilevel.clear_root i a'.root })
        (vacate-arena (node_at t.arena i).parent refl)

  -- An entry after the node has left.
  abbrev left : Option ℕ → ℕ → Option ChildSlots
  left none j = lookup j t.slots
  left (some p) j = if p == j then some (clear_slots i (slots_of p t.slots)) else lookup j t.slots

  vacate-lookup : (o : Option ℕ) (j : ℕ) → lookup j (vacate i o t).slots ≡ left o j
  unfolding vacate rebuild_children
  vacate-lookup none j = refl
  vacate-lookup (some p) j = lookup-insert p j (clear_slots i (slots_of p t.slots)) t.slots

  vacate-HasDistinctKeys : (o : Option ℕ) → HasDistinctKeys (vacate i o t).slots
  unfolding vacate rebuild_children
  vacate-HasDistinctKeys none = b.distinct
  vacate-HasDistinctKeys (some p) =
      insert-HasDistinctKeys p (clear_slots i (slots_of p t.slots)) t.slots b.distinct

  -- What agrees with an entry before agrees with it afterwards, without the node.
  left-IsSlotted :
      (o : Option ℕ) (j : ℕ) (n : Node)
      → (node_at t.arena i).parent ≡ o
      → n.user_id ≡ (node_at t.arena j).user_id
      → n.children ≡ retain_ne i (node_at t.arena j).children
      → IsSlotted n (left o j)
  left-IsSlotted none j n h user kids =
      let none_here : times i (node_at t.arena j).children ≡ 0 =
        b.held.held.children j i ∙ rw h refl in
      IsSlotted-same (node_at t.arena j) n (lookup j t.slots) user
        (kids ∙ filter-times i (node_at t.arena j).children none_here) (b.slotted j)
  left-IsSlotted (some p) j n h user kids = elim (Bool-cases (p == j)) [
    | inl e ↦
        let (s, hit, old) = parent_entry p h in
        let same : p ≡ j = (==_iff p j).0 e in
        let live = parent-live (node_at t.arena) i p b.held.held.cleared b.held.held.children h in
        rw (e, hit)
          (
            λ d. live (ap (λ (k : ℕ). (node_at t.arena k).user_id) same ∙ sym user ∙ d),
            kids
                ∙ ap (λ (k : ℕ). retain_ne i (node_at t.arena k).children) (sym same)
                ∙ ap (retain_ne i) old
                ∙ sym (occupied-clear_slots i s),
          )
    | inr e ↦
        let none_here : times i (node_at t.arena j).children ≡ 0 =
          b.held.held.children j i ∙ rw (h, e) refl in
        rw e (
          IsSlotted-same (node_at t.arena j) n (lookup j t.slots) user
            (kids ∙ filter-times i (node_at t.arena j).children none_here) (b.slotted j))
  ]

  detach-IsSlotted :
      (a : Arena)
      → PassesOn t.arena a i
      → (j : ℕ) → IsSlotted (node_at a j) (lookup j (remove i (detach t i).slots))
  unfolding detach
  detach-IsSlotted a (gone, passes) j =
      let slots = (vacate i (node_at t.arena i).parent t).slots in
      let removed = lookup-remove i j slots (vacate-HasDistinctKeys (node_at t.arena i).parent) in
      elim (Bool-cases (i == j)) [
        | inl e ↦
            rw (removed, e)
              (ap (λ (k : ℕ). (node_at a k).user_id) (sym ((==_iff i j).0 e))
                ∙ ap (λ (n : Node). n.user_id) gone)
        | inr e ↦
            let (user, parent, kids, sponsor) = passes j (λ same. ground arith) in
            rw (removed, e, vacate-lookup (node_at t.arena i).parent j)
              (left-IsSlotted (node_at t.arena i).parent j (node_at a j) refl user kids)
      ]

-- On the arena `remove_node` of a binary tree is that of a unilevel tree, whichever way it ends.
pub remove_node-unilevel :
    (t : BinaryTree) (user_id : ℕ)
    → IsBinary t
    → map_ok (λ (r : BinaryTree × List Responsored). (r.0.arena, r.1)) (remove_node t user_id)
      ≡ Unilevel.remove_node t.arena user_id
unfolding remove_node check_remove_node Unilevel.remove_node release Unilevel.release
remove_node-unilevel t user_id b =
    map_ok-bind _ (Unilevel.check_remove_node t.arena user_id) _
    ∙ bind_cong (Unilevel.check_remove_node t.arena user_id) _ _ λ u _.
      map_ok-bind _ (resolve t.arena user_id) _
      ∙ bind_cong (resolve t.arena user_id) _ _ λ i _.
        map_ok-bind _ (reparent_sponsored (i ∷ []) (detach t i).arena) _
        ∙ ap
            (λ (a : Arena).
              reparent_sponsored (i ∷ []) a >>= λ moved. ok (Unilevel.release user_id i moved))
            (detach-arena t b i)

-- If `remove_node` succeeds on a binary tree whose arena is well formed and whose slot map agrees with
-- it, both hold afterwards, and the user is not in the tree; every other node keeps its parent, its other
-- children in their order, and its sponsor, or that node's sponsor if the removed node was it.
pub remove_node-IsBinary :
    (t t' : BinaryTree) (user_id : ℕ) (moved : List Responsored)
    → IsBinary t
    → remove_node t user_id ≡ ok (t', moved)
    → IsBinary t'
      × (lookup user_id t'.arena.index ≡ none)
      × ((i : ℕ) × (resolve t.arena user_id ≡ ok i) × PassesOn t.arena t'.arena i)
unfolding remove_node release detach
remove_node-IsBinary t t' user_id moved b h =
    let below =
      sym (remove_node-unilevel t user_id b)
      ∙ ap (map_ok λ (r : BinaryTree × List Responsored). (r.0.arena, r.1)) h in
    let (well, gone, (i, found, passes)) =
      remove_node-IsWellFormed t.arena t'.arena user_id moved b.held below in
    let (u, checked, h1) = bind_ok (check_remove_node t user_id) _ h in
    let (i', found', h2) = bind_ok (resolve t.arena user_id) _ h1 in
    let (r, handed, h3) = bind_ok (reparent_sponsored (i' ∷ []) (detach t i').arena) _ h2 in
    let at : i' ≡ i = ok_inj (sym found' ∙ found) in
    let slots : t'.slots ≡ remove i (detach t i).slots =
      sym (ap (λ (x : BinaryTree × List Responsored). x.0.slots) (ok_inj h3))
      ∙ ap (λ (k : ℕ). remove k (detach t k).slots) at in
    (
      record {
        held = well;
        distinct = subst HasDistinctKeys (sym slots) (
            remove-HasDistinctKeys i (detach t i).slots
              (vacate-HasDistinctKeys t b i (node_at t.arena i).parent));
        slotted =
            subst
              (λ (xs : List (ℕ × ChildSlots)).
                (j : ℕ) → IsSlotted (node_at t'.arena j) (lookup j xs))
              (sym slots) (detach-IsSlotted t b i t'.arena passes);
      },
      gone,
      (i, found, passes),
    )

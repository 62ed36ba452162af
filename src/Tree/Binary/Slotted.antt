-- ===== src/Tree/Binary/Slotted.antt =====
-- tree/binary.rs: the slot map agrees with the arena. The empty tree, and a tree with a root.
use mathlib.Core.Path.{subst}
use mlmforge.Prelude.{ℕ, ◌≡◌, ◌≢◌, refl, sym, ◌∙◌, Option, none, some, ◌==◌, Bool-cases, inl, inr}
use mlmforge.Prelude.Int.{ℤ}
use mlmforge.Prelude.Assoc.{lookup, lookup-insert, HasDistinctKeys, insert-HasDistinctKeys}
use mlmforge.Prelude.Results.{Result, ok, err, ◌>>=◌, map_ok, bind_ok, ok_inj}
use mlmforge.Tree.Node.{Node, TreeError}
use mlmforge.Tree.Arena.{Arena, nil, node_at, alloc_at, alloc_slot}
use mlmforge.Tree.Arena.WellFormed.{IsWellFormed, alloc_at-at}
use mlmforge.Tree.Unilevel
use mlmforge.Tree.Unilevel.{root_node}
use mlmforge.Tree.Unilevel.Rooted.{new-IsWellFormed, check_add_root-ok, add_root-IsWellFormed}
use mlmforge.Tree.Binary.{
  BinaryTree, ChildSlots, open_slots, open_for, occupied, new, add_root, check_add_root,
}

-- A node in use has an entry, whose occupied slots are its children; a cleared slot has none.
abbrev pub IsSlotted : Node → Option ChildSlots → Type 0
IsSlotted n none = n.user_id ≡ nil
IsSlotted n (some s) = (n.user_id ≢ nil) × (n.children ≡ occupied s)

pub record IsBinary (t : BinaryTree) : Type 0 where
  pub held : IsWellFormed t.arena
  pub distinct : HasDistinctKeys t.slots
  pub slotted : (i : ℕ) → IsSlotted (node_at t.arena i) (lookup i t.slots)

pub new-IsBinary : IsBinary new
unfolding lookup
new-IsBinary = record { held = new-IsWellFormed; distinct = tt; slotted = λ i. refl }

-- The entry of a node in use.
pub IsSlotted-some :
    (n : Node) (o : Option ChildSlots)
    → IsSlotted n o
    → n.user_id ≢ nil
    → (s : ChildSlots) × (o ≡ some s) × (n.children ≡ occupied s)
IsSlotted-some n none dead live = absurd (live dead)
IsSlotted-some n (some s) (live, same) h = (s, refl, same)

-- What an entry says of a node depends on its user and its children only.
pub IsSlotted-same :
    (m n : Node) (o : Option ChildSlots)
    → n.user_id ≡ m.user_id
    → n.children ≡ m.children
    → IsSlotted m o
    → IsSlotted n o
IsSlotted-same m n none user kids dead = user ∙ dead
IsSlotted-same m n (some s) user kids (live, same) = (λ d. live (sym user ∙ d), kids ∙ same)

-- On the arena a root is added as in a unilevel tree.
pub add_root-unilevel :
    (t : BinaryTree) (user_id : ℕ) (enrolled_at : ℤ)
    → add_root t user_id enrolled_at
      ≡ map_ok (open_for t.slots) (Unilevel.add_root t.arena user_id enrolled_at)
unfolding add_root check_add_root Unilevel.add_root
add_root-unilevel t user_id enrolled_at = passed (Unilevel.check_add_root t.arena user_id)
  where
    passed :
        (m : Result TreeError (Unit {0}))
        → (m >>= λ _. ok (open_for t.slots (Unilevel.place_root t.arena user_id enrolled_at)))
          ≡ map_ok
              (open_for t.slots)
              (m >>= λ _. ok (Unilevel.place_root t.arena user_id enrolled_at))
    passed (ok u) = refl
    passed (err e) = refl

place_root-IsSlotted :
    (t : BinaryTree) (user_id : ℕ) (enrolled_at : ℤ)
    → user_id ≢ nil
    → IsBinary t
    → let r = open_for t.slots (Unilevel.place_root t.arena user_id enrolled_at) in
      (j : ℕ) → IsSlotted (node_at r.0.arena j) (lookup j r.0.slots)
unfolding Unilevel.place_root alloc_slot
place_root-IsSlotted t user_id enrolled_at named b j =
    let node = root_node user_id enrolled_at in
    let at = alloc_at-at t.arena node t.arena.free_list j b.held.freed in
    let i = (alloc_at t.arena node t.arena.free_list).1 in
    elim (Bool-cases (i == j)) [
      | inl e ↦ rw (lookup-insert, at, e) (named, refl)
      | inr e ↦ rw (lookup-insert, at, e) (b.slotted j)
    ]

-- If `add_root` succeeds on a binary tree whose arena is well formed and whose slot map agrees with it,
-- the tree had no root, and the new one is such a tree with the returned index as its root.
pub add_root-IsBinary :
    (t t' : BinaryTree) (user_id i : ℕ) (enrolled_at : ℤ)
    → IsBinary t
    → add_root t user_id enrolled_at ≡ ok (t', i)
    → (t.arena.root ≡ none) × IsBinary t' × (t'.arena.root ≡ some i)
unfolding Unilevel.add_root
add_root-IsBinary t t' user_id i enrolled_at b h =
    let (r, placed, whole) =
      mapped (Unilevel.add_root t.arena user_id enrolled_at)
        (sym (add_root-unilevel t user_id enrolled_at) ∙ h) in
    let (rootless, well, at_root, of_user, top) =
      add_root-IsWellFormed t.arena r.0 user_id r.1 enrolled_at b.held placed in
    let (u, checked, h1) = bind_ok (Unilevel.check_add_root t.arena user_id) _ placed in
    let named = (check_add_root-ok t.arena user_id checked).0 in
    subst
      (λ (x : BinaryTree × ℕ). (t.arena.root ≡ none) × IsBinary x.0 × (x.0.arena.root ≡ some x.1))
      whole
      (
        rootless,
        record {
          held = well;
          distinct = insert-HasDistinctKeys r.1 open_slots t.slots b.distinct;
          slotted =
              subst
                (λ (x : Arena × ℕ).
                  let y = open_for t.slots x in
                  (j : ℕ) → IsSlotted (node_at y.0.arena j) (lookup j y.0.slots))
                (ok_inj h1) (place_root-IsSlotted t user_id enrolled_at named b);
        },
        at_root,
      )
  where
    mapped :
        (m : Result TreeError (Arena × ℕ))
        → map_ok (open_for t.slots) m ≡ ok (t', i)
        → (r : Arena × ℕ) × (m ≡ ok r) × (open_for t.slots r ≡ (t', i))
    mapped (ok r) e = (r, refl, ok_inj e)
    mapped (err x) e = cc

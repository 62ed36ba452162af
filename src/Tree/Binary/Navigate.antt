-- ===== src/Tree/Binary/Navigate.antt =====
-- tree/binary.rs: the queries of a binary tree. Those of tree/arena.rs (`impl_arena_delegations!`) are as for
-- a unilevel tree; a position is that of the slot.
use mathlib.Core.Path.{subst}
use mlmforge.Prelude.{
  ℕ, zero, suc, ◌≤◌, ◌+◌, ◌≡◌, refl, sym, ap, ◌∙◌, Bool, true, false, Option, none, some, List, [],
  ◌∷◌, ltb, ◌==◌, ==_iff, if◌then◌else◌, Bool-cases, inl, inr, arith,
}
use mlmforge.Prelude.Assoc.{lookup}
use mlmforge.Prelude.Results.{Result, ok, err, ◌>>=◌, bind_ok, ok_inj}
use mlmforge.Tree.Node.{Node, TreeError, TreePosition, position_out_of_range}
use mlmforge.Tree.Navigator.{TreeNavigator}
use mlmforge.Tree.Arena.{node_at, resolve}
use mlmforge.Tree.Arena.Walk.{count_subtree, collect_subtree}
use mlmforge.Tree.Arena.Position
use mlmforge.Tree.Unilevel.Navigate
use mlmforge.Tree.Arena.Slots.{times}
use mlmforge.Tree.Arena.WellFormed.{parent-live}
use mlmforge.Tree.Binary.{BinaryTree, ChildSlots, or_open, slots_of, slot_at, push_some, occupied}
use mlmforge.Tree.Binary.Slotted.{IsBinary, IsSlotted, IsSlotted-some}
use mlmforge.Tree.Arena.Subtree.{IsSize, count_subtree-IsSize}

abbrev pub holds : ℕ → Option ℕ → Bool
holds i none = false
holds i (some c) = c == i

-- The slot of the parent that the node is in, or else the given position.
abbrev pub slot_position : ℕ → ChildSlots → ℕ → ℕ
slot_position i s position = if holds i s.0 then 0 else if holds i s.1 then 1 else position

module _ (t : BinaryTree) where
  abbrev pub position_under : ℕ → Option ℕ → ℕ → ℕ
  position_under i none position = position
  position_under i (some parent) position = slot_position i (slots_of parent t.slots) position

  abbrev pub count_slot : Option ℕ → ℕ
  count_slot none = 0
  count_slot (some c) = count_subtree t.arena c

  unfoldable pub position_at : ℕ → TreePosition
  unfolding Position.get_position lookup count_subtree
  position_at i =
      let pos = Position.get_position t.arena i in
      let s = slots_of i t.slots in
      record pos {
        position = position_under i (node_at t.arena i).parent pos.position;
        downline_counts = (0, count_slot s.0) ∷ (1, count_slot s.1) ∷ [];
      }

  unfoldable pub get_position : ℕ → Result TreeError TreePosition
  unfolding resolve position_at
  get_position user_id = do i ← resolve t.arena user_id; ok (position_at i)

  abbrev pub branch_at : Option ℕ → List Node
  branch_at none = []
  branch_at (some c) = (collect_subtree t.arena c).0

  unfoldable pub get_branch : ℕ → ℕ → Result TreeError (List Node)
  unfolding resolve lookup collect_subtree
  get_branch user_id position = resolve t.arena user_id >>= λ i.
      if ltb 1 position
      then err (position_out_of_range user_id position 2)
      else ok (branch_at (slot_at (slots_of i t.slots) position))

  abbrev pub count_at : Option ℕ → ℕ
  count_at none = 0
  count_at (some c) = 1 + count_subtree t.arena c

  unfoldable pub count_branch : ℕ → ℕ → Result TreeError ℕ
  unfolding resolve lookup count_subtree
  count_branch user_id position = resolve t.arena user_id >>= λ i.
      if ltb 1 position
      then err (position_out_of_range user_id position 2)
      else ok (count_at (slot_at (slots_of i t.slots) position))

  -- The tree as the calculators see it.
  unfoldable pub navigate : TreeNavigator
  unfolding Navigate.navigate get_position get_branch count_branch
  navigate = record (Navigate.navigate t.arena) {
    get_position = get_position;
    get_branch = get_branch;
    count_branch = count_branch;
  }

held_slot : (i : ℕ) (o : Option ℕ) → holds i o ≡ true → o ≡ some i
held_slot i none h = cc
held_slot i (some c) h = ap some ((==_iff c i).0 h)

times-push_some :
    (i : ℕ) (o : Option ℕ) (xs : List ℕ)
    → times i (push_some o xs) ≡ (if holds i o then 1 else 0) + times i xs
times-push_some i none xs = omega arith
times-push_some i (some c) xs = refl

slot_position-slot :
    (i position : ℕ) (s : ChildSlots)
    → 1 ≤ times i (occupied s)
    → (slot_position i s position ≤ 1) × (slot_at s (slot_position i s position) ≡ some i)
slot_position-slot i position s h = elim (Bool-cases (holds i s.0)) [
  | inl e ↦ rw e (ground arith, held_slot i s.0 e)
  | inr e ↦ elim (Bool-cases (holds i s.1)) [
    | inl e' ↦ rw (e, e') (ground arith, held_slot i s.1 e')
    | inr e' ↦
        absurd (ground (arith, times-push_some i s.0 (push_some s.1 []), times-push_some i s.1 []))
  ]
]

-- Who is in a slot occupies it.
slot_at-times : (s : ChildSlots) (k c : ℕ) → slot_at s k ≡ some c → 1 ≤ times c (occupied s)
slot_at-times s zero c h = rw h (ground arith)
slot_at-times s (suc k) c h =
    let last : holds c s.1 ≡ true = rw h (ground arith) in
    ground (arith, times-push_some c s.0 (push_some s.1 []), times-push_some c s.1 [])

-- The size of the subtree in the slot, or 0 where it is open.
abbrev pub IsSlotCount : BinaryTree → Option ℕ → ℕ → Type 0
IsSlotCount t none n = n ≡ 0
IsSlotCount t (some c) n = IsSize t.arena c n

-- The position that `get_position` gives of a node in a binary tree whose slot map agrees with its arena is
-- 0 or 1, and that of the parent's slot which holds the node; and the count for each of the two slots is
-- the number of nodes below the child in it, at any level, each counted once, or 0 where it is open.
pub get_position-slot :
    (t : BinaryTree) (user_id : ℕ) (position : TreePosition)
    → IsBinary t
    → get_position t user_id ≡ ok position
    → (i : ℕ) × (resolve t.arena user_id ≡ ok i)
      × ((p : ℕ)
          → (node_at t.arena i).parent ≡ some p
          → (position.position ≤ 1) × (slot_at (slots_of p t.slots) position.position ≡ some i))
      × ((k : ℕ)
          → k ≤ 1
          → (n : ℕ) × (lookup k position.downline_counts ≡ some n)
            × IsSlotCount t (slot_at (slots_of i t.slots) k) n)
unfolding get_position position_at lookup
get_position-slot t user_id position b h =
    let (i, found, made) = bind_ok (resolve t.arena user_id) _ h in
    let same : position_at t i ≡ position = ok_inj made in
    (
      i,
      found,
      λ p above.
          subst
            (λ (x : TreePosition).
              (x.position ≤ 1) × (slot_at (slots_of p t.slots) x.position ≡ some i))
            same (placed i p above),
      λ k near. (
        count_slot t (slot_at (slots_of i t.slots) k),
        ap (λ (x : TreePosition). lookup k x.downline_counts) (sym same) ∙ counts i k near,
        sized i (slot_at (slots_of i t.slots) k)
            (λ c at. within i k c (lookup i t.slots) (b.slotted i) at),
      ),
    )
  where
    placed :
        (i p : ℕ)
        → (node_at t.arena i).parent ≡ some p
        → ((position_at t i).position ≤ 1)
          × (slot_at (slots_of p t.slots) (position_at t i).position ≡ some i)
    placed i p h =
        let (s, hit, kids) =
          IsSlotted-some (node_at t.arena p) (lookup p t.slots) (b.slotted p)
            (parent-live (node_at t.arena) i p b.held.held.cleared b.held.held.children h) in
        let one : times i (occupied s) ≡ 1 =
          ap (times i) (sym kids) ∙ b.held.held.children p i ∙ rw h (ground arith) in
        rw (h, hit) (slot_position-slot i _ s (omega arith))

    counts :
        (i k : ℕ)
        → k ≤ 1
        → lookup k (position_at t i).downline_counts
          ≡ some (count_slot t (slot_at (slots_of i t.slots) k))
    counts i zero h = refl
    counts i (suc zero) h = refl
    counts i (suc (suc k)) h = absurd (omega arith)

    within :
        (i k c : ℕ) (o : Option ChildSlots)
        → IsSlotted (node_at t.arena i) o
        → slot_at (or_open o) k ≡ some c
        → 1 ≤ times c (node_at t.arena i).children
    within i zero c none dead at = cc
    within i (suc k) c none dead at = cc
    within i k c (some s) (live, kids) at = rw kids (slot_at-times s k c at)

    sized :
        (i : ℕ) (o : Option ℕ)
        → ((c : ℕ) → o ≡ some c → 1 ≤ times c (node_at t.arena i).children)
        → IsSlotCount t o (count_slot t o)
    sized i none listed = refl
    sized i (some c) listed = count_subtree-IsSize t.arena i c b.held (listed c refl)

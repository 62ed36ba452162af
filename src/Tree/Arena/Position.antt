-- ===== src/Tree/Arena/Position.antt =====
-- tree/arena.rs: `get_position`.
use mathlib.Core.Option
use mlmforge.Prelude.{
  ℕ, zero, suc, ◌+◌, ◌≤◌, ◌≡◌, refl, ap, ◌∙◌, true, false, Option, none, some, List, [], ◌∷◌, arith,
  ◌==◌, ==_iff, if◌then◌else◌, Bool-cases, inl, inr, length, get_elem?,
}
use mlmforge.Prelude.Assoc.{lookup}
use mlmforge.Tree.Node.{TreePosition}
use mlmforge.Tree.Arena.{Arena, node_at}
use mlmforge.Tree.Arena.Walk.{count_subtree}
use mlmforge.Tree.Arena.Slots.{times}
use mlmforge.Tree.Arena.WellFormed.{IsWellFormed}
use mlmforge.Tree.Arena.Subtree.{IsSize, count_subtree-IsSize}

-- `iter().position(|c| c == i)`. The length of the list, at which no child stands, is where the source
-- panics.
unfoldable pub position_in : ℕ → List ℕ → ℕ
position_in i [] = 0
position_in i (c ∷ children) =
    let later = suc (position_in i children) in if c == i then 0 else later

unfoldable pub position_below : Arena → ℕ → Option ℕ → ℕ
unfolding position_in
position_below a i none = 0
position_below a i (some parent) = position_in i (node_at a parent).children

-- The children with their positions, from one on.
unfoldable pub branch_counts : Arena → ℕ → List ℕ → List (ℕ × ℕ)
unfolding count_subtree
branch_counts a position [] = []
branch_counts a position (child ∷ children) =
    (position, count_subtree a child) ∷ branch_counts a (position + 1) children

unfoldable pub get_position : Arena → ℕ → TreePosition
unfolding position_below branch_counts
get_position a i =
    let n = node_at a i in
    record {
      user_id = n.user_id;
      parent_user_id = Option.map (λ p. (node_at a p).user_id) n.parent;
      sponsor_user_id = Option.map (λ s. (node_at a s).user_id) n.sponsor;
      position = position_below a i n.parent;
      depth = n.depth;
      child_count = length n.children;
      downline_counts = branch_counts a 0 n.children;
      enrolled_at = n.enrolled_at;
    }

position_in-elem :
    (i : ℕ) (children : List ℕ)
    → 1 ≤ times i children
    → get_elem? children (position_in i children) ≡ some i
unfolding position_in
position_in-elem i [] h = absurd (omega arith)
position_in-elem i (c ∷ children) h = elim (Bool-cases (c == i)) [
  | inl e ↦ rw e (ap some ((==_iff c i).0 e))
  | inr e ↦ rw e (position_in-elem i children (ground arith))
]

branch_counts-lookup :
    (a : Arena) (from k : ℕ) (children : List ℕ)
    → lookup (from + k) (branch_counts a from children)
      ≡ Option.map (count_subtree a) (get_elem? children k)
unfolding branch_counts lookup
branch_counts-lookup a from k [] = refl
branch_counts-lookup a from zero (child ∷ children) =
    let here : from == from + 0 ≡ true = ground arith in rw here refl
branch_counts-lookup a from (suc k) (child ∷ children) =
    let later : from == from + suc k ≡ false = ground arith in
    let next : from + suc k ≡ (from + 1) + k = omega arith in
    rw later (
      ap (λ (n : ℕ). lookup n (branch_counts a (from + 1) children)) next
      ∙ branch_counts-lookup a (from + 1) k children)

get_elem?-times :
    (children : List ℕ) (k c : ℕ) → get_elem? children k ≡ some c → 1 ≤ times c children
get_elem?-times [] k c h = cc
get_elem?-times (x ∷ children) zero c h =
    let same : x ≡ c = cc in let met = (==_iff x c).1 same in rw met (omega arith)
get_elem?-times (x ∷ children) (suc k) c h = omega (arith, get_elem?-times children k c h)

-- The count of the child's subtree, where there is one.
abbrev pub IsCountOf : Arena → Option ℕ → Option ℕ → Type 0
IsCountOf a none count = count ≡ none
IsCountOf a (some child) count = (n : ℕ) × (count ≡ some n) × IsSize a child n

-- In a well-formed arena, the position that `get_position` gives of a node with a parent is that at which
-- the node stands among the parent's children; and the count for each position of a child, and for no
-- other, is the number of nodes below that child, at any level, each counted once.
pub get_position-elem :
    (a : Arena) (i k : ℕ)
    → IsWellFormed a
    → ((p : ℕ)
        → (node_at a i).parent ≡ some p
        → get_elem? (node_at a p).children (get_position a i).position ≡ some i)
      × IsCountOf a
          (get_elem? (node_at a i).children k)
          (lookup k (get_position a i).downline_counts)
unfolding get_position position_below
get_position-elem a i k wf = (
  place,
  sized (get_elem? (node_at a i).children k) (get_elem?-times (node_at a i).children k) counts,
)
  where
    place :
        (p : ℕ)
        → (node_at a i).parent ≡ some p
        → get_elem? (node_at a p).children (position_below a i (node_at a i).parent) ≡ some i
    place p h =
        let one : times i (node_at a p).children ≡ 1 = wf.held.children p i ∙ rw h (ground arith) in
        rw h (position_in-elem i (node_at a p).children (omega arith))

    counts :
        lookup k (branch_counts a 0 (node_at a i).children)
        ≡ Option.map (count_subtree a) (get_elem? (node_at a i).children k)
    counts =
        let start : k ≡ 0 + k = omega arith in
        ap (λ (n : ℕ). lookup n (branch_counts a 0 (node_at a i).children)) start
        ∙ branch_counts-lookup a 0 k (node_at a i).children

    sized :
        {count : Option ℕ} (o : Option ℕ)
        → ((c : ℕ) → o ≡ some c → 1 ≤ times c (node_at a i).children)
        → count ≡ Option.map (count_subtree a) o
        → IsCountOf a o count
    sized none listed h = h
    sized (some c) listed h = (count_subtree a c, h, count_subtree-IsSize a i c wf (listed c refl))

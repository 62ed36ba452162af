-- ===== src/Tree/Arena/Subtree.antt =====
-- tree/arena.rs: whom `bfs_downline` and `collect_subtree` give, and that the counts count them.
use mlmforge.Prelude.{
  ℕ, zero, suc, ◌+◌, ◌-◌, ◌≤◌, ◌<◌, ◌≡◌, ◌≢◌, ◌⊎◌, ◌↔◌, sym, ap, ◌∙◌, true, ◌||◌, some, List, [],
  ◌∷◌, ◌++◌, map, arith, ltb, ◌==◌, ==_iff, if◌then◌else◌, Bool-cases, inl, inr, length, length-map,
}
use mlmforge.Tree.Node.{Node}
use mlmforge.Tree.Arena.{Arena, nil, node_at}
use mlmforge.Tree.Arena.Walk.{walk_down, bfs_downline, count_down, count_downline, count_subtree}
use mlmforge.Tree.Arena.Slots.{times, live-lt, All-times}
use mlmforge.Tree.Arena.Distinct.{AreDistinct}
use mlmforge.Tree.Arena.WellFormed.{IsWellFormed}
use mlmforge.Tree.Arena.Downline.{
  within, IsBelow, IsBelow-depth, IsFront, walk_down-IsSearch, child_parent, child_inside,
}

-- A walk that has ended and given the nodes at those slots, each slot once.
abbrev pub Gives : Arena → (ℕ → Type 0) → List Node × List ℕ → Type 0
Gives a P r =
    (is : List ℕ) × (r.1 ≡ [])
    × (r.0 ≡ map (node_at a) is)
    × AreDistinct is
    × ((c : ℕ) → (1 ≤ times c is) ↔ P c)

module _ (a : Arena) (start limit : ℕ) (wf : IsWellFormed a)
    (live : (node_at a start).user_id ≢ nil) where
  within_start : within a start limit start ≡ true
  within_start = ground arith

  -- What is below was met, if the start was.
  IsBelow-met :
      (fin : List ℕ) {c : ℕ}
      → IsFront a start limit fin []
      → 1 ≤ times start fin
      → IsBelow a start limit c
      → 1 ≤ times c fin
  IsBelow-met fin f top (IsBelow.first c h) =
      let hit = f.closed c start h top within_start in omega arith
  IsBelow-met fin f top (IsBelow.next c p b w h) =
      let hit = f.closed c p h (IsBelow-met fin f top b) w in omega arith

  own_child : (c : ℕ) → start ≡ c → (node_at a c).parent ≢ some start
  own_child c e h =
      let level = wf.held.levels c start h in
      let same : (node_at a start).depth ≡ (node_at a c).depth =
        ap (λ (k : ℕ). (node_at a k).depth) e in
      omega arith

  start_or_child :
      (c : ℕ)
      → 1 ≤ times c (start ∷ []) + times c (node_at a start).children
      → (c ≡ start) ⊎ ((node_at a c).parent ≡ some start)
  start_or_child c h = elim (Bool-cases (start == c)) [
    | inl e ↦ inl (sym ((==_iff start c).0 e))
    | inr e ↦ inr (child_parent a start limit wf start c (ground arith))
  ]

  not_start : (c : ℕ) → IsBelow a start limit c → start ≢ c
  not_start c b e =
      let lower = IsBelow-depth a start limit wf b in
      let same : (node_at a start).depth ≡ (node_at a c).depth =
        ap (λ (k : ℕ). (node_at a k).depth) e in
      omega arith

  start-IsFront : IsFront a start limit (start ∷ []) (node_at a start).children
  start-IsFront = record {
    behind = (live-lt a start live, tt);
    ahead =
        All-times (λ c. c < length a.nodes) (node_at a start).children
          (λ c h. child_inside a start limit wf c start (child_parent a start limit wf start c h));
    distinct = λ c. ground (arith, wf.held.children start c, own_child c);
    reached = λ c h. elim (start_or_child c h) [
      | inl e ↦ inl e
      | inr parent ↦ inr (start, parent, ground arith)
    ];
    inside = λ c h. elim (start_or_child c h) [
      | inl e ↦ inl e
      | inr parent ↦ inr (IsBelow.first c parent)
    ];
    closed = λ c p h m w.
        let same : start ≡ p = ground arith in
        let one : times c (node_at a start).children ≡ 1 =
          wf.held.children start c ∙ rw (h, same) (ground arith) in
        omega arith;
  }

  -- `bfs_downline` from a node of a well-formed arena ends, and gives exactly the nodes below it, each
  -- once; with a limit, those that no node as many levels below separates from it.
  pub bfs_downline-Gives : Gives a (IsBelow a start limit) (bfs_downline a start limit)
  unfolding bfs_downline
  bfs_downline-Gives =
      let (is, fin, ended, nodes, front, counted) =
        walk_down-IsSearch a start limit wf (length a.nodes) (start ∷ []) (node_at a start).children
          start-IsFront (omega arith) in
      (
        is,
        ended,
        nodes,
        (λ c. let once = front.distinct c in omega (arith, counted c)),
        λ c. (
          λ h. below c (front.distinct c) (counted c) h (front.inside c (omega (arith, counted c))),
          λ b.
              let met = IsBelow-met fin front (ground (arith, counted start)) b in
              let other = not_start c b in ground (arith, counted c),
        ),
      )
    where
      below :
          {f g : ℕ} (c : ℕ)
          → f + 0 ≤ 1
          → f ≡ g + times c (start ∷ [])
          → 1 ≤ g
          → (c ≡ start) ⊎ IsBelow a start limit c
          → IsBelow a start limit c
      below c once counted h (inl e) = let same : start ≡ c = sym e in absurd (ground arith)
      below c once counted h (inr b) = b

-- The counting loop counts what the collecting loop gives.
count_down-length :
    (a : Arena) (limit start_depth rounds : ℕ) (queue : List ℕ) (count : ℕ)
    → count_down a limit start_depth rounds queue count
      ≡ count + length (walk_down a limit start_depth rounds queue).0
unfolding count_down walk_down
count_down-length a limit start_depth zero queue count = omega arith
count_down-length a limit start_depth (suc rounds) [] count = omega arith
count_down-length a limit start_depth (suc rounds) (i ∷ queue) count = omega (
  arith,
  count_down-length a limit start_depth rounds
      (queue
        ++ (if limit == 0 || ltb ((node_at a i).depth - start_depth) limit
            then (node_at a i).children
            else []))
      (count + 1),
)

-- `count_downline` is the number of nodes that `bfs_downline` gives, whatever the arena.
pub count_downline-bfs_downline :
    (a : Arena) (start limit : ℕ)
    → count_downline a start limit ≡ length (bfs_downline a start limit).0
unfolding count_downline bfs_downline
count_downline-bfs_downline a start limit =
    count_down-length a limit (node_at a start).depth (length a.nodes) (node_at a start).children 0
    ∙ omega arith

-- That many slots are below the node, at any level.
abbrev pub IsSize : Arena → ℕ → ℕ → Type 0
IsSize a start n =
    (is : List ℕ) × (length is ≡ n)
    × AreDistinct is
    × ((c : ℕ) → (1 ≤ times c is) ↔ IsBelow a start 0 c)

-- `count_subtree` counts a child's subtree without the child itself.
pub count_subtree-IsSize :
    (a : Arena) (i c : ℕ)
    → IsWellFormed a
    → 1 ≤ times c (node_at a i).children
    → IsSize a c (count_subtree a c)
unfolding count_subtree
count_subtree-IsSize a i c wf listed =
    let (is, ended, nodes, distinct, below) = bfs_downline-Gives a c 0 wf live in
    (
      is,
      sym (count_downline-bfs_downline a c 0 ∙ ap length nodes ∙ length-map (node_at a) is),
      distinct,
      below,
    )
  where
    live : (node_at a c).user_id ≢ nil
    live dead =
        let parent = child_parent a c 0 wf i c listed in
        let top = ap (λ (n : Node). n.parent) (wf.held.cleared c dead) in cc

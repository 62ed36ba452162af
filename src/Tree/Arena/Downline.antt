-- ===== src/Tree/Arena/Downline.antt =====
-- tree/arena.rs: the walks downward end in a well-formed arena, and meet the nodes below, each once.
use mathlib.Core.Path.{subst}
use mlmforge.Prelude.{
  ℕ, zero, suc, ◌+◌, ◌-◌, ◌≤◌, ◌<◌, ◌≡◌, ◌⊎◌, refl, sym, ap, ◌∙◌, Bool, true, ◌||◌, Option, some,
  List, [], ◌∷◌, ◌++◌, map, arith, ltb, ◌==◌, ==_iff, if◌then◌else◌, Bool-cases, inl, inr, length,
  All-append,
}
use mlmforge.Tree.Node.{Node}
use mlmforge.Tree.Arena.{Arena, node_at}
use mlmforge.Tree.Arena.Walk.{walk_down}
use mlmforge.Tree.Arena.Slots.{times, live-lt, All-times}
use mlmforge.Tree.Arena.Distinct.{AreBelow, AreDistinct-length, times-append}
use mlmforge.Tree.Arena.WellFormed.{IsWellFormed}

module _ (a : Arena) (start limit : ℕ) where
  -- The walk goes on below the node.
  abbrev pub within : ℕ → Bool
  within p = limit == 0 || ltb ((node_at a p).depth - (node_at a start).depth) limit

  -- A node below the start, where the walk goes on below all those between.
  pub data IsBelow : ℕ → Type 0 where
    first : (c : ℕ) → (node_at a c).parent ≡ some start → IsBelow c
    next : (c p : ℕ) → IsBelow p → within p ≡ true → (node_at a c).parent ≡ some p → IsBelow c

  -- The slots that were met and those in the queue.
  pub record IsFront (met queue : List ℕ) : Type 0 where
    pub behind : AreBelow (length a.nodes) met
    pub ahead : AreBelow (length a.nodes) queue
    pub distinct : (c : ℕ) → times c met + times c queue ≤ 1
    pub reached :
        (c : ℕ)
        → 1 ≤ times c met + times c queue
        → (c ≡ start) ⊎ ((p : ℕ) × ((node_at a c).parent ≡ some p) × (1 ≤ times p met))
    pub inside : (c : ℕ) → 1 ≤ times c met + times c queue → (c ≡ start) ⊎ IsBelow c
    pub closed :
        (c p : ℕ)
        → (node_at a c).parent ≡ some p
        → 1 ≤ times p met
        → within p ≡ true
        → 1 ≤ times c met + times c queue

  module _ (wf : IsWellFormed a) where
    pub IsBelow-depth : {c : ℕ} → IsBelow c → (node_at a start).depth < (node_at a c).depth
    IsBelow-depth (first c h) = let level = wf.held.levels c start h in omega arith
    IsBelow-depth (next c p b w h) =
        let level = wf.held.levels c p h in omega (arith, IsBelow-depth b)

    pub child_parent :
        (i c : ℕ) → 1 ≤ times c (node_at a i).children → (node_at a c).parent ≡ some i
    child_parent i c h = let one = wf.held.children i c in ground arith

    pub child_inside : (c i : ℕ) → (node_at a c).parent ≡ some i → c < length a.nodes
    child_inside c i h =
        live-lt a c (λ dead. let top = ap (λ (n : Node). n.parent) (wf.held.cleared c dead) in cc)

    -- A child of the next slot was not met, and is not in the queue.
    child_new :
        (met queue : List ℕ) (i c : ℕ)
        → IsFront met (i ∷ queue)
        → (node_at a c).parent ≡ some i
        → times c met + times c (i ∷ queue) ≡ 0
    child_new met queue i c f h = elim (Bool-cases (ltb 0 (times c met + times c (i ∷ queue)))) [
      | inl hit ↦ absurd (known (f.reached c (ground arith)))
      | inr free ↦ ground arith
    ]
      where
        level : (node_at a c).depth ≡ (node_at a i).depth + 1
        level = wf.held.levels c i h

        above : c ≡ start → (i ≡ start) ⊎ IsBelow i → ⊥
        above e (inl e') =
            let same : (node_at a c).depth ≡ (node_at a i).depth =
              ap (λ (j : ℕ). (node_at a j).depth) (e ∙ sym e') in
            omega (arith, level)
        above e (inr b) =
            let same : (node_at a c).depth ≡ (node_at a start).depth =
              ap (λ (j : ℕ). (node_at a j).depth) e in
            omega (arith, level, IsBelow-depth b)

        known : (c ≡ start) ⊎ ((p : ℕ) × ((node_at a c).parent ≡ some p) × (1 ≤ times p met)) → ⊥
        known (inl e) = above e (f.inside i (ground arith))
        known (inr (p, hp, m)) =
            let same : Path (Option ℕ) (some p) (some i) = sym hp ∙ h in
            let mi : 1 ≤ times i met = subst (λ (k : ℕ). 1 ≤ times k met) (cc same) m in
            ground (arith, f.distinct i)

    abbrev children_within : ℕ → List ℕ
    children_within i = if within i then (node_at a i).children else []

    child_of :
        (i c : ℕ)
        → 1 ≤ times c (children_within i)
        → (within i ≡ true) × ((node_at a c).parent ≡ some i)
    child_of i c h = elim (Bool-cases (within i)) [
      | inl w ↦ (w, child_parent i c (rw w at h))
      | inr w ↦ let none_there : 1 ≤ times c [] = rw w at h in absurd (omega arith)
    ]

    child_times :
        (i c : ℕ)
        → within i ≡ true
        → (node_at a c).parent ≡ some i
        → times c (children_within i) ≡ 1
    child_times i c w h = rw w (wf.held.children i c ∙ rw h (ground arith))

    -- A slot that is met or queued after a step was so before, or is a child of the one that was met.
    old_or_child :
        (met queue : List ℕ) (i c : ℕ)
        → 1 ≤ times c (i ∷ met) + times c (queue ++ children_within i)
        → (1 ≤ times c met + times c (i ∷ queue)) ⊎ (1 ≤ times c (children_within i))
    old_or_child met queue i c h = elim (Bool-cases (ltb 0 (times c (children_within i)))) [
      | inl e ↦ inr (ground arith)
      | inr e ↦ inl (ground (arith, times-append c queue (children_within i)))
    ]

    module _ (met queue : List ℕ) (i : ℕ) (f : IsFront met (i ∷ queue)) where
      step_distinct : (c : ℕ) → times c (i ∷ met) + times c (queue ++ children_within i) ≤ 1
      step_distinct c = elim (Bool-cases (ltb 0 (times c (children_within i)))) [
        | inl e ↦
            let (w, parent) = child_of i c (ground arith) in
            let new = child_new met queue i c f parent in
            let one = child_times i c w parent in
            ground (arith, times-append c queue (children_within i))
        | inr e ↦ ground (arith, f.distinct c, times-append c queue (children_within i))
      ]

      step_reached :
          (c : ℕ)
          → (1 ≤ times c met + times c (i ∷ queue)) ⊎ (1 ≤ times c (children_within i))
          → (c ≡ start) ⊎ ((p : ℕ) × ((node_at a c).parent ≡ some p) × (1 ≤ times p (i ∷ met)))
      step_reached c (inr h) = inr (i, (child_of i c h).1, ground arith)
      step_reached c (inl h) = later (f.reached c h)
        where
          later :
              (c ≡ start) ⊎ ((p : ℕ) × ((node_at a c).parent ≡ some p) × (1 ≤ times p met))
              → (c ≡ start) ⊎ ((p : ℕ) × ((node_at a c).parent ≡ some p) × (1 ≤ times p (i ∷ met)))
          later (inl e) = inl e
          later (inr (p, hp, m)) = inr (p, hp, omega arith)

      step_inside :
          (c : ℕ)
          → (1 ≤ times c met + times c (i ∷ queue)) ⊎ (1 ≤ times c (children_within i))
          → (c ≡ start) ⊎ IsBelow c
      step_inside c (inl h) = f.inside c h
      step_inside c (inr h) =
          let (w, parent) = child_of i c h in inr (below w parent (f.inside i (ground arith)))
        where
          below :
              within i ≡ true → (node_at a c).parent ≡ some i → (i ≡ start) ⊎ IsBelow i → IsBelow c
          below w parent (inl e) =
              first c (subst (λ (k : ℕ). (node_at a c).parent ≡ some k) e parent)
          below w parent (inr b) = next c i b w parent

      step_closed :
          (c p : ℕ)
          → (node_at a c).parent ≡ some p
          → 1 ≤ times p (i ∷ met)
          → within p ≡ true
          → 1 ≤ times c (i ∷ met) + times c (queue ++ children_within i)
      step_closed c p h m w = elim (Bool-cases (i == p)) [
        | inl e ↦
            let same : i ≡ p = (==_iff i p).0 e in
            let one =
              child_times i c (subst (λ (k : ℕ). within k ≡ true) (sym same) w)
                (subst (λ (k : ℕ). (node_at a c).parent ≡ some k) (sym same) h) in
            omega (arith, times-append c queue (children_within i))
        | inr e ↦
            let old = f.closed c p h (ground arith) w in
            ground (arith, times-append c queue (children_within i))
      ]

      IsFront-step : IsFront (i ∷ met) (queue ++ children_within i)
      IsFront-step = record {
        behind = (f.ahead.0, f.behind);
        ahead = All-append _ queue (children_within i) f.ahead.1 (
            All-times (λ c. c < length a.nodes) (children_within i)
              (λ c h. child_inside c i (child_of i c h).1));
        distinct = step_distinct;
        reached = λ c h. step_reached c (old_or_child met queue i c h);
        inside = λ c h. step_inside c (old_or_child met queue i c h);
        closed = step_closed;
      }

    -- What a walk comes to.
    abbrev pub IsSearch : List ℕ → List Node × List ℕ → Type 0
    IsSearch met r =
        (is fin : List ℕ) × (r.1 ≡ [])
        × (r.0 ≡ map (node_at a) is)
        × IsFront fin []
        × ((c : ℕ) → times c fin ≡ times c is + times c met)

    pub walk_down-IsSearch :
        (rounds : ℕ) (met queue : List ℕ)
        → IsFront met queue
        → length a.nodes ≤ length met + rounds
        → IsSearch met (walk_down a limit (node_at a start).depth rounds queue)
    unfolding walk_down
    walk_down-IsSearch zero met [] f enough = ([], met, refl, refl, f, λ c. omega arith)
    walk_down-IsSearch (suc rounds) met [] f enough = ([], met, refl, refl, f, λ c. omega arith)
    walk_down-IsSearch zero met (i ∷ queue) f enough = absurd (
        omega (
          arith,
          AreDistinct-length (length a.nodes) (i ∷ met) (f.ahead.0, f.behind)
              (λ c. ground (arith, f.distinct c)),
        ))
    walk_down-IsSearch (suc rounds) met (i ∷ queue) f enough =
        let (is, fin, ended, nodes, front, counted) =
          walk_down-IsSearch rounds (i ∷ met) (queue ++ children_within i)
            (IsFront-step met queue i f) (omega arith) in
        (
          i ∷ is,
          fin,
          ended,
          ap (λ (ns : List Node). node_at a i ∷ ns) nodes,
          front,
          λ c. omega (arith, counted c),
        )

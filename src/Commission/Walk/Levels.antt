-- ===== src/Commission/Walk/Levels.antt =====
-- commission/walk.rs: the levels that a walk counts, and how it stops.
use mlmforge.Prelude.{
  ℕ, ◌+◌, ◌≤◌, ◌<◌, ◌≡◌, refl, ap, Bool, true, Option, none, some, List, [], ◌∷◌, map, arith,
  length, sym, suc, ◌∙◌, false, ◌++◌, All,
}
use mlmforge.Prelude.Results.{ok, ok_inj}
use mlmforge.Tree.Node.{Node}
use mlmforge.Commission.Types.{
  DistributorSnapshot, VolumeSource, CommissionEarning, StepOutcome, paid, forfeited, WalkStop,
  root_reached, max_depth_reached, boundary_reached, max_generations_reached, WalkStep,
}
use mlmforge.Commission.Walk.Rounds.{Round, deep, boundary, passed, made, round, IsAccounted}
use mlmforge.Commission.Eligibility.{EligibilityResult}
use mlmforge.Commission.Walk.{LevelWalkConfig, Trail, walk_upline, saturating_add, push_earning}

-- An earning: its walk, its source, its earner and its level.
abbrev pub Row : Type 0
Row = Option ℕ × ℕ × ℕ × ℕ

abbrev pub paid_row : ℕ → ℕ → ℕ → WalkStep → StepOutcome → List Row → List Row
paid_row index source_id level s paid rows = (some index, source_id, s.node_id, level) ∷ rows
paid_row index source_id level s forfeited rows = rows

-- The earnings that the paid steps of a walk stand for, the steps counted from `level` on.
unfoldable pub paid_steps : ℕ → ℕ → ℕ → List WalkStep → List Row
paid_steps index source_id level [] = []
paid_steps index source_id level (s ∷ ss) =
    paid_row index source_id level s s.outcome (paid_steps index source_id (level + 1) ss)

abbrev pub earning_row : CommissionEarning → Row
earning_row e = (e.walk, e.source_id, e.earner_id, e.level)

pub saturating_add_lem : (a : ℕ) → a < 256 → saturating_add a 1 ≡ a + 1
unfolding saturating_add
saturating_add_lem a h = ground arith

-- The stop predicate names none of the nodes.
abbrev pub AreOpen : (ℕ → Bool) → List Node → Type 0
AreOpen should_stop = All (λ n. should_stop n.user_id ≡ false)

-- A node of the upline, before which the stop predicate names none.
abbrev pub IsMetAt : (ℕ → Bool) → List Node → Option ℕ → Type 0
IsMetAt should_stop upline none = ⊥
IsMetAt should_stop upline (some u) =
    (below above : List Node) × (node : Node) × (upline ≡ below ++ node ∷ above)
    × (node.user_id ≡ u)
    × AreOpen should_stop below

-- What the stop of a walk of an upline says, where so many steps were made: the upline ran out and the
-- predicate named none of it; or there was a step for each level, and the node named is met next; or
-- the node named is the first of the upline that the predicate names, and a level was left.
abbrev pub IsStop : ℕ → (ℕ → Bool) → List Node → ℕ → WalkStop → Option ℕ → Type 0
IsStop max_depth should_stop upline count root_reached at =
    (at ≡ none) × AreOpen should_stop upline × (count ≤ max_depth)
IsStop max_depth should_stop upline count max_depth_reached at =
    IsMetAt should_stop upline at × (count ≡ max_depth)
IsStop max_depth should_stop upline count boundary_reached none = ⊥
IsStop max_depth should_stop upline count boundary_reached (some u) =
    IsMetAt should_stop upline (some u) × (should_stop u ≡ true) × (count < max_depth)
IsStop max_depth should_stop upline count max_generations_reached at = ⊥

-- A stop above a node that the predicate does not name.
module _ (should_stop : ℕ → Bool) (node : Node) (upline : List Node)
    (clears : should_stop node.user_id ≡ false) where
  IsMetAt-cons :
      (at : Option ℕ) → IsMetAt should_stop upline at → IsMetAt should_stop (node ∷ upline) at
  IsMetAt-cons none absent = absurd absent
  IsMetAt-cons (some u) (below, above, met, split, named, clear) =
      (node ∷ below, above, met, ap (λ (ns : List Node). node ∷ ns) split, named, (clears, clear))

  IsStop-cons :
      (max_depth count : ℕ) (stop : WalkStop) (at : Option ℕ)
      → IsStop max_depth should_stop upline count stop at
      → IsStop max_depth should_stop (node ∷ upline) count stop at
  IsStop-cons max_depth count root_reached at (nobody, clear, fits) =
      (nobody, (clears, clear), fits)
  IsStop-cons max_depth count max_depth_reached at (met, full) = (IsMetAt-cons at met, full)
  IsStop-cons max_depth count boundary_reached none absent = absurd absent
  IsStop-cons max_depth count boundary_reached (some u) (met, named, left) =
      (IsMetAt-cons (some u) met, named, left)
  IsStop-cons max_depth count max_generations_reached at absent = absurd absent

module _ (index : ℕ) (source : VolumeSource) (level : ℕ) (s : WalkStep) where
  paid_row-forfeited :
      (o : StepOutcome) (rows : List Row)
      → o ≡ forfeited
      → paid_row index source.source_id level s o rows ≡ rows
  paid_row-forfeited paid rows e = cc
  paid_row-forfeited forfeited rows e = refl

  paid_row-paid :
      (o : StepOutcome) (rows : List Row)
      → o ≡ paid
      → paid_row index source.source_id level s o rows
        ≡ (some index, source.source_id, s.node_id, level) ∷ rows
  paid_row-paid paid rows e = refl
  paid_row-paid forfeited rows e = cc

  earning_row-push :
      (e : Option CommissionEarning) (es : List CommissionEarning) (rows : List Row)
      → level < 256
      → IsAccounted index source level s e
      → map earning_row es ≡ rows
      → map earning_row (push_earning e es) ≡ paid_row index source.source_id level s s.outcome rows
  earning_row-push none es rows lo a h = h ∙ sym (paid_row-forfeited s.outcome rows a)
  earning_row-push (some e) es rows lo (p, walk, of, who, at) h =
      let narrow : e.level ≡ level = at ∙ omega arith in
      (λ i. (walk i, of i, who i, narrow i) ∷ h i) ∙ sym (paid_row-paid s.outcome rows p)

module _ (config : LevelWalkConfig) (cache : List (ℕ × EligibilityResult))
    (snapshots : List (ℕ × DistributorSnapshot)) (should_stop : ℕ → Bool) (source : VolumeSource)
    (collector_id : ℕ) (small : config.max_depth < 256) where
  -- From `level` on, with `level - 1` steps made before.
  abbrev pub IsTrail : List Node → ℕ → Trail → Type 0
  IsTrail upline before t =
      (map earning_row t.earnings ≡ paid_steps collector_id source.source_id (before + 1) t.steps)
      × IsStop config.max_depth should_stop upline (before + length t.steps) t.stop t.stopped_at

  pub walk_upline-IsTrail :
      (upline : List Node) (before : ℕ) (t : Trail)
      → before ≤ config.max_depth
      → walk_upline config cache snapshots should_stop source collector_id upline (before + 1)
        ≡ ok t
      → IsTrail upline before t
  unfolding walk_upline paid_steps
  walk_upline-IsTrail [] before t lo h = rw (← ok_inj h) (refl, (refl, tt, omega arith))
  walk_upline-IsTrail (node ∷ upline) before t lo h =
      step_on (walk_upline-IsTrail upline)
        (round config cache snapshots should_stop source collector_id node upline (before + 1) t h)
    where
      step_on :
          ((b : ℕ) (t : Trail)
            → b ≤ config.max_depth
            → walk_upline config cache snapshots should_stop source collector_id upline (b + 1)
              ≡ ok t
            → IsTrail upline b t)
          → Round config cache snapshots should_stop source collector_id node
              (before + 1)
              (walk_upline config cache snapshots should_stop source collector_id upline)
              t
          → IsTrail (node ∷ upline) before t
      step_on ih (deep hi e) = rw e (refl, (([], upline, node, refl, refl, tt), omega arith))
      step_on ih (boundary le stop e) =
          rw e (refl, (([], upline, node, refl, refl, tt), stop, omega arith))
      step_on ih (passed le on by r) =
          let (rows, stop) = ih before t lo r in
          (rows, IsStop-cons should_stop node upline on config.max_depth _ t.stop t.stopped_at stop)
      step_on ih (made s e t' le on by node_id accounted earned r pushed) =
          let next : saturating_add (before + 1) 1 ≡ before + 1 + 1 =
            saturating_add_lem (before + 1) (omega arith) in
          let (rows, stop) = ih (before + 1) t' le (
            ap (walk_upline config cache snapshots should_stop source collector_id upline)
              (sym next)
            ∙ r) in
          let count : before + suc (length t'.steps) ≡ before + 1 + length t'.steps = omega arith in
          rw pushed (
            earning_row-push collector_id source (before + 1) s e t'.earnings _ (omega arith)
                accounted rows,
            rw count (
                IsStop-cons should_stop node upline on config.max_depth _ t'.stop t'.stopped_at
                  stop),
          )

-- ===== src/Commission/Walk/Compression.antt =====
-- commission/walk.rs: with static compression, the walk counts the nodes that are not passed by.
use mlmforge.Prelude.{
  ℕ, ◌+◌, ◌-◌, ◌<◌, ◌≡◌, refl, ap, Bool, not, Option, none, some, List, [], ◌∷◌, map, arith, ◌||◌,
  sym, suc, ◌∙◌,
}
use mlmforge.Prelude.Assoc.{lookup}
use mlmforge.Prelude.Results.{ok, ok_inj}
use mlmforge.Tree.Node.{Node}
use mlmforge.Commission.Types.{DistributorSnapshot, VolumeSource, WalkStep}
use mlmforge.Commission.Walk.Rounds.{Round, deep, boundary, passed, made, round}
use mlmforge.Commission.Eligibility.{EligibilityResult}
use mlmforge.Commission.Walk.{
  LevelWalkConfig, Trail, walk_upline, saturating_add, is_passed_up, is_compressed,
  is_node_eligible,
}
use mlmforge.Commission.Walk.Rounds.{passes_by, compresses}
use mlmforge.Prelude.{take, filter, zero, if◌then◌else◌}
use mlmforge.Commission.Walk.Levels.{saturating_add_lem}

-- The part of an upline before the first node that the stop predicate names.
unfoldable pub before_boundary : (ℕ → Bool) → List Node → List Node
before_boundary should_stop [] = []
before_boundary should_stop (node ∷ upline) =
    if should_stop node.user_id then [] else node ∷ before_boundary should_stop upline

take-nil {ℓ} : {A : Type ℓ} (n : ℕ) → take {A = A} n [] ≡ []
take-nil zero = refl
take-nil (suc n) = refl

module _ (config : LevelWalkConfig) (cache : List (ℕ × EligibilityResult))
    (snapshots : List (ℕ × DistributorSnapshot)) (should_stop : ℕ → Bool)
    (source : VolumeSource) where
  -- The nodes that count, in order.
  unfoldable pub counted : List Node → List ℕ
  counted upline =
      map (λ (n : Node). n.user_id)
        (filter (λ n. not (passes_by config cache snapshots source n 1))
          (before_boundary should_stop upline))

module _ (config : LevelWalkConfig) (cache : List (ℕ × EligibilityResult))
    (snapshots : List (ℕ × DistributorSnapshot)) (should_stop : ℕ → Bool) (source : VolumeSource)
    (collector_id : ℕ) (small : config.max_depth < 256)
    (static : config.dynamic_thresholds ≡ none) where
  compresses-level :
      (elig : Option EligibilityResult) (level : ℕ) (o : Option DistributorSnapshot)
      → compresses config elig level o ≡ compresses config elig 1 o
  unfolding compresses is_compressed
  compresses-level elig level none = refl
  compresses-level elig level (some s) =
      ap (λ (o : Option (List ℕ)). is_compressed o config s (is_node_eligible elig) level) static
      ∙ sym
          (ap (λ (o : Option (List ℕ)). is_compressed o config s (is_node_eligible elig) 1) static)

  passes_by-level :
      (node : Node) (level : ℕ)
      → passes_by config cache snapshots source node level
        ≡ passes_by config cache snapshots source node 1
  unfolding passes_by
  passes_by-level node level =
      ap (λ (b : Bool). is_passed_up config.pass_up node.user_id source.source_id || b)
        (compresses-level (lookup node.user_id cache) level (lookup node.user_id snapshots))

  pub walk_upline-counted :
      (upline : List Node) (before : ℕ) (t : Trail)
      → walk_upline config cache snapshots should_stop source collector_id upline (before + 1)
        ≡ ok t
      → map (λ (s : WalkStep). s.node_id) t.steps
        ≡ take
            (config.max_depth - before)
            (counted config cache snapshots should_stop source upline)
  unfolding walk_upline counted before_boundary
  walk_upline-counted [] before t h = rw (← ok_inj h) (sym (take-nil (config.max_depth - before)))
  walk_upline-counted (node ∷ upline) before t h =
      step_on (walk_upline-counted upline)
        (round config cache snapshots should_stop source collector_id node upline (before + 1) t h)
    where
      step_on :
          ((b : ℕ) (t : Trail)
            → walk_upline config cache snapshots should_stop source collector_id upline (b + 1)
              ≡ ok t
            → map (λ (s : WalkStep). s.node_id) t.steps
              ≡ take
                  (config.max_depth - b)
                  (counted config cache snapshots should_stop source upline))
          → Round config cache snapshots should_stop source collector_id node
              (before + 1)
              (walk_upline config cache snapshots should_stop source collector_id upline)
              t
          → map (λ (s : WalkStep). s.node_id) t.steps
            ≡ take
                (config.max_depth - before)
                (counted config cache snapshots should_stop source (node ∷ upline))
      step_on ih (deep hi e) =
          let none_left : config.max_depth - before ≡ 0 = omega arith in rw (e, none_left)
      step_on ih (boundary le stop e) = rw (e, stop, take-nil (config.max_depth - before))
      step_on ih (passed le on by r) =
          rw (on, sym (passes_by-level node (before + 1)) ∙ by) (ih before t r)
      step_on ih (made s e t' le on by node_id accounted earned r pushed) =
          let next : saturating_add (before + 1) 1 ≡ before + 1 + 1 =
            saturating_add_lem (before + 1) (omega arith) in
          let rest = ih (before + 1) t' (
            ap (walk_upline config cache snapshots should_stop source collector_id upline)
              (sym next)
            ∙ r) in
          let left : config.max_depth - before ≡ suc (config.max_depth - (before + 1)) =
            omega arith in
          rw (pushed, on, sym (passes_by-level node (before + 1)) ∙ by, left)
            (λ i. node_id i ∷ rest i)

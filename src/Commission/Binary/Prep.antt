-- ===== src/Commission/Binary/Prep.antt =====
-- commission/binary.rs: what both calculators do before the commission itself.
use mlmforge.Prelude.{ℕ, Bool, not, Option, none, some, List, [], ◌∷◌, map, if◌then◌else◌}
use mlmforge.Prelude.Int.{is_negative}
use mlmforge.Prelude.Assoc.{lookup, insert, contains_key}
use mlmforge.Prelude.Results.{Result, ok, err, ◌>>=◌}
use mlmforge.Decimal.{Decimal, NumericError, dec_zero, try_add}
use mlmforge.Decimal.Divide.{sum}
use mlmforge.Tree.Arena.{node_at}
use mlmforge.Tree.Binary.{BinaryTree, slots_of}
use mlmforge.Commission.Types.{
  DistributorSnapshot, VolumeSource, CommissionEligibility, CalculationError, BinaryLeg, left,
  right, negative_carried_leg_volume, source_not_in_tree, source_not_in_snapshot, invalid_cv_amount,
}
use mlmforge.Commission.Eligibility.{is_eligible}
use mlmforge.Commission.Walk.{unwrap_or, from_numeric}
use mlmforge.Commission.Finalize.{Cmp, then_with, cmp_ℕ, sort_by}
use mlmforge.Commission.Binary.Config.{LegVolumes}

unfoldable pub resolve_owner : Option (List (ℕ × ℕ)) → ℕ → ℕ
unfolding unwrap_or lookup
resolve_owner none position_id = position_id
resolve_owner (some owners) position_id = unwrap_or position_id (lookup position_id owners)

unfoldable pub check_source :
    BinaryTree
    → List (ℕ × DistributorSnapshot)
    → Option (List (ℕ × ℕ))
    → VolumeSource
    → Result CalculationError (Unit {0})
unfolding lookup resolve_owner
check_source tree snapshots ownership source =
    if is_negative source.cv_amount.mantissa
    then err (invalid_cv_amount source.source_id source.cv_amount)
    else if not (contains_key source.source_id tree.arena.index)
    then err (source_not_in_tree source.source_id)
    else if not (contains_key (resolve_owner ownership source.source_id) snapshots)
    then err (source_not_in_snapshot (resolve_owner ownership source.source_id))
    else ok tt

-- The loop over the volume, with the totals so far.
unfoldable pub aggregate_each :
    BinaryTree
    → List (ℕ × DistributorSnapshot)
    → Option (List (ℕ × ℕ))
    → List (ℕ × Decimal)
    → List VolumeSource
    → Result CalculationError (List (ℕ × Decimal))
unfolding check_source from_numeric try_add unwrap_or lookup insert
aggregate_each tree snapshots ownership totals [] = ok totals
aggregate_each tree snapshots ownership totals (source ∷ volume) = do
  valid ← check_source tree snapshots ownership source
  total ←
      from_numeric (try_add (unwrap_or dec_zero (lookup source.source_id totals)) source.cv_amount)
  aggregate_each tree snapshots ownership (insert source.source_id total totals) volume

unfoldable pub aggregate_volume :
    BinaryTree
    → List (ℕ × DistributorSnapshot)
    → List VolumeSource
    → Option (List (ℕ × ℕ))
    → Result CalculationError (List (ℕ × Decimal))
unfolding aggregate_each
aggregate_volume tree snapshots volume ownership = aggregate_each tree snapshots ownership [] volume

unfoldable pub evaluate_eligibility :
    List (ℕ × DistributorSnapshot) → CommissionEligibility → List (ℕ × Bool)
unfolding is_eligible
evaluate_eligibility snapshots eligibility =
    map (λ (entry : ℕ × DistributorSnapshot). (entry.0, is_eligible entry.1 eligibility)) snapshots

-- A node of the depth-sorted list.
pub record DepthEntry : Type 0 where
  pub slot : ℕ
  pub user_id : ℕ
  pub depth : ℕ

abbrev pub cmp_depth : DepthEntry → DepthEntry → Cmp
cmp_depth a b = then_with (cmp_ℕ b.depth a.depth) (cmp_ℕ a.user_id b.user_id)

unfoldable pub nodes_by_depth : BinaryTree → List DepthEntry
unfolding sort_by
nodes_by_depth tree = sort_by cmp_depth (
    map
      (λ (entry : ℕ × ℕ). record {
        slot = entry.1;
        user_id = entry.0;
        depth = (node_at tree.arena entry.1).depth;
      })
      tree.arena.index)

-- The loop over the nodes, deepest first, with the totals of the subtrees so far.
unfoldable pub sum_subtrees :
    BinaryTree
    → List (ℕ × Decimal)
    → List (ℕ × Decimal)
    → List DepthEntry
    → Result NumericError (List (ℕ × Decimal))
unfolding sum try_add unwrap_or lookup insert
sum_subtrees tree volume_totals totals [] = ok totals
sum_subtrees tree volume_totals totals (n ∷ nodes) = do
  child_sum ←
      sum
        (map (λ (c : ℕ). unwrap_or dec_zero (lookup c totals)) (node_at tree.arena n.slot).children)
  total ← try_add (unwrap_or dec_zero (lookup n.user_id volume_totals)) child_sum
  sum_subtrees tree volume_totals (insert n.slot total totals) nodes

abbrev pub subtree_of : List (ℕ × Decimal) → Option ℕ → Decimal
unfolding unwrap_or lookup
subtree_of totals none = dec_zero
subtree_of totals (some c) = unwrap_or dec_zero (lookup c totals)

abbrev pub no_legs : LegVolumes
no_legs = record { left = dec_zero; right = dec_zero }

-- The second loop over the same nodes.
unfoldable pub sum_legs :
    BinaryTree
    → List (ℕ × Decimal)
    → List (ℕ × LegVolumes)
    → List (ℕ × LegVolumes)
    → List DepthEntry
    → Result NumericError (List (ℕ × LegVolumes))
unfolding try_add unwrap_or lookup insert
sum_legs tree totals carry_forward legs [] = ok legs
sum_legs tree totals carry_forward legs (n ∷ nodes) =
    let prior = unwrap_or no_legs (lookup n.user_id carry_forward) in
    let s = slots_of n.slot tree.slots in
    do
      l ← try_add (subtree_of totals s.0) prior.left
      r ← try_add (subtree_of totals s.1) prior.right
      sum_legs tree totals carry_forward (insert n.user_id (record { left = l; right = r }) legs)
          nodes

unfoldable pub accumulate_leg_volumes :
    BinaryTree
    → List (ℕ × Decimal)
    → List (ℕ × LegVolumes)
    → Result NumericError (List (ℕ × LegVolumes))
unfolding nodes_by_depth sum_subtrees sum_legs
accumulate_leg_volumes tree volume_totals carry_forward = do
  totals ← sum_subtrees tree volume_totals [] (nodes_by_depth tree)
  sum_legs tree totals carry_forward [] (nodes_by_depth tree)

unfoldable pub sorted_positions : List (ℕ × LegVolumes) → List ℕ
unfolding sort_by
sorted_positions legs = sort_by cmp_ℕ (map (λ (entry : ℕ × LegVolumes). entry.0) legs)

abbrev pub check_leg : ℕ → BinaryLeg → Decimal → Result CalculationError (Unit {0})
check_leg position leg volume =
    if is_negative volume.mantissa
    then err (negative_carried_leg_volume position leg volume)
    else ok tt

-- The loop over the positions.
unfoldable pub check_positions : List (ℕ × LegVolumes) → List ℕ → Result CalculationError (Unit {0})
unfolding unwrap_or lookup
check_positions carry_forward [] = ok tt
check_positions carry_forward (position ∷ positions) =
    let prior = unwrap_or no_legs (lookup position carry_forward) in
    check_leg position left prior.left >>= λ _.
    check_leg position right prior.right >>= λ _. check_positions carry_forward positions

unfoldable pub check_carried_legs : List (ℕ × LegVolumes) → Result CalculationError (Unit {0})
unfolding check_positions sorted_positions
check_carried_legs carry_forward = check_positions carry_forward (sorted_positions carry_forward)

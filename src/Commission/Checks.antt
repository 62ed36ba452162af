-- ===== src/Commission/Checks.antt =====
pub mod Lowest
-- commission/walk.rs: the checks that a calculation makes of its snapshots and its volume sources.
use mlmforge.Prelude.{
  ℕ, Bool, not, Option, none, some, List, [], ◌∷◌, map, ltb, if◌then◌else◌, filter, contains,
  is_none,
}
use mlmforge.Prelude.Int.{is_negative}
use mlmforge.Prelude.Assoc.{lookup}
use mlmforge.Prelude.Results.{Result, ok, err, ◌>>=◌}
use mlmforge.Tree.Node.{Node, TreeError}
use mlmforge.Tree.Navigator.{TreeNavigator}
use mlmforge.Commission.Types.{
  DistributorSnapshot, VolumeSource, RankDefinition, CalculationError, unknown_snapshot_rank,
  invalid_personal_volume, distributor_not_in_snapshot, invalid_cv_amount, source_not_in_tree,
  source_not_in_snapshot,
}

-- The first element of the least key.
unfoldable pub min_by_key : {A : Type 0} → (A → ℕ) → List A → Option A
min_by_key key [] = none
min_by_key key (x ∷ xs) = elim (min_by_key key xs) [
  | none ↦ some x
  | some y ↦ if ltb (key y) (key x) then some y else some x
]

-- `.min_by_key(|(id, _)| **id)`
abbrev pub min_entry : List (ℕ × DistributorSnapshot) → Option (ℕ × DistributorSnapshot)
min_entry = min_by_key λ entry. entry.0

-- `.min()`
abbrev pub minimum : List ℕ → Option ℕ
minimum = min_by_key λ id. id

unfoldable pub refuse_rank : Option (ℕ × DistributorSnapshot) → Result CalculationError (Unit {0})
refuse_rank none = ok tt
refuse_rank (some (user_id, s)) = err (unknown_snapshot_rank user_id s.rank)

unfoldable pub has_unknown_rank : List RankDefinition → ℕ × DistributorSnapshot → Bool
unfolding contains
has_unknown_rank ranks entry =
    not (contains entry.1.rank (map (λ (r : RankDefinition). r.name) ranks))

unfoldable pub validate_snapshot_ranks :
    List RankDefinition → List (ℕ × DistributorSnapshot) → Result CalculationError (Unit {0})
unfolding has_unknown_rank min_by_key refuse_rank
validate_snapshot_ranks ranks snapshots =
    refuse_rank (min_entry (filter (has_unknown_rank ranks) snapshots))

unfoldable pub refuse_volume : Option (ℕ × DistributorSnapshot) → Result CalculationError (Unit {0})
refuse_volume none = ok tt
refuse_volume (some (user_id, s)) = err (invalid_personal_volume user_id s.personal_volume)

unfoldable pub has_negative_volume : ℕ × DistributorSnapshot → Bool
has_negative_volume entry = is_negative entry.1.personal_volume.mantissa

unfoldable pub validate_snapshot_volumes :
    List (ℕ × DistributorSnapshot) → Result CalculationError (Unit {0})
unfolding has_negative_volume min_by_key refuse_volume
validate_snapshot_volumes snapshots =
    refuse_volume (min_entry (filter has_negative_volume snapshots))

unfoldable pub refuse_missing : Option ℕ → Result CalculationError (Unit {0})
refuse_missing none = ok tt
refuse_missing (some user_id) = err (distributor_not_in_snapshot user_id)

unfoldable pub has_no_snapshot : List (ℕ × DistributorSnapshot) → ℕ → Bool
unfolding lookup
has_no_snapshot snapshots user_id = is_none (lookup user_id snapshots)

unfoldable pub validate_snapshot_coverage :
    List ℕ → List (ℕ × DistributorSnapshot) → Result CalculationError (Unit {0})
unfolding has_no_snapshot min_by_key refuse_missing
validate_snapshot_coverage required snapshots =
    refuse_missing (minimum (filter (has_no_snapshot snapshots) required))

unfoldable pub validate_snapshots :
    List RankDefinition
    → List (ℕ × DistributorSnapshot)
    → List ℕ
    → Result CalculationError (Unit {0})
unfolding validate_snapshot_ranks validate_snapshot_volumes validate_snapshot_coverage
validate_snapshots ranks snapshots required = do
  ranked ← validate_snapshot_ranks ranks snapshots
  counted ← validate_snapshot_volumes snapshots
  validate_snapshot_coverage required snapshots

unfoldable pub validate_cv : VolumeSource → Result CalculationError (Unit {0})
validate_cv source =
    if is_negative source.cv_amount.mantissa
    then err (invalid_cv_amount source.source_id source.cv_amount)
    else ok tt

-- `.map_err(|_| SourceNotInTree(id))`
unfoldable pub in_tree : ℕ → Result TreeError (List Node) → Result CalculationError (List Node)
in_tree source_id (ok upline) = ok upline
in_tree source_id (err e) = err (source_not_in_tree source_id)

unfoldable pub validate_source :
    TreeNavigator
    → List (ℕ × DistributorSnapshot)
    → VolumeSource
    → Result CalculationError (List Node)
unfolding validate_cv in_tree lookup
validate_source tree snapshots source = do
  valid ← validate_cv source
  upline ← in_tree source.source_id (tree.get_upline source.source_id 0)
  if is_none (lookup source.source_id snapshots)
      then err (source_not_in_snapshot source.source_id)
      else ok upline

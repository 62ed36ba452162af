-- ===== src/Commission/Walk.antt =====
-- commission/walk.rs: `walk_level_commissions`, the walk of each volume source's upline.
pub mod Rounds
pub mod Levels
pub mod Compression
pub mod Audit
pub mod Earned
use mlmforge.Prelude.{
  ℕ, ◌+◌, ◌-◌, ◌%◌, ◌^◌, Bool, true, false, not, ◌&&◌, Option, none, some, List, [], ◌∷◌, ◌++◌, ltb,
  leb, ◌==◌, if◌then◌else◌, length, get_or, contains, is_some,
}
use mlmforge.Prelude.Assoc.{lookup}
use mlmforge.Prelude.Results.{Result, ok, err, ◌>>=◌}
use mlmforge.Decimal.{Decimal, NumericError, dec_zero, dec_lt, try_mul}
use mlmforge.Tree.Node.{Node}
use mlmforge.Tree.Navigator.{TreeNavigator}
use mlmforge.Commission.Types.{
  DistributorSnapshot, VolumeSource, CommissionEarning, CalculationError, upline_not_in_snapshot,
  numeric, WalkKind, StepOutcome, paid, forfeited, WalkStop, root_reached, max_depth_reached,
  boundary_reached, WalkStep, Walk, CompressionConfig, CompressionMode, skip_inactive,
  skip_below_rank,
}
use mlmforge.Commission.Eligibility.{EligibilityResult}
use mlmforge.Commission.Checks.{validate_source}

pub record LevelWalkConfig : Type 0 where
  pub max_depth : ℕ
  pub broad_pct : Decimal
  pub multiplier : Decimal
  pub compression : Option CompressionConfig
  pub threshold_ordinal : Option ℕ
  pub rank_ordinals : List (ℕ × ℕ)
  pub rate_table : List (ℕ × List (ℕ × Decimal))
  -- The skip sets of the pass-up context.
  pub pass_up : Option (List (ℕ × List ℕ))
  pub dynamic_thresholds : Option (List ℕ)

-- `u16::saturating_add`
unfoldable pub saturating_add : ℕ → ℕ → ℕ
saturating_add a b = if ltb (a + b) (2 ^ 16) then a + b else 2 ^ 16 - 1

unfoldable pub unwrap_or {ℓ} : {A : Type ℓ} → A → Option A → A
unwrap_or d none = d
unwrap_or d (some a) = a

unfoldable pub set_contains : ℕ → Option (List ℕ) → Bool
unfolding contains
set_contains source_id none = false
set_contains source_id (some set) = contains source_id set

unfoldable pub is_passed_up : Option (List (ℕ × List ℕ)) → ℕ → ℕ → Bool
unfolding set_contains lookup
is_passed_up none node_id source_id = false
is_passed_up (some skip_sets) node_id source_id = set_contains source_id (lookup node_id skip_sets)

unfoldable pub is_node_eligible : Option EligibilityResult → Bool
is_node_eligible none = false
is_node_eligible (some e) = e.eligible

unfoldable pub dist_ordinal : LevelWalkConfig → DistributorSnapshot → ℕ
unfolding unwrap_or lookup
dist_ordinal config snapshot = unwrap_or 0 (lookup snapshot.rank config.rank_ordinals)

unfoldable pub below_threshold : ℕ → Option ℕ → Bool
below_threshold ordinal none = false
below_threshold ordinal (some t) = ltb ordinal t

unfoldable pub compressed_by : CompressionMode → LevelWalkConfig → DistributorSnapshot → Bool → Bool
unfolding below_threshold dist_ordinal
compressed_by skip_inactive config snapshot node_eligible = not node_eligible
compressed_by skip_below_rank config snapshot node_eligible =
    below_threshold (dist_ordinal config snapshot) config.threshold_ordinal

unfoldable pub should_compress :
    Option CompressionConfig → LevelWalkConfig → DistributorSnapshot → Bool → Bool
unfolding compressed_by
should_compress none config snapshot node_eligible = false
should_compress (some c) config snapshot node_eligible =
    c.enabled && compressed_by c.mode config snapshot node_eligible

-- The dynamic thresholds, where there are some, in place of the compression.
unfoldable pub is_compressed :
    Option (List ℕ) → LevelWalkConfig → DistributorSnapshot → Bool → ℕ → Bool
unfolding should_compress dist_ordinal
is_compressed (some thresholds) config snapshot node_eligible level =
    ltb (level - 1) (length thresholds)
    && ltb 0 (get_or thresholds (level - 1) 0)
    && ltb (dist_ordinal config snapshot) (get_or thresholds (level - 1) 0)
is_compressed none config snapshot node_eligible level =
    should_compress config.compression config snapshot node_eligible

unfoldable pub beyond_depth : Option EligibilityResult → ℕ → Bool
beyond_depth none level = false
beyond_depth (some e) level = elim e.max_earning_depth [
  | none ↦ false
  | some max_personal ↦ ltb max_personal level
]

unfoldable pub level_rate : Option (List (ℕ × Decimal)) → ℕ → Decimal
unfolding unwrap_or lookup
level_rate none level_u8 = dec_zero
level_rate (some levels) level_u8 = unwrap_or dec_zero (lookup level_u8 levels)

unfoldable pub rate_for : LevelWalkConfig → DistributorSnapshot → ℕ → Decimal
unfolding level_rate lookup
rate_for config snapshot level_u8 = level_rate (lookup snapshot.rank config.rate_table) level_u8

-- `?` on a numeric error.
unfoldable pub from_numeric {ℓ} : {A : Type ℓ} → Result NumericError A → Result CalculationError A
from_numeric (ok a) = ok a
from_numeric (err e) = err (numeric e)

unfoldable pub payout : LevelWalkConfig → VolumeSource → Decimal → Result CalculationError Decimal
unfolding from_numeric try_mul
payout config source rate = do
  of_pool ← from_numeric (try_mul source.cv_amount config.broad_pct)
  converted ← from_numeric (try_mul of_pool config.multiplier)
  from_numeric (try_mul converted rate)

-- What one round of the loop over the upline does, once the walk has not stopped there: nothing
-- (`continue` before a step), a step, or a step and an earning.
pub data Visit : Type 0 where
  skipped : Visit
  consumed : WalkStep → Option CommissionEarning → Visit

abbrev pub step : Node → DistributorSnapshot → StepOutcome → WalkStep
step node snapshot outcome = record {
  node_id = node.user_id;
  outcome = outcome;
  consumed = true;
  earner_rank = some snapshot.rank;
}

abbrev pub earning : Node → VolumeSource → ℕ → ℕ → Decimal → Decimal → CommissionEarning
earning node source collector_id level_u8 rate dollar_amount = record {
  earner_id = node.user_id;
  source_id = source.source_id;
  level = level_u8;
  rate = some rate;
  cv_amount = source.cv_amount;
  dollar_amount = dollar_amount;
  walk = some collector_id;
}

module _ (config : LevelWalkConfig) (cache : List (ℕ × EligibilityResult))
    (snapshots : List (ℕ × DistributorSnapshot)) (source : VolumeSource) (collector_id : ℕ) where
  unfoldable pub pay : Node → DistributorSnapshot → ℕ → Decimal → Result CalculationError Visit
  pay node snapshot level_u8 rate = do
    amount ← payout config source rate
    ok (
        consumed (step node snapshot paid)
          (some (earning node source collector_id level_u8 rate amount)))

  unfoldable pub visit_known :
      Node → Option EligibilityResult → ℕ → DistributorSnapshot → Result CalculationError Visit
  visit_known node elig level snapshot =
      if is_compressed config.dynamic_thresholds config snapshot (is_node_eligible elig) level
      then ok skipped
      else if not (is_node_eligible elig)
      then ok (consumed (step node snapshot forfeited) none)
      else if beyond_depth elig level
      then ok (consumed (step node snapshot forfeited) none)
      else if dec_lt dec_zero (rate_for config snapshot (level % 2 ^ 8))
      then pay node snapshot (level % 2 ^ 8) (rate_for config snapshot (level % 2 ^ 8))
      else ok (consumed (step node snapshot forfeited) none)

  unfoldable pub visit_found :
      Node
      → Option EligibilityResult
      → ℕ
      → Option DistributorSnapshot
      → Result CalculationError Visit
  visit_found node elig level none = err (upline_not_in_snapshot node.user_id)
  visit_found node elig level (some snapshot) = visit_known node elig level snapshot

  unfoldable pub visit : Node → ℕ → Result CalculationError Visit
  visit node level =
      if is_passed_up config.pass_up node.user_id source.source_id
      then ok skipped
      else visit_found node (lookup node.user_id cache) level (lookup node.user_id snapshots)

-- What the loop over one upline leaves: the steps, the earnings and how it stopped.
pub record Trail : Type 0 where
  pub steps : List WalkStep
  pub earnings : List CommissionEarning
  pub stop : WalkStop
  pub stopped_at : Option ℕ

abbrev pub halted : WalkStop → Option ℕ → Trail
halted stop stopped_at = record { steps = []; earnings = []; stop = stop; stopped_at = stopped_at }

abbrev pub push_earning : Option CommissionEarning → List CommissionEarning → List CommissionEarning
push_earning none es = es
push_earning (some e) es = e ∷ es

-- A step goes before those of the rest of the walk.
abbrev pub push_step : WalkStep → Option CommissionEarning → Trail → Trail
push_step s e t = record t { steps = s ∷ t.steps; earnings = push_earning e t.earnings }

unfoldable pub after_visit :
    ℕ → (ℕ → Result CalculationError Trail) → Visit → Result CalculationError Trail
unfolding saturating_add
after_visit level rest skipped = rest level
after_visit level rest (consumed s e) = rest (saturating_add level 1) >>= λ t. ok (push_step s e t)

module _ (config : LevelWalkConfig) (cache : List (ℕ × EligibilityResult))
    (snapshots : List (ℕ × DistributorSnapshot)) (should_stop : ℕ → Bool) where
  unfoldable pub walk_upline : VolumeSource → ℕ → List Node → ℕ → Result CalculationError Trail
  walk_upline source collector_id [] level = ok (halted root_reached none)
  walk_upline source collector_id (node ∷ upline) level =
      if ltb config.max_depth level
      then ok (halted max_depth_reached (some node.user_id))
      else if should_stop node.user_id
      then ok (halted boundary_reached (some node.user_id))
      else visit config cache snapshots source collector_id node level
        >>= after_visit level (walk_upline source collector_id upline)

  abbrev pub finish : VolumeSource → ℕ → Trail → Walk
  finish source collector_id t = record {
    index = collector_id;
    source_id = source.source_id;
    kind = WalkKind.level;
    stream_id = none;
    rank = none;
    steps = t.steps;
    stop = t.stop;
    stopped_at = t.stopped_at;
  }

  -- The loop over the volume: the earnings and the walks are pushed source by source.
  unfoldable pub walk_sources :
      TreeNavigator
      → List VolumeSource
      → List CommissionEarning
      → List Walk
      → Result CalculationError (List CommissionEarning × List Walk)
  walk_sources tree [] all_earnings walks = ok (all_earnings, walks)
  walk_sources tree (source ∷ volume) all_earnings walks = do
    upline ← validate_source tree snapshots source
    let collector_id = length walks % 2 ^ 32
    t ← walk_upline source collector_id upline 1
    walk_sources tree volume (all_earnings ++ t.earnings)
        (walks ++ finish source collector_id t ∷ [])

  unfoldable pub walk_level_commissions :
      TreeNavigator
      → List VolumeSource
      → List Walk
      → Result CalculationError (List CommissionEarning × List Walk)
  unfolding walk_sources
  walk_level_commissions tree volume walks = walk_sources tree volume [] walks

-- ===== src/Commission/Examples.antt =====
-- The calculators' theorems at concrete inputs: a line of distributors 0, 1, 2, 3 with the volume at 3.
use Prim.Native.Nat.{min}
use mathlib.Core.Bool.{xor}
use mlmforge.Prelude.{
  ℕ, zero, suc, ◌+◌, ◌-◌, ◌^◌, ◌<◌, ◌≡◌, refl, true, false, Bool, arith, none, some, Option, List,
  [], ◌∷◌, ◌++◌, length, ◌==◌, if◌then◌else◌, get_elem?, All,
}
use mlmforge.Prelude.Int.{pos, ◌*ℤ◌}
use mlmforge.Prelude.Assoc.{lookup}
use mlmforge.Prelude.Results.{Result, ok, err}
use mlmforge.Decimal.{dec_zero, dec_lt, Decimal, dec_one, limit_96}
use mlmforge.Tree.Node.{Node, TreeError, user_not_found}
use mlmforge.Tree.Navigator.{TreeNavigator}
use mlmforge.BoardPlan.Config.{BoardPlanConfig, bottom, CycleEvent}
use mlmforge.Commission.Types.{
  DistributorSnapshot, VolumeSource, CommissionEarning, WalkKind, paid, forfeited, root_reached,
  WalkStep, Walk, skip_inactive,
}
use mlmforge.Commission.Eligibility.{EligibilityResult}
use mlmforge.Commission.Checks.{validate_source}
use mlmforge.Commission.Walk.{
  LevelWalkConfig, walk_level_commissions, walk_upline, visit, visit_found, visit_known, pay,
  payout, after_visit, is_passed_up, is_compressed, is_node_eligible, beyond_depth, rate_for,
}
use mlmforge.Commission.Walk.Audit.{AreWalksOf, IsCountedWalk, walk_level_commissions-counted}
use mlmforge.Commission.Walk.Earned.{IsDueFor, walk_level_commissions-IsDueFor}
use mlmforge.Commission.Finalize.{assign_indexes, plan_minor_units, assemble}
use mlmforge.Commission.Finalize.References.{EarningResolves}
use mlmforge.Commission.Unilevel.{CompensationPlan, UnilevelStructureConfig, calculate_unilevel}
use mlmforge.Commission.Unilevel.Resolution.{calculate_unilevel-Resolves}
use mlmforge.Commission.Eligibility.{evaluate_eligibility, determine_max_depth}
use mlmforge.Commission.Types.{PlanIdentity, CommissionCalculationResult}
use mlmforge.Commission.Checks.{validate_snapshots}
use mlmforge.Commission.Checks.Lowest.{IsVerdict, validate_snapshots-IsVerdict}
use mlmforge.Commission.Eligibility.Cache.{cached, evaluate_eligibility-lookup}
use mlmforge.Commission.Eligibility.PassUp.{
  is_of_first, IsFirst, build_pass_up_context-is_passed_up,
}
use mlmforge.Prelude.{contains, ◌&&◌}
use mlmforge.Commission.Types.{PassUpConfig}
use mlmforge.Commission.Eligibility.{build_pass_up_context, sort_by_enrolment}
use mlmforge.Commission.Eligibility.Tiers.{IsUnmet, blocked, determine_max_depth-last}
use mlmforge.Prelude.{◌⊎◌, ◌↔◌, ◌≢◌, ◌≤◌, ◌<◌}
use mlmforge.Commission.Types.{distributor_not_in_snapshot, ActiveLegTier, CommissionEligibility}
use mlmforge.Commission.Finalize.Order.{numbered, assign_indexes-remap}
use mlmforge.Commission.BoardCycles.{calculate_board_commissions, entry_count}
use mlmforge.Commission.BoardCycles.Cap.{
  count_of, cycles_of, paid_cycles, IsPriced, calculate_board_commissions-cap,
}

abbrev node : ℕ → Option ℕ → Node
node id above = record {
  user_id = id;
  parent = above;
  children = [];
  sponsor = above;
  sponsored = [];
  depth = id;
  enrolled_at = pos id;
}

abbrev line : List Node
line = node 2 (some 1) ∷ node 1 (some 0) ∷ node 0 none ∷ []

abbrev missing {ℓ} : {A : Type ℓ} → ℕ → Result TreeError A
missing id = err (user_not_found id)

abbrev tree : TreeNavigator
tree = record {
  contains = λ id. id == 3;
  get_parent = λ id. missing id;
  get_children = λ id. missing id;
  get_upline = λ id depth. if id == 3 then ok line else missing id;
  get_downline = λ id depth. missing id;
  get_position = λ id. missing id;
  get_branch = λ id position. missing id;
  count_downline = λ id depth. missing id;
  count_branch = λ id position. missing id;
  is_descendant_of = λ id ancestor. missing id;
  get_sponsor = λ id. missing id;
  get_sponsor_upline = λ id depth. missing id;
  get_sponsored = λ id. missing id;
  user_ids = 0 ∷ 1 ∷ 2 ∷ 3 ∷ [];
}

-- Rank 7 earns 0.1 on level 1; who is not eligible is compressed.
abbrev config : LevelWalkConfig
config = record {
  max_depth = 3;
  broad_pct = record { mantissa = pos 4; scale = 1 };
  multiplier = dec_one;
  compression = some (record { enabled = true; mode = skip_inactive; rank_threshold = none });
  threshold_ordinal = none;
  rank_ordinals = (7, 1) ∷ [];
  rate_table = (7, (1, record { mantissa = pos 1; scale = 1 }) ∷ []) ∷ [];
  pass_up = none;
  dynamic_thresholds = none;
}

abbrev snapshot : DistributorSnapshot
snapshot = record { rank = 7; personal_volume = dec_one; status = 1; has_order_in_period = true }

abbrev snapshots : List (ℕ × DistributorSnapshot)
snapshots = (0, snapshot) ∷ (1, snapshot) ∷ (2, snapshot) ∷ (3, snapshot) ∷ []

abbrev can_earn : Bool → EligibilityResult
can_earn b = record { eligible = b; max_earning_depth = none }

abbrev cache : List (ℕ × EligibilityResult)
cache = (0, can_earn true) ∷ (1, can_earn true) ∷ (2, can_earn false) ∷ (3, can_earn true) ∷ []

abbrev source : VolumeSource
source = record { source_id = 3; cv_amount = record { mantissa = pos 100; scale = 0 } }

abbrev step_of : ℕ → Bool → WalkStep
step_of id earns = record {
  node_id = id;
  outcome = if earns then paid else forfeited;
  consumed = true;
  earner_rank = some 7;
}

-- 2 is compressed, 1 earns at level 1, and 0 has no rate at level 2.
abbrev walk : Walk
walk = record {
  index = 0;
  source_id = 3;
  kind = WalkKind.level;
  stream_id = none;
  rank = none;
  steps = step_of 1 true ∷ step_of 0 false ∷ [];
  stop = root_reached;
  stopped_at = none;
}

abbrev earned : CommissionEarning
earned = record {
  earner_id = 1;
  source_id = 3;
  level = 1;
  rate = some (record { mantissa = pos 1; scale = 1 });
  cv_amount = record { mantissa = pos 100; scale = 0 };
  dollar_amount = record { mantissa = pos 400; scale = 2 };
  walk = some 0;
}

abbrev outcome : List CommissionEarning × List Walk
outcome = (earned ∷ [], walk ∷ [])

abbrev never : ℕ → Bool
never id = false

walked : walk_level_commissions config cache snapshots never tree (source ∷ []) [] ≡ ok outcome
unfolding walk_level_commissions validate_source walk_upline visit visit_found visit_known pay
    payout after_visit is_passed_up is_compressed is_node_eligible beyond_depth rate_for ◌*ℤ◌ xor
    limit_96 lookup dec_lt
walked = refl

walk_level_commissions-counted_example :
    (new : List Walk) × (outcome.1 ≡ [] ++ new)
    × AreWalksOf (IsCountedWalk config cache snapshots never tree) 0 (source ∷ []) new
walk_level_commissions-counted_example =
    walk_level_commissions-counted config cache snapshots never tree (omega arith) refl
      (source ∷ []) [] outcome (omega arith) walked

walk_level_commissions-IsDueFor_example :
    All (IsDueFor config cache snapshots (source ∷ [])) outcome.0
walk_level_commissions-IsDueFor_example =
    walk_level_commissions-IsDueFor config cache snapshots never (omega arith) tree (source ∷ []) []
      outcome walked

at_its_position : (i : ℕ) (w : Walk) → get_elem? (walk ∷ []) i ≡ some w → w.index ≡ i
at_its_position zero w h = cc
at_its_position (suc i) w h = cc

assign_indexes-remap_example :
    (i : ℕ) × (lookup 0 (assign_indexes (walk ∷ []) (source ∷ []) []).1 ≡ some i)
    × (get_elem? (assign_indexes (walk ∷ []) (source ∷ []) []).0 i ≡ some (numbered i walk))
    × (length (assign_indexes (walk ∷ []) (source ∷ []) []).0 ≡ length (walk ∷ []))
assign_indexes-remap_example =
    assign_indexes-remap (walk ∷ []) (source ∷ []) [] (omega arith) at_its_position 0 walk refl

-- Two cycles a period, of which member 5 has used one.
abbrev board_config : BoardPlanConfig Decimal
board_config = record {
  cycle_commission = record { mantissa = pos 100; scale = 0 };
  re_entry_enabled = false;
  re_entry_position = bottom;
  max_cycles_per_period = 2;
  max_cascade_depth = 10;
  stall_threshold_periods = 2;
  inactive_compression = false;
}

abbrev cycle : ℕ → CycleEvent
cycle m = record { board_id = 9; cycled_member = m; new_boards = []; re_entry_board = none }

abbrev events : List CycleEvent
events = cycle 5 ∷ cycle 6 ∷ cycle 5 ∷ []

abbrev whole : Decimal → ℕ → Decimal
whole d places = d

room : count_of 5 ((5, 1) ∷ []) + cycles_of 5 events < 2 ^ 32
unfolding lookup entry_count
room = omega arith

calculate_board_commissions-cap_example :
    (count_of 5
        (calculate_board_commissions whole board_config 2 events ((5, 1) ∷ [])).updated_cycle_counts
      ≡ count_of 5 ((5, 1) ∷ []) + cycles_of 5 events)
    × (paid_cycles 5
          (calculate_board_commissions whole board_config 2 events ((5, 1) ∷ [])).earnings
        ≡ min (cycles_of 5 events) (2 - count_of 5 ((5, 1) ∷ [])))
    × All
        (IsPriced whole board_config 2)
        (calculate_board_commissions whole board_config 2 events ((5, 1) ∷ [])).earnings
calculate_board_commissions-cap_example =
    calculate_board_commissions-cap whole board_config 2 5 events ((5, 1) ∷ []) room

-- The same, by the whole calculator: 2 has no order in the period.
abbrev plan : CompensationPlan
plan = record {
  base_currency = 1;
  volume_to_dollar_multiplier = dec_one;
  ranks = record { name = 7; ordinal = 1 } ∷ [];
  eligibility = record {
    minimum_pv = dec_zero;
    require_order_in_period = true;
    eligible_statuses = [];
    active_leg_tiers = [];
  };
}

abbrev structure : UnilevelStructureConfig
structure = record {
  name = 8;
  level_commission = record {
    broad_commission_percent = record { mantissa = pos 4; scale = 1 };
    volume_to_dollar_multiplier = none;
    max_depth = 3;
    rate_table = (7, (1, record { mantissa = pos 1; scale = 1 }) ∷ []) ∷ [];
  };
  compression = some (record { enabled = true; mode = skip_inactive; rank_threshold = none });
  pass_up = none;
}

abbrev period : List (ℕ × DistributorSnapshot)
period =
    (0, snapshot)
    ∷ (1, snapshot)
    ∷ (2, record snapshot { has_order_in_period = false })
    ∷ (3, snapshot)
    ∷ []

abbrev identity : PlanIdentity
identity = record { name = 9; version = 2; hash = 10 }

abbrev cents : ℕ → Option ℕ
cents currency = some 2

abbrev paid_out : Option CommissionCalculationResult
paid_out = some (record { earnings = earned ∷ []; walks = walk ∷ []; plan = identity })

calculated :
    calculate_unilevel cents whole tree plan structure period (source ∷ []) identity ≡ ok paid_out
unfolding calculate_unilevel plan_minor_units validate_snapshots evaluate_eligibility assemble
    walk_level_commissions validate_source walk_upline visit visit_found visit_known pay payout
    after_visit is_passed_up is_compressed is_node_eligible beyond_depth rate_for ◌*ℤ◌ xor limit_96
    lookup dec_lt
calculated = refl

calculate_unilevel-Resolves_example :
    (r : CommissionCalculationResult) × (paid_out ≡ some r)
    × (length r.walks ≡ length (source ∷ []))
    × All (EarningResolves r.walks) r.earnings
calculate_unilevel-Resolves_example =
    calculate_unilevel-Resolves cents whole tree plan structure period (source ∷ []) identity
      paid_out (omega arith) (omega arith) calculated

validate_snapshots-IsVerdict_example :
    IsVerdict plan.ranks period (0 ∷ 4 ∷ []) (validate_snapshots plan.ranks period (0 ∷ 4 ∷ []))
validate_snapshots-IsVerdict_example = validate_snapshots-IsVerdict plan.ranks period (0 ∷ 4 ∷ [])

missing_4 :
    validate_snapshots plan.ranks period (0 ∷ 5 ∷ 4 ∷ []) ≡ err (distributor_not_in_snapshot 4)
unfolding validate_snapshots lookup
missing_4 = refl

-- Two levels with fewer than 3 active legs, and then no limit.
abbrev tiers : List ActiveLegTier
tiers =
    record { min_active_legs = 0; max_commission_depth = 2 }
    ∷ record { min_active_legs = 3; max_commission_depth = 0 }
    ∷ []

depths : (determine_max_depth 2 tiers ≡ some 2) × (determine_max_depth 3 tiers ≡ none)
unfolding determine_max_depth
depths = (refl, refl)

determine_max_depth-last_example :
    (All (IsUnmet 2) tiers × (blocked 2 (determine_max_depth 2 tiers) 3 ≡ false))
    ⊎ ((lower higher : List ActiveLegTier) × (tier : ActiveLegTier) × (tiers
          ≡ lower ++ tier ∷ higher)
        × All (IsUnmet 2) higher
        × (tier.min_active_legs ≤ 2)
        × ((blocked 2 (determine_max_depth 2 tiers) 3 ≡ true)
            ↔ ((tier.max_commission_depth ≢ 0) × (tier.max_commission_depth < 3))))
determine_max_depth-last_example = determine_max_depth-last 2 tiers 3 (omega arith)

abbrev tiered : CommissionEligibility
tiered = record plan.eligibility { active_leg_tiers = tiers }

one_allowed :
    lookup 1 (evaluate_eligibility period tree tiered)
    ≡ some (record { eligible = true; max_earning_depth = some 2 })
unfolding lookup evaluate_eligibility dec_lt
one_allowed = refl

evaluate_eligibility-lookup_example :
    lookup 1 (evaluate_eligibility period tree tiered)
    ≡ cached period tree tiered 1 (lookup 1 period)
unfolding lookup
evaluate_eligibility-lookup_example =
    evaluate_eligibility-lookup period tree tiered 1 (refl, (refl, (refl, (refl, tt))))

-- Member 0 sponsors 2 and 1, and passes up its first recruit with whoever is below it.
abbrev sponsors : TreeNavigator
sponsors = record tree {
  get_sponsored = λ id. if id == 0 then ok (node 2 (some 0) ∷ node 1 (some 0) ∷ []) else missing id;
  get_downline = λ id depth. if id == 1 then ok (node 3 (some 1) ∷ []) else missing id;
}

abbrev first_one : PassUpConfig
first_one = record { count = 1; includes_commissions = true }

passes :
    (is_of_first sponsors first_one 3 (sponsors.get_sponsored 0) ≡ true)
    × (is_of_first sponsors first_one 2 (sponsors.get_sponsored 0) ≡ false)
unfolding sort_by_enrolment
passes = (refl, refl)

build_pass_up_context-is_passed_up_example :
    (first : Bool) × IsFirst sponsors first_one 3 (sponsors.get_sponsored 0) first
    × (is_passed_up (some (build_pass_up_context sponsors first_one (0 ∷ 1 ∷ []))) 0 3
        ≡ (contains 0 (0 ∷ 1 ∷ []) && first))
build_pass_up_context-is_passed_up_example =
    build_pass_up_context-is_passed_up sponsors first_one 3 (0 ∷ 1 ∷ []) 0

-- ===== src/Commission/Eligibility.antt =====
pub mod Cache
pub mod Enrolled
pub mod PassUp
pub mod Tiers
-- commission/mod.rs (`is_eligible`) and the preparation of a walk in commission/walk.rs: the cache
-- of who may earn and how deep, and the sets of sources that a distributor passes up.
use mlmforge.Prelude.{
  ℕ, ◌%◌, ◌^◌, Bool, true, false, not, ◌&&◌, Option, none, some, List, [], ◌∷◌, ◌++◌, map, reverse,
  ltb, leb, ◌==◌, if◌then◌else◌, length, filter, contains, zero, suc,
}
use mlmforge.Prelude.Int.{ltb_ℤ}
use mlmforge.Prelude.Assoc.{lookup, insert}
use mlmforge.Prelude.Results.{Result, ok, err}
use mlmforge.Decimal.{dec_lt}
use mlmforge.Tree.Node.{Node, TreeError}
use mlmforge.Tree.Navigator.{TreeNavigator}
use mlmforge.Commission.Types.{
  DistributorSnapshot, CommissionEligibility, ActiveLegTier, PassUpConfig, RankDefinition,
  CompressionConfig, CompressionMode, skip_below_rank, skip_inactive,
}

unfoldable pub is_empty {ℓ} : {A : Type ℓ} → List A → Bool
is_empty [] = true
is_empty (x ∷ xs) = false

unfoldable pub is_eligible : DistributorSnapshot → CommissionEligibility → Bool
unfolding contains is_empty
is_eligible s eligibility =
    if dec_lt s.personal_volume eligibility.minimum_pv
    then false
    else if eligibility.require_order_in_period && not s.has_order_in_period
    then false
    else if not (is_empty eligibility.eligible_statuses)
        && not (contains s.status eligibility.eligible_statuses)
    then false
    else true

-- `u8::try_from(depth).unwrap_or(u8::MAX)`, with 0 for no limit.
unfoldable pub tier_depth : ActiveLegTier → Option ℕ
tier_depth tier =
    if tier.max_commission_depth == 0
    then none
    else if ltb tier.max_commission_depth 256
    then some tier.max_commission_depth
    else some 255

-- The loop over the tiers, from the last to the first.
unfoldable pub first_tier : ℕ → List ActiveLegTier → Option ℕ
unfolding tier_depth
first_tier active_leg_count [] = none
first_tier active_leg_count (tier ∷ tiers) =
    if leb tier.min_active_legs active_leg_count
    then tier_depth tier
    else first_tier active_leg_count tiers

unfoldable pub determine_max_depth : ℕ → List ActiveLegTier → Option ℕ
unfolding first_tier
determine_max_depth active_leg_count tiers = first_tier active_leg_count (reverse tiers)

unfoldable pub snapshot_is_eligible :
    List (ℕ × DistributorSnapshot) → CommissionEligibility → Node → Bool
unfolding is_eligible lookup
snapshot_is_eligible snapshots eligibility node = elim (lookup node.user_id snapshots) [
  | none ↦ false
  | some s ↦ is_eligible s eligibility
]

-- The number of the eligible ones; an error of the tree counts as none.
unfoldable pub count_legs :
    List (ℕ × DistributorSnapshot) → CommissionEligibility → Result TreeError (List Node) → ℕ
unfolding snapshot_is_eligible
count_legs snapshots eligibility (err e) = 0
count_legs snapshots eligibility (ok sponsored) =
    length (filter (snapshot_is_eligible snapshots eligibility) sponsored) % 2 ^ 16

unfoldable pub count_active_legs :
    TreeNavigator → ℕ → List (ℕ × DistributorSnapshot) → CommissionEligibility → ℕ
unfolding count_legs
count_active_legs tree user_id snapshots eligibility =
    count_legs snapshots eligibility (tree.get_sponsored user_id)

pub record EligibilityResult : Type 0 where
  pub eligible : Bool
  pub max_earning_depth : Option ℕ

unfoldable pub evaluate_one :
    List (ℕ × DistributorSnapshot)
    → TreeNavigator
    → CommissionEligibility
    → ℕ
    → DistributorSnapshot
    → EligibilityResult
unfolding is_eligible count_active_legs determine_max_depth is_empty
evaluate_one snapshots tree eligibility user_id s =
    let active_leg_count =
      if is_eligible s eligibility && not (is_empty eligibility.active_leg_tiers)
      then count_active_legs tree user_id snapshots eligibility
      else 0 in
    record {
      eligible = is_eligible s eligibility;
      max_earning_depth = determine_max_depth active_leg_count eligibility.active_leg_tiers;
    }

-- The loop over the snapshots, those that are left.
unfoldable pub evaluate_each :
    List (ℕ × DistributorSnapshot)
    → TreeNavigator
    → CommissionEligibility
    → List (ℕ × DistributorSnapshot)
    → List (ℕ × EligibilityResult)
    → List (ℕ × EligibilityResult)
unfolding evaluate_one insert
evaluate_each snapshots tree eligibility [] results = results
evaluate_each snapshots tree eligibility ((user_id, s) ∷ left) results =
    evaluate_each snapshots tree eligibility left
      (insert user_id (evaluate_one snapshots tree eligibility user_id s) results)

unfoldable pub evaluate_eligibility :
    List (ℕ × DistributorSnapshot)
    → TreeNavigator
    → CommissionEligibility
    → List (ℕ × EligibilityResult)
unfolding evaluate_each
evaluate_eligibility snapshots tree eligibility =
    evaluate_each snapshots tree eligibility snapshots []

-- `enrolled_at`, then `user_id`.
unfoldable pub enrolled_before : Node → Node → Bool
enrolled_before a b =
    if ltb_ℤ a.enrolled_at b.enrolled_at
    then true
    else if ltb_ℤ b.enrolled_at a.enrolled_at
    then false
    else ltb a.user_id b.user_id

unfoldable pub insert_by_enrolment : Node → List Node → List Node
unfolding enrolled_before
insert_by_enrolment a [] = a ∷ []
insert_by_enrolment a (b ∷ bs) =
    let rest = insert_by_enrolment a bs in if enrolled_before b a then b ∷ rest else a ∷ b ∷ bs

unfoldable pub sort_by_enrolment : List Node → List Node
unfolding insert_by_enrolment
sort_by_enrolment [] = []
sort_by_enrolment (a ∷ as') = insert_by_enrolment a (sort_by_enrolment as')

-- What a recruit adds to the skip set. The set is a list: only membership is asked of it.
unfoldable pub recruit_sources : Bool → Node → Result TreeError (List Node) → List ℕ
recruit_sources includes_commissions recruit (err e) = recruit.user_id ∷ []
recruit_sources includes_commissions recruit (ok descendants) =
    recruit.user_id
    ∷ (if includes_commissions then map (λ (n : Node). n.user_id) descendants else [])

-- The first `n` of the recruits.
unfoldable pub skip_set_of : TreeNavigator → Bool → ℕ → List Node → List ℕ
unfolding recruit_sources
skip_set_of tree includes_commissions zero recruits = []
skip_set_of tree includes_commissions (suc n) [] = []
skip_set_of tree includes_commissions (suc n) (recruit ∷ recruits) =
    recruit_sources includes_commissions recruit (tree.get_downline recruit.user_id 0)
    ++ skip_set_of tree includes_commissions n recruits

unfoldable pub add_skip_set : ℕ → List ℕ → List (ℕ × List ℕ) → List (ℕ × List ℕ)
unfolding is_empty insert
add_skip_set user_id skip_set skip_sets =
    if is_empty skip_set then skip_sets else insert user_id skip_set skip_sets

unfoldable pub pass_up_one :
    TreeNavigator
    → PassUpConfig
    → ℕ
    → Result TreeError (List Node)
    → List (ℕ × List ℕ)
    → List (ℕ × List ℕ)
unfolding skip_set_of sort_by_enrolment add_skip_set
pass_up_one tree pass_up user_id (err e) skip_sets = skip_sets
pass_up_one tree pass_up user_id (ok sponsored) skip_sets =
    add_skip_set user_id
      (skip_set_of tree pass_up.includes_commissions pass_up.count (sort_by_enrolment sponsored))
      skip_sets

unfoldable pub pass_up_each :
    TreeNavigator → PassUpConfig → List ℕ → List (ℕ × List ℕ) → List (ℕ × List ℕ)
unfolding pass_up_one
pass_up_each tree pass_up [] skip_sets = skip_sets
pass_up_each tree pass_up (user_id ∷ left) skip_sets =
    pass_up_each tree pass_up left
      (pass_up_one tree pass_up user_id (tree.get_sponsored user_id) skip_sets)

unfoldable pub build_pass_up_context : TreeNavigator → PassUpConfig → List ℕ → List (ℕ × List ℕ)
unfolding pass_up_each
build_pass_up_context tree pass_up participant_ids = pass_up_each tree pass_up participant_ids []

-- A later rank of the same name replaces an earlier one.
unfoldable pub collect_ordinals : List RankDefinition → List (ℕ × ℕ) → List (ℕ × ℕ)
unfolding insert
collect_ordinals [] ordinals = ordinals
collect_ordinals (r ∷ rs) ordinals = collect_ordinals rs (insert r.name r.ordinal ordinals)

unfoldable pub build_rank_ordinals : List RankDefinition → List (ℕ × ℕ)
unfolding collect_ordinals
build_rank_ordinals ranks = collect_ordinals ranks []

unfoldable pub threshold_of : CompressionMode → Option ℕ → List (ℕ × ℕ) → Option ℕ
unfolding lookup
threshold_of skip_inactive rank_threshold rank_ordinals = none
threshold_of skip_below_rank none rank_ordinals = none
threshold_of skip_below_rank (some name) rank_ordinals = lookup name rank_ordinals

unfoldable pub resolve_threshold_ordinal : Option CompressionConfig → List (ℕ × ℕ) → Option ℕ
unfolding threshold_of
resolve_threshold_ordinal none rank_ordinals = none
resolve_threshold_ordinal (some c) rank_ordinals =
    threshold_of c.mode c.rank_threshold rank_ordinals

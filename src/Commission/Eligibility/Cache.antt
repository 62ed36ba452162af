-- ===== src/Commission/Eligibility/Cache.antt =====
-- commission/walk.rs: what `evaluate_eligibility` holds for each distributor.
use mlmforge.Prelude.{
  ℕ, ◌≡◌, refl, ap, ◌∙◌, true, Option, none, some, List, [], ◌∷◌, ◌==◌, ==_iff, if◌then◌else◌,
  Bool-cases, inl, inr,
}
use mlmforge.Prelude.Assoc.{lookup, insert, lookup-insert, HasDistinctKeys}
use mlmforge.Tree.Navigator.{TreeNavigator}
use mlmforge.Commission.Types.{DistributorSnapshot, CommissionEligibility, ActiveLegTier}
use mlmforge.Commission.Eligibility.{
  is_empty, is_eligible, first_tier, determine_max_depth, count_active_legs, EligibilityResult,
  evaluate_one, evaluate_each, evaluate_eligibility,
}

module _ (snapshots : List (ℕ × DistributorSnapshot)) (tree : TreeNavigator)
    (eligibility : CommissionEligibility) where
  -- The legs that count for a distributor: its own active ones, and none if it may not earn.
  abbrev pub counted_legs : ℕ → DistributorSnapshot → ℕ
  counted_legs user_id s =
      if is_eligible s eligibility then count_active_legs tree user_id snapshots eligibility else 0

  abbrev pub verdict : ℕ → DistributorSnapshot → EligibilityResult
  verdict user_id s = record {
    eligible = is_eligible s eligibility;
    max_earning_depth = determine_max_depth (counted_legs user_id s) eligibility.active_leg_tiers;
  }

  -- What the cache holds for a distributor, by what the snapshots hold for it.
  abbrev pub cached : ℕ → Option DistributorSnapshot → Option EligibilityResult
  cached user_id none = none
  cached user_id (some s) = some (verdict user_id s)

  -- Without tiers the number of legs does not matter.
  depth_no_tiers :
      (m n : ℕ) (tiers : List ActiveLegTier)
      → is_empty tiers ≡ true
      → determine_max_depth m tiers ≡ determine_max_depth n tiers
  unfolding is_empty determine_max_depth first_tier
  depth_no_tiers m n [] none_left = refl
  depth_no_tiers m n (tier ∷ tiers) none_left = cc

  -- The legs are not counted where no tier asks for them, and that never shows.
  evaluate_one_lem :
      (user_id : ℕ) (s : DistributorSnapshot)
      → evaluate_one snapshots tree eligibility user_id s ≡ verdict user_id s
  unfolding evaluate_one
  evaluate_one_lem user_id s = elim (Bool-cases (is_eligible s eligibility)) [
    | inl may ↦ elim (Bool-cases (is_empty eligibility.active_leg_tiers)) [
      | inl e ↦
          rw (may, e)
            (ap (λ (depth : Option ℕ). record { eligible = true; max_earning_depth = depth })
              (depth_no_tiers 0 (count_active_legs tree user_id snapshots eligibility)
                eligibility.active_leg_tiers e))
      | inr e ↦ rw (may, e) refl
    ]
    | inr may_not ↦ rw may_not refl
  ]

  -- What is left to evaluate comes before what was held so far.
  abbrev later :
      ℕ → Option DistributorSnapshot → Option EligibilityResult → Option EligibilityResult
  later user_id none held = held
  later user_id (some s) held = some (verdict user_id s)

  evaluate_each-later :
      (user_id : ℕ) (left : List (ℕ × DistributorSnapshot)) (results : List (ℕ × EligibilityResult))
      → HasDistinctKeys left
      → lookup user_id (evaluate_each snapshots tree eligibility left results)
        ≡ later user_id (lookup user_id left) (lookup user_id results)
  unfolding lookup evaluate_each
  evaluate_each-later user_id [] results distinct = refl
  evaluate_each-later user_id ((key, s) ∷ left) results (fresh, distinct) =
      let result = evaluate_one snapshots tree eligibility key s in
      let rest = evaluate_each-later user_id left (insert key result results) distinct in
      let added = lookup-insert key user_id result results in
      elim (Bool-cases (key == user_id)) [
        | inl e ↦
            let same : key ≡ user_id = (==_iff key user_id).0 e in
            let missing : lookup user_id left ≡ none = rw same at fresh in
            let value = evaluate_one_lem key s ∙ ap (λ (k : ℕ). verdict k s) same in
            rest ∙ rw (missing, added, e) (ap some value)
        | inr e ↦ rest ∙ rw (added, e) refl
      ]

  -- If no two snapshots are of the same distributor, the cache holds an entry for exactly the
  -- distributors that have a snapshot: whether `is_eligible` holds of it, and the depth that
  -- `determine_max_depth` gives for the distributor's active legs if it may earn, and for none else.
  pub evaluate_eligibility-lookup :
      (user_id : ℕ)
      → HasDistinctKeys snapshots
      → lookup user_id (evaluate_eligibility snapshots tree eligibility)
        ≡ cached user_id (lookup user_id snapshots)
  unfolding evaluate_eligibility lookup
  evaluate_eligibility-lookup user_id distinct =
      evaluate_each-later user_id snapshots [] distinct ∙ finish (lookup user_id snapshots)
    where
      finish : (o : Option DistributorSnapshot) → later user_id o none ≡ cached user_id o
      finish none = refl
      finish (some s) = refl

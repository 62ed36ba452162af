-- ===== src/Commission/Binary/NextPeriod.antt =====
-- commission/binary.rs: what a calculation carries forward, the next one takes.
use mathlib.Core.Path.{subst}
use mlmforge.Prelude.{ℕ, ◌≡◌, refl, ap, ◌∙◌, Bool, Option, List, [], map}
use mlmforge.Prelude.Assoc.{contains_key}
use mlmforge.Prelude.Results.{Result, ok, bind_ok, ok_inj}
use mlmforge.Decimal.{Decimal}
use mlmforge.Tree.Binary.{BinaryTree}
use mlmforge.Commission.Types.{DistributorSnapshot, VolumeSource, CalculationError}
use mlmforge.Commission.Walk.{unwrap_or, from_numeric}
use mlmforge.Commission.Checks.{validate_snapshots}
use mlmforge.Commission.Finalize.{plan_minor_units}
use mlmforge.Commission.Unilevel.{CompensationPlan}
use mlmforge.Commission.Binary.Config.{
  PairingConfig, CycleStepConfig, BinaryCommissionMode, pairing, cycle_step, LegVolumes,
  BinaryCalculationResult, validate,
}
use mlmforge.Commission.Binary.Prep.{
  resolve_owner, aggregate_volume, accumulate_leg_volumes, check_carried_legs, sorted_positions,
}
use mlmforge.Commission.Binary.Settle.{check_cap, use_aggregate, aggregate_cap, finalize_earnings}
use mlmforge.Commission.Binary.Pairing.{check_percent, pair_each, carry_each}
use mlmforge.Commission.Binary.CycleStep.{cycle_each, carry_cycles}
use mlmforge.Commission.Binary.Carried.{
  carry_each-IsNotNegative, carry_cycles-IsNotNegative, check_carried_legs-ok,
}
use mlmforge.Commission.Binary.Keys.{accumulate_leg_volumes-keys, carry_each-all, carry_cycles-all}
use mlmforge.Commission.Binary.{
  BinaryStructureConfig, from_config, owner_is_eligible, prepare, calculate_pairing,
  calculate_binary_cycle_step, calculate_binary_pairing,
}
use mlmforge.Commission.Walk.Rounds.{from_numeric-ok}

-- The carried legs pass the next calculation's check, and are of the tree's positions.
abbrev pub IsCarriedFor : BinaryTree → List (ℕ × LegVolumes) → Type 0
IsCarriedFor tree legs =
    (check_carried_legs legs ≡ ok tt)
    × ((x : ℕ) → contains_key x legs ≡ contains_key x tree.arena.index)

module _ (minor_units_of : ℕ → Option ℕ) (round_minor : Decimal → ℕ → Decimal)
    (checked_div : Decimal → Decimal → Option Decimal) (round_even : Decimal → ℕ → Decimal)
    (normalize : Decimal → Decimal) (tree : BinaryTree) (plan : CompensationPlan)
    (snapshots : List (ℕ × DistributorSnapshot)) (volume : List VolumeSource)
    (carry_forward : List (ℕ × LegVolumes)) (ownership : Option (List (ℕ × ℕ))) where
  pub prepare-keys :
      (cap : Option Decimal) (minor_units : ℕ) (working : List (ℕ × LegVolumes))
      → prepare minor_units_of round_minor checked_div round_even normalize tree plan snapshots
          volume carry_forward ownership cap minor_units
        ≡ ok working
      → (x : ℕ) → contains_key x working ≡ contains_key x tree.arena.index
  unfolding prepare
  prepare-keys cap minor_units working h x =
      let (u, whole, h1) = bind_ok (check_cap round_minor cap plan.base_currency minor_units) _ h in
      let (v, carried, h2) = bind_ok (check_carried_legs carry_forward) _ h1 in
      let (w, valid, h3) =
        bind_ok
          (validate_snapshots plan.ranks snapshots
            (map (λ (entry : ℕ × ℕ). resolve_owner ownership entry.0) tree.arena.index))
          _ h2 in
      let (totals, summed, h4) = bind_ok (aggregate_volume tree snapshots volume ownership) _ h3 in
      accumulate_leg_volumes-keys x tree totals carry_forward working
        (from_numeric-ok (accumulate_leg_volumes tree totals carry_forward) h4)

  abbrev eligible : ℕ → Bool
  eligible =
      owner_is_eligible minor_units_of round_minor checked_div round_even normalize tree plan
        snapshots volume carry_forward ownership

  abbrev prepared : Option Decimal → ℕ → Result CalculationError (List (ℕ × LegVolumes))
  prepared =
      prepare minor_units_of round_minor checked_div round_even normalize tree plan snapshots volume
        carry_forward ownership

  pairing-IsCarriedFor :
      (config : PairingConfig) (multiplier : Decimal) (r : BinaryCalculationResult)
      → calculate_pairing minor_units_of round_minor checked_div round_even normalize tree plan
          snapshots volume carry_forward ownership config multiplier
        ≡ ok r
      → IsCarriedFor tree r.carry_forward
  unfolding calculate_pairing
  pairing-IsCarriedFor config multiplier r h =
      let held = use_aggregate config.multi_position_cap_mode ownership in
      let (u, percent, h1) = bind_ok (check_percent config) _ h in
      let (minor_units, known, h2) =
        bind_ok (plan_minor_units minor_units_of plan.base_currency) _ h1 in
      let (working, ready, h3) = bind_ok (prepared config.cap_per_period minor_units) _ h2 in
      let (paired, earned, h4) =
        bind_ok
          (from_numeric (
            pair_each checked_div round_even normalize config multiplier held
              (resolve_owner ownership) eligible working (sorted_positions working)))
          _ h3 in
      let (earnings, final, h5) =
        bind_ok
          (from_numeric (
            finalize_earnings round_minor paired (aggregate_cap held config.cap_per_period)
              minor_units))
          _ h4 in
      let (next, left, h6) =
        bind_ok (from_numeric (carry_each config eligible working [] (sorted_positions working))) _
          h5 in
      let made : next ≡ r.carry_forward =
        ap (λ (x : BinaryCalculationResult). x.carry_forward) (ok_inj h6) in
      let left' =
        from_numeric-ok (carry_each config eligible working [] (sorted_positions working)) left in
      subst (IsCarriedFor tree) made (
        check_carried_legs-ok next (
            carry_each-IsNotNegative config eligible working (sorted_positions working) [] next tt
              left'),
        λ x.
            carry_each-all x config eligible working next left'
            ∙ prepare-keys config.cap_per_period minor_units working ready x,
      )

  cycle_step-IsCarriedFor :
      (given : CycleStepConfig) (r : BinaryCalculationResult)
      → calculate_binary_cycle_step minor_units_of round_minor checked_div round_even normalize tree
          plan snapshots volume carry_forward ownership given
        ≡ ok r
      → IsCarriedFor tree r.carry_forward
  unfolding calculate_binary_cycle_step
  cycle_step-IsCarriedFor given r h =
      let (config, valid, h1) = bind_ok (from_config (validate given)) _ h in
      let (minor_units, known, h2) =
        bind_ok (plan_minor_units minor_units_of plan.base_currency) _ h1 in
      let (working, ready, h3) = bind_ok (prepared config.cap_per_period minor_units) _ h2 in
      let held = use_aggregate config.multi_position_cap_mode ownership in
      let (cycled, run, h4) =
        bind_ok
          (from_numeric (
            cycle_each config held (resolve_owner ownership) eligible working []
              (sorted_positions working)))
          _ h3 in
      let (earnings, final, h5) =
        bind_ok
          (from_numeric (
            finalize_earnings round_minor cycled.1 (aggregate_cap held config.cap_per_period)
              minor_units))
          _ h4 in
      let next =
        carry_cycles config cycled.0 [] (map (λ (entry : ℕ × LegVolumes). entry.0) working) in
      let made : next ≡ r.carry_forward =
        ap (λ (x : BinaryCalculationResult). x.carry_forward) (ok_inj h5) in
      subst (IsCarriedFor tree) made (
        check_carried_legs-ok next (
            carry_cycles-IsNotNegative config cycled.0
              (map (λ (entry : ℕ × LegVolumes). entry.0) working) [] tt),
        λ x.
            carry_cycles-all x config cycled.0 working
            ∙ prepare-keys config.cap_per_period minor_units working ready x,
      )

  -- If a binary calculation succeeds, by pairing or by cycles, what it carries forward passes the check that
  -- the next calculation makes of its carried legs, and has an entry for exactly the positions in the
  -- tree.
  pub calculate_binary_pairing-IsCarriedFor :
      (structure : BinaryStructureConfig) (r : BinaryCalculationResult)
      → calculate_binary_pairing minor_units_of round_minor checked_div round_even normalize tree
          plan snapshots volume carry_forward ownership structure
        ≡ ok r
      → IsCarriedFor tree r.carry_forward
  unfolding calculate_binary_pairing
  calculate_binary_pairing-IsCarriedFor structure r h =
      by_mode structure.binary_commission.mode refl
    where
      by_mode :
          (mode : BinaryCommissionMode)
          → structure.binary_commission.mode ≡ mode
          → IsCarriedFor tree r.carry_forward
      by_mode (pairing config) e =
          pairing-IsCarriedFor config
            (unwrap_or plan.volume_to_dollar_multiplier
              structure.binary_commission.volume_to_dollar_multiplier)
            r (rw e at h)
      by_mode (cycle_step config) e = cycle_step-IsCarriedFor config r (rw e at h)

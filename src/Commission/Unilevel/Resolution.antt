-- ===== src/Commission/Unilevel/Resolution.antt =====
-- commission/unilevel.rs: what a calculation that succeeds returns.
use mathlib.Core.Path.{subst}
use mlmforge.Prelude.{
  ℕ, zero, suc, ◌+◌, ◌^◌, ◌≤◌, ◌<◌, ◌≡◌, refl, sym, ap, ◌∙◌, Bool, false, Option, some, List, [],
  ◌∷◌, map, arith, length, get_elem?, All,
}
use mlmforge.Prelude.Results.{ok, bind_ok, ok_inj}
use mlmforge.Decimal.{Decimal}
use mlmforge.Tree.Navigator.{TreeNavigator}
use mlmforge.Commission.Types.{
  DistributorSnapshot, VolumeSource, CommissionEarning, Walk, PlanIdentity,
  CommissionCalculationResult,
}
use mlmforge.Commission.Eligibility.{EligibilityResult, evaluate_eligibility, build_rank_ordinals}
use mlmforge.Commission.Checks.{validate_snapshots}
use mlmforge.Commission.Walk.{LevelWalkConfig, walk_level_commissions}
use mlmforge.Commission.Walk.Levels.{earning_row}
use mlmforge.Commission.Walk.Audit.{
  AreWalksOf, IsStoppedWalk, paid_rows, walk_level_commissions-audit,
}
use mlmforge.Commission.Finalize.{plan_minor_units}
use mlmforge.Commission.Finalize.References.{
  Resolves, EarningResolves, ArePositions, paid_rows-Resolves, All-rows, assemble-Resolves,
}
use mlmforge.Commission.Unilevel.{
  CompensationPlan, UnilevelStructureConfig, walk_config, calculate_unilevel,
}

module _ (config : LevelWalkConfig) (cache : List (ℕ × EligibilityResult))
    (snapshots : List (ℕ × DistributorSnapshot)) (should_stop : ℕ → Bool)
    (tree : TreeNavigator) where
  index_of :
      (index : ℕ) (volume : List VolumeSource) (ws : List Walk) (i : ℕ) (w : Walk)
      → AreWalksOf (IsStoppedWalk config cache snapshots should_stop tree) index volume ws
      → get_elem? ws i ≡ some w
      → w.index ≡ index + i
  index_of index [] [] i w are h = cc
  index_of index [] (u ∷ ws) i w are h = elim are [ ]
  index_of index (v ∷ vs) [] i w are h = elim are [ ]
  index_of index (v ∷ vs) (u ∷ ws) zero w (is, are) h = same ∙ is.0 ∙ omega arith
    where
      same : w.index ≡ u.index
      same = cc
  index_of index (v ∷ vs) (u ∷ ws) (suc i) w (is, are) h =
      index_of (index + 1) vs ws i w are h ∙ omega arith

  length-AreWalksOf :
      (index : ℕ) (volume : List VolumeSource) (ws : List Walk)
      → AreWalksOf (IsStoppedWalk config cache snapshots should_stop tree) index volume ws
      → length ws ≡ length volume
  length-AreWalksOf index [] [] are = refl
  length-AreWalksOf index [] (w ∷ ws) are = elim are [ ]
  length-AreWalksOf index (v ∷ vs) [] are = elim are [ ]
  length-AreWalksOf index (v ∷ vs) (w ∷ ws) (is, are) =
      ap suc (length-AreWalksOf (index + 1) vs ws are)

module _ (minor_units_of : ℕ → Option ℕ) (round_minor : Decimal → ℕ → Decimal)
    (tree : TreeNavigator) (plan : CompensationPlan) (structure : UnilevelStructureConfig)
    (snapshots : List (ℕ × DistributorSnapshot)) (volume : List VolumeSource)
    (plan_identity : PlanIdentity) where
  -- If a unilevel calculation succeeds, for a depth below 256 and at most 2 ^ 32 volume sources, then
  -- it does not panic; its result has one walk for each source; and each earning names the walk at
  -- that number, of its source, whose step at the earning's level is paid and is at the earner.
  pub calculate_unilevel-Resolves :
      (o : Option CommissionCalculationResult)
      → structure.level_commission.max_depth < 256
      → length volume ≤ 2 ^ 32
      → calculate_unilevel minor_units_of round_minor tree plan structure snapshots volume
          plan_identity
        ≡ ok o
      → (r : CommissionCalculationResult) × (o ≡ some r)
        × (length r.walks ≡ length volume)
        × All (EarningResolves r.walks) r.earnings
  unfolding calculate_unilevel
  calculate_unilevel-Resolves o small room h =
      let config = walk_config tree plan structure in
      let cache = evaluate_eligibility snapshots tree plan.eligibility in
      let (minor_units, known, h₁) =
        bind_ok (plan_minor_units minor_units_of plan.base_currency) _ h in
      let (valid, checked, h₂) =
        bind_ok (validate_snapshots plan.ranks snapshots tree.user_ids) _ h₁ in
      let (found, walked, h₃) =
        bind_ok (walk_level_commissions config cache snapshots (λ _. false) tree volume []) _ h₂ in
      let (new, pushed, are, rows) =
        walk_level_commissions-audit config cache snapshots (λ _. false) tree small volume [] found
          (omega arith) walked in
      let size : length found.1 ≡ length volume =
        ap length pushed
        ∙ length-AreWalksOf config cache snapshots (λ _. false) tree 0 volume new are in
      let (r, made, resolves, count, _) =
        assemble-Resolves round_minor found.0 found.1 volume (build_rank_ordinals plan.ranks)
          plan_identity minor_units (omega arith) (positions found.1 new pushed are)
          (resolve found.1 new pushed are found.0 rows) in
      (r, sym (ok_inj h₃) ∙ made, count ∙ size, resolves)
    where
      positions :
          (ws new : List Walk)
          → ws ≡ new
          → AreWalksOf
              (IsStoppedWalk
                (walk_config tree plan structure)
                (evaluate_eligibility snapshots tree plan.eligibility)
                snapshots
                (λ _. false)
                tree)
              0
              volume
              new
          → ArePositions ws
      positions ws new same are i w at =
          index_of (walk_config tree plan structure)
            (evaluate_eligibility snapshots tree plan.eligibility) snapshots (λ _. false) tree 0
            volume new i w are (rw same at at)
          ∙ omega arith

      resolve :
          (ws new : List Walk)
          → ws ≡ new
          → AreWalksOf
              (IsStoppedWalk
                (walk_config tree plan structure)
                (evaluate_eligibility snapshots tree plan.eligibility)
                snapshots
                (λ _. false)
                tree)
              0
              volume
              new
          → (es : List CommissionEarning) → map earning_row es ≡ paid_rows new
          → All (EarningResolves ws) es
      resolve ws new same are es rows =
          subst (λ (ws : List Walk). All (EarningResolves ws) es) (sym same)
            (All-rows new es (
              subst (All (Resolves new)) (sym rows) (
                paid_rows-Resolves new new
                  (λ i w at. ap (get_elem? new) (positions new new refl are i w at) ∙ at))))

-- ===== src/Commission/Walk/Audit.antt =====
-- commission/walk.rs: the walks that `walk_level_commissions` records are those of its earnings.
use mathlib.Core.Path.{subst}
use mathlib.Core.List.{append-nil, append_assoc, map-append}
use mlmforge.Prelude.{
  ℕ, ◌+◌, ◌-◌, ◌%◌, ◌^◌, ◌≤◌, ◌<◌, ◌≡◌, refl, ap, Bool, none, List, [], ◌∷◌, map, arith, length,
  sym, ◌∙◌,
}
use mlmforge.Prelude.Assoc.{lookup}
use mlmforge.Prelude.Results.{Result, ok, err, bind_ok, ok_inj}
use mlmforge.Tree.Node.{Node}
use mlmforge.Commission.Types.{DistributorSnapshot, VolumeSource, CommissionEarning, WalkStep}
use mlmforge.Commission.Eligibility.{EligibilityResult}
use mlmforge.Commission.Walk.{LevelWalkConfig, Trail, walk_upline}
use mlmforge.Prelude.{◌++◌, length-append, take, is_none, if◌then◌else◌}
use mlmforge.Tree.Node.{TreeError}
use mlmforge.Commission.Types.{source_not_in_snapshot}
use mlmforge.Prelude.Results.{Result}
use mlmforge.Tree.Navigator.{TreeNavigator}
use mlmforge.Commission.Types.{Walk}
use mlmforge.Commission.Checks.{validate_source, validate_cv, in_tree}
use mlmforge.Commission.Walk.{walk_sources, walk_level_commissions, finish}
use mlmforge.Commission.Walk.Levels.{Row, earning_row, paid_steps, IsStop, walk_upline-IsTrail}
use mlmforge.Commission.Walk.Compression.{counted, walk_upline-counted}

-- The earnings that the paid steps of the walks stand for.
unfoldable pub paid_rows : List Walk → List Row
unfolding paid_steps
paid_rows [] = []
paid_rows (w ∷ ws) = paid_steps w.index w.source_id 1 w.steps ++ paid_rows ws

paid_rows-append : (ws vs : List Walk) → paid_rows (ws ++ vs) ≡ paid_rows ws ++ paid_rows vs
unfolding paid_rows
paid_rows-append [] vs = refl
paid_rows-append (w ∷ ws) vs = simp (paid_rows-append ws vs, append_assoc)

-- The walks are those of the sources in turn, numbered from `index` on.
abbrev pub AreWalksOf :
    (ℕ → VolumeSource → Walk → Type 0) → ℕ → List VolumeSource → List Walk → Type 0
AreWalksOf P index [] [] = Unit
AreWalksOf P index [] (w ∷ ws) = ⊥
AreWalksOf P index (source ∷ volume) [] = ⊥
AreWalksOf P index (source ∷ volume) (w ∷ ws) =
    P index source w × AreWalksOf P (index + 1) volume ws

module _ (config : LevelWalkConfig) (cache : List (ℕ × EligibilityResult))
    (snapshots : List (ℕ × DistributorSnapshot)) (should_stop : ℕ → Bool)
    (tree : TreeNavigator) where
  -- One source of the loop, where the loop succeeds.
  sources_round :
      (source : VolumeSource) (volume : List VolumeSource) (es : List CommissionEarning)
      (ws : List Walk) {r : List CommissionEarning × List Walk}
      → length ws < 2 ^ 32
      → walk_sources config cache snapshots should_stop tree (source ∷ volume) es ws ≡ ok r
      → (upline : List Node) × (t : Trail) × (validate_source tree snapshots source ≡ ok upline)
        × (walk_upline config cache snapshots should_stop source (length ws) upline 1 ≡ ok t)
        × (walk_sources config cache snapshots should_stop tree volume
              (es ++ t.earnings)
              (ws ++ finish config cache snapshots should_stop source (length ws) t ∷ [])
            ≡ ok r)
  unfolding walk_sources
  sources_round source volume es ws {r} room h =
      let index : length ws % 2 ^ 32 ≡ length ws = omega arith in
      let (upline, valid, h₁) = bind_ok (validate_source tree snapshots source) _ h in
      let (t, walked, h₂) =
        bind_ok
          (walk_upline config cache snapshots should_stop source (length ws % 2 ^ 32) upline 1) _
          h₁ in
      (
        upline,
        t,
        valid,
        ap (λ (n : ℕ). walk_upline config cache snapshots should_stop source n upline 1) (sym index)
            ∙ walked,
        ap
              (λ (n : ℕ).
                walk_sources config cache snapshots should_stop tree volume (es ++ t.earnings)
                  (ws ++ finish config cache snapshots should_stop source n t ∷ []))
              (sym index)
            ∙ h₂,
      )

  validated_upline :
      (source : VolumeSource) (upline : List Node)
      → validate_source tree snapshots source ≡ ok upline
      → tree.get_upline source.source_id 0 ≡ ok upline
  unfolding validate_source
  validated_upline source upline h =
      let (_, _, h₁) = bind_ok (validate_cv source) _ h in
      let (upline', found, h₂) =
        bind_ok (in_tree source.source_id (tree.get_upline source.source_id 0)) _ h₁ in
      from_tree (tree.get_upline source.source_id 0) found ∙ ap ok (same h₂)
    where
      from_tree :
          {up : List Node} (o : Result TreeError (List Node))
          → in_tree source.source_id o ≡ ok up
          → o ≡ ok up
      from_tree (ok up') h = ap ok (ok_inj h)
      from_tree (err e) h = cc

      same :
          {up : List Node}
          → (if is_none (lookup source.source_id snapshots)
              then err (source_not_in_snapshot source.source_id)
              else ok up)
            ≡ ok upline
          → up ≡ upline
      same h = ground arith

  -- A walk of that index and source, along the source's upline, that stopped as it says.
  abbrev pub IsStoppedWalk : ℕ → VolumeSource → Walk → Type 0
  IsStoppedWalk index source w =
      (w.index ≡ index)
      × (w.source_id ≡ source.source_id)
      × ((upline : List Node) × (tree.get_upline source.source_id 0 ≡ ok upline)
          × IsStop config.max_depth should_stop upline (length w.steps) w.stop w.stopped_at)

  -- The walk's steps are at the first max_depth of the nodes of the source's upline, before the first
  -- that the stop predicate names, that are not passed by.
  abbrev pub IsCountedWalk : ℕ → VolumeSource → Walk → Type 0
  IsCountedWalk index source w =
      (upline : List Node) × (tree.get_upline source.source_id 0 ≡ ok upline)
      × (map (λ (s : WalkStep). s.node_id) w.steps
          ≡ take config.max_depth (counted config cache snapshots should_stop source upline))

  module _ (small : config.max_depth < 256) where
    module _ (P : ℕ → VolumeSource → Walk → Type 0)
        (each : (index : ℕ) (source : VolumeSource) (upline : List Node) (t : Trail)
          → tree.get_upline source.source_id 0 ≡ ok upline
          → walk_upline config cache snapshots should_stop source index upline 1 ≡ ok t
          → P index source (finish config cache snapshots should_stop source index t)) where
      walk_sources-audit :
          (volume : List VolumeSource) (es : List CommissionEarning) (ws : List Walk)
          (r : List CommissionEarning × List Walk)
          → length ws + length volume ≤ 2 ^ 32
          → walk_sources config cache snapshots should_stop tree volume es ws ≡ ok r
          → (new : List Walk) × (r.1 ≡ ws ++ new)
            × AreWalksOf P (length ws) volume new
            × (map earning_row r.0 ≡ map earning_row es ++ paid_rows new)
      unfolding walk_sources paid_rows
      walk_sources-audit [] es ws r room h =
          let e = ok_inj h in
          (
            [],
            sym (append-nil ws ∙ ap (λ (x : List CommissionEarning × List Walk). x.1) e),
            tt,
            ap (λ (x : List CommissionEarning × List Walk). map earning_row x.0) (sym e)
                ∙ sym (append-nil (map earning_row es)),
          )
      walk_sources-audit (source ∷ volume) es ws r room h =
          let (upline, t, valid, walked, h') = sources_round source volume es ws (omega arith) h in
          let w = finish config cache snapshots should_stop source (length ws) t in
          let size : length (ws ++ w ∷ []) ≡ length ws + 1 = length-append ws (w ∷ []) in
          let (new, walks, are, rows) =
            walk_sources-audit volume (es ++ t.earnings) (ws ++ w ∷ []) r (omega arith) h' in
          let (paid_here, _) =
            walk_upline-IsTrail config cache snapshots should_stop source (length ws) small upline 0
              t (omega arith) walked in
          (
            w ∷ new,
            walks ∙ append_assoc ws (w ∷ []) new,
            (
              each (length ws) source upline t (validated_upline source upline valid) walked,
              subst (λ (n : ℕ). AreWalksOf P n volume new) size are,
            ),
            rows
                ∙ ap (λ (x : List Row). x ++ paid_rows new)
                    (map-append earning_row es t.earnings
                      ∙ ap (λ (x : List Row). map earning_row es ++ x) paid_here)
                ∙ append_assoc (map earning_row es)
                    (paid_steps (length ws) source.source_id 1 t.steps) (paid_rows new),
          )

    pub walk_level_commissions-audit :
        (volume : List VolumeSource) (walks : List Walk) (r : List CommissionEarning × List Walk)
        → length walks + length volume ≤ 2 ^ 32
        → walk_level_commissions config cache snapshots should_stop tree volume walks ≡ ok r
        → (new : List Walk) × (r.1 ≡ walks ++ new)
          × AreWalksOf IsStoppedWalk (length walks) volume new
          × (map earning_row r.0 ≡ paid_rows new)
    unfolding walk_level_commissions
    walk_level_commissions-audit volume walks r room h =
        walk_sources-audit IsStoppedWalk stopped volume [] walks r room h
      where
        stopped :
            (index : ℕ) (source : VolumeSource) (upline : List Node) (t : Trail)
            → tree.get_upline source.source_id 0 ≡ ok upline
            → walk_upline config cache snapshots should_stop source index upline 1 ≡ ok t
            → IsStoppedWalk index source (finish config cache snapshots should_stop source index t)
        stopped index source upline t up walked =
            let (_, stop) =
              walk_upline-IsTrail config cache snapshots should_stop source index small upline 0 t
                (omega arith) walked in
            let zero_add : 0 + length t.steps ≡ length t.steps = omega arith in
            (refl, refl, (upline, up, rw zero_add at stop))

    -- If `walk_level_commissions` succeeds, with no dynamic thresholds, a depth below 256 and fewer
    -- than 2 ^ 32 walks in the collector at the end, then the steps of each walk that it pushes are
    -- at exactly these nodes, in order: of the source's upline, cut before the first node that the
    -- stop predicate names, the nodes that neither pass-up nor compression passes by, and of those
    -- the first max_depth.
    pub walk_level_commissions-counted :
        config.dynamic_thresholds ≡ none
        → (volume : List VolumeSource) (walks : List Walk) (r : List CommissionEarning × List Walk)
        → length walks + length volume ≤ 2 ^ 32
        → walk_level_commissions config cache snapshots should_stop tree volume walks ≡ ok r
        → (new : List Walk) × (r.1 ≡ walks ++ new)
          × AreWalksOf IsCountedWalk (length walks) volume new
    unfolding walk_level_commissions
    walk_level_commissions-counted static volume walks r room h =
        let (new, pushed, are, _) =
          walk_sources-audit IsCountedWalk counts volume [] walks r room h in
        (new, pushed, are)
      where
        counts :
            (index : ℕ) (source : VolumeSource) (upline : List Node) (t : Trail)
            → tree.get_upline source.source_id 0 ≡ ok upline
            → walk_upline config cache snapshots should_stop source index upline 1 ≡ ok t
            → IsCountedWalk index source (finish config cache snapshots should_stop source index t)
        counts index source upline t up walked =
            let whole : config.max_depth - 0 ≡ config.max_depth = omega arith in
            (
              upline,
              up,
              rw whole at (
                  walk_upline-counted config cache snapshots should_stop source index small static
                    upline 0 t walked),
            )

-- ===== src/Commission/Walk/Earned.antt =====
-- commission/walk.rs: whom the walk pays, and how much.
use mathlib.Core.Path.{subst}
use mathlib.Core.List.{append-nil, append_assoc}
use mlmforge.Prelude.{
  ℕ, suc, ◌+◌, ◌%◌, ◌^◌, ◌≤◌, ◌<◌, ◌≡◌, refl, sym, ap, ◌∙◌, Bool, Option, none, some, List, [], ◌∷◌,
  ◌++◌, arith, length, get_elem?, All, All-append, ltb, true, false,
}
use mlmforge.Prelude.Int.{ℤ, pos, negsuc, abs, is_negative}
use mlmforge.Prelude.Assoc.{lookup}
use mlmforge.Decimal.{Decimal, dec_lt, dec_zero, try_mul}
use mlmforge.Decimal.Sums.{IsProduct, try_mul-IsProduct}
use mlmforge.Prelude.Results.{ok, bind_ok, ok_inj}
use mlmforge.Tree.Node.{Node}
use mlmforge.Tree.Navigator.{TreeNavigator}
use mlmforge.Commission.Types.{DistributorSnapshot, VolumeSource, CommissionEarning, WalkStep, Walk}
use mlmforge.Commission.Eligibility.{EligibilityResult}
use mlmforge.Commission.Checks.{validate_source}
use mlmforge.Commission.Walk.{
  LevelWalkConfig, Trail, walk_upline, walk_sources, walk_level_commissions, saturating_add, finish,
  push_earning, is_node_eligible, beyond_depth, level_rate, rate_for, payout, from_numeric,
  unwrap_or,
}
use mlmforge.Commission.Walk.Rounds.{
  Round, deep, boundary, passed, made, round, IsAccounted, IsEarned, from_numeric-ok,
}
use mlmforge.Commission.Walk.Levels.{saturating_add_lem}

-- The level is within the limit, if there is one.
abbrev pub IsWithinDepth : Option ℕ → ℕ → Type 0
IsWithinDepth none level = Unit
IsWithinDepth (some limit) level = level ≤ limit

-- That distributor is eligible by the cache, and may earn at the level.
abbrev pub MayEarn : List (ℕ × EligibilityResult) → ℕ → ℕ → Type 0
MayEarn cache id level =
    (r : EligibilityResult) × (lookup id cache ≡ some r)
    × (r.eligible ≡ true)
    × IsWithinDepth r.max_earning_depth level

-- The rate table's entry for the rank of the distributor's snapshot at the level, above zero.
abbrev pub IsRateOf : LevelWalkConfig → List (ℕ × DistributorSnapshot) → ℕ → ℕ → Decimal → Type 0
IsRateOf config snapshots id level rate =
    (s : DistributorSnapshot) × (levels : List (ℕ × Decimal)) × (lookup id snapshots ≡ some s)
    × (lookup s.rank config.rate_table ≡ some levels)
    × (lookup level levels ≡ some rate)
    × (is_negative rate.mantissa ≡ false)
    × (1 ≤ abs rate.mantissa)

-- The amount is the volume's product with the pool's percentage, the multiplier and the rate, each
-- product exact.
abbrev pub IsAmountOf : LevelWalkConfig → Decimal → Decimal → Decimal → Type 0
IsAmountOf config volume rate amount =
    (of_pool converted : Decimal) × IsProduct volume config.broad_pct of_pool
    × IsProduct of_pool config.multiplier converted
    × IsProduct converted rate amount

may_earn :
    (elig : Option EligibilityResult) (level : ℕ)
    → is_node_eligible elig ≡ true
    → beyond_depth elig level ≡ false
    → (r : EligibilityResult) × (elig ≡ some r)
      × (r.eligible ≡ true)
      × IsWithinDepth r.max_earning_depth level
unfolding is_node_eligible beyond_depth
may_earn none level may near = cc
may_earn (some r) level may near = (r, refl, may, within r.max_earning_depth near)
  where
    within :
        (limit : Option ℕ)
        → elim limit [ none ↦ false | some max_personal ↦ ltb max_personal level ] ≡ false
        → IsWithinDepth limit level
    within none near = tt
    within (some limit) near = ground arith

dec_lt-positive :
    (m : ℤ) (s : ℕ)
    → dec_lt dec_zero (record { mantissa = m; scale = s }) ≡ true
    → (is_negative m ≡ false) × (1 ≤ abs m)
unfolding dec_lt
dec_lt-positive (pos n) s h = (refl, ground arith)
dec_lt-positive (negsuc n) s h = absurd (ground arith)

level_rate-found :
    (entry : Option (List (ℕ × Decimal))) (level : ℕ)
    → dec_lt dec_zero (level_rate entry level) ≡ true
    → (levels : List (ℕ × Decimal)) × (entry ≡ some levels)
      × (lookup level levels ≡ some (level_rate entry level))
unfolding level_rate dec_lt unwrap_or
level_rate-found none level h = absurd (ground arith)
level_rate-found (some levels) level h = (levels, refl, found (lookup level levels) h)
  where
    found :
        (o : Option Decimal)
        → dec_lt dec_zero (unwrap_or dec_zero o) ≡ true
        → o ≡ some (unwrap_or dec_zero o)
    found none h = absurd (ground arith)
    found (some rate) h = refl

payout-IsAmountOf :
    (config : LevelWalkConfig) (source : VolumeSource) (rate amount : Decimal)
    → payout config source rate ≡ ok amount
    → IsAmountOf config source.cv_amount rate amount
unfolding payout
payout-IsAmountOf config source rate amount h =
    let (of_pool, first, h1) =
      bind_ok (from_numeric (try_mul source.cv_amount config.broad_pct)) _ h in
    let (converted, second, h2) = bind_ok (from_numeric (try_mul of_pool config.multiplier)) _ h1 in
    (
      of_pool,
      converted,
      try_mul-IsProduct source.cv_amount config.broad_pct of_pool (from_numeric-ok _ first),
      try_mul-IsProduct of_pool config.multiplier converted (from_numeric-ok _ second),
      try_mul-IsProduct converted rate amount (from_numeric-ok _ h2),
    )

module _ (config : LevelWalkConfig) (cache : List (ℕ × EligibilityResult))
    (snapshots : List (ℕ × DistributorSnapshot)) where
  -- The earning is of the source and its volume, at a level from 1 to max_depth, by an earner who may
  -- earn there, at the earner's rate and of the amount that it gives.
  abbrev pub IsDue : VolumeSource → CommissionEarning → Type 0
  IsDue source e =
      (e.source_id ≡ source.source_id)
      × (e.cv_amount ≡ source.cv_amount)
      × (1 ≤ e.level)
      × (e.level ≤ config.max_depth)
      × MayEarn cache e.earner_id e.level
      × ((rate : Decimal) × (e.rate ≡ some rate)
          × IsRateOf config snapshots e.earner_id e.level rate
          × IsAmountOf config source.cv_amount rate e.dollar_amount)

  -- The earning is due for one of the sources.
  abbrev pub IsDueFor : List VolumeSource → CommissionEarning → Type 0
  IsDueFor volume e =
      (i : ℕ) × (source : VolumeSource) × (get_elem? volume i ≡ some source) × IsDue source e

module _ (config : LevelWalkConfig) (cache : List (ℕ × EligibilityResult))
    (snapshots : List (ℕ × DistributorSnapshot)) (should_stop : ℕ → Bool)
    (small : config.max_depth < 256) where
  earned-IsDue :
      (source : VolumeSource) (e : CommissionEarning)
      → e.source_id ≡ source.source_id
      → 1 ≤ e.level
      → e.level ≤ config.max_depth
      → IsEarned config cache snapshots source e.earner_id e.level (some e)
      → IsDue config cache snapshots source e
  unfolding rate_for
  earned-IsDue source e of low high (s, known, (may, near, paid, at_rate, priced, cv)) =
      let narrow : e.level % 2 ^ 8 ≡ e.level = omega arith in
      let rate = rate_for config s (e.level % 2 ^ 8) in
      let (levels, listed, found) =
        level_rate-found (lookup s.rank config.rate_table) (e.level % 2 ^ 8) paid in
      let (sign, size) = dec_lt-positive rate.mantissa rate.scale paid in
      (
        of,
        cv,
        low,
        high,
        may_earn (lookup e.earner_id cache) e.level may near,
        (
          rate,
          at_rate,
          (
            s,
            levels,
            known,
            listed,
            ap (λ (l : ℕ). lookup l levels) (sym narrow) ∙ found,
            sign,
            size,
          ),
          payout-IsAmountOf config source rate e.dollar_amount priced,
        ),
      )

  push-IsDue :
      (source : VolumeSource) (collector_id : ℕ) (node_id level : ℕ) (s : WalkStep)
      (e : Option CommissionEarning) (es : List CommissionEarning)
      → 1 ≤ level
      → level ≤ config.max_depth
      → s.node_id ≡ node_id
      → IsAccounted collector_id source level s e
      → IsEarned config cache snapshots source node_id level e
      → All (IsDue config cache snapshots source) es
      → All (IsDue config cache snapshots source) (push_earning e es)
  push-IsDue source collector_id node_id level s none es one lo at a due h = h
  push-IsDue source collector_id node_id level s (some e) es one lo at
        (paid, walk, of, who, level_u8) due h =
      let same : level ≡ e.level = omega arith in
      let earner : node_id ≡ e.earner_id = sym at ∙ sym who in
      (
        earned-IsDue source e of (omega arith) (omega arith) (
            subst (λ (l : ℕ). IsEarned config cache snapshots source e.earner_id l (some e)) same
              (subst (λ (n : ℕ). IsEarned config cache snapshots source n level (some e)) earner
                due)),
        h,
      )

  walk_upline-IsDue :
      (source : VolumeSource) (collector_id : ℕ) (upline : List Node) (before : ℕ) (t : Trail)
      → walk_upline config cache snapshots should_stop source collector_id upline (before + 1)
        ≡ ok t
      → All (IsDue config cache snapshots source) t.earnings
  unfolding walk_upline
  walk_upline-IsDue source collector_id [] before t h = rw (← ok_inj h) tt
  walk_upline-IsDue source collector_id (node ∷ upline) before t h =
      step_on (walk_upline-IsDue source collector_id upline)
        (round config cache snapshots should_stop source collector_id node upline (before + 1) t h)
    where
      step_on :
          ((b : ℕ) (t : Trail)
            → walk_upline config cache snapshots should_stop source collector_id upline (b + 1)
              ≡ ok t
            → All (IsDue config cache snapshots source) t.earnings)
          → Round config cache snapshots should_stop source collector_id node
              (before + 1)
              (walk_upline config cache snapshots should_stop source collector_id upline)
              t
          → All (IsDue config cache snapshots source) t.earnings
      step_on ih (deep hi e) = rw e tt
      step_on ih (boundary le stop e) = rw e tt
      step_on ih (passed le on by r) = ih before t r
      step_on ih (made s e t' le on by node_id accounted earned r pushed) =
          let next : saturating_add (before + 1) 1 ≡ before + 1 + 1 =
            saturating_add_lem (before + 1) (omega arith) in
          let rest = ih (before + 1) t' (
            ap (walk_upline config cache snapshots should_stop source collector_id upline)
              (sym next)
            ∙ r) in
          rw pushed (
            push-IsDue source collector_id node.user_id (before + 1) s e t'.earnings (omega arith)
              le node_id accounted earned rest)

  module _ (tree : TreeNavigator) where
    due_later :
        (v : VolumeSource) (volume : List VolumeSource) (es : List CommissionEarning)
        → All (IsDueFor config cache snapshots volume) es
        → All (IsDueFor config cache snapshots (v ∷ volume)) es
    due_later v volume [] h = tt
    due_later v volume (e ∷ es) ((i, source, at, due), hs) =
        ((suc i, source, at, due), due_later v volume es hs)

    due_now :
        (v : VolumeSource) (volume : List VolumeSource) (es : List CommissionEarning)
        → All (IsDue config cache snapshots v) es
        → All (IsDueFor config cache snapshots (v ∷ volume)) es
    due_now v volume [] h = tt
    due_now v volume (e ∷ es) (h, hs) = ((0, v, refl, h), due_now v volume es hs)

    walk_sources-IsDueFor :
        (volume : List VolumeSource) (es : List CommissionEarning) (ws : List Walk)
        (r : List CommissionEarning × List Walk)
        → walk_sources config cache snapshots should_stop tree volume es ws ≡ ok r
        → (new : List CommissionEarning) × (r.0 ≡ es ++ new)
          × All (IsDueFor config cache snapshots volume) new
    unfolding walk_sources
    walk_sources-IsDueFor [] es ws r h = (
      [],
      ap (λ (x : List CommissionEarning × List Walk). x.0) (sym (ok_inj h)) ∙ sym (append-nil es),
      tt,
    )
    walk_sources-IsDueFor (source ∷ volume) es ws r h =
        let (upline, valid, h₁) = bind_ok (validate_source tree snapshots source) _ h in
        let (t, walked, h₂) =
          bind_ok
            (walk_upline config cache snapshots should_stop source (length ws % 2 ^ 32) upline 1) _
            h₁ in
        let (new, pushed, due) =
          walk_sources-IsDueFor volume (es ++ t.earnings)
            (ws ++ finish config cache snapshots should_stop source (length ws % 2 ^ 32) t ∷ []) r
            h₂ in
        (
          t.earnings ++ new,
          pushed ∙ append_assoc es t.earnings new,
          All-append (IsDueFor config cache snapshots (source ∷ volume)) t.earnings new
              (due_now source volume t.earnings
                (walk_upline-IsDue source (length ws % 2 ^ 32) upline 0 t walked))
              (due_later source volume new due),
        )

    -- If `walk_level_commissions` succeeds, with a depth below 256, each earning is due for one of the
    -- volume sources: it is of that source and its volume, at a level from 1 to max_depth; the cache says
    -- of its earner that it is eligible, with no depth limit or one that is not below the level; the rate
    -- is the rate table's for the rank of the earner's snapshot at the level, and above zero; and the
    -- amount is the exact product of the source's volume, the pool's percentage, the multiplier and the
    -- rate.
    pub walk_level_commissions-IsDueFor :
        (volume : List VolumeSource) (walks : List Walk) (r : List CommissionEarning × List Walk)
        → walk_level_commissions config cache snapshots should_stop tree volume walks ≡ ok r
        → All (IsDueFor config cache snapshots volume) r.0
    unfolding walk_level_commissions
    walk_level_commissions-IsDueFor volume walks r h =
        let (new, all, due) = walk_sources-IsDueFor volume [] walks r h in
        subst (All (IsDueFor config cache snapshots volume)) (sym all) due

-- ===== src/Commission/Walk/Rounds.antt =====
-- commission/walk.rs: one round of the walk's loop, taken apart.
use mlmforge.Prelude.{
  ℕ, ◌%◌, ◌^◌, ◌≤◌, ◌<◌, ◌≡◌, Bool, true, false, Option, none, some, List, ◌∷◌, arith, Bool-cases,
  inl, inr, ltb, ◌||◌, sym, ap, ◌∙◌, Option-cases,
}
use mlmforge.Prelude.Assoc.{lookup}
use mlmforge.Prelude.Results.{Result, ok, err, bind_ok, ok_inj}
use mlmforge.Decimal.{Decimal, NumericError, dec_lt, dec_zero}
use mlmforge.Tree.Node.{Node}
use mlmforge.Commission.Types.{
  DistributorSnapshot, VolumeSource, CommissionEarning, CalculationError, paid, forfeited,
  max_depth_reached, boundary_reached, WalkStep,
}
use mlmforge.Commission.Eligibility.{EligibilityResult}
use mlmforge.Commission.Walk.{
  LevelWalkConfig, Visit, skipped, consumed, visit, visit_found, visit_known, pay, Trail,
  walk_upline, after_visit, saturating_add, push_step, halted, is_passed_up, is_compressed,
  is_node_eligible, beyond_depth, rate_for, payout, earning, from_numeric,
}

pub from_numeric-ok {ℓ} :
    {A : Type ℓ} (m : Result NumericError A) {a : A} → from_numeric m ≡ ok a → m ≡ ok a
unfolding from_numeric
from_numeric-ok (ok a) h = ap ok (ok_inj h)
from_numeric-ok (err e) h = cc

-- Whether the walk passes the node by without counting a level.
unfoldable pub compresses :
    LevelWalkConfig → Option EligibilityResult → ℕ → Option DistributorSnapshot → Bool
compresses config elig level none = false
compresses config elig level (some s) =
    is_compressed config.dynamic_thresholds config s (is_node_eligible elig) level

-- A step is paid with an earning for its node at the walk's level, or it is forfeited.
abbrev pub IsAccounted : ℕ → VolumeSource → ℕ → WalkStep → Option CommissionEarning → Type 0
IsAccounted collector_id source level s none = s.outcome ≡ forfeited
IsAccounted collector_id source level s (some e) =
    (s.outcome ≡ paid)
    × (e.walk ≡ some collector_id)
    × (e.source_id ≡ source.source_id)
    × (e.earner_id ≡ s.node_id)
    × (e.level ≡ level % 2 ^ 8)

-- The earning is one of an eligible node, within its own depth, at a rate above zero, of the amount
-- that the rate gives on the source's volume.
abbrev pub IsPaidBy :
    LevelWalkConfig
    → VolumeSource
    → Option EligibilityResult
    → ℕ
    → DistributorSnapshot
    → CommissionEarning
    → Type 0
IsPaidBy config source elig level t e =
    (is_node_eligible elig ≡ true)
    × (beyond_depth elig level ≡ false)
    × (dec_lt dec_zero (rate_for config t (level % 2 ^ 8)) ≡ true)
    × (e.rate ≡ some (rate_for config t (level % 2 ^ 8)))
    × (payout config source (rate_for config t (level % 2 ^ 8)) ≡ ok e.dollar_amount)
    × (e.cv_amount ≡ source.cv_amount)

-- The same of a node, by its entries in the cache and among the snapshots.
abbrev pub IsEarned :
    LevelWalkConfig
    → List (ℕ × EligibilityResult)
    → List (ℕ × DistributorSnapshot)
    → VolumeSource
    → ℕ
    → ℕ
    → Option CommissionEarning
    → Type 0
IsEarned config cache snapshots source node_id level none = Unit
IsEarned config cache snapshots source node_id level (some e) =
    (t : DistributorSnapshot) × (lookup node_id snapshots ≡ some t)
    × IsPaidBy config source (lookup node_id cache) level t e

module _ (config : LevelWalkConfig) (cache : List (ℕ × EligibilityResult))
    (snapshots : List (ℕ × DistributorSnapshot)) (source : VolumeSource) where
  unfoldable pub passes_by : Node → ℕ → Bool
  passes_by node level =
      is_passed_up config.pass_up node.user_id source.source_id
      || compresses config (lookup node.user_id cache) level (lookup node.user_id snapshots)

  module _ (collector_id : ℕ) (node : Node) (level : ℕ) where
    visit_known-skipped :
        (elig : Option EligibilityResult) (o : Option DistributorSnapshot)
        → visit_found config cache snapshots source collector_id node elig level o ≡ ok skipped
        → compresses config elig level o ≡ true
    unfolding visit_found visit_known compresses pay
    visit_known-skipped elig none h = cc
    visit_known-skipped elig (some s) h = ground arith

    visit_known-consumed :
        (elig : Option EligibilityResult) (o : Option DistributorSnapshot) (s : WalkStep)
        (e : Option CommissionEarning)
        → visit_found config cache snapshots source collector_id node elig level o
          ≡ ok (consumed s e)
        → (compresses config elig level o ≡ false)
          × (s.node_id ≡ node.user_id)
          × IsAccounted collector_id source level s e
    unfolding visit_found visit_known compresses pay
    visit_known-consumed elig none s e h = cc
    visit_known-consumed elig (some t) s none h = ground arith
    visit_known-consumed elig (some t) s (some e) h = ground arith

    visit-skipped :
        visit config cache snapshots source collector_id node level ≡ ok skipped
        → passes_by node level ≡ true
    unfolding visit passes_by
    visit-skipped h =
        ground
          (arith, visit_known-skipped (lookup node.user_id cache) (lookup node.user_id snapshots))

    visit-consumed :
        (s : WalkStep) (e : Option CommissionEarning)
        → visit config cache snapshots source collector_id node level ≡ ok (consumed s e)
        → (passes_by node level ≡ false)
          × (s.node_id ≡ node.user_id)
          × IsAccounted collector_id source level s e
    unfolding visit passes_by
    visit-consumed s e h =
        elim (Bool-cases (is_passed_up config.pass_up node.user_id source.source_id)) [
          | inl c ↦ absurd (skips (rw (c, visit) at h))
          | inr c ↦
              rw (c, passes_by)
                (visit_known-consumed (lookup node.user_id cache) (lookup node.user_id snapshots) s
                  e (rw (c, visit) at h))
        ]
      where
        skips : Path (Result CalculationError Visit) (ok skipped) (ok (consumed s e)) → ⊥
        skips h = cc

    payout-paid :
        (t : DistributorSnapshot) (level_u8 : ℕ) (rate : Decimal) (s : WalkStep)
        (e : CommissionEarning)
        → pay config cache snapshots source collector_id node t level_u8 rate
          ≡ ok (consumed s (some e))
        → (e.rate ≡ some rate)
          × (payout config source rate ≡ ok e.dollar_amount)
          × (e.cv_amount ≡ source.cv_amount)
    unfolding pay
    payout-paid t level_u8 rate s e h =
        let (amount, paid_out, made_it) = bind_ok (payout config source rate) _ h in
        let same : earning node source collector_id level_u8 rate amount ≡ e = cc in
        (
          ground arith,
          paid_out ∙ ap (λ (e : CommissionEarning). ok e.dollar_amount) same,
          ground arith,
        )

    visit_known-IsPaidBy :
        (elig : Option EligibilityResult) (t : DistributorSnapshot) (s : WalkStep)
        (e : CommissionEarning)
        → visit_known config cache snapshots source collector_id node elig level t
          ≡ ok (consumed s (some e))
        → IsPaidBy config source elig level t e
    unfolding visit_known
    visit_known-IsPaidBy elig t s e h =
        let rate = rate_for config t (level % 2 ^ 8) in
        let found : pay config cache snapshots source collector_id node t (level % 2 ^ 8) rate
            ≡ ok (consumed s (some e)) =
          ground arith in
        let (of_rate, amount, cv) = payout-paid t (level % 2 ^ 8) rate s e found in
        (ground arith, ground arith, ground arith, of_rate, amount, cv)

    visit-IsEarned :
        (s : WalkStep) (e : Option CommissionEarning)
        → visit config cache snapshots source collector_id node level ≡ ok (consumed s e)
        → IsEarned config cache snapshots source node.user_id level e
    unfolding visit visit_found
    visit-IsEarned s none h = tt
    visit-IsEarned s (some e) h = elim (Option-cases (lookup node.user_id snapshots)) [
      | inl missing ↦ absurd (ground arith)
      | inr (t, found) ↦
          (t, found, visit_known-IsPaidBy (lookup node.user_id cache) t s e (ground arith))
    ]

-- A round of the walk at `node`: it stops there, passes the node by, or makes a step.
pub data Round (config : LevelWalkConfig) (cache : List (ℕ × EligibilityResult))
    (snapshots : List (ℕ × DistributorSnapshot)) (should_stop : ℕ → Bool) (source : VolumeSource)
    (collector_id : ℕ) (node : Node) (level : ℕ) (rest : ℕ → Result CalculationError Trail)
    (t : Trail) : Type 0 where
  deep :
      config.max_depth < level
      → t ≡ halted max_depth_reached (some node.user_id)
      → Round config cache snapshots should_stop source collector_id node level rest t
  boundary :
      level ≤ config.max_depth
      → should_stop node.user_id ≡ true
      → t ≡ halted boundary_reached (some node.user_id)
      → Round config cache snapshots should_stop source collector_id node level rest t
  passed :
      level ≤ config.max_depth
      → should_stop node.user_id ≡ false
      → passes_by config cache snapshots source node level ≡ true
      → rest level ≡ ok t
      → Round config cache snapshots should_stop source collector_id node level rest t
  made :
      (s : WalkStep) (e : Option CommissionEarning) (t' : Trail)
      → level ≤ config.max_depth
      → should_stop node.user_id ≡ false
      → passes_by config cache snapshots source node level ≡ false
      → s.node_id ≡ node.user_id
      → IsAccounted collector_id source level s e
      → IsEarned config cache snapshots source node.user_id level e
      → rest (saturating_add level 1) ≡ ok t'
      → t ≡ push_step s e t'
      → Round config cache snapshots should_stop source collector_id node level rest t

module _ (config : LevelWalkConfig) (cache : List (ℕ × EligibilityResult))
    (snapshots : List (ℕ × DistributorSnapshot)) (should_stop : ℕ → Bool) (source : VolumeSource)
    (collector_id : ℕ) (node : Node) (upline : List Node) (level : ℕ) (t : Trail) where
  abbrev rest : ℕ → Result CalculationError Trail
  rest = walk_upline config cache snapshots should_stop source collector_id upline

  Round-visit :
      level ≤ config.max_depth
      → should_stop node.user_id ≡ false
      → (v : Visit) → visit config cache snapshots source collector_id node level ≡ ok v
      → after_visit level rest v ≡ ok t
      → Round config cache snapshots should_stop source collector_id node level rest t
  unfolding after_visit
  Round-visit lo on skipped same h =
      passed lo on (visit-skipped config cache snapshots source collector_id node level same) h
  Round-visit lo on (consumed s e) same h =
      let (by, node_id, accounted) =
        visit-consumed config cache snapshots source collector_id node level s e same in
      let (t', r, pushed) = bind_ok (rest (saturating_add level 1)) _ h in
      made s e t' lo on by node_id accounted
        (visit-IsEarned config cache snapshots source collector_id node level s e same) r
        (sym (ok_inj pushed))

  pub round :
      walk_upline config cache snapshots should_stop source collector_id (node ∷ upline) level
        ≡ ok t
      → Round config cache snapshots should_stop source collector_id node level rest t
  unfolding walk_upline
  round h = elim (Bool-cases (ltb config.max_depth level)) [
    | inl c ↦ deep (ground arith) (sym (ok_inj (rw (c, walk_upline) at h)))
    | inr c ↦ elim (Bool-cases (should_stop node.user_id)) [
      | inl b ↦ boundary (ground arith) b (sym (ok_inj (rw (c, walk_upline, b) at h)))
      | inr b ↦
          let (v, e, r) =
            bind_ok (visit config cache snapshots source collector_id node level)
              (after_visit level rest) (rw (c, walk_upline, b) at h) in
          Round-visit (ground arith) b v e r
    ]
  ]

-- ===== src/Commission/Eligibility/Tiers.antt =====
-- commission/walk.rs: the depth that the active legs unlock.
use mathlib.Core.List.{reverse-append, reverse-cons, reverse-reverse, append_assoc}
use mlmforge.Prelude.{
  ℕ, ◌≤◌, ◌<◌, ◌≡◌, ◌≢◌, refl, sym, ap, ◌∙◌, Bool, true, false, Option, none, some, List, [], ◌∷◌,
  ◌++◌, reverse, arith, leb, All, All-append, Bool-cases, ◌⊎◌, inl, inr, ◌↔◌,
}
use mlmforge.Commission.Types.{ActiveLegTier}
use mlmforge.Commission.Eligibility.{tier_depth, first_tier, determine_max_depth}
use mlmforge.Commission.Walk.{beyond_depth}

module _ (active_leg_count : ℕ) where
  -- Too few legs are active for the tier.
  abbrev pub IsUnmet : ActiveLegTier → Type 0
  IsUnmet tier = active_leg_count < tier.min_active_legs

  -- A list whose tiers before the first that is met are those given.
  abbrev Finds : List ActiveLegTier → Option ℕ → Type 0
  Finds tiers o =
      (All IsUnmet tiers × (o ≡ none))
      ⊎ ((above below : List ActiveLegTier) × (tier : ActiveLegTier) × (tiers
            ≡ above ++ tier ∷ below)
          × All IsUnmet above
          × (tier.min_active_legs ≤ active_leg_count)
          × (o ≡ tier_depth tier))

  first_tier-Finds : (tiers : List ActiveLegTier) → Finds tiers (first_tier active_leg_count tiers)
  unfolding first_tier
  first_tier-Finds [] = inl (tt, refl)
  first_tier-Finds (tier ∷ tiers) = elim (Bool-cases (leb tier.min_active_legs active_leg_count)) [
    | inl met ↦ rw met (inr ([], tiers, tier, refl, tt, ground arith, refl))
    | inr unmet ↦ rw unmet (later (ground arith) (first_tier-Finds tiers))
  ]
    where
      later : {o : Option ℕ} → IsUnmet tier → Finds tiers o → Finds (tier ∷ tiers) o
      later u (inl (us, e)) = inl ((u, us), e)
      later u (inr (above, below, t, split, us, met, e)) =
          inr (
            tier ∷ above,
            below,
            t,
            ap (λ (x : List ActiveLegTier). tier ∷ x) split,
            (u, us),
            met,
            e,
          )

  All-reverse : (xs : List ActiveLegTier) → All IsUnmet xs → All IsUnmet (reverse xs)
  All-reverse [] h = tt
  All-reverse (x ∷ xs) (h, hs) =
      rw (reverse-cons x xs) (All-append IsUnmet (reverse xs) (x ∷ []) (All-reverse xs hs) (h, tt))

  -- The depth limit keeps a distributor of that limit from earning at the level.
  abbrev pub blocked : Option ℕ → ℕ → Bool
  blocked max_earning_depth level =
      beyond_depth (some (record { eligible = true; max_earning_depth = max_earning_depth })) level

  blocked-tier_depth :
      (tier : ActiveLegTier) (level : ℕ)
      → level ≤ 255
      → (blocked (tier_depth tier) level ≡ true)
        ↔ ((tier.max_commission_depth ≢ 0) × (tier.max_commission_depth < level))
  unfolding tier_depth beyond_depth
  blocked-tier_depth tier level small = (λ h. (λ z. ground arith, ground arith), λ h. ground arith)

  none_blocks : (level : ℕ) → blocked none level ≡ false
  unfolding beyond_depth
  none_blocks level = refl

  back :
      {tiers : List ActiveLegTier} (above below : List ActiveLegTier) (tier : ActiveLegTier)
      → reverse tiers ≡ above ++ tier ∷ below
      → tiers ≡ reverse below ++ tier ∷ reverse above
  back {tiers} above below tier split =
      sym (reverse-reverse tiers)
      ∙ ap reverse split
      ∙ reverse-append above (tier ∷ below)
      ∙ ap (λ (x : List ActiveLegTier). x ++ reverse above) (reverse-cons tier below)
      ∙ append_assoc (reverse below) (tier ∷ []) (reverse above)

  -- For a level up to 255: either too few legs are active for any tier, and the depth that
  -- `determine_max_depth` gives keeps nobody from earning at the level; or the last tier of the list
  -- that the legs suffice for decides, and its depth does so exactly if it is not 0 and below the
  -- level. (A depth above 255 is narrowed to 255, which no level exceeds.)
  pub determine_max_depth-last :
      (tiers : List ActiveLegTier) (level : ℕ)
      → level ≤ 255
      → (All IsUnmet tiers × (blocked (determine_max_depth active_leg_count tiers) level ≡ false))
        ⊎ ((lower higher : List ActiveLegTier) × (tier : ActiveLegTier) × (tiers
              ≡ lower ++ tier ∷ higher)
            × All IsUnmet higher
            × (tier.min_active_legs ≤ active_leg_count)
            × ((blocked (determine_max_depth active_leg_count tiers) level ≡ true)
                ↔ ((tier.max_commission_depth ≢ 0) × (tier.max_commission_depth < level))))
  unfolding determine_max_depth
  determine_max_depth-last tiers level small = decide (first_tier-Finds (reverse tiers))
    where
      decide :
          {o : Option ℕ}
          → Finds (reverse tiers) o
          → (All IsUnmet tiers × (blocked o level ≡ false))
            ⊎ ((lower higher : List ActiveLegTier) × (tier : ActiveLegTier) × (tiers
                  ≡ lower ++ tier ∷ higher)
                × All IsUnmet higher
                × (tier.min_active_legs ≤ active_leg_count)
                × ((blocked o level ≡ true)
                    ↔ ((tier.max_commission_depth ≢ 0) × (tier.max_commission_depth < level))))
      decide (inl (us, e)) = inl (
        rw (reverse-reverse tiers) at (All-reverse (reverse tiers) us),
        ap (λ (o : Option ℕ). blocked o level) e ∙ none_blocks level,
      )
      decide (inr (above, below, tier, split, us, met, e)) = inr (
        reverse below,
        reverse above,
        tier,
        back above below tier split,
        All-reverse above us,
        met,
        rw e (blocked-tier_depth tier level small),
      )

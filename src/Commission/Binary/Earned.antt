-- ===== src/Commission/Binary/Earned.antt =====
-- commission/binary.rs: who earns, and before which caps and rounding.
use mathlib.Core.Path.{subst}
use mlmforge.Prelude.{
  ℕ, ◌≡◌, ◌⊎◌, refl, ap, Bool, true, false, Option, none, some, List, [], ◌∷◌, All, All-append,
  Bool-cases, inl, inr, arith,
}
use mlmforge.Prelude.Assoc.{lookup, insert}
use mlmforge.Prelude.Results.{ok, bind_ok, ok_inj}
use mlmforge.Decimal.{Decimal, dec_lt}
use mlmforge.Decimal.Divide.{is_zero}
use mlmforge.Commission.Walk.{unwrap_or}
use mlmforge.Commission.Binary.Config.{
  PairingConfig, CycleStepConfig, LegVolumes, BinaryCommissionEarning,
}
use mlmforge.Commission.Binary.Prep.{no_legs}
use mlmforge.Commission.Binary.Settle.{dec_min, cap_amount, aggregate_cap, finalize_earnings}
use mlmforge.Commission.Binary.Settled.{finalize_earnings-All}
use mlmforge.Commission.Binary.Pairing.{matched, pairing_ratio, raw_amount, pair_legs, pair_each}
use mlmforge.Commission.Binary.CycleStep.{CycleState, run_cycles, cycle_earning, cycle_each}
use mlmforge.Commission.Binary.Keys.{has, position}

abbrev pub legs_of : BinaryCommissionEarning → LegVolumes
legs_of e = record { left = e.left_volume; right = e.right_volume }

abbrev pub IsUnder : Option Decimal → Decimal → Type 0
IsUnder none raw = Unit
IsUnder (some c) raw = dec_lt c raw ≡ false

-- The amount that is paid for the raw one: the raw one, rounded, if the earning is not marked as capped,
-- which it is if the cap is on each position and below the raw amount; then the cap is paid, rounded.
-- Where the cap is on all positions of an owner together (`held`) it is marked if it got a share.
abbrev pub IsSettled :
    (Decimal → ℕ → Decimal) → ℕ → Bool → Option Decimal → Decimal → Decimal → Bool → Type 0
IsSettled round_minor minor_units held cap raw amount capped =
    ((capped ≡ false) × (amount ≡ round_minor raw minor_units) × (held ≡ false → IsUnder cap raw))
    ⊎ ((capped ≡ true)
        × ((c : Decimal) × (cap ≡ some c)
            × (held ≡ false → (dec_lt c raw ≡ true) × (amount ≡ round_minor c minor_units))))

-- What is earned is a cap on each position, or else the raw amount.
abbrev pub IsCapped : Bool → Option Decimal → Decimal → Decimal → Bool → Type 0
IsCapped held cap raw amount capped =
    ((capped ≡ false) × (amount ≡ raw) × (held ≡ false → IsUnder cap raw))
    ⊎ ((capped ≡ true) × ((c : Decimal) × (cap ≡ some c) × (dec_lt c raw ≡ true) × (amount ≡ c)))

cap_amount-IsCapped :
    (held : Bool) (cap : Option Decimal) (raw : Decimal)
    → let r = cap_amount held cap raw in IsCapped held cap raw r.0 r.1
unfolding cap_amount
cap_amount-IsCapped held none raw = inl (refl, refl, λ h. tt)
cap_amount-IsCapped true (some c) raw = inl (refl, refl, λ h. cc)
cap_amount-IsCapped false (some c) raw = elim (Bool-cases (dec_lt c raw)) [
  | inl e ↦ rw e (inr (refl, (c, refl, e, refl)))
  | inr e ↦ rw e (inl (refl, refl, λ h. refl))
]

-- What the cycles of the legs give.
abbrev pub IsRawCycle : CycleStepConfig → LegVolumes → Decimal → Type 0
IsRawCycle config legs raw = (s : CycleState) × (run_cycles config legs ≡ ok s) × (s.earned ≡ raw)

-- Who earns: the position is in the tree, its owner is the earner and is eligible, and what is matched
-- is the weaker leg. `IsRaw` is what prices the legs.
module _ (owner : ℕ → ℕ) (eligible : ℕ → Bool) (is_in : ℕ → Bool) where
  abbrev pub IsVisited : BinaryCommissionEarning → Type 0
  IsVisited e =
      (is_in e.position_id ≡ true)
      × (e.earner_id ≡ owner e.position_id)
      × (eligible e.position_id ≡ true)
      × (e.matched_volume ≡ dec_min e.left_volume e.right_volume)

  module _ (IsRaw : LegVolumes → Decimal → Type 0) (held : Bool) (cap : Option Decimal) where
    abbrev pub IsEarnedAt : BinaryCommissionEarning → Type 0
    IsEarnedAt e =
        IsVisited e
        × ((raw : Decimal) × IsRaw (legs_of e) raw × IsCapped held cap raw e.dollar_amount e.capped)

    abbrev pub IsPaidAt : (Decimal → ℕ → Decimal) → ℕ → BinaryCommissionEarning → Type 0
    IsPaidAt round_minor minor_units e =
        IsVisited e
        × ((raw : Decimal) × IsRaw (legs_of e) raw
            × IsSettled round_minor minor_units held cap raw e.dollar_amount e.capped)

    module _ (round_minor : Decimal → ℕ → Decimal) (minor_units : ℕ) where
      whole :
          (e : BinaryCommissionEarning)
          → IsEarnedAt e
          → IsPaidAt round_minor minor_units
              (record e { dollar_amount = round_minor e.dollar_amount minor_units })
      whole e (visited, (raw, priced, inl (mark, same, under))) = (
        visited,
        (raw, priced, inl (mark, ap (λ (a : Decimal). round_minor a minor_units) same, under)),
      )
      whole e (visited, (raw, priced, inr (mark, (c, has_cap, above, same)))) = (
        visited,
        (
          raw,
          priced,
          inr (
            mark,
            (c, has_cap, λ h. (above, ap (λ (a : Decimal). round_minor a minor_units) same)),
          ),
        ),
      )

      held_cap :
          (h : Bool) (c : Decimal) → aggregate_cap h cap ≡ some c → (h ≡ true) × (cap ≡ some c)
      held_cap true c e = (refl, e)
      held_cap false c e = cc

      share :
          (e : BinaryCommissionEarning) (amount c : Decimal)
          → aggregate_cap held cap ≡ some c
          → IsEarnedAt e
          → IsPaidAt round_minor minor_units (record e { dollar_amount = amount; capped = true })
      share e amount c there (visited, (raw, priced, capped)) =
          let (all, has_cap) = held_cap held c there in
          (visited, (raw, priced, inr (refl, (c, has_cap, λ h. cc))))

      -- The rounding and the cap on all positions of an owner.
      pub finalize_earnings-IsPaidAt :
          (es r : List BinaryCommissionEarning)
          → All IsEarnedAt es
          → finalize_earnings round_minor es (aggregate_cap held cap) minor_units ≡ ok r
          → All (IsPaidAt round_minor minor_units) r
      finalize_earnings-IsPaidAt es r all h =
          finalize_earnings-All IsEarnedAt (IsPaidAt round_minor minor_units) round_minor
            minor_units (aggregate_cap held cap) whole share es r (aggregate_cap held cap) refl all
            h

  -- The positions that a loop still visits.
  abbrev AreIn : List ℕ → Type 0
  AreIn positions = (x : ℕ) → has position x positions ≡ true → is_in x ≡ true

  AreIn-head : (uid : ℕ) (positions : List ℕ) → AreIn (uid ∷ positions) → is_in uid ≡ true
  AreIn-head uid positions h = h uid (ground arith)

  AreIn-tail : (uid : ℕ) (positions : List ℕ) → AreIn (uid ∷ positions) → AreIn positions
  AreIn-tail uid positions h x e = h x (ground (arith, e))

  module _ (checked_div : Decimal → Decimal → Option Decimal) (round_even : Decimal → ℕ → Decimal)
      (normalize : Decimal → Decimal) (config : PairingConfig) (multiplier : Decimal) (held : Bool)
      (working : List (ℕ × LegVolumes)) where
    abbrev IsPaired : BinaryCommissionEarning → Type 0
    IsPaired =
        IsEarnedAt
          (λ legs raw. raw_amount checked_div round_even normalize config multiplier legs ≡ ok raw)
          held config.cap_per_period

    pair_legs-IsPaired :
        (uid : ℕ) (legs : LegVolumes) (e : BinaryCommissionEarning)
        → is_in uid ≡ true
        → eligible uid ≡ true
        → pair_legs checked_div round_even normalize config multiplier held (owner uid) uid legs
          ≡ ok e
        → IsPaired e
    unfolding pair_legs matched
    pair_legs-IsPaired uid legs e inside may h =
        let (ratio, found, h1) =
          bind_ok (pairing_ratio checked_div round_even normalize config.calculation legs) _ h in
        let (raw, priced, h2) =
          bind_ok (raw_amount checked_div round_even normalize config multiplier legs) _ h1 in
        subst IsPaired (ok_inj h2) (
          (inside, refl, may, refl),
          (raw, priced, cap_amount-IsCapped held config.cap_per_period raw),
        )

    pub pair_each-All :
        (positions : List ℕ) (es : List BinaryCommissionEarning)
        → AreIn positions
        → pair_each checked_div round_even normalize config multiplier held owner eligible working
            positions
          ≡ ok es
        → All IsPaired es
    unfolding pair_each
    pair_each-All [] es inside h = subst (All IsPaired) (ok_inj h) tt
    pair_each-All (uid ∷ positions) es inside h =
        let legs = unwrap_or no_legs (lookup uid working) in
        let later = AreIn-tail uid positions inside in
        elim (Bool-cases (eligible uid)) [
          | inr e ↦ pair_each-All positions es later (rw e at h)
          | inl e ↦ elim (Bool-cases (is_zero (matched legs))) [
            | inl e' ↦ pair_each-All positions es later (rw (e, e') at h)
            | inr e' ↦
                let (first, paired, h1) =
                  bind_ok
                    (pair_legs checked_div round_even normalize config multiplier held (owner uid)
                      uid legs)
                    _ (rw (e, e') at h) in
                let (rest, others, h2) =
                  bind_ok
                    (pair_each checked_div round_even normalize config multiplier held owner
                      eligible working positions)
                    _ h1 in
                subst (All IsPaired) (ok_inj h2) (
                  pair_legs-IsPaired uid legs first (AreIn-head uid positions inside) e paired,
                  pair_each-All positions rest later others,
                )
          ]
        ]

  module _ (config : CycleStepConfig) (held : Bool) (working : List (ℕ × LegVolumes)) where
    abbrev IsCycled : BinaryCommissionEarning → Type 0
    IsCycled = IsEarnedAt (IsRawCycle config) held config.cap_per_period

    cycle_earning-All :
        (uid : ℕ) (legs : LegVolumes) (s : CycleState)
        → is_in uid ≡ true
        → eligible uid ≡ true
        → run_cycles config legs ≡ ok s
        → All IsCycled (cycle_earning config held (owner uid) uid legs s)
    unfolding cycle_earning
    cycle_earning-All uid legs s inside may run = elim (Bool-cases (is_zero s.earned)) [
      | inl e ↦ rw e tt
      | inr e ↦ rw e (
        (
          (inside, refl, may, refl),
          (s.earned, (s, run, refl), cap_amount-IsCapped held config.cap_per_period s.earned),
        ),
        tt,
      )
    ]

    pub cycle_each-All :
        (positions : List ℕ) (post : List (ℕ × LegVolumes))
        (r : List (ℕ × LegVolumes) × List BinaryCommissionEarning)
        → AreIn positions
        → cycle_each config held owner eligible working post positions ≡ ok r
        → All IsCycled r.1
    unfolding cycle_each
    cycle_each-All [] post r inside h =
        subst (λ (x : List (ℕ × LegVolumes) × List BinaryCommissionEarning). All IsCycled x.1)
          (ok_inj h) tt
    cycle_each-All (uid ∷ positions) post r inside h =
        let legs = unwrap_or no_legs (lookup uid working) in
        let later = AreIn-tail uid positions inside in
        elim (Bool-cases (eligible uid)) [
          | inr e ↦ cycle_each-All positions (insert uid legs post) r later (rw e at h)
          | inl e ↦
              let (s, run, h1) = bind_ok (run_cycles config legs) _ (rw e at h) in
              let (rest, others, h2) =
                bind_ok
                  (cycle_each config held owner eligible working (insert uid s.legs post) positions)
                  _ h1 in
              subst (λ (x : List (ℕ × LegVolumes) × List BinaryCommissionEarning). All IsCycled x.1)
                (ok_inj h2)
                (All-append IsCycled (cycle_earning config held (owner uid) uid legs s) rest.1
                  (cycle_earning-All uid legs s (AreIn-head uid positions inside) e run)
                  (cycle_each-All positions (insert uid s.legs post) rest later others))
        ]

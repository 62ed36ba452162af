-- ===== src/Commission/Binary/Pairing.antt =====
-- commission/binary.rs: pairing.
use mlmforge.Prelude.{ℕ, Bool, not, ◌||◌, Option, List, [], ◌∷◌, if◌then◌else◌}
use mlmforge.Prelude.Int.{is_negative}
use mlmforge.Prelude.Assoc.{lookup, insert}
use mlmforge.Prelude.Results.{Result, ok, err, ◌>>=◌}
use mlmforge.Decimal.{Decimal, NumericError, dec_zero, dec_one, dec_lt, try_sub, try_mul}
use mlmforge.Decimal.Divide.{is_zero}
use mlmforge.Decimal.Ratio.{div_ratio, mul_div_ratio}
use mlmforge.Commission.Types.{CalculationError, pairing_percent_out_of_range}
use mlmforge.Commission.Walk.{unwrap_or}
use mlmforge.Commission.Binary.Config.{
  PairingConfig, PairingCalculation, weaker_leg, volume_ratio, VolumeAfterPayout, full_flush,
  net_off, carry_forward, LegVolumes, BinaryCommissionEarning,
}
use mlmforge.Commission.Binary.Prep.{no_legs}
use mlmforge.Commission.Binary.Settle.{cap_amount, dec_min, carried}

unfoldable pub check_percent : PairingConfig → Result CalculationError (Unit {0})
unfolding dec_lt
check_percent config =
    if is_negative config.percent.mantissa || dec_lt dec_one config.percent
    then err (pairing_percent_out_of_range config.percent)
    else ok tt

-- `legs.left <= legs.right`
abbrev pub left_is_weaker : LegVolumes → Bool
unfolding dec_lt
left_is_weaker legs = not (dec_lt legs.right legs.left)

abbrev pub min_leg : LegVolumes → Decimal
min_leg legs = if left_is_weaker legs then legs.left else legs.right

abbrev pub max_leg : LegVolumes → Decimal
max_leg legs = if left_is_weaker legs then legs.right else legs.left

unfoldable pub matched : LegVolumes → Decimal
unfolding dec_min
matched legs = dec_min legs.left legs.right

-- The legs after the commission, by what was matched and paid.
unfoldable pub after_payout :
    VolumeAfterPayout → LegVolumes → Decimal → Result NumericError LegVolumes
unfolding try_sub
after_payout full_flush legs paid = ok no_legs
after_payout net_off legs paid = do
  l ← try_sub legs.left paid
  r ← try_sub legs.right paid
  ok (record { left = l; right = r })
after_payout carry_forward legs paid =
    if left_is_weaker legs
    then (try_sub legs.right paid >>= λ r. ok (record { left = dec_zero; right = r }))
    else (try_sub legs.left paid >>= λ l. ok (record { left = l; right = dec_zero }))

-- The loop over the positions, with the entries so far.
unfoldable pub carry_each :
    PairingConfig
    → (ℕ → Bool)
    → List (ℕ × LegVolumes)
    → List (ℕ × LegVolumes)
    → List ℕ
    → Result NumericError (List (ℕ × LegVolumes))
unfolding matched after_payout carried unwrap_or lookup insert
carry_each config eligible working next [] = ok next
carry_each config eligible working next (uid ∷ positions) =
    let legs = unwrap_or no_legs (lookup uid working) in
    let paid = if eligible uid then matched legs else dec_zero in
    after_payout config.volume_after_payout legs paid >>= λ left.
    carry_each config eligible working (insert uid (carried config.carry_forward_cap left) next)
      positions

module _ (checked_div : Decimal → Decimal → Option Decimal) (round_even : Decimal → ℕ → Decimal)
    (normalize : Decimal → Decimal) where
  unfoldable pub pairing_ratio : PairingCalculation → LegVolumes → Result NumericError Decimal
  unfolding dec_lt div_ratio
  pairing_ratio weaker_leg legs = ok dec_one
  pairing_ratio volume_ratio legs =
      if dec_lt dec_zero (max_leg legs)
      then div_ratio checked_div round_even normalize (min_leg legs) (max_leg legs)
      else ok dec_zero

  unfoldable pub raw_amount : PairingConfig → Decimal → LegVolumes → Result NumericError Decimal
  unfolding matched try_mul mul_div_ratio dec_lt
  raw_amount config multiplier legs = elim config.calculation [
    | weaker_leg ↦ (try_mul (matched legs) config.percent >>= λ p. try_mul p multiplier)
    | volume_ratio ↦
        if dec_lt dec_zero (max_leg legs)
        then mul_div_ratio checked_div round_even normalize (matched legs) config.percent multiplier
            (min_leg legs) (max_leg legs)
        else ok dec_zero
  ]

  -- What a position earns, if it is eligible and anything matches.
  unfoldable pub pair_legs :
      PairingConfig
      → Decimal
      → Bool
      → ℕ
      → ℕ
      → LegVolumes
      → Result NumericError BinaryCommissionEarning
  unfolding pairing_ratio raw_amount cap_amount matched
  pair_legs config multiplier held owner uid legs = do
    ratio ← pairing_ratio config.calculation legs
    raw ← raw_amount config multiplier legs
    let capped = cap_amount held config.cap_per_period raw
    ok (record {
      earner_id = owner;
      position_id = uid;
      left_volume = legs.left;
      right_volume = legs.right;
      matched_volume = matched legs;
      ratio = ratio;
      percent = config.percent;
      dollar_amount = capped.0;
      capped = capped.1;
    })

  -- The loop over the positions, in ascending order.
  unfoldable pub pair_each :
      PairingConfig
      → Decimal
      → Bool
      → (ℕ → ℕ)
      → (ℕ → Bool)
      → List (ℕ × LegVolumes)
      → List ℕ
      → Result NumericError (List BinaryCommissionEarning)
  unfolding pair_legs matched is_zero unwrap_or lookup
  pair_each config multiplier held owner eligible working [] = ok []
  pair_each config multiplier held owner eligible working (uid ∷ positions) =
      let legs = unwrap_or no_legs (lookup uid working) in
      let rest = pair_each config multiplier held owner eligible working positions in
      let paired =
        pair_legs config multiplier held (owner uid) uid legs >>= λ e. rest >>= λ es. ok (e ∷ es) in
      if not (eligible uid) || is_zero (matched legs) then rest else paired

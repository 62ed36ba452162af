-- ===== src/Commission/Binary/Priced.antt =====
-- commission/binary.rs: who may earn for a position, and what a pairing is worth, told without the code.
use mlmforge.Prelude.{
  ℕ, ◌≡◌, ◌⊎◌, refl, sym, Bool, not, true, false, Option, none, some, List, [], ◌∷◌, arith,
  Bool-cases, inl, inr, ◌==◌, if◌then◌else◌,
}
use mlmforge.Prelude.Assoc.{lookup}
use mlmforge.Prelude.Results.{ok, bind_ok, ok_inj}
use mlmforge.Decimal.{Decimal, dec_zero, dec_lt, try_mul}
use mlmforge.Decimal.Sums.{IsProduct, try_mul-IsProduct}
use mlmforge.Decimal.Ratio.{mul_div_ratio}
use mlmforge.Commission.Types.{DistributorSnapshot, CommissionEligibility}
use mlmforge.Commission.Eligibility.{is_eligible}
use mlmforge.Commission.Walk.{unwrap_or}
use mlmforge.Commission.Binary.Config.{
  PairingConfig, PairingCalculation, weaker_leg, volume_ratio, LegVolumes,
}
use mlmforge.Commission.Binary.Prep.{resolve_owner, evaluate_eligibility}
use mlmforge.Commission.Binary.Settle.{dec_min}
use mlmforge.Commission.Binary.Pairing.{matched, min_leg, max_leg, raw_amount}

-- The owner that the map names for the position, or else the position itself.
abbrev IsNamed : Option ℕ → ℕ → ℕ → Type 0
IsNamed none position_id owner = owner ≡ position_id
IsNamed (some named) position_id owner = owner ≡ named

abbrev pub IsOwner : Option (List (ℕ × ℕ)) → ℕ → ℕ → Type 0
IsOwner none position_id owner = owner ≡ position_id
IsOwner (some owners) position_id owner = IsNamed (lookup position_id owners) position_id owner

pub resolve_owner-IsOwner :
    (ownership : Option (List (ℕ × ℕ))) (position_id : ℕ)
    → IsOwner ownership position_id (resolve_owner ownership position_id)
unfolding resolve_owner unwrap_or
resolve_owner-IsOwner none position_id = refl
resolve_owner-IsOwner (some owners) position_id = named (lookup position_id owners)
  where
    named : (o : Option ℕ) → IsNamed o position_id (unwrap_or position_id o)
    named none = refl
    named (some owner) = refl

-- The distributor has a snapshot by which it is eligible.
abbrev pub IsEligible : List (ℕ × DistributorSnapshot) → CommissionEligibility → ℕ → Type 0
IsEligible snapshots eligibility id =
    (s : DistributorSnapshot) × (lookup id snapshots ≡ some s) × (is_eligible s eligibility ≡ true)

pub evaluate_eligibility-IsEligible :
    (eligibility : CommissionEligibility) (id : ℕ) (snapshots : List (ℕ × DistributorSnapshot))
    → unwrap_or false (lookup id (evaluate_eligibility snapshots eligibility)) ≡ true
    → IsEligible snapshots eligibility id
unfolding evaluate_eligibility lookup unwrap_or
evaluate_eligibility-IsEligible eligibility id [] h = cc
evaluate_eligibility-IsEligible eligibility id ((other, s) ∷ snapshots) h =
    elim (Bool-cases (other == id)) [
      | inl e ↦ rw e (s, refl, rw e at h)
      | inr e ↦ rw e (evaluate_eligibility-IsEligible eligibility id snapshots (rw e at h))
    ]

-- One of the two volumes, and neither is below it, or above it.
abbrev pub IsWeaker : Decimal → Decimal → Decimal → Type 0
IsWeaker left right volume =
    ((volume ≡ left) ⊎ (volume ≡ right))
    × (dec_lt left volume ≡ false)
    × (dec_lt right volume ≡ false)

abbrev pub IsStronger : Decimal → Decimal → Decimal → Type 0
IsStronger left right volume =
    ((volume ≡ left) ⊎ (volume ≡ right))
    × (dec_lt volume left ≡ false)
    × (dec_lt volume right ≡ false)

dec_lt_irrefl : (a : Decimal) → dec_lt a a ≡ false
unfolding dec_lt
dec_lt_irrefl a = ground arith

dec_lt_asym : (a b : Decimal) → dec_lt a b ≡ true → dec_lt b a ≡ false
unfolding dec_lt
dec_lt_asym a b h = ground arith

-- By whether the right one is below the left one.
weaker :
    (left right : Decimal) (b : Bool)
    → dec_lt right left ≡ b
    → IsWeaker left right (if b then right else left)
weaker left right true e = (inr refl, dec_lt_asym right left e, dec_lt_irrefl right)
weaker left right false e = (inl refl, dec_lt_irrefl left, e)

lesser :
    (left right : Decimal) (b : Bool)
    → dec_lt right left ≡ b
    → IsWeaker left right (if not b then left else right)
lesser left right true e = weaker left right true e
lesser left right false e = weaker left right false e

stronger :
    (left right : Decimal) (b : Bool)
    → dec_lt right left ≡ b
    → IsStronger left right (if not b then right else left)
stronger left right true e = (inl refl, dec_lt_irrefl left, dec_lt_asym right left e)
stronger left right false e = (inr refl, e, dec_lt_irrefl right)

pub dec_min-IsWeaker : (left right : Decimal) → IsWeaker left right (dec_min left right)
unfolding dec_min
dec_min-IsWeaker left right = weaker left right (dec_lt right left) refl

min_leg-IsWeaker : (legs : LegVolumes) → IsWeaker legs.left legs.right (min_leg legs)
unfolding dec_lt
min_leg-IsWeaker legs = lesser legs.left legs.right (dec_lt legs.right legs.left) refl

max_leg-IsStronger : (legs : LegVolumes) → IsStronger legs.left legs.right (max_leg legs)
unfolding dec_lt
max_leg-IsStronger legs = stronger legs.left legs.right (dec_lt legs.right legs.left) refl

module _ (checked_div : Decimal → Decimal → Option Decimal) (round_even : Decimal → ℕ → Decimal)
    (normalize : Decimal → Decimal) (percent multiplier : Decimal) where
  -- The worth of two legs, before caps and rounding: the weaker volume's exact product with the
  -- percentage and the multiplier; or, by the ratio of the legs, that product and the weaker volume again
  -- through the stronger, by `mul_div_ratio`, and nothing unless the stronger is above zero.
  abbrev pub IsWorth : PairingCalculation → LegVolumes → Decimal → Type 0
  IsWorth weaker_leg legs raw =
      (volume of_volume : Decimal) × IsWeaker legs.left legs.right volume
      × IsProduct volume percent of_volume
      × IsProduct of_volume multiplier raw
  IsWorth volume_ratio legs raw =
      (volume lesser greater : Decimal) × IsWeaker legs.left legs.right volume
      × IsWeaker legs.left legs.right lesser
      × IsStronger legs.left legs.right greater
      × (dec_lt dec_zero greater ≡ true
          → mul_div_ratio checked_div round_even normalize volume percent multiplier lesser greater
            ≡ ok raw)
      × (dec_lt dec_zero greater ≡ false → raw ≡ dec_zero)

pub raw_amount-IsWorth :
    (checked_div : Decimal → Decimal → Option Decimal) (round_even : Decimal → ℕ → Decimal)
    (normalize : Decimal → Decimal) (config : PairingConfig) (multiplier : Decimal)
    (legs : LegVolumes) (raw : Decimal)
    → raw_amount checked_div round_even normalize config multiplier legs ≡ ok raw
    → IsWorth checked_div round_even normalize config.percent multiplier config.calculation legs raw
unfolding raw_amount matched
raw_amount-IsWorth checked_div round_even normalize config multiplier legs raw h =
    by_calculation config.calculation refl
  where
    volume : Decimal
    volume = dec_min legs.left legs.right

    least : IsWeaker legs.left legs.right volume
    least = dec_min-IsWeaker legs.left legs.right

    by_calculation :
        (calculation : PairingCalculation)
        → config.calculation ≡ calculation
        → IsWorth checked_div round_even normalize config.percent multiplier calculation legs raw
    by_calculation weaker_leg e =
        let (of_volume, first, second) = bind_ok (try_mul volume config.percent) _ (rw e at h) in
        (
          volume,
          of_volume,
          least,
          try_mul-IsProduct volume config.percent of_volume first,
          try_mul-IsProduct of_volume multiplier raw second,
        )
    by_calculation volume_ratio e = (
      volume,
      min_leg legs,
      max_leg legs,
      least,
      min_leg-IsWeaker legs,
      max_leg-IsStronger legs,
      λ above. rw (e, above) at h,
      λ below. sym (ok_inj (rw (e, below) at h)),
    )

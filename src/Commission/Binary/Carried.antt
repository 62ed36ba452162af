-- ===== src/Commission/Binary/Carried.antt =====
-- commission/binary.rs: the legs that a calculation carries forward are fit for the next one.
use mathlib.Core.Path.{subst}
use mlmforge.Prelude.{
  ℕ, ◌≡◌, refl, Bool, true, false, Option, none, some, List, [], ◌∷◌, arith, Bool-cases, inl, inr,
}
use mlmforge.Prelude.Int.{ℤ, pos, negsuc, is_negative}
use mlmforge.Prelude.Assoc.{lookup, AllValues, AllValues-insert, AllValues-lookup}
use mlmforge.Prelude.Results.{ok, bind_ok, ok_inj}
use mlmforge.Decimal.{Decimal, dec_zero, dec_lt}
use mlmforge.Commission.Walk.{unwrap_or}
use mlmforge.Commission.Binary.Config.{PairingConfig, CycleStepConfig, LegVolumes}
use mlmforge.Commission.Binary.Prep.{no_legs, check_positions, check_carried_legs, sorted_positions}
use mlmforge.Commission.Binary.Settle.{dec_max, cap_leg, carried}
use mlmforge.Commission.Binary.Pairing.{carry_each, after_payout}
use mlmforge.Commission.Binary.CycleStep.{carry_cycles}

-- No leg is below zero.
abbrev pub IsNotNegative : LegVolumes → Type 0
IsNotNegative legs =
    (is_negative legs.left.mantissa ≡ false) × (is_negative legs.right.mantissa ≡ false)

above_zero :
    (m : ℤ) (s : ℕ)
    → dec_lt dec_zero (record { mantissa = m; scale = s }) ≡ true
    → is_negative m ≡ false
unfolding dec_lt
above_zero (pos n) s h = refl
above_zero (negsuc n) s h = absurd (ground arith)

dec_max-zero : (d : Decimal) → is_negative (dec_max d dec_zero).mantissa ≡ false
unfolding dec_max
dec_max-zero d = elim (Bool-cases (dec_lt dec_zero d)) [
  | inl e ↦ rw e (above_zero d.mantissa d.scale e)
  | inr e ↦ rw e refl
]

carried-IsNotNegative :
    (cap : Option Decimal) (legs : LegVolumes) → IsNotNegative (carried cap legs)
unfolding carried
carried-IsNotNegative cap legs =
    (dec_max-zero (cap_leg cap legs.left), dec_max-zero (cap_leg cap legs.right))

pub carry_each-IsNotNegative :
    (config : PairingConfig) (eligible : ℕ → Bool) (working : List (ℕ × LegVolumes))
    (positions : List ℕ) (next r : List (ℕ × LegVolumes))
    → AllValues IsNotNegative next
    → carry_each config eligible working next positions ≡ ok r
    → AllValues IsNotNegative r
unfolding carry_each
carry_each-IsNotNegative config eligible working [] next r all h =
    subst (AllValues IsNotNegative) (ok_inj h) all
carry_each-IsNotNegative config eligible working (uid ∷ positions) next r all h =
    let (legs, paid, h1) = bind_ok (after_payout config.volume_after_payout _ _) _ h in
    carry_each-IsNotNegative config eligible working positions _ r
      (AllValues-insert IsNotNegative uid (carried config.carry_forward_cap legs) next
        (carried-IsNotNegative config.carry_forward_cap legs) all)
      h1

pub carry_cycles-IsNotNegative :
    (config : CycleStepConfig) (post : List (ℕ × LegVolumes)) (positions : List ℕ)
    (next : List (ℕ × LegVolumes))
    → AllValues IsNotNegative next
    → AllValues IsNotNegative (carry_cycles config post next positions)
unfolding carry_cycles
carry_cycles-IsNotNegative config post [] next all = all
carry_cycles-IsNotNegative config post (uid ∷ positions) next all =
    carry_cycles-IsNotNegative config post positions _ (
      AllValues-insert IsNotNegative uid _ next (carried-IsNotNegative config.carry_forward_cap _)
        all)

check_positions-ok :
    (legs : List (ℕ × LegVolumes)) (positions : List ℕ)
    → AllValues IsNotNegative legs
    → check_positions legs positions ≡ ok tt
unfolding check_positions unwrap_or
check_positions-ok legs [] all = refl
check_positions-ok legs (p ∷ positions) all =
    let (l, r) = held (lookup p legs) refl in rw (l, r) (check_positions-ok legs positions all)
  where
    held :
        (o : Option LegVolumes)
        → lookup p legs ≡ o
        → IsNotNegative (unwrap_or no_legs (lookup p legs))
    held none h = rw h (refl, refl)
    held (some v) h = rw h (AllValues-lookup IsNotNegative p legs v all h)

pub check_carried_legs-ok :
    (legs : List (ℕ × LegVolumes)) → AllValues IsNotNegative legs → check_carried_legs legs ≡ ok tt
unfolding check_carried_legs
check_carried_legs-ok legs all = check_positions-ok legs (sorted_positions legs) all

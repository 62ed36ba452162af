-- ===== src/Commission/Binary/CycleStep.antt =====
-- commission/binary.rs: cycles and steps. The steps are those that `validate` leaves, sorted and at least
-- one.
use mlmforge.Prelude.{ℕ, Bool, List, [], ◌∷◌, ◌++◌, map, if◌then◌else◌}
use mlmforge.Prelude.Assoc.{lookup, insert}
use mlmforge.Prelude.Results.{Result, ok, ◌>>=◌}
use mlmforge.Decimal.{Decimal, NumericError, dec_zero, dec_lt, try_add, try_sub, try_mul}
use mlmforge.Decimal.Divide.{is_zero, sum, floor_div}
use mlmforge.Commission.Walk.{unwrap_or}
use mlmforge.Commission.Binary.Config.{
  CycleStep, CycleStepConfig, VolumeAfterPayout, full_flush, net_off, carry_forward, LegVolumes,
  BinaryCommissionEarning,
}
use mlmforge.Commission.Binary.Prep.{no_legs}
use mlmforge.Commission.Binary.Settle.{cap_amount, dec_min, carried}

-- The first and the last step; an empty list, at which the code panics, does not pass `validate`.
abbrev pub first_threshold : List CycleStep → Decimal
first_threshold [] = dec_zero
first_threshold (step ∷ steps) = step.threshold

abbrev pub last_threshold : List CycleStep → Decimal
last_threshold [] = dec_zero
last_threshold (step ∷ []) = step.threshold
last_threshold (step ∷ next ∷ steps) = last_threshold (next ∷ steps)

-- The earnings so far and the legs that are left.
pub record CycleState : Type 0 where
  pub earned : Decimal
  pub legs : LegVolumes

-- All full cycles at once. (`net_off` is refused by `validate`; the code is unreachable there.)
unfoldable pub full_cycles :
    VolumeAfterPayout → Decimal → Decimal → LegVolumes → Result NumericError CycleState
unfolding dec_min try_add try_sub try_mul floor_div
full_cycles full_flush amount highest legs = do
  earned ← try_add dec_zero amount
  ok (record { earned = earned; legs = no_legs })
full_cycles net_off amount highest legs = ok (record { earned = dec_zero; legs = legs })
full_cycles carry_forward amount highest legs = do
  cycles ← floor_div (dec_min legs.left legs.right) highest
  paid ← try_mul cycles amount
  earned ← try_add dec_zero paid
  consumed ← try_mul cycles highest
  l ← try_sub legs.left consumed
  r ← try_sub legs.right consumed
  ok (record { earned = earned; legs = record { left = l; right = r } })

-- The loop over the steps of the partial cycle.
unfoldable pub partial_steps : Decimal → Decimal → List CycleStep → Result NumericError Decimal
unfolding dec_lt try_add
partial_steps remaining earned [] = ok earned
partial_steps remaining earned (step ∷ steps) =
    let rest = partial_steps remaining earned steps in
    let met = try_add earned step.amount >>= λ more. partial_steps remaining more steps in
    if dec_lt remaining step.threshold then rest else met

unfoldable pub partial_cycle : List CycleStep → CycleState → Result NumericError CycleState
unfolding dec_min dec_lt partial_steps
partial_cycle steps s =
    let remaining = dec_min s.legs.left s.legs.right in
    let met =
      partial_steps remaining s.earned steps >>= λ earned. ok (record s { earned = earned }) in
    if dec_lt remaining (first_threshold steps) then ok s else met

-- What a position earns, and its legs afterwards.
unfoldable pub run_cycles : CycleStepConfig → LegVolumes → Result NumericError CycleState
unfolding sum dec_min dec_lt full_cycles partial_cycle
run_cycles config legs =
    let highest = last_threshold config.steps in
    sum (map (λ (step : CycleStep). step.amount) config.steps) >>= λ amount.
    (if dec_lt (dec_min legs.left legs.right) highest
      then ok (record { earned = dec_zero; legs = legs })
      else full_cycles config.volume_after_cycle amount highest legs)
    >>= λ s. partial_cycle config.steps s

unfoldable pub cycle_earning :
    CycleStepConfig → Bool → ℕ → ℕ → LegVolumes → CycleState → List BinaryCommissionEarning
unfolding is_zero cap_amount dec_min
cycle_earning config held owner uid legs s =
    let capped = cap_amount held config.cap_per_period s.earned in
    if is_zero s.earned
    then []
    else record {
      earner_id = owner;
      position_id = uid;
      left_volume = legs.left;
      right_volume = legs.right;
      matched_volume = dec_min legs.left legs.right;
      ratio = dec_zero;
      percent = dec_zero;
      dollar_amount = capped.0;
      capped = capped.1;
    }
      ∷ []

-- The loop over the positions: the legs after the cycles, by position, and the earnings.
unfoldable pub cycle_each :
    CycleStepConfig
    → Bool
    → (ℕ → ℕ)
    → (ℕ → Bool)
    → List (ℕ × LegVolumes)
    → List (ℕ × LegVolumes)
    → List ℕ
    → Result NumericError (List (ℕ × LegVolumes) × List BinaryCommissionEarning)
unfolding run_cycles cycle_earning unwrap_or lookup insert
cycle_each config held owner eligible working post [] = ok (post, [])
cycle_each config held owner eligible working post (uid ∷ positions) =
    let legs = unwrap_or no_legs (lookup uid working) in
    let passed = cycle_each config held owner eligible working (insert uid legs post) positions in
    let cycled = run_cycles config legs >>= λ s.
    cycle_each config held owner eligible working (insert uid s.legs post) positions >>= λ rest.
    ok (rest.0, cycle_earning config held (owner uid) uid legs s ++ rest.1) in
    if eligible uid then cycled else passed

-- The loop over the working legs.
unfoldable pub carry_cycles :
    CycleStepConfig → List (ℕ × LegVolumes) → List (ℕ × LegVolumes) → List ℕ → List (ℕ × LegVolumes)
unfolding carried unwrap_or lookup insert
carry_cycles config post next [] = next
carry_cycles config post next (uid ∷ positions) =
    carry_cycles config post
      (insert uid (carried config.carry_forward_cap (unwrap_or no_legs (lookup uid post))) next)
      positions

-- ===== src/Commission/BoardCycles.antt =====
-- commission/board_plan.rs: the fixed payout of each board cycle, up to the period's cap. `round_minor`
-- is `rust_decimal`'s rounding to a number of places.
pub mod Cap
use mlmforge.Prelude.{
  ℕ, ◌+◌, ◌%◌, ◌^◌, Bool, true, false, Option, none, some, List, [], ◌∷◌, ◌++◌, ltb, if◌then◌else◌,
}
use mlmforge.Prelude.Assoc.{lookup, insert}
use mlmforge.Decimal.{Decimal, dec_zero}
use mlmforge.BoardPlan.Config.{BoardPlanConfig, CycleEvent}

pub record BoardCycleEarning : Type 0 where
  pub earner_id : ℕ
  pub board_id : ℕ
  pub dollar_amount : Decimal
  pub cycle_number : ℕ
  pub capped : Bool

pub record BoardCommissionResult : Type 0 where
  pub earnings : List BoardCycleEarning
  pub updated_cycle_counts : List (ℕ × ℕ)

-- The count that `entry(member).or_insert(0)` gives.
unfoldable pub entry_count : Option ℕ → ℕ
entry_count none = 0
entry_count (some n) = n

module _ (round_minor : Decimal → ℕ → Decimal) (config : BoardPlanConfig Decimal)
    (minor_units : ℕ) where
  unfoldable pub cycle_earning : CycleEvent → ℕ → BoardCycleEarning
  cycle_earning event count = record {
    earner_id = event.cycled_member;
    board_id = event.board_id;
    dollar_amount =
        if ltb config.max_cycles_per_period count
        then dec_zero
        else round_minor config.cycle_commission minor_units;
    cycle_number = count;
    capped = ltb config.max_cycles_per_period count;
  }

  -- The loop over the events. A `u32` count wraps.
  unfoldable pub count_cycles :
      List CycleEvent → List (ℕ × ℕ) → List BoardCycleEarning → BoardCommissionResult
  unfolding entry_count cycle_earning lookup insert
  count_cycles [] counts earnings = record { earnings = earnings; updated_cycle_counts = counts }
  count_cycles (event ∷ events) counts earnings =
      let count = (entry_count (lookup event.cycled_member counts) + 1) % 2 ^ 32 in
      count_cycles events (insert event.cycled_member count counts)
        (earnings ++ cycle_earning event count ∷ [])

  -- Collecting the prior counts into a `BTreeMap` gives the same map.
  unfoldable pub calculate_board_commissions :
      List CycleEvent → List (ℕ × ℕ) → BoardCommissionResult
  unfolding count_cycles
  calculate_board_commissions cycle_events period_cycle_counts =
      count_cycles cycle_events period_cycle_counts []

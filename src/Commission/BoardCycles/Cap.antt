-- ===== src/Commission/BoardCycles/Cap.antt =====
-- commission/board_plan.rs: the cap on a member's paid cycles.
use Prim.Native.Nat.{min}
use mlmforge.Prelude.{
  ℕ, ◌+◌, ◌-◌, ◌%◌, ◌^◌, ◌<◌, ◌≡◌, refl, ap, ◌∙◌, Bool, not, ◌&&◌, List, [], ◌∷◌, ◌++◌, arith, ltb,
  ◌==◌, if◌then◌else◌, sum_over, sum_over-append, All, All-append, ==_iff, Bool-cases, inl, inr,
}
use mlmforge.Prelude.Assoc.{lookup, insert, lookup-insert}
use mlmforge.Decimal.{Decimal, dec_zero}
use mlmforge.BoardPlan.Config.{BoardPlanConfig, CycleEvent}
use mlmforge.Commission.BoardCycles.{
  BoardCycleEarning, BoardCommissionResult, entry_count, cycle_earning, count_cycles,
  calculate_board_commissions,
}

-- The number of the member's cycles, and of its paid ones.
abbrev pub one_if : Bool → ℕ
one_if b = if b then 1 else 0

abbrev pub cycles_of : ℕ → List CycleEvent → ℕ
cycles_of m = sum_over λ e. one_if (e.cycled_member == m)

abbrev pub paid_cycles : ℕ → List BoardCycleEarning → ℕ
paid_cycles m = sum_over λ e. one_if (e.earner_id == m && not e.capped)

abbrev pub count_of : ℕ → List (ℕ × ℕ) → ℕ
count_of m counts = entry_count (lookup m counts)

module _ (round_minor : Decimal → ℕ → Decimal) (config : BoardPlanConfig Decimal)
    (minor_units : ℕ) where
  -- The amount of an earning is zero if it is capped, and the rounded commission if not; it is capped
  -- exactly if its cycle number is above the maximum.
  abbrev pub IsPriced : BoardCycleEarning → Type 0
  IsPriced e =
      (e.capped ≡ ltb config.max_cycles_per_period e.cycle_number)
      × (e.dollar_amount
          ≡ (if e.capped then dec_zero else round_minor config.cycle_commission minor_units))

  abbrev result : List CycleEvent → List (ℕ × ℕ) → List BoardCycleEarning → BoardCommissionResult
  result = count_cycles round_minor config minor_units

  count_cycles-IsPriced :
      (events : List CycleEvent) (counts : List (ℕ × ℕ)) (es : List BoardCycleEarning)
      → All IsPriced es
      → All IsPriced (result events counts es).earnings
  unfolding count_cycles cycle_earning
  count_cycles-IsPriced [] counts es h = h
  count_cycles-IsPriced (event ∷ events) counts es h =
      count_cycles-IsPriced events _ _ (All-append IsPriced es _ h ((refl, refl), tt))

  count_of-insert :
      (m key n : ℕ) (counts : List (ℕ × ℕ))
      → count_of m (insert key n counts) ≡ (if key == m then n else count_of m counts)
  unfolding entry_count
  count_of-insert m key n counts = ground (arith, lookup-insert key m n counts)

  abbrev count : CycleEvent → List (ℕ × ℕ) → ℕ
  count event counts = (count_of event.cycled_member counts + 1) % 2 ^ 32

  added :
      (m : ℕ) (event : CycleEvent) (n : ℕ) (es : List BoardCycleEarning)
      → paid_cycles m (es ++ cycle_earning round_minor config minor_units event n ∷ [])
        ≡ paid_cycles m es
          + one_if ((event.cycled_member == m) && not (ltb config.max_cycles_per_period n))
  unfolding cycle_earning
  added m event n es =
      sum_over-append (λ e. one_if (e.earner_id == m && not e.capped)) es
        (cycle_earning round_minor config minor_units event n ∷ [])
      ∙ omega arith

  count_cycles-cap :
      (m : ℕ) (events : List CycleEvent) (counts : List (ℕ × ℕ)) (es : List BoardCycleEarning)
      → count_of m counts + cycles_of m events < 2 ^ 32
      → (count_of m (result events counts es).updated_cycle_counts
          ≡ count_of m counts + cycles_of m events)
        × (paid_cycles m (result events counts es).earnings
            ≡ paid_cycles m es
              + min (cycles_of m events) (config.max_cycles_per_period - count_of m counts))
  unfolding count_cycles
  count_cycles-cap m [] counts es room = (omega arith, omega arith)
  count_cycles-cap m (event ∷ events) counts es room =
      elim (Bool-cases (event.cycled_member == m)) [
        | inl same ↦
            let who : event.cycled_member ≡ m = (==_iff event.cycled_member m).0 same in
            let c : count_of event.cycled_member counts ≡ count_of m counts =
              ap (λ (k : ℕ). count_of k counts) who in
            let left : count_of m counts + (1 + cycles_of m events) < 2 ^ 32 = rw same at room in
            let next : count event counts ≡ count_of m counts + 1 = omega arith in
            let now : count_of m (insert event.cycled_member (count event counts) counts)
                ≡ count_of m counts + 1 =
              count_of-insert m event.cycled_member (count event counts) counts ∙ rw same next in
            let (ih, paid) =
              count_cycles-cap m events (insert event.cycled_member (count event counts) counts)
                (es ++ cycle_earning round_minor config minor_units event (count event counts) ∷ [])
                (omega arith) in
            let made = added m event (count event counts) es in
            let one : one_if (
                  (event.cycled_member == m)
                  && not (ltb config.max_cycles_per_period (count event counts)))
                ≡ min 1 (config.max_cycles_per_period - count_of m counts) =
              rw same (ground arith) in
            rw same (omega arith, omega arith)
        | inr other ↦
            let now : count_of m (insert event.cycled_member (count event counts) counts)
                ≡ count_of m counts =
              count_of-insert m event.cycled_member (count event counts) counts ∙ rw other in
            let left : count_of m counts + (0 + cycles_of m events) < 2 ^ 32 = rw other at room in
            let (ih, paid) =
              count_cycles-cap m events (insert event.cycled_member (count event counts) counts)
                (es ++ cycle_earning round_minor config minor_units event (count event counts) ∷ [])
                (omega arith) in
            let made = added m event (count event counts) es in
            let none_here : one_if (
                  (event.cycled_member == m)
                  && not (ltb config.max_cycles_per_period (count event counts)))
                ≡ 0 =
              rw other in
            rw other (omega arith, omega arith)
      ]

  -- The counts and the paid cycles of a member, and every earning's amount: if the member's count,
  -- with its new cycles, stays below 2 ^ 32, then the updated count is the prior one and the number of
  -- its events; the number of its paid cycles is that of its events, or of the cycles that the
  -- period's cap has left, if those are fewer; and each earning is capped exactly if its cycle number
  -- is above the cap, with amount zero then and the rounded cycle commission else.
  pub calculate_board_commissions-cap :
      (m : ℕ) (events : List CycleEvent) (counts : List (ℕ × ℕ))
      → count_of m counts + cycles_of m events < 2 ^ 32
      → (count_of m
            (calculate_board_commissions round_minor config minor_units events
              counts).updated_cycle_counts
          ≡ count_of m counts + cycles_of m events)
        × (paid_cycles m
              (calculate_board_commissions round_minor config minor_units events counts).earnings
            ≡ min (cycles_of m events) (config.max_cycles_per_period - count_of m counts))
        × All IsPriced
            (calculate_board_commissions round_minor config minor_units events counts).earnings
  unfolding calculate_board_commissions
  calculate_board_commissions-cap m events counts room =
      let (total, paid) = count_cycles-cap m events counts [] room in
      (total, paid ∙ omega arith, count_cycles-IsPriced events counts [] tt)

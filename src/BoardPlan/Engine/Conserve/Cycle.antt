-- ===== src/BoardPlan/Engine/Conserve/Cycle.antt =====
-- `process_cycles` of board_plan/engine.rs loses nobody and duplicates nobody.
use mlmforge.Prelude.{
  ℕ, zero, suc, ◌≡◌, refl, ap, ◌∙◌, Option, none, some, List, [], ◌∷◌, arith, length, set, get_or,
  Option-cases, Bool-cases, if_rule, inl, inr, length-set,
}
use mlmforge.Prelude.Int.{ℤ}
use mlmforge.Prelude.Results.{Result, ok, err}
use mlmforge.Prelude.Assoc.{lookup, insert, remove, weight, total-insert, AllValues-lookup}
use mlmforge.BoardPlan.Board.{Board, is_full, first_open_position}
use mlmforge.BoardPlan.Board.Count.{seat, seats, seats-fill}
use mlmforge.BoardPlan.Config.{CycleEvent, BoardPlanError}
use mlmforge.BoardPlan.Engine.{
  Engine, seat_member, seat_on, find_placement_board, split_board, re_enter, re_enter_at,
  sponsor_or_self, cycle_and_cascade, seat_or_displace, cycle_out, root_of_full, cycle_if_full,
  cascade, cascade_boards, process, process_cycles,
}
use mlmforge.BoardPlan.Engine.Conserve.{
  occurrences, IsSound, Keeps, Adds, Keeps-refl, Keeps-trans, replace-IsSound, displace-Adds,
}
use mlmforge.BoardPlan.Engine.Conserve.Split.{split_board_lem}

module _ {Amount : Type 0} (new_v4 : ℕ → ℕ) where
  pub seat_member-Adds :
      (e : Engine Amount) (k : ℕ) (b : Board) (pos m : ℕ) (timestamp : ℤ)
      → lookup k e.boards ≡ some b
      → first_open_position b ≡ some pos
      → Adds new_v4 m e (seat_member e k b pos m timestamp)
  unfolding seat_member first_open_position
  seat_member-Adds e k b pos m timestamp here free v =
      let b' = record b {
        positions = set b.positions pos (some m);
        last_activity_at = timestamp;
      } in
      let size =
        length-set b.positions pos (some m)
        ∙ AllValues-lookup (λ b. length b.positions ≡ e.total_positions) k e.boards b v.sized
            here in
      (
        replace-IsSound new_v4 e k b b' (insert m k e.member_boards) here size v,
        λ u. omega (
          arith,
          total-insert (λ b. seats u b.positions) k b' e.boards,
          ap (weight (λ b. seats u b.positions)) here,
          seats-fill u m b.positions pos free,
        ),
      )

  seat_on-some :
      (e : Engine Amount) (k m : ℕ) (timestamp : ℤ) (e' : Engine Amount)
      → seat_on e k m timestamp ≡ some e'
      → (b : Board) × (pos : ℕ) × (lookup k e.boards ≡ some b)
        × (first_open_position b ≡ some pos)
        × (e' ≡ seat_member e k b pos m timestamp)
  unfolding seat_on
  seat_on-some e k m timestamp e' h = elim (Option-cases (lookup k e.boards)) [
    | inl e ↦ absurd (ground arith)
    | inr (b, here) ↦ elim (Option-cases (first_open_position b)) [
      | inl e ↦ absurd (ground arith)
      | inr (pos, free) ↦ (b, pos, here, free, ground arith)
    ]
  ]

  pub seat_on-Adds :
      (e : Engine Amount) (k m : ℕ) (timestamp : ℤ) (e' : Engine Amount)
      → seat_on e k m timestamp ≡ some e'
      → Adds new_v4 m e e'
  seat_on-Adds e k m timestamp e' h =
      let (b, pos, here, free, same) = seat_on-some e k m timestamp e' h in
      rw same (seat_member-Adds e k b pos m timestamp here free)

  seat_or_displace-Adds :
      (e : Engine Amount) (k m : ℕ) (timestamp : ℤ) (o : Option (Engine Amount))
      → seat_on e k m timestamp ≡ o
      → Adds new_v4 m e (seat_or_displace e m k o).0
  unfolding seat_or_displace
  seat_or_displace-Adds e k m timestamp none h = displace-Adds new_v4 e m
  seat_or_displace-Adds e k m timestamp (some e') h = seat_on-Adds e k m timestamp e' h

  re_enter_at-Adds :
      (e : Engine Amount) (m : ℕ) (timestamp : ℤ) (r : Result BoardPlanError ℕ)
      → Adds new_v4 m e (re_enter_at e m timestamp r).0
  unfolding re_enter_at
  re_enter_at-Adds e m timestamp (err x) = displace-Adds new_v4 e m
  re_enter_at-Adds e m timestamp (ok target) = seat_or_displace-Adds e target m timestamp _ refl

  pub re_enter-Adds :
      (e : Engine Amount) (m : ℕ) (timestamp : ℤ) → Adds new_v4 m e (re_enter e m timestamp).0
  unfolding re_enter
  re_enter-Adds e m timestamp =
      if_rule (λ (r : Engine Amount × Option ℕ). Adds new_v4 m e r.0) e.config.re_entry_enabled _ _
        (re_enter_at-Adds e m timestamp (find_placement_board e (sponsor_or_self e m)))
        (displace-Adds new_v4 e m)

-- Cycles of full boards, and their cascades. No identifier is drawn twice.
module _ {Amount : Type 0} (new_v4 : ℕ → ℕ)
    (distinct : (i j : ℕ) → new_v4 i ≡ new_v4 j → i ≡ j) where
  root_of_full-some :
      (e : Engine Amount) (k : ℕ) (b : Board) (m : ℕ)
      → root_of_full e k ≡ some (b, m)
      → (lookup k e.boards ≡ some b) × (get_or b.positions 0 none ≡ some m)
  unfolding root_of_full
  root_of_full-some e k b m h = ground arith

  cycle_out-Keeps :
      (e : Engine Amount) (k : ℕ) (b : Board) (timestamp : ℤ) (m : ℕ)
      → lookup k e.boards ≡ some b
      → get_or b.positions 0 none ≡ some m
      → Keeps new_v4 e (cycle_out new_v4 e k b timestamp m).0
  unfolding cycle_out
  cycle_out-Keeps e k b timestamp m here root v =
      let e₁ = (split_board new_v4 e b timestamp).0 in
      let index = remove m e₁.member_boards in
      let e₂ = record e₁ { boards = remove k e₁.boards; member_boards = index } in
      let (w, split) = split_board_lem new_v4 distinct e b timestamp k index v here in
      let (x, back) = re_enter-Adds new_v4 e₂ m timestamp w in
      (x, λ u. omega (arith, split u, back u, ap (seat u) root))

  pub cycle_if_full-Keeps :
      (cycle : Engine Amount → ℕ → Engine Amount × List CycleEvent)
      → ((e : Engine Amount) (k : ℕ) → Keeps new_v4 e (cycle e k).0)
      → (e : Engine Amount) (k : ℕ) → Keeps new_v4 e (cycle_if_full cycle e k).0
  unfolding cycle_if_full
  cycle_if_full-Keeps cycle keep e k = elim (Option-cases (lookup k e.boards)) [
    | inl n ↦ rw (n, cycle_if_full) (Keeps-refl new_v4 e)
    | inr (b, n) ↦ elim (Bool-cases (is_full b)) [
      | inl f ↦ rw (n, cycle_if_full, f) (keep e k)
      | inr f ↦ rw (n, cycle_if_full, f) (Keeps-refl new_v4 e)
    ]
  ]

  cascade-Keeps :
      (cycle : Engine Amount → ℕ → Engine Amount × List CycleEvent)
      → ((e : Engine Amount) (k : ℕ) → Keeps new_v4 e (cycle e k).0)
      → (ids : List ℕ) (e : Engine Amount) → Keeps new_v4 e (cascade cycle ids e).0
  unfolding cascade
  cascade-Keeps cycle keep [] e = Keeps-refl new_v4 e
  cascade-Keeps cycle keep (k ∷ ids) e =
      let e' = (cycle_if_full cycle e k).0 in
      Keeps-trans new_v4 e e' (cascade cycle ids e').0 (cycle_if_full-Keeps cycle keep e k)
        (cascade-Keeps cycle keep ids e')

  cycle_and_cascade-Keeps :
      (cycle : Engine Amount → ℕ → Engine Amount × List CycleEvent)
      → ((e : Engine Amount) (k : ℕ) → Keeps new_v4 e (cycle e k).0)
      → (e : Engine Amount) (k : ℕ) (timestamp : ℤ) (o : Option (Board × ℕ)) → root_of_full e k ≡ o
      → Keeps new_v4 e (cycle_and_cascade new_v4 cycle e k timestamp o).0
  unfolding cycle_and_cascade
  cycle_and_cascade-Keeps cycle keep e k timestamp none h = Keeps-refl new_v4 e
  cycle_and_cascade-Keeps cycle keep e k timestamp (some (b, m)) h =
      let (here, root) = root_of_full-some e k b m h in
      let (e', event) = cycle_out new_v4 e k b timestamp m in
      Keeps-trans new_v4 e e' (cascade cycle (cascade_boards event) e').0
        (cycle_out-Keeps e k b timestamp m here root)
        (cascade-Keeps cycle keep (cascade_boards event) e')

  process-Keeps :
      (budget : ℕ) (e : Engine Amount) (k : ℕ) (timestamp : ℤ)
      → Keeps new_v4 e (process new_v4 budget e k timestamp).0
  unfolding process
  process-Keeps zero e k timestamp = Keeps-refl new_v4 e
  process-Keeps (suc budget) e k timestamp =
      cycle_and_cascade-Keeps (λ e id. process new_v4 budget e id timestamp)
        (λ e id. process-Keeps budget e id timestamp) e k timestamp (root_of_full e k) refl

  -- Cycling a board, with the whole cascade that it starts, keeps the engine sound and holds every
  -- member as often as before, on the boards and among the displaced members together.
  pub process_cycles-Keeps :
      (e : Engine Amount) (k : ℕ) (timestamp : ℤ)
      → IsSound new_v4 e
      → IsSound new_v4 (process_cycles new_v4 e k timestamp).0
        × ((u : ℕ) → occurrences u (process_cycles new_v4 e k timestamp).0 ≡ occurrences u e)
  unfolding process_cycles
  process_cycles-Keeps e k timestamp = process-Keeps e.config.max_cascade_depth e k timestamp

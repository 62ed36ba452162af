-- ===== src/BoardPlan/Engine/Conserve/Members.antt =====
-- `add_member` and `dissolve_board` of board_plan/engine.rs, and the steps before them, lose nobody
-- and duplicate nobody.
use mlmforge.Prelude.{
  ℕ, ◌+◌, ◌≡◌, refl, ap, Option, none, some, List, [], ◌∷◌, ◌++◌, arith, Option-cases, if_rule, inl,
  inr, map, filter, length,
}
use mlmforge.Prelude.Int.{ℤ}
use mlmforge.Prelude.Results.{Result, ok, err}
use mlmforge.Prelude.Assoc.{
  lookup, insert, remove, weight, total-remove, values, lookup-remove-none, AllValues-remove,
}
use mlmforge.BoardPlan.Board.{Board, is_full, first_open_position, members}
use mlmforge.BoardPlan.Board.Count.{seat, seats, sum_over-occupants}
use mlmforge.BoardPlan.Config.{
  CycleEvent, BoardPlanError, AddMemberResult, DissolutionResult, no_boards_available,
  board_not_found,
}
use mlmforge.BoardPlan.Engine.{
  Engine, seat_member, displace, seat_on, find_placement_board, oldest_board_with_opening,
  process_cycles, cycle_if_full, sort_by_age,
}
use mlmforge.BoardPlan.Engine.Ops.{
  process_all, drain_full_boards, place_one, place_each, place_displaced_members, place_at,
  place_one_at, place_in, place_on, place_found, enroll, refuse_member, add_member, displace_all,
  dissolve_board,
}
use mlmforge.BoardPlan.Engine.Conserve.{
  occurrences, in_list, IsSound, Keeps, Adds, Keeps-refl, Keeps-trans, Adds-Keeps, displace-Adds,
}
use mlmforge.BoardPlan.Engine.Conserve.Cycle.{
  seat_member-Adds, seat_on-Adds, cycle_if_full-Keeps, process_cycles-Keeps,
}

-- What `add_member` adds of a member: the new member's place if it succeeds, and nothing if not.
abbrev pub added : ℕ → ℕ → Result BoardPlanError AddMemberResult → ℕ
added u user_id (ok r) = seat u (some user_id)
added u user_id (err x) = 0

module _ {Amount : Type 0} (new_v4 : ℕ → ℕ)
    (distinct : (i j : ℕ) → new_v4 i ≡ new_v4 j → i ≡ j) where
  cycle-Keeps :
      (timestamp : ℤ) (e : Engine Amount) (k : ℕ)
      → Keeps new_v4 e (process_cycles new_v4 e k timestamp).0
  cycle-Keeps timestamp e k = process_cycles-Keeps new_v4 distinct e k timestamp

  process_all-Keeps :
      (ids : List ℕ) (e : Engine Amount) (timestamp : ℤ)
      → Keeps new_v4 e (process_all new_v4 ids e timestamp).0
  unfolding process_all
  process_all-Keeps [] e timestamp = Keeps-refl new_v4 e
  process_all-Keeps (k ∷ ids) e timestamp =
      let e' = (process_cycles new_v4 e k timestamp).0 in
      Keeps-trans new_v4 e e' (process_all new_v4 ids e' timestamp).0 (cycle-Keeps timestamp e k)
        (process_all-Keeps ids e' timestamp)

  pub drain_full_boards-Keeps :
      (e : Engine Amount) (timestamp : ℤ) → Keeps new_v4 e (drain_full_boards new_v4 e timestamp).0
  unfolding drain_full_boards
  drain_full_boards-Keeps e timestamp =
      process_all-Keeps (map (λ b. b.id) (sort_by_age (filter is_full (values e.boards)))) e
        timestamp

  seated_then_cycled :
      (e e' : Engine Amount) (k m : ℕ) (timestamp : ℤ)
      → Adds new_v4 m e e'
      → Adds new_v4 m e (cycle_if_full (λ e id. process_cycles new_v4 e id timestamp) e' k).0
  seated_then_cycled e e' k m timestamp a =
      Adds-Keeps new_v4 m e e' (cycle_if_full (λ e id. process_cycles new_v4 e id timestamp) e' k).0
        a
        (cycle_if_full-Keeps new_v4 distinct (λ e id. process_cycles new_v4 e id timestamp)
          (cycle-Keeps timestamp) e' k)

  place_at-Adds :
      (e : Engine Amount) (k m : ℕ) (timestamp : ℤ) (o : Option (Engine Amount))
      → seat_on e k m timestamp ≡ o
      → Adds new_v4 m e (place_at new_v4 e k m timestamp o).0
  unfolding place_at
  place_at-Adds e k m timestamp none h = displace-Adds new_v4 e m
  place_at-Adds e k m timestamp (some e') h =
      seated_then_cycled e e' k m timestamp (seat_on-Adds new_v4 e k m timestamp e' h)

  place_one-Adds :
      (e : Engine Amount) (m : ℕ) (timestamp : ℤ)
      → Adds new_v4 m e (place_one new_v4 e m timestamp).0
  unfolding place_one
  place_one-Adds e m timestamp = go (oldest_board_with_opening e)
    where
      go : (r : Result BoardPlanError ℕ) → Adds new_v4 m e (place_one_at new_v4 e m timestamp r).0
      go (err x) = displace-Adds new_v4 e m
      go (ok k) = place_at-Adds e k m timestamp (seat_on e k m timestamp) refl

  place_each_lem :
      (ms : List ℕ) (e : Engine Amount) (timestamp : ℤ)
      → IsSound new_v4 e
      → IsSound new_v4 (place_each new_v4 ms e timestamp).0
        × ((u : ℕ)
            → occurrences u (place_each new_v4 ms e timestamp).0 ≡ occurrences u e + in_list u ms)
  unfolding place_each
  place_each_lem [] e timestamp v = (v, λ u. omega arith)
  place_each_lem (m ∷ ms) e timestamp v =
      let e' = (place_one new_v4 e m timestamp).0 in
      let (w, one) = place_one-Adds e m timestamp v in
      let (x, rest) = place_each_lem ms e' timestamp w in (x, λ u. omega (arith, one u, rest u))

  pub place_displaced_members-Keeps :
      (e : Engine Amount) (timestamp : ℤ)
      → Keeps new_v4 e (place_displaced_members new_v4 e timestamp).0
  unfolding place_displaced_members
  place_displaced_members-Keeps e timestamp v =
      let (w, all) =
        place_each_lem e.displaced_members (record e { displaced_members = [] }) timestamp
          (record {
            wide = v.wide;
            tall = v.tall;
            sized_total = v.sized_total;
            sized = v.sized;
            fresh = v.fresh;
          }) in
      (w, λ u. omega (arith, all u))

  -- The state and the result of an enrolment of `user_id`, against the state before it.
  abbrev pub Enrolls :
      ℕ → Engine Amount → Engine Amount × Result BoardPlanError AddMemberResult → Type 0
  Enrolls user_id e (e', r) =
      IsSound new_v4 e
      → IsSound new_v4 e' × ((u : ℕ) → occurrences u e' ≡ occurrences u e + added u user_id r)

  Enrolls-err :
      (user_id : ℕ) (e : Engine Amount) (x : BoardPlanError) → Enrolls user_id e (e, err x)
  Enrolls-err user_id e x v = (v, λ u. omega arith)

  place_in-Enrolls :
      (e : Engine Amount) (k m : ℕ) (timestamp : ℤ) (events : List CycleEvent) (b : Board)
      (o : Option ℕ)
      → lookup k e.boards ≡ some b
      → first_open_position b ≡ o
      → Enrolls m e (place_in new_v4 e k m timestamp events b o)
  unfolding place_in
  place_in-Enrolls e k m timestamp events b none here free = Enrolls-err m e no_boards_available
  place_in-Enrolls e k m timestamp events b (some pos) here free =
      seated_then_cycled e (seat_member e k b pos m timestamp) k m timestamp
        (seat_member-Adds new_v4 e k b pos m timestamp here free)

  place_on-Enrolls :
      (e : Engine Amount) (k m : ℕ) (timestamp : ℤ) (events : List CycleEvent) (o : Option Board)
      → lookup k e.boards ≡ o
      → Enrolls m e (place_on new_v4 e k m timestamp events o)
  unfolding place_on
  place_on-Enrolls e k m timestamp events none here = Enrolls-err m e (board_not_found k)
  place_on-Enrolls e k m timestamp events (some b) here =
      place_in-Enrolls e k m timestamp events b (first_open_position b) here refl

  place_found-Enrolls :
      (e : Engine Amount) (m : ℕ) (timestamp : ℤ) (events : List CycleEvent)
      (r : Result BoardPlanError ℕ)
      → Enrolls m e (place_found new_v4 e m timestamp events r)
  unfolding place_found
  place_found-Enrolls e m timestamp events (err x) = Enrolls-err m e x
  place_found-Enrolls e m timestamp events (ok k) =
      place_on-Enrolls e k m timestamp events (lookup k e.boards) refl

  enroll-Enrolls :
      (e : Engine Amount) (m sponsor_id : ℕ) (timestamp : ℤ)
      → Enrolls m e (enroll new_v4 e m sponsor_id timestamp)
  unfolding enroll
  enroll-Enrolls e m sponsor_id timestamp v =
      let e₀ = record e { sponsor_map = insert m sponsor_id e.sponsor_map } in
      let (e₁, drained) = drain_full_boards new_v4 e₀ timestamp in
      let (e₂, placed) = place_displaced_members new_v4 e₁ timestamp in
      let (w, p) = drain_full_boards-Keeps e₀ timestamp (record {
        wide = v.wide;
        tall = v.tall;
        sized_total = v.sized_total;
        sized = v.sized;
        fresh = v.fresh;
      }) in
      let (x, q) = place_displaced_members-Keeps e₁ timestamp w in
      let (y, r) =
        place_found-Enrolls e₂ m timestamp (drained ++ placed) (find_placement_board e₂ sponsor_id)
          x in
      (y, λ u. omega (arith, p u, q u, r u))

  -- `add_member` keeps the engine sound. If it succeeds, the engine holds the new member once more and
  -- everybody else as often as before; if it fails, everybody as often as before, also where it fails
  -- after boards have cycled.
  pub add_member-occurrences :
      (e : Engine Amount) (user_id sponsor_id : ℕ) (timestamp : ℤ)
      → IsSound new_v4 e
      → let (e', r) = add_member new_v4 e user_id sponsor_id timestamp in
        IsSound new_v4 e' × ((u : ℕ) → occurrences u e' ≡ occurrences u e + added u user_id r)
  unfolding add_member
  add_member-occurrences e user_id sponsor_id timestamp =
      elim (Option-cases (refuse_member e user_id sponsor_id)) [
        | inl n ↦ rw (n, add_member) (enroll-Enrolls e user_id sponsor_id timestamp)
        | inr (x, n) ↦ rw (n, add_member) (Enrolls-err user_id e x)
      ]

  displace_all_lem :
      (ms : List ℕ) (e : Engine Amount)
      → IsSound new_v4 e
      → IsSound new_v4 (displace_all ms e)
        × ((u : ℕ) → occurrences u (displace_all ms e) ≡ occurrences u e + in_list u ms)
  unfolding displace_all
  displace_all_lem [] e v = (v, λ u. omega arith)
  displace_all_lem (m ∷ ms) e v =
      let e' = record e { member_boards = remove m e.member_boards } in
      let (w, one) = displace-Adds new_v4 e' m (record {
        wide = v.wide;
        tall = v.tall;
        sized_total = v.sized_total;
        sized = v.sized;
        fresh = v.fresh;
      }) in
      let (x, rest) = displace_all_lem ms (displace e' m) w in
      (x, λ u. omega (arith, one u, rest u))

  dissolve_found :
      (e : Engine Amount) (k : ℕ) (b : Board) (timestamp : ℤ)
      → lookup k e.boards ≡ some b
      → Keeps new_v4 e
          (drain_full_boards new_v4
            (displace_all (members b) (record e { boards = remove k e.boards }))
            timestamp).0
  unfolding members
  dissolve_found e k b timestamp here v =
      let e₁ = record e { boards = remove k e.boards } in
      let e₂ = displace_all (members b) e₁ in
      let (w, p) = displace_all_lem (members b) e₁ (record {
        wide = v.wide;
        tall = v.tall;
        sized_total = v.sized_total;
        sized = AllValues-remove (λ b. length b.positions ≡ e.total_positions) k e.boards v.sized;
        fresh = λ j h. lookup-remove-none k (new_v4 j) e.boards (v.fresh j h);
      }) in
      let (x, q) = drain_full_boards-Keeps e₂ timestamp w in
      (
        x,
        λ u. omega (
          arith,
          p u,
          q u,
          total-remove (λ b. seats u b.positions) k e.boards,
          ap (weight (λ b. seats u b.positions)) here,
          sum_over-occupants u b.positions,
        ),
      )

  -- `dissolve_board` keeps the engine sound and holds every member as often as before, whether it
  -- dissolves the board, refuses a full one or finds none.
  pub dissolve_board-Keeps :
      (e : Engine Amount) (board_id : ℕ) (timestamp : ℤ)
      → IsSound new_v4 e
      → let e' = (dissolve_board new_v4 e board_id timestamp).0 in
        IsSound new_v4 e' × ((u : ℕ) → occurrences u e' ≡ occurrences u e)
  unfolding dissolve_board
  dissolve_board-Keeps e k timestamp = elim (Option-cases (lookup k e.boards)) [
    | inl n ↦ rw (n, dissolve_board) (Keeps-refl new_v4 e)
    | inr (b, n) ↦
        rw (n, dissolve_board)
          (if_rule
            (λ (r : Engine Amount × Result BoardPlanError DissolutionResult). Keeps new_v4 e r.0)
            (is_full b) _ _ (Keeps-refl new_v4 e) (dissolve_found e k b timestamp n))
  ]

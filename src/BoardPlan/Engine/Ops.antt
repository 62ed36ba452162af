-- ===== src/BoardPlan/Engine/Ops.antt =====
-- board_plan/engine.rs: the public operations. One that can fail after it has changed the state
-- returns the state beside its result.
use mathlib.Core.Option
use mlmforge.Prelude.{
  contains, ℕ, suc, ◌+◌, Bool, true, false, not, ◌&&◌, Option, none, some, List, [], ◌∷◌, ◌++◌, map,
  leb, ◌==◌, if◌then◌else◌, set, length, filter,
}
use mlmforge.Prelude.Int.{ℤ, ltb_ℤ}
use mlmforge.Prelude.Results.{Result, ok, err}
use mlmforge.Prelude.Assoc.{lookup, insert, remove, values, contains_key}
use mlmforge.BoardPlan.Board.{Board, is_full, first_open_position, filled_count, members}
use mlmforge.BoardPlan.Board
use mlmforge.BoardPlan.Config.{
  BoardPlanConfig, CycleEvent, AddMemberResult, RemoveMemberResult, StalledBoard, DissolutionResult,
  CompressedMember, CompressionResult, BoardSummary, BoardPlanError, member_already_exists,
  member_awaiting_reassignment, sponsor_not_found, board_not_found, member_not_found,
  no_boards_available, board_full, invalid_dimensions,
}
use mlmforge.BoardPlan.Engine.{
  Engine, sort_by_age, oldest_board_with_opening, find_placement_board, seat_member, displace,
  seat_on, cycle_if_full, process_cycles,
}

unfoldable pub is_empty {ℓ} : {A : Type ℓ} → List A → Bool
is_empty [] = true
is_empty (x ∷ xs) = false

-- `positions.iter().position(|p| *p == Some(user_id))`
unfoldable pub position_of : ℕ → List (Option ℕ) → Option ℕ
position_of m [] = none
position_of m (p ∷ ps) =
    let later = Option.map suc (position_of m ps) in
    elim p [ none ↦ later | some x ↦ if x == m then some 0 else later ]

-- `enumerate().filter_map(..)`: the members with their positions, from position `i` on.
unfoldable pub with_positions : ℕ → List (Option ℕ) → List (ℕ × ℕ)
with_positions i [] = []
with_positions i (none ∷ ps) = with_positions (suc i) ps
with_positions i (some m ∷ ps) = (i, m) ∷ with_positions (suc i) ps

-- Seats the members from `new_pos` on, and lists those that moved.
unfoldable pub re_place :
    ℕ → ℕ → List (ℕ × ℕ) → List (Option ℕ) × List (ℕ × ℕ) → List (Option ℕ) × List (ℕ × ℕ)
re_place board_id new_pos [] (positions, index) = (positions, index)
re_place board_id new_pos ((old_pos, m) ∷ ms) (positions, index) =
    re_place board_id (suc new_pos) ms (set positions new_pos (some m), insert m board_id index)

unfoldable pub moved_members : ℕ → List (ℕ × ℕ) → List ℕ
moved_members new_pos [] = []
moved_members new_pos ((old_pos, m) ∷ ms) =
    let rest = moved_members (suc new_pos) ms in if new_pos == old_pos then rest else m ∷ rest

module _ {Amount : Type 0} where
  unfoldable pub compact_board : Engine Amount → ℕ → Engine Amount × List ℕ
  unfolding re_place moved_members with_positions
  compact_board e board_id = elim (lookup board_id e.boards) [
    | none ↦ (e, [])
    | some board ↦
        let ms = with_positions 0 board.positions in
        let (positions, index) =
          re_place board_id 0 ms (map (λ _. none) board.positions, e.member_boards) in
        (
          record e {
            boards = insert board_id (record board { positions = positions }) e.boards;
            member_boards = index;
          },
          moved_members 0 ms,
        )
  ]

  -- The member's own board, if it is full.
  unfoldable pub full_board_of : Engine Amount → ℕ → Option ℕ
  full_board_of e user_id = elim (lookup user_id e.member_boards) [
    | none ↦ none
    | some board_id ↦ elim (lookup board_id e.boards) [
      | none ↦ none
      | some b ↦ if is_full b then some board_id else none
    ]
  ]

  -- The last part of `take_member_out`, once the member's place is read again.
  unfoldable pub vacate : Engine Amount → ℕ → ℤ → Engine Amount × Result BoardPlanError (List ℕ)
  unfolding compact_board position_of
  vacate e user_id timestamp = elim (lookup user_id e.member_boards) [
    | none ↦ (
      record e { displaced_members = filter (λ m. not (m == user_id)) e.displaced_members },
      ok [],
    )
    | some board_id ↦ elim (lookup board_id e.boards) [
      | none ↦ (e, err (board_not_found board_id))
      | some board ↦
          let positions : List (Option ℕ) = elim (position_of user_id board.positions) [
            | none ↦ board.positions
            | some pos ↦ set board.positions pos none
          ] in
          let (e', moved) =
            compact_board
              (record e {
                boards =
                    insert board_id
                      (record board { positions = positions; last_activity_at = timestamp })
                      e.boards;
                member_boards = remove user_id e.member_boards;
              })
              board_id in
          (e', ok moved)
    ]
  ]

  -- The refusals of `add_member`, which change nothing.
  unfoldable pub refuse_member : Engine Amount → ℕ → ℕ → Option BoardPlanError
  unfolding contains is_empty
  refuse_member e user_id sponsor_id =
      if contains_key user_id e.member_boards
      then some (member_already_exists user_id)
      else if contains user_id e.displaced_members
      then some (member_awaiting_reassignment user_id)
      else if not (is_empty e.member_boards && is_empty e.sponsor_map)
          && (not (contains_key sponsor_id e.member_boards)
              && not (contains sponsor_id e.displaced_members))
      then some (sponsor_not_found sponsor_id)
      else if is_empty e.boards
      then some no_boards_available
      else none

  -- `filter_map`: the listed members that are on a board when the call starts.
  unfoldable pub seated_members : List ℕ → Engine Amount → List (ℕ × ℕ)
  seated_members [] e = []
  seated_members (m ∷ ms) e = elim (lookup m e.member_boards) [
    | none ↦ seated_members ms e
    | some board_id ↦ (m, board_id) ∷ seated_members ms e
  ]

  unfoldable pub list_boards : Engine Amount → List BoardSummary
  list_boards e =
      map
        (λ b. record {
          id = b.id;
          filled_count = filled_count b;
          total_positions = e.total_positions;
          created_at = b.created_at;
          last_activity_at = b.last_activity_at;
          parent_board_id = b.parent_board_id;
        })
        (sort_by_age (values e.boards))

  unfoldable pub detect_stalled_boards : Engine Amount → ℤ → List StalledBoard
  detect_stalled_boards e cutoff =
      map
        (λ b. record {
          board_id = b.id;
          last_activity_at = b.last_activity_at;
          filled_positions = filled_count b;
          total_positions = e.total_positions;
          members = members b;
        })
        (sort_by_age (filter (λ b. ltb_ℤ b.last_activity_at cutoff) (values e.boards)))

  -- Takes the members of a dissolved board out of the index and displaces them, in order.
  unfoldable pub displace_all : List ℕ → Engine Amount → Engine Amount
  unfolding displace
  displace_all [] e = e
  displace_all (m ∷ ms) e =
      displace_all ms (displace (record e { member_boards = remove m e.member_boards }) m)

module _ {Amount : Type 0} (new_v4 : ℕ → ℕ) where
  -- `BoardPlanEngine::new`. `drawn` identifiers have been given out before.
  unfoldable pub new :
      ℕ → ℕ → BoardPlanConfig Amount → ℤ → ℕ → Result BoardPlanError (Engine Amount)
  unfolding Board.new
  new width height config timestamp drawn =
      if not (leb 2 width && leb width 5)
      then err (invalid_dimensions width height)
      else if not (leb 1 height && leb height 4)
      then err (invalid_dimensions width height)
      else (let total = Board.total_positions width height in
          let board = Board.new (new_v4 drawn) total timestamp none 0 in
          ok (record {
            width = width;
            height = height;
            total_positions = total;
            boards = (board.id, board) ∷ [];
            member_boards = [];
            sponsor_map = [];
            displaced_members = [];
            next_board_seq = 1;
            config = config;
            drawn = drawn + 1;
          }))

  unfoldable pub process_all : List ℕ → Engine Amount → ℤ → Engine Amount × List CycleEvent
  process_all [] e timestamp = (e, [])
  process_all (id ∷ ids) e timestamp =
      let (e', events) = process_cycles new_v4 e id timestamp in
      let (e'', more) = process_all ids e' timestamp in (e'', events ++ more)

  unfoldable pub drain_full_boards : Engine Amount → ℤ → Engine Amount × List CycleEvent
  unfolding process_all
  drain_full_boards e timestamp =
      process_all (map (λ b. b.id) (sort_by_age (filter is_full (values e.boards)))) e timestamp

  unfoldable pub place_at :
      Engine Amount → ℕ → ℕ → ℤ → Option (Engine Amount) → Engine Amount × List CycleEvent
  unfolding cycle_if_full
  place_at e board_id m timestamp none = (displace e m, [])
  place_at e board_id m timestamp (some e') =
      cycle_if_full (λ e id. process_cycles new_v4 e id timestamp) e' board_id

  unfoldable pub place_one_at :
      Engine Amount → ℕ → ℤ → Result BoardPlanError ℕ → Engine Amount × List CycleEvent
  unfolding place_at
  place_one_at e m timestamp (err x) = (displace e m, [])
  place_one_at e m timestamp (ok board_id) =
      place_at e board_id m timestamp (seat_on e board_id m timestamp)

  -- One round of `place_displaced_members`.
  unfoldable pub place_one : Engine Amount → ℕ → ℤ → Engine Amount × List CycleEvent
  unfolding place_one_at
  place_one e m timestamp = place_one_at e m timestamp (oldest_board_with_opening e)

  unfoldable pub place_each : List ℕ → Engine Amount → ℤ → Engine Amount × List CycleEvent
  unfolding place_one
  place_each [] e timestamp = (e, [])
  place_each (m ∷ ms) e timestamp =
      let (e', events) = place_one e m timestamp in
      let (e'', more) = place_each ms e' timestamp in (e'', events ++ more)

  unfoldable pub place_displaced_members : Engine Amount → ℤ → Engine Amount × List CycleEvent
  unfolding place_each
  place_displaced_members e timestamp =
      place_each e.displaced_members (record e { displaced_members = [] }) timestamp

  -- The last part of `add_member`, on the board found and its first opening.
  unfoldable pub place_in :
      Engine Amount
      → ℕ
      → ℕ
      → ℤ
      → List CycleEvent
      → Board
      → Option ℕ
      → Engine Amount × Result BoardPlanError AddMemberResult
  unfolding seat_member cycle_if_full
  place_in e board_id user_id timestamp events board none = (e, err no_boards_available)
  place_in e board_id user_id timestamp events board (some position) =
      let (e', more) =
        cycle_if_full (λ e id. process_cycles new_v4 e id timestamp)
          (seat_member e board_id board position user_id timestamp) board_id in
      (e', ok (record { board_id = board_id; position = position; cycle_events = events ++ more }))

  unfoldable pub place_on :
      Engine Amount
      → ℕ
      → ℕ
      → ℤ
      → List CycleEvent
      → Option Board
      → Engine Amount × Result BoardPlanError AddMemberResult
  unfolding place_in
  place_on e board_id user_id timestamp events none = (e, err (board_not_found board_id))
  place_on e board_id user_id timestamp events (some board) =
      place_in e board_id user_id timestamp events board (first_open_position board)

  unfoldable pub place_found :
      Engine Amount
      → ℕ
      → ℤ
      → List CycleEvent
      → Result BoardPlanError ℕ
      → Engine Amount × Result BoardPlanError AddMemberResult
  unfolding place_on
  place_found e user_id timestamp events (err x) = (e, err x)
  place_found e user_id timestamp events (ok board_id) =
      place_on e board_id user_id timestamp events (lookup board_id e.boards)

  -- `add_member` behind its refusals.
  unfoldable pub enroll :
      Engine Amount → ℕ → ℕ → ℤ → Engine Amount × Result BoardPlanError AddMemberResult
  unfolding place_found drain_full_boards place_displaced_members
  enroll e user_id sponsor_id timestamp =
      let (e₁, drained) =
        drain_full_boards (record e { sponsor_map = insert user_id sponsor_id e.sponsor_map })
          timestamp in
      let (e₂, placed) = place_displaced_members e₁ timestamp in
      place_found e₂ user_id timestamp (drained ++ placed) (find_placement_board e₂ sponsor_id)

  unfoldable pub add_member :
      Engine Amount → ℕ → ℕ → ℤ → Engine Amount × Result BoardPlanError AddMemberResult
  unfolding refuse_member enroll
  add_member e user_id sponsor_id timestamp = elim (refuse_member e user_id sponsor_id) [
    | some x ↦ (e, err x)
    | none ↦ enroll e user_id sponsor_id timestamp
  ]

  unfoldable pub take_member_out :
      Engine Amount → ℕ → ℤ → Engine Amount × List CycleEvent × Result BoardPlanError (List ℕ)
  unfolding full_board_of vacate
  take_member_out e user_id timestamp = elim (full_board_of e user_id) [
    | none ↦ let (e', r) = vacate e user_id timestamp in (e', [], r)
    | some board_id ↦
        let (e₁, events) = process_cycles new_v4 e board_id timestamp in
        let (e₂, r) = vacate e₁ user_id timestamp in (e₂, events, r)
  ]

  unfoldable pub remove_member :
      Engine Amount → ℕ → ℤ → Engine Amount × Result BoardPlanError RemoveMemberResult
  unfolding take_member_out contains
  remove_member e user_id timestamp =
      if not (contains_key user_id e.member_boards) && not (contains user_id e.displaced_members)
      then (e, err (member_not_found user_id))
      else (let (e₁, drained) = drain_full_boards e timestamp in
          let (e₂, events, r) = take_member_out e₁ user_id timestamp in
          elim r [
            | err x ↦ (e₂, err x)
            | ok moved ↦ (e₂, ok (record { compacted = moved; cycle_events = drained ++ events }))
          ])

  unfoldable pub dissolve_board :
      Engine Amount → ℕ → ℤ → Engine Amount × Result BoardPlanError DissolutionResult
  unfolding displace_all
  dissolve_board e board_id timestamp = elim (lookup board_id e.boards) [
    | none ↦ (e, err (board_not_found board_id))
    | some board ↦
        if is_full board
        then (e, err (board_full board_id (filled_count board) (length board.positions)))
        else (let (e', events) =
              drain_full_boards
                (displace_all (members board) (record e { boards = remove board_id e.boards }))
                timestamp in
            (
              e',
              ok (record {
                dissolved_board_id = board_id;
                displaced_members = members board;
                cycle_events = events;
              }),
            ))
  ]

  unfoldable pub compress_each :
      List (ℕ × ℕ)
      → Engine Amount
      → ℤ
      → List CompressedMember
      → List CycleEvent
      → Engine Amount × Result BoardPlanError CompressionResult
  unfolding take_member_out contains
  compress_each [] e timestamp done events =
      (e, ok (record { compressed = done; cycle_events = events }))
  compress_each ((m, board_id) ∷ ms) e timestamp done events =
      let skipped = compress_each ms e timestamp done events in
      let (e', more, r) = take_member_out e m timestamp in
      let taken =
        compress_each ms e' timestamp (done ++ record { user_id = m; board_id = board_id } ∷ [])
          (events ++ more) in
      if not (contains_key m e.member_boards) && not (contains m e.displaced_members)
      then skipped
      else elim r [ err x ↦ (e', err x) | ok moved ↦ taken ]

  unfoldable pub compress_inactive :
      Engine Amount → List ℕ → ℤ → Engine Amount × Result BoardPlanError CompressionResult
  unfolding seated_members compress_each
  compress_inactive e inactive timestamp =
      let seated = seated_members inactive e in
      let (e', drained) = drain_full_boards e timestamp in
      compress_each seated e' timestamp [] drained

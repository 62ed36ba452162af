-- ===== src/BoardPlan/Engine.antt =====
-- board_plan/engine.rs: the engine's state, placement, and the cycling of full boards.
pub mod Ops
pub mod Conserve
use mlmforge.Prelude.{
  ℕ, zero, suc, ◌+◌, ◌-◌, ◌≡◌, Bool, true, false, ◌||◌, ◌&&◌, Option, none, some, List, [], ◌∷◌,
  ◌++◌, map, ltb, leb, ◌==◌, if◌then◌else◌, is_some, is_none, get_or, set, filter,
}
use mlmforge.Prelude.Int.{ℤ, ltb_ℤ}
use mlmforge.Prelude.Results.{Result, ok, err}
use mlmforge.Prelude.Assoc.{lookup, insert, remove, values}
use mlmforge.BoardPlan.Board.{
  Board, is_full, first_open, first_open_position, total_positions, subtree_indices,
}
use mlmforge.BoardPlan.Board
use mlmforge.BoardPlan.Config.{
  ReEntryPosition, bottom, sponsor_board, BoardPlanConfig, CycleEvent, BoardPlanError,
  no_boards_available, invalid_dimensions,
}

-- `drawn` counts the identifiers that `Uuid::new_v4` has given out so far.
pub record Engine (Amount : Type 0) : Type 0 where
  pub width : ℕ
  pub height : ℕ
  pub total_positions : ℕ
  pub boards : List (ℕ × Board)
  pub member_boards : List (ℕ × ℕ)
  pub sponsor_map : List (ℕ × ℕ)
  pub displaced_members : List ℕ
  pub next_board_seq : ℕ
  pub config : BoardPlanConfig Amount
  pub drawn : ℕ

-- The order of `sort_by_key(|b| (b.created_at, b.seq))`.
unfoldable pub older : Board → Board → Bool
older a b =
    if ltb_ℤ a.created_at b.created_at
    then true
    else if ltb_ℤ b.created_at a.created_at
    then false
    else ltb a.seq b.seq

-- A stable sort: an entry goes behind those that are not newer.
unfoldable pub insert_by_age : Board → List Board → List Board
insert_by_age b [] = b ∷ []
insert_by_age b (c ∷ cs) =
    let rest = insert_by_age b cs in if older c b then c ∷ rest else b ∷ c ∷ cs

unfoldable pub sort_by_age : List Board → List Board
unfolding insert_by_age older
sort_by_age [] = []
sort_by_age (b ∷ bs) = insert_by_age b (sort_by_age bs)

-- `min_by_key`: the first of the least.
unfoldable pub oldest : List Board → Option Board
unfolding older
oldest [] = none
oldest (b ∷ bs) = elim (oldest bs) [ none ↦ some b | some c ↦ if older c b then some c else some b ]

module _ {Amount : Type 0} where
  unfoldable pub oldest_board_with_opening : Engine Amount → Result BoardPlanError ℕ
  unfolding oldest
  oldest_board_with_opening e =
      elim (oldest (filter (λ b. is_some (first_open_position b)) (values e.boards))) [
        | none ↦ err no_boards_available
        | some b ↦ ok b.id
      ]

  -- The sponsor's board, if it is there and has an opening.
  unfoldable pub sponsor_opening : Engine Amount → ℕ → Option ℕ
  sponsor_opening e sponsor_id = elim (lookup sponsor_id e.member_boards) [
    | none ↦ none
    | some board_id ↦ elim (lookup board_id e.boards) [
      | none ↦ none
      | some b ↦ if is_some (first_open_position b) then some board_id else none
    ]
  ]

  unfoldable pub find_placement_board : Engine Amount → ℕ → Result BoardPlanError ℕ
  unfolding sponsor_opening
  find_placement_board e sponsor_id = elim e.config.re_entry_position [
    | bottom ↦ oldest_board_with_opening e
    | sponsor_board ↦ elim (sponsor_opening e sponsor_id) [
      | some board_id ↦ ok board_id
      | none ↦ oldest_board_with_opening e
    ]
  ]

  -- The write `positions[pos] = Some(m); last_activity_at = timestamp`, and the index entry.
  unfoldable pub seat_member : Engine Amount → ℕ → Board → ℕ → ℕ → ℤ → Engine Amount
  seat_member e board_id b pos m timestamp = record e {
    boards =
        insert board_id
          (record b { positions = set b.positions pos (some m); last_activity_at = timestamp })
          e.boards;
    member_boards = insert m board_id e.member_boards;
  }

  unfoldable pub displace : Engine Amount → ℕ → Engine Amount
  displace e m = record e { displaced_members = e.displaced_members ++ m ∷ [] }

  -- Seats a member in the first opening of a board, or reports that this cannot be done.
  unfoldable pub seat_on : Engine Amount → ℕ → ℕ → ℤ → Option (Engine Amount)
  unfolding seat_member
  seat_on e board_id m timestamp = elim (lookup board_id e.boards) [
    | none ↦ none
    | some b ↦ elim (first_open_position b) [
      | none ↦ none
      | some pos ↦ some (seat_member e board_id b pos m timestamp)
    ]
  ]

module _ {Amount : Type 0} where
  -- Where the cycled member goes: back on a board, or to the displaced members.
  unfoldable pub seat_or_displace :
      Engine Amount → ℕ → ℕ → Option (Engine Amount) → Engine Amount × Option ℕ
  unfolding displace
  seat_or_displace e m target none = (displace e m, none)
  seat_or_displace e m target (some e') = (e', some target)

  unfoldable pub re_enter_at :
      Engine Amount → ℕ → ℤ → Result BoardPlanError ℕ → Engine Amount × Option ℕ
  unfolding seat_or_displace seat_on
  re_enter_at e m timestamp (err x) = (displace e m, none)
  re_enter_at e m timestamp (ok target) = seat_or_displace e m target (seat_on e target m timestamp)

  unfoldable pub sponsor_or_self : Engine Amount → ℕ → ℕ
  sponsor_or_self e m = elim (lookup m e.sponsor_map) [ none ↦ m | some s ↦ s ]

  unfoldable pub re_enter : Engine Amount → ℕ → ℤ → Engine Amount × Option ℕ
  unfolding re_enter_at sponsor_or_self
  re_enter e m timestamp =
      if e.config.re_entry_enabled
      then re_enter_at e m timestamp (find_placement_board e (sponsor_or_self e m))
      else (displace e m, none)

  -- The guards of `process_cycles`: the board and its root, if it is there, full and has one.
  unfoldable pub root_of_full : Engine Amount → ℕ → Option (Board × ℕ)
  root_of_full e board_id = elim (lookup board_id e.boards) [
    | none ↦ none
    | some board ↦
        if is_full board
        then elim (get_or board.positions 0 none) [ none ↦ none | some m ↦ some (board, m) ]
        else none
  ]

  -- Calls `cycle` on a board that is there and full.
  unfoldable pub cycle_if_full :
      (Engine Amount → ℕ → Engine Amount × List CycleEvent)
      → Engine Amount
      → ℕ
      → Engine Amount × List CycleEvent
  cycle_if_full cycle e id = elim (lookup id e.boards) [
    | none ↦ (e, [])
    | some b ↦ if is_full b then cycle e id else (e, [])
  ]

  -- The same for each listed board, when its turn comes.
  unfoldable pub cascade :
      (Engine Amount → ℕ → Engine Amount × List CycleEvent)
      → List ℕ
      → Engine Amount
      → Engine Amount × List CycleEvent
  unfolding cycle_if_full
  cascade cycle [] e = (e, [])
  cascade cycle (id ∷ ids) e =
      let (e', events) = cycle_if_full cycle e id in
      let (e'', more) = cascade cycle ids e' in (e'', events ++ more)

-- The subtree's members, moved to the positions of the new board from `new_pos` on, and their
-- index entries. (An index outside the old board reads as open; `subtree_indices` gives none.)
unfoldable pub move_subtree :
    List (Option ℕ)
    → ℕ
    → ℕ
    → List ℕ
    → List (Option ℕ) × List (ℕ × ℕ)
    → List (Option ℕ) × List (ℕ × ℕ)
move_subtree old id new_pos [] (positions, index) = (positions, index)
move_subtree old id new_pos (i ∷ is) (positions, index) = elim (get_or old i none) [
  | none ↦ move_subtree old id (suc new_pos) is (positions, index)
  | some m ↦
      move_subtree old id (suc new_pos) is (set positions new_pos (some m), insert m id index)
]

-- The boards that one cycle may have filled, in the order in which they are looked at.
unfoldable pub cascade_boards : CycleEvent → List ℕ
cascade_boards event = elim event.re_entry_board [
  | none ↦ event.new_boards
  | some r ↦ r ∷ event.new_boards
]

-- `new_v4 n` is the n-th identifier that the process draws.
module _ {Amount : Type 0} (new_v4 : ℕ → ℕ) where
  unfoldable pub new_board : Engine Amount → ℤ → Option ℕ → Engine Amount × Board
  unfolding Board.new
  new_board e timestamp parent_board_id = (
    record e { next_board_seq = e.next_board_seq + 1; drawn = e.drawn + 1 },
    Board.new (new_v4 e.drawn) e.total_positions timestamp parent_board_id e.next_board_seq,
  )

  -- One round of the loop of `split_board`.
  unfoldable pub split_child : Engine Amount → Board → ℤ → ℕ → Engine Amount × ℕ
  unfolding new_board move_subtree
  split_child e board timestamp child_index =
      let (e', b) = new_board e timestamp (some board.id) in
      let (positions, index) =
        move_subtree board.positions b.id 0
          (subtree_indices child_index e.width (e.total_positions - 1))
          (b.positions, e'.member_boards) in
      (
        record e' {
          boards = insert b.id (record b { positions = positions }) e'.boards;
          member_boards = index;
        },
        b.id,
      )

  unfoldable pub split_from : ℕ → ℕ → Engine Amount → Board → ℤ → Engine Amount × List ℕ
  unfolding split_child
  split_from zero child_index e board timestamp = (e, [])
  split_from (suc rounds) child_index e board timestamp =
      let (e', id) = split_child e board timestamp child_index in
      let (e'', ids) = split_from rounds (child_index + 1) e' board timestamp in (e'', id ∷ ids)

  unfoldable pub split_board : Engine Amount → Board → ℤ → Engine Amount × List ℕ
  unfolding split_from
  split_board e board timestamp = split_from e.width 1 e board timestamp

  -- The cycle of a full board whose root is `cycled_member`, before the cascade.
  unfoldable pub cycle_out : Engine Amount → ℕ → Board → ℤ → ℕ → Engine Amount × CycleEvent
  unfolding split_board re_enter
  cycle_out e board_id board timestamp cycled_member =
      let (e₁, new_ids) = split_board e board timestamp in
      let e₂ = record e₁ {
        boards = remove board_id e₁.boards;
        member_boards = remove cycled_member e₁.member_boards;
      } in
      let (e₃, re_entry) = re_enter e₂ cycled_member timestamp in
      (
        e₃,
        record {
          board_id = board_id;
          cycled_member = cycled_member;
          new_boards = new_ids;
          re_entry_board = re_entry;
        },
      )

  -- The body of `process_cycles` behind its guards; `cycle` is its recursive call. The boards that
  -- the event names are tried in order, the re-entry board first.
  unfoldable pub cycle_and_cascade :
      (Engine Amount → ℕ → Engine Amount × List CycleEvent)
      → Engine Amount
      → ℕ
      → ℤ
      → Option (Board × ℕ)
      → Engine Amount × List CycleEvent
  unfolding cycle_out cascade cascade_boards
  cycle_and_cascade cycle e board_id timestamp none = (e, [])
  cycle_and_cascade cycle e board_id timestamp (some (board, m)) =
      let (e', event) = cycle_out e board_id board timestamp m in
      let (e'', more) = cascade cycle (cascade_boards event) e' in (e'', event ∷ more)

  -- `process_cycles` at depth `max_cascade_depth - budget`. Returns the events that it appends.
  unfoldable pub process : ℕ → Engine Amount → ℕ → ℤ → Engine Amount × List CycleEvent
  unfolding cycle_and_cascade root_of_full
  process zero e board_id timestamp = (e, [])
  process (suc budget) e board_id timestamp =
      cycle_and_cascade (λ e id. process budget e id timestamp) e board_id timestamp
        (root_of_full e board_id)

  unfoldable pub process_cycles : Engine Amount → ℕ → ℤ → Engine Amount × List CycleEvent
  unfolding process
  process_cycles e board_id timestamp = process e.config.max_cascade_depth e board_id timestamp

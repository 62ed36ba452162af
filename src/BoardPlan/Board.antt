-- ===== src/BoardPlan/Board.antt =====
-- board_plan/board.rs: a board is a complete tree of positions, stored breadth first.
pub mod Count
pub mod Subtree
pub mod Index
use mlmforge.Prelude.{
  ℕ, zero, suc, ◌+◌, ◌-◌, ◌*◌, ◌/◌, Bool, true, false, ◌&&◌, Option, none, some, List, [], ◌∷◌,
  ◌++◌, ltb, leb, ◌==◌, if◌then◌else◌, is_some, replicate, range, filter,
}
use mlmforge.Prelude.Int.{ℤ}

pub record Board : Type 0 where
  pub id : ℕ
  pub positions : List (Option ℕ)
  pub created_at : ℤ
  pub seq : ℕ
  pub last_activity_at : ℤ
  pub parent_board_id : Option ℕ

-- `Board::new`. The identifier that `Uuid::new_v4` draws is the first argument.
unfoldable pub new : ℕ → ℕ → ℤ → Option ℕ → ℕ → Board
new id total_positions timestamp parent_board_id seq = record {
  id = id;
  positions = replicate total_positions none;
  created_at = timestamp;
  seq = seq;
  last_activity_at = timestamp;
  parent_board_id = parent_board_id;
}

unfoldable pub all_filled : List (Option ℕ) → Bool
all_filled [] = true
all_filled (p ∷ ps) = is_some p && all_filled ps

unfoldable pub is_full : Board → Bool
is_full b = all_filled b.positions

unfoldable pub count_filled : List (Option ℕ) → ℕ
count_filled [] = 0
count_filled (none ∷ ps) = count_filled ps
count_filled (some m ∷ ps) = suc (count_filled ps)

unfoldable pub filled_count : Board → ℕ
filled_count b = count_filled b.positions

-- `positions.iter().position(|p| p.is_none())`
unfoldable pub first_open : List (Option ℕ) → Option ℕ
first_open [] = none
first_open (none ∷ ps) = some 0
first_open (some m ∷ ps) = elim (first_open ps) [ none ↦ none | some i ↦ some (suc i) ]

unfoldable pub first_open_position : Board → Option ℕ
first_open_position b = first_open b.positions

unfoldable pub occupants : List (Option ℕ) → List ℕ
occupants [] = []
occupants (none ∷ ps) = occupants ps
occupants (some m ∷ ps) = m ∷ occupants ps

unfoldable pub members : Board → List ℕ
members b = occupants b.positions

-- The loop `for _ in 0..=height`, on the rounds left.
unfoldable pub add_levels : ℕ → ℕ → ℕ → ℕ → ℕ
add_levels zero w level_size total = total
add_levels (suc rounds) w level_size total =
    add_levels rounds w (level_size * w) (total + level_size)

unfoldable pub total_positions : ℕ → ℕ → ℕ
unfolding add_levels
total_positions width height = add_levels (suc height) width 1 0

unfoldable pub parent_index : ℕ → ℕ → Option ℕ
parent_index index width = if index == 0 then none else some ((index - 1) / width)

unfoldable pub child_indices : ℕ → ℕ → List ℕ
child_indices index width = range (width * index + 1) width

-- The `while let` over the queue. Each round pops one index.
unfoldable pub visit : ℕ → ℕ → ℕ → List ℕ → List ℕ
unfolding child_indices
visit zero width max_index queue = []
visit (suc fuel) width max_index [] = []
visit (suc fuel) width max_index (idx ∷ queue) = elim (ltb max_index idx) [
  | true ↦ visit fuel width max_index queue
  | false ↦
      idx
      ∷ visit fuel width max_index
          (queue ++ filter (λ child. leb child max_index) (child_indices idx width))
]

-- No index is queued twice, so `max_index + 1` rounds are enough.
unfoldable pub subtree_indices : ℕ → ℕ → ℕ → List ℕ
unfolding visit
subtree_indices root_index width max_index = visit (max_index + 2) width max_index (root_index ∷ [])

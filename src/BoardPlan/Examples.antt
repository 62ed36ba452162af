-- ===== src/BoardPlan/Examples.antt =====
-- The board plan's tests, on a plan of width 2 and height 1, and its theorems at concrete inputs.
use mathlib.Core.List.{Mem}
use mlmforge.Prelude.{
  ℕ, ◌+◌, ◌≡◌, refl, true, false, none, some, [], ◌∷◌, arith, length, sum_over, range, All, map,
  ◌-◌,
}
use mlmforge.Prelude.Int.{pos}
use mlmforge.Prelude.Results.{ok}
use mlmforge.Prelude.Assoc.{lookup, insert, remove}
use mlmforge.BoardPlan.Board.{
  is_full, all_filled, first_open, first_open_position, total_positions, subtree_indices,
  parent_index, child_indices,
}
use mlmforge.BoardPlan.Board.Subtree.{over_subtrees, over_subtrees-range}
use mlmforge.BoardPlan.Config.{BoardPlanConfig, bottom}
use mlmforge.BoardPlan.Engine.{
  Engine, process_cycles, find_placement_board, sort_by_age, oldest_board_with_opening,
}
use mlmforge.BoardPlan.Engine.Ops.{new, add_member, dissolve_board}
use mlmforge.BoardPlan.Engine.Conserve.{IsSound, occurrences}
use mlmforge.BoardPlan.Engine.Conserve.Cycle.{process_cycles-Keeps}
use mlmforge.BoardPlan.Engine.Conserve.Members.{add_member-occurrences, dissolve_board-Keeps, added}
use mlmforge.BoardPlan.Board.Index.{parent_index-child_indices}

sizes : (total_positions 2 1 ≡ 3) × (total_positions 5 4 ≡ 781)
unfolding total_positions
sizes = (refl, refl)

subtree : subtree_indices 1 2 14 ≡ 1 ∷ 3 ∷ 4 ∷ 7 ∷ 8 ∷ 9 ∷ 10 ∷ []
unfolding subtree_indices
subtree = refl

abbrev config : BoardPlanConfig ℕ
config = record {
  cycle_commission = 100;
  re_entry_enabled = true;
  re_entry_position = bottom;
  max_cycles_per_period = 3;
  max_cascade_depth = 10;
  stall_threshold_periods = 2;
  inactive_compression = false;
}

-- Identifiers from 1000 on.
abbrev new_v4 : ℕ → ℕ
new_v4 n = n + 1000

-- A board of members 1 and 2, with one opening.
abbrev two_joined : Engine ℕ
two_joined = record {
  width = 2;
  height = 1;
  total_positions = 3;
  boards =
      (
        1000,
        record {
          id = 1000;
          positions = some 1 ∷ some 2 ∷ none ∷ [];
          created_at = pos 0;
          seq = 0;
          last_activity_at = pos 5;
          parent_board_id = none;
        },
      )
      ∷ [];
  member_boards = (1, 1000) ∷ (2, 1000) ∷ [];
  sponsor_map = (1, 1) ∷ (2, 1) ∷ [];
  displaced_members = [];
  next_board_seq = 1;
  config = config;
  drawn = 1;
}

-- The same board, full.
abbrev full : Engine ℕ
full = record two_joined {
  boards =
      (
        1000,
        record {
          id = 1000;
          positions = some 1 ∷ some 2 ∷ some 3 ∷ [];
          created_at = pos 0;
          seq = 0;
          last_activity_at = pos 5;
          parent_board_id = none;
        },
      )
      ∷ [];
  member_boards = (1, 1000) ∷ (2, 1000) ∷ (3, 1000) ∷ [];
}

-- The third member fills the board: it splits, and member 1 enters the board of member 2.
third_joins :
    map (λ e. e.1.positions) (add_member new_v4 two_joined 3 1 (pos 6)).0.boards
    ≡ (some 2 ∷ some 1 ∷ none ∷ []) ∷ (some 3 ∷ none ∷ none ∷ []) ∷ []
unfolding add_member lookup find_placement_board sort_by_age is_full all_filled
    oldest_board_with_opening first_open_position first_open insert process_cycles remove
    subtree_indices
third_joins = refl

starts : (e : Engine ℕ) × (new new_v4 2 1 config (pos 0) 0 ≡ ok e) × (length e.boards ≡ 1)
unfolding new total_positions
starts = (_, refl, refl)

distinct : (i j : ℕ) → new_v4 i ≡ new_v4 j → i ≡ j
distinct i j h = omega arith

two_joined-IsSound : IsSound new_v4 two_joined
unfolding total_positions lookup
two_joined-IsSound = record {
  wide = omega arith;
  tall = omega arith;
  sized_total = refl;
  sized = (refl, tt);
  fresh = λ j h. ground arith;
}

full-IsSound : IsSound new_v4 full
unfolding total_positions lookup
full-IsSound = record {
  wide = omega arith;
  tall = omega arith;
  sized_total = refl;
  sized = (refl, tt);
  fresh = λ j h. ground arith;
}

process_cycles-Keeps_example :
    IsSound new_v4 (process_cycles new_v4 full 1000 (pos 6)).0
    × ((u : ℕ) → occurrences u (process_cycles new_v4 full 1000 (pos 6)).0 ≡ occurrences u full)
process_cycles-Keeps_example = process_cycles-Keeps new_v4 distinct full 1000 (pos 6) full-IsSound

add_member-occurrences_example :
    let (e', r) = add_member new_v4 two_joined 3 1 (pos 6) in
    IsSound new_v4 e' × ((u : ℕ) → occurrences u e' ≡ occurrences u two_joined + added u 3 r)
add_member-occurrences_example =
    add_member-occurrences new_v4 distinct two_joined 3 1 (pos 6) two_joined-IsSound

dissolve_board-Keeps_example :
    let e' = (dissolve_board new_v4 two_joined 1000 (pos 6)).0 in
    IsSound new_v4 e' × ((u : ℕ) → occurrences u e' ≡ occurrences u two_joined)
dissolve_board-Keeps_example =
    dissolve_board-Keeps new_v4 distinct two_joined 1000 (pos 6) two_joined-IsSound

over_subtrees-range_example :
    over_subtrees (λ i. i) 2 1 2 (total_positions 2 3 - 1)
    ≡ sum_over (λ i. i) (range 1 (total_positions 2 3 - 1))
over_subtrees-range_example = over_subtrees-range 2 2 (omega arith) (λ i. i)

parent_index-child_indices_example :
    All (λ c. parent_index c 3 ≡ some 4) (child_indices 4 3)
    × ((c : ℕ) → parent_index c 3 ≡ some 4 → Mem c (child_indices 4 3))
parent_index-child_indices_example = parent_index-child_indices 4 3 (omega arith)

-- ===== src/BoardPlan/Board/Count.antt =====
-- How often a member stands on a board, and what a write changes of it.
use mlmforge.Prelude.{
  ℕ, zero, suc, ◌+◌, ◌<◌, ◌≡◌, refl, true, Option, none, some, List, [], ◌∷◌, arith, ◌==◌,
  if◌then◌else◌, length, set, get_or, replicate, sum_over, sum_over-set,
}
use mlmforge.BoardPlan.Board.{first_open, all_filled, occupants}

-- 1 where the position holds the member, 0 elsewhere.
abbrev pub seat : ℕ → Option ℕ → ℕ
seat u none = 0
seat u (some m) = if m == u then 1 else 0

abbrev pub seats : ℕ → List (Option ℕ) → ℕ
seats u = sum_over (seat u)

pub seats-replicate : (u n : ℕ) → seats u (replicate n none) ≡ 0
seats-replicate u zero = refl
seats-replicate u (suc n) = omega (arith, seats-replicate u n)

-- The first open position is in range, and open.
pub first_open-lt :
    (ps : List (Option ℕ)) (i : ℕ)
    → first_open ps ≡ some i
    → (i < length ps) × (get_or ps i none ≡ none)
unfolding first_open
first_open-lt [] i h = cc
first_open-lt (none ∷ ps) zero h = (omega arith, refl)
first_open-lt (none ∷ ps) (suc i) h = cc
first_open-lt (some m ∷ ps) zero h = ground arith
first_open-lt (some m ∷ ps) (suc i) h = ground (arith, first_open-lt ps i)

-- Seating a member in the first open position adds that seat and no other.
pub seats-fill :
    (u m : ℕ) (ps : List (Option ℕ)) (i : ℕ)
    → first_open ps ≡ some i
    → seats u (set ps i (some m)) ≡ seats u ps + seat u (some m)
seats-fill u m ps i h =
    ground (
      arith,
      first_open-lt ps i h,
      sum_over-set (seat u) ps i (some m) none (first_open-lt ps i h).0,
    )

-- A full board has no open position, and any other has one.
pub first_open-none : (ps : List (Option ℕ)) → all_filled ps ≡ true → first_open ps ≡ none
unfolding first_open all_filled
first_open-none [] h = refl
first_open-none (none ∷ ps) h = cc
first_open-none (some m ∷ ps) h = ground (arith, first_open-none ps h)

-- The list of a board's members holds each as often as the board does.
pub sum_over-occupants :
    (u : ℕ) (ps : List (Option ℕ)) → sum_over (λ m. seat u (some m)) (occupants ps) ≡ seats u ps
unfolding occupants
sum_over-occupants u [] = refl
sum_over-occupants u (none ∷ ps) = omega (arith, sum_over-occupants u ps)
sum_over-occupants u (some m ∷ ps) = omega (arith, sum_over-occupants u ps)

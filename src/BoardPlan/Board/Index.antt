-- ===== src/BoardPlan/Board/Index.antt =====
-- `parent_index` and `child_indices` of board_plan/board.rs.
use mathlib.Core.List.{Mem, mem-cons_self, mem-cons_of_mem}
use native.Mathlib.Nat.{div-eq_of_lt-le, div-add-mod, mod-lt}
use native.Mathlib.Decide.{ℕ_discrete}
use mlmforge.Prelude.{ℕ, zero, suc, ◌+◌, ◌-◌, ◌*◌, ◌/◌, ◌≤◌, ◌<◌, ◌≡◌, ap, some, arith, range, All}
use mlmforge.BoardPlan.Board.{parent_index, child_indices}

-- The parent of an index, by its bounds.
parent_index-some : (c w i : ℕ) → w * i + 1 ≤ c → c < w * i + 1 + w → parent_index c w ≡ some i
unfolding parent_index
parent_index-some c w i lo hi =
    let quotient : (c - 1) / w ≡ i =
      div-eq_of_lt-le {k = i} w {m = c - 1} (omega arith) (omega arith) in
    rw quotient (ground arith)

parent_index_bounds :
    (c w i : ℕ) → 1 ≤ w → parent_index c w ≡ some i → (w * i + 1 ≤ c) × (c < w * i + 1 + w)
unfolding parent_index
parent_index_bounds zero w i wide h = absurd (ground arith)
parent_index_bounds (suc c) w i wide h =
    let split = div-add-mod c w in
    let rest = mod-lt c {m = w} wide in
    let one : suc c - 1 ≡ c = omega arith in
    let quotient : c / w ≡ i = ground (arith, one) in
    let scaled = ap (λ (t : ℕ). w * t) quotient in (omega arith, omega arith)

Mem-range : (a n c : ℕ) → a ≤ c → c < a + n → Mem c (range a n)
Mem-range a zero c lo hi = absurd (omega arith)
Mem-range a (suc n) c lo hi = elim (ℕ_discrete c a) [
  | yes e ↦ rw e mem-cons_self
  | no e ↦ mem-cons_of_mem a (Mem-range (suc a) n c (omega arith) (omega arith))
]

All-range {κ} : (P : ℕ → Type κ) (a n : ℕ) → ((c : ℕ) → a ≤ c → c < a + n → P c) → All P (range a n)
All-range P a zero h = tt
All-range P a (suc n) h = (
  h a (omega arith) (omega arith),
  All-range P (suc a) n (λ c lo hi. h c (omega arith) (omega arith)),
)

-- On a board of positive width the children of an index are the indices that have it as parent,
-- all of them and no other.
pub parent_index-child_indices :
    (i w : ℕ)
    → 1 ≤ w
    → All (λ c. parent_index c w ≡ some i) (child_indices i w)
      × ((c : ℕ) → parent_index c w ≡ some i → Mem c (child_indices i w))
unfolding child_indices
parent_index-child_indices i w wide = (
  All-range (λ c. parent_index c w ≡ some i) (w * i + 1) w
      (λ c lo hi. parent_index-some c w i lo hi),
  λ c h. let (lo, hi) = parent_index_bounds c w i wide h in Mem-range (w * i + 1) w c lo hi,
)

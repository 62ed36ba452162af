-- ===== src/BoardPlan/Board/Subtree.antt =====
-- The breadth-first walk `subtree_indices` of board_plan/board.rs on a complete tree of positions.
use native.Mathlib.Nat.{mul_comm, zero-add, mul-one, mul-zero, add-zero}
use mathlib.Core.List.{append-nil, append_assoc}
use mlmforge.Prelude.{
  ℕ, zero, suc, ◌+◌, ◌-◌, ◌*◌, ◌≤◌, ◌<◌, ◌≡◌, refl, sym, ap, ◌∙◌, false, List, [], ◌∷◌, ◌++◌, arith,
  ltb, leb, length, range, filter, sum_over, sum_over-append, All, length-range, length-append,
}
use mlmforge.BoardPlan.Board.{add_levels, total_positions, child_indices, visit, subtree_indices}

-- The indices below `n` consecutive ones, level by level, `levels` levels of them.
abbrev pub level_order : ℕ → ℕ → ℕ → ℕ → List ℕ
level_order zero w a n = []
level_order (suc levels) w a n = range a n ++ level_order levels w (w * a + 1) (w * n)

-- How many these are.
abbrev pub block : ℕ → ℕ → ℕ → ℕ
block zero w n = 0
block (suc levels) w n = n + block levels w (w * n)

pub block_mono : (levels w n m : ℕ) → n ≤ m → block levels w n ≤ block levels w m
block_mono zero w n m h = omega arith
block_mono (suc levels) w n m h =
    let step : w * n ≤ w * m = grind arith in
    omega (arith, block_mono levels w (w * n) (w * m) step)

add_levels-block : (levels w n t : ℕ) → add_levels levels w n t ≡ t + block levels w n
unfolding add_levels
add_levels-block zero w n t = omega arith
add_levels-block (suc levels) w n t =
    add_levels-block levels w (n * w) (t + n) ∙ rw (mul_comm n w) (omega arith)

pub total_positions-block : (w h : ℕ) → total_positions w h ≡ 1 + block h w w
unfolding total_positions
total_positions-block w h = add_levels-block (suc h) w 1 0 ∙ rw (zero-add, mul-one)

-- The queued children of a run of indices.
abbrev kids : ℕ → ℕ → List ℕ → List ℕ
kids w max [] = []
kids w max (x ∷ xs) = filter (λ c. leb c max) (child_indices x w) ++ kids w max xs

visit-nil : (fuel w max : ℕ) → visit fuel w max [] ≡ []
unfolding visit
visit-nil zero w max = refl
visit-nil (suc fuel) w max = refl

-- One level: what the queue holds is listed, and its children are queued behind the rest.
visit-level :
    (n fuel w max : ℕ) (xs ys : List ℕ)
    → n ≡ length xs + fuel
    → All (λ x. x ≤ max) xs
    → visit n w max (xs ++ ys) ≡ xs ++ visit fuel w max (ys ++ kids w max xs)
unfolding visit
visit-level n fuel w max [] ys e a = let e' : n ≡ fuel = omega arith in rw (e', append-nil)
visit-level zero fuel w max (x ∷ xs) ys e a = absurd (omega arith)
visit-level (suc n) fuel w max (x ∷ xs) ys e a =
    let small : ltb max x ≡ false = ground arith in
    let new = filter (λ c. leb c max) (child_indices x w) in
    rw (small, visit)
      (ap (◌∷◌ x) (
        rw append_assoc (
          visit-level n fuel w max xs (ys ++ new) (omega arith) a.1
          ∙ rw (append_assoc ys new (kids w max xs)))))

filter-range_all : (a n max : ℕ) → a + n ≤ max + 1 → filter (λ c. leb c max) (range a n) ≡ range a n
filter-range_all a zero max h = refl
filter-range_all a (suc n) max h = ground (arith, filter-range_all (suc a) n max)

filter-range_none : (a n max : ℕ) → max < a → filter (λ c. leb c max) (range a n) ≡ []
filter-range_none a zero max h = refl
filter-range_none a (suc n) max h = ground (arith, filter-range_none (suc a) n max)

range-append : (a n m : ℕ) → range a n ++ range (a + n) m ≡ range a (n + m)
range-append a zero m = rw (add-zero, zero-add)
range-append a (suc n) m =
    let e : a + suc n ≡ suc a + n = omega arith in
    let e' : suc n + m ≡ suc (n + m) = omega arith in
    rw (e, e') (ap (◌∷◌ a) (range-append (suc a) n m))

kids-range :
    (w max a n : ℕ) → w * (a + n) ≤ max → kids w max (range a n) ≡ range (w * a + 1) (w * n)
unfolding child_indices
kids-range w max a zero h = rw mul-zero
kids-range w max a (suc n) h =
    let next : w * suc a + 1 ≡ w * a + 1 + w = omega arith in
    let more : w * suc n ≡ w + w * n = omega arith in
    let rest : w * (suc a + n) ≤ max = omega arith in
    rw
      (
        filter-range_all (w * a + 1) w max (omega arith),
        kids-range w max (suc a) n rest,
        next,
        more,
      )
      (range-append (w * a + 1) w (w * n))

kids-range_none : (w max a n : ℕ) → max < w * a + 1 → kids w max (range a n) ≡ []
unfolding child_indices
kids-range_none w max a zero h = refl
kids-range_none w max a (suc n) h =
    rw (filter-range_none (w * a + 1) w max h) (kids-range_none w max (suc a) n (omega arith))

range-All : (a n max : ℕ) → a + n ≤ max + 1 → All (λ x. x ≤ max) (range a n)
range-All a zero max h = tt
range-All a (suc n) max h = (omega arith, range-All (suc a) n max (omega arith))

mul_mono : (w a b : ℕ) → a ≤ b → w * a ≤ w * b
mul_mono w a b h = grind arith

-- On a run of indices within one level of a complete tree, the walk lists the levels below it.
-- `s` and `m` give that whole level, and `levels` counts the levels under it.
visit-level_order :
    (levels w max s m a n fuel : ℕ)
    → w * s + 1 ≡ s + m
    → s + block (suc levels) w m ≡ max + 1
    → s ≤ a
    → a + n ≤ s + m
    → block (suc levels) w n ≤ fuel
    → visit fuel w max (range a n) ≡ level_order (suc levels) w a n
visit-level_order zero w max s m a n fuel next end lo hi enough =
    ap (visit fuel w max) (sym (append-nil (range a n)))
    ∙ visit-level fuel (fuel - n) w max (range a n) [] (omega (arith, length-range a n))
        (range-All a n max (omega arith))
    ∙ ap (◌++◌ (range a n)) (
        ap (visit (fuel - n) w max) (kids-range_none w max a n (omega (arith, mul_mono w s a lo)))
        ∙ visit-nil (fuel - n) w max)
visit-level_order (suc levels) w max s m a n fuel next end lo hi enough =
    let up = mul_mono w s a lo in
    let top = mul_mono w (a + n) (s + m) hi in
    ap (visit fuel w max) (sym (append-nil (range a n)))
    ∙ visit-level fuel (fuel - n) w max (range a n) [] (omega (arith, length-range a n))
        (range-All a n max (omega arith))
    ∙ ap (◌++◌ (range a n)) (
        ap (visit (fuel - n) w max) (kids-range w max a n (omega arith))
        ∙ visit-level_order levels w max (w * s + 1) (w * m) (w * a + 1) (w * n) (fuel - n)
            (omega (arith, ap (λ (t : ℕ). w * t) next)) (omega arith) (omega arith) (omega arith)
            (omega arith))

module _ (f : ℕ → ℕ) where
  sum_over-range :
      (a n m : ℕ)
      → sum_over f (range a n) + sum_over f (range (a + n) m) ≡ sum_over f (range a (n + m))
  sum_over-range a n m =
      sym (sum_over-append f (range a n) (range (a + n) m)) ∙ ap (sum_over f) (range-append a n m)

  -- The levels below two neighbouring runs are those below the run of both.
  sum_over-level_order :
      (levels w a n m : ℕ)
      → sum_over f (level_order levels w a n) + sum_over f (level_order levels w (a + n) m)
        ≡ sum_over f (level_order levels w a (n + m))
  sum_over-level_order zero w a n m = omega arith
  sum_over-level_order (suc levels) w a n m =
      let e : w * (a + n) + 1 ≡ w * a + 1 + w * n = omega arith in
      let e' : w * (n + m) ≡ w * n + w * m = omega arith in
      let ih = sum_over-level_order levels w (w * a + 1) (w * n) (w * m) in
      rw (e, e')
        (omega (
          arith,
          ih,
          sum_over-range a n m,
          sum_over-append f (range a n) (level_order levels w (w * a + 1) (w * n)),
          sum_over-append f (range (a + n) m) (level_order levels w (w * a + 1 + w * n) (w * m)),
          sum_over-append f (range a (n + m)) (level_order levels w (w * a + 1) (w * n + w * m)),
        ))

  pub sum_over-level_order_none : (levels w a : ℕ) → sum_over f (level_order levels w a 0) ≡ 0
  sum_over-level_order_none zero w a = refl
  sum_over-level_order_none (suc levels) w a =
      rw mul-zero (sum_over-level_order_none levels w (w * a + 1))

  -- From a whole level down, the levels are one run of indices.
  sum_over-level_order_whole :
      (levels w a n : ℕ)
      → w * a + 1 ≡ a + n
      → sum_over f (level_order levels w a n) ≡ sum_over f (range a (block levels w n))
  sum_over-level_order_whole zero w a n e = refl
  sum_over-level_order_whole (suc levels) w a n e =
      let below =
        sum_over-level_order_whole levels w (w * a + 1) (w * n)
          (omega (arith, ap (λ (t : ℕ). w * t) e)) in
      sum_over-append f (range a n) (level_order levels w (w * a + 1) (w * n))
      ∙ ap (◌+◌ (sum_over f (range a n)))
          (below ∙ ap (λ t. sum_over f (range t (block levels w (w * n)))) e)
      ∙ sum_over-range a n (block levels w (w * n))

  -- The subtrees of `rounds` neighbouring children of the root.
  abbrev pub over_subtrees : ℕ → ℕ → ℕ → ℕ → ℕ
  over_subtrees zero child w max = 0
  over_subtrees (suc rounds) child w max =
      sum_over f (subtree_indices child w max) + over_subtrees rounds (child + 1) w max

module _ (w h : ℕ) (wide : 1 ≤ w) where
  -- The fuel of `subtree_indices` is enough on a complete tree.
  pub subtree_indices-level_order :
      (child : ℕ)
      → 1 ≤ child
      → child ≤ w
      → subtree_indices child w (total_positions w (suc h) - 1) ≡ level_order (suc h) w child 1
  unfolding subtree_indices
  subtree_indices-level_order child lo hi =
      let total = total_positions-block w (suc h) in
      let small = block_mono (suc h) w 1 w wide in
      visit-level_order h w (total_positions w (suc h) - 1) 1 w child 1
        (total_positions w (suc h) - 1 + 2) (omega arith) (omega arith) lo (omega arith)
        (omega arith)

  over_subtrees-level_order :
      (f : ℕ → ℕ) (rounds child : ℕ)
      → 1 ≤ child
      → child + rounds ≤ w + 1
      → over_subtrees f rounds child w (total_positions w (suc h) - 1)
        ≡ sum_over f (level_order (suc h) w child rounds)
  over_subtrees-level_order f zero child lo hi = sym (sum_over-level_order_none f (suc h) w child)
  over_subtrees-level_order f (suc rounds) child lo hi =
      let one : 1 + rounds ≡ suc rounds = omega arith in
      rw
        (
          subtree_indices-level_order child lo (omega arith),
          over_subtrees-level_order f rounds (child + 1) (omega arith) (omega arith),
        )
        (sum_over-level_order f (suc h) w child 1 rounds
          ∙ ap (λ n. sum_over f (level_order (suc h) w child n)) one)

  -- The subtrees of the root's `w` children hold every position but the root, each once: any
  -- weight of positions sums to the same over the subtrees as over the positions from 1.
  pub over_subtrees-range :
      (f : ℕ → ℕ)
      → over_subtrees f w 1 w (total_positions w (suc h) - 1)
        ≡ sum_over f (range 1 (total_positions w (suc h) - 1))
  over_subtrees-range f =
      let total = total_positions-block w (suc h) in
      let e : block (suc h) w w ≡ total_positions w (suc h) - 1 = omega arith in
      over_subtrees-level_order f w 1 (omega arith) (omega arith)
      ∙ sum_over-level_order_whole f (suc h) w 1 w (omega arith)
      ∙ ap (λ t. sum_over f (range 1 t)) e

pub length-level_order : (levels w a n : ℕ) → length (level_order levels w a n) ≡ block levels w n
length-level_order zero w a n = refl
length-level_order (suc levels) w a n =
    length-append (range a n) (level_order levels w (w * a + 1) (w * n))
    ∙ rw (length-range a n, length-level_order levels w (w * a + 1) (w * n))

-- ===== src/BoardPlan/Engine/Conserve/Split.antt =====
-- `split_board` of board_plan/engine.rs: the new boards hold what the old one held below its root.
use mlmforge.Prelude.{
  ℕ, zero, suc, ◌+◌, ◌-◌, ◌≤◌, ◌≡◌, ◌≢◌, refl, ap, ◌∙◌, Option, none, some, List, [], ◌∷◌, arith,
  ◌==◌, Bool-cases, inl, inr, length, set, get_or, range, replicate, sum_over, length-set,
  length-replicate, sum_over-set, Option-cases, ==_iff,
}
use mlmforge.Prelude.Int.{ℤ}
use mlmforge.Prelude.Assoc.{
  lookup, insert, remove, weight, total-insert, total-remove, AllValues-lookup, AllValues-remove,
  lookup-remove-none, lookup-insert, AllValues-insert,
}
use mlmforge.BoardPlan.Board.{Board, total_positions, subtree_indices}
use mlmforge.BoardPlan.Board.Count.{seat, seats, seats-replicate}
use mlmforge.BoardPlan.Board.Subtree.{
  block_mono, total_positions-block, subtree_indices-level_order, length-level_order, over_subtrees,
  over_subtrees-range,
}
use mlmforge.BoardPlan.Engine.{Engine, move_subtree, split_child, split_from, split_board}
use mlmforge.BoardPlan.Engine.Conserve.{occurrences, IsSound}

module _ {ℓ} {A : Type ℓ} where
  get_or-set_ne :
      (xs : List A) (i j : ℕ) (v d : A) → i ≢ j → get_or (set xs i v) j d ≡ get_or xs j d
  get_or-set_ne [] i j v d h = refl
  get_or-set_ne (x ∷ xs) zero zero v d h = absurd (h refl)
  get_or-set_ne (x ∷ xs) zero (suc j) v d h = refl
  get_or-set_ne (x ∷ xs) (suc i) zero v d h = refl
  get_or-set_ne (x ∷ xs) (suc i) (suc j) v d h = get_or-set_ne xs i j v d (λ e. h (ap suc e))

  get_or-replicate : (n j : ℕ) (d : A) → get_or (replicate n d) j d ≡ d
  get_or-replicate zero j d = refl
  get_or-replicate (suc n) zero d = refl
  get_or-replicate (suc n) (suc j) d = get_or-replicate n j d

  -- A weight of a list's entries is the sum of the weights at its indices.
  sum_over-range-suc :
      (f : A → ℕ) (x d : A) (xs : List A) (a n : ℕ)
      → sum_over (λ i. f (get_or (x ∷ xs) i d)) (range (suc a) n)
        ≡ sum_over (λ i. f (get_or xs i d)) (range a n)
  sum_over-range-suc f x d xs a zero = refl
  sum_over-range-suc f x d xs a (suc n) = omega (arith, sum_over-range-suc f x d xs (suc a) n)

  sum_over-get_or :
      (f : A → ℕ) (d : A) (xs : List A)
      → sum_over (λ i. f (get_or xs i d)) (range 0 (length xs)) ≡ sum_over f xs
  sum_over-get_or f d [] = refl
  sum_over-get_or f d (x ∷ xs) =
      omega (arith, sum_over-range-suc f x d xs 0 (length xs), sum_over-get_or f d xs)

-- Moved members add up, as long as the positions from `n` on are open and the subtree fits.
seats-move_subtree :
    (u : ℕ) (old : List (Option ℕ)) (id n : ℕ) (is : List ℕ) (ps : List (Option ℕ))
    (index : List (ℕ × ℕ))
    → n + length is ≤ length ps
    → ((j : ℕ) → n ≤ j → get_or ps j none ≡ none)
    → seats u (move_subtree old id n is (ps, index)).0
      ≡ seats u ps + sum_over (λ i. seat u (get_or old i none)) is
unfolding move_subtree
seats-move_subtree u old id n [] ps index room free = omega arith
seats-move_subtree u old id n (i ∷ is) ps index room free =
    elim (Option-cases (get_or old i none)) [
      | inl e ↦
          rw (e, move_subtree)
            (omega (
              arith,
              seats-move_subtree u old id (suc n) is ps index (omega arith)
                  (λ j h. free j (omega arith)),
            ))
      | inr (m, e) ↦
          rw (e, move_subtree)
            (omega (
              arith,
              seats-move_subtree u old id (suc n) is (set ps n (some m)) (insert m id index)
                  (omega (arith, length-set ps n (some m)))
                  (λ j h. get_or-set_ne ps n j (some m) none (omega arith) ∙ free j (omega arith)),
              sum_over-set (seat u) ps n (some m) none (omega arith),
              ap (seat u) (free n (omega arith)),
            ))
    ]

length-move_subtree :
    (old : List (Option ℕ)) (id n : ℕ) (is : List ℕ) (ps : List (Option ℕ)) (index : List (ℕ × ℕ))
    → length (move_subtree old id n is (ps, index)).0 ≡ length ps
unfolding move_subtree
length-move_subtree old id n [] ps index = refl
length-move_subtree old id n (i ∷ is) ps index =
    elim (get_or old i none)
      as (λ o.
        length
          (elim o as (λ _. List (Option ℕ) × List (ℕ × ℕ)) [
            | none ↦ move_subtree old id (suc n) is (ps, index)
            | some m ↦ move_subtree old id (suc n) is (set ps n (some m), insert m id index)
          ]).0
        ≡ length ps) [
          | none ↦ length-move_subtree old id (suc n) is ps index
          | some m ↦
              length-move_subtree old id (suc n) is (set ps n (some m)) (insert m id index)
              ∙ length-set ps n (some m)
        ]

-- What the engine's split adds for one subtree.
abbrev moved : ℕ → Board → ℕ → ℕ
moved u board i = seat u (get_or board.positions i none)

module _ {Amount : Type 0} (new_v4 : ℕ → ℕ)
    (distinct : (i j : ℕ) → new_v4 i ≡ new_v4 j → i ≡ j) where
  subtree_fits :
      (e : Engine Amount) (c : ℕ)
      → IsSound new_v4 e
      → 1 ≤ c
      → c ≤ e.width
      → length (subtree_indices c e.width (e.total_positions - 1)) ≤ e.total_positions
  subtree_fits e c v lo hi =
      let h : e.height ≡ suc (e.height - 1) = omega arith in
      let size = v.sized_total ∙ ap (total_positions e.width) h in
      let walk = subtree_indices-level_order e.width (e.height - 1) v.wide c lo hi in
      omega (
        arith,
        ap (λ t. length (subtree_indices c e.width (t - 1))) size,
        ap length walk,
        length-level_order (suc (e.height - 1)) e.width c 1,
        block_mono (suc (e.height - 1)) e.width 1 e.width v.wide,
        total_positions-block e.width (suc (e.height - 1)),
      )

  -- The board that one round of the split makes.
  abbrev child_board : Engine Amount → Board → ℤ → ℕ → Board
  child_board e board timestamp c = record {
    id = new_v4 e.drawn;
    positions =
        (move_subtree board.positions (new_v4 e.drawn) 0
          (subtree_indices c e.width (e.total_positions - 1))
          (replicate e.total_positions none, e.member_boards)).0;
    created_at = timestamp;
    seq = e.next_board_seq;
    last_activity_at = timestamp;
    parent_board_id = some board.id;
  }

  length-child_board :
      (e : Engine Amount) (board : Board) (timestamp : ℤ) (c : ℕ)
      → length (child_board e board timestamp c).positions ≡ e.total_positions
  length-child_board e board timestamp c =
      length-move_subtree board.positions (new_v4 e.drawn) 0
        (subtree_indices c e.width (e.total_positions - 1)) (replicate e.total_positions none)
        e.member_boards
      ∙ length-replicate e.total_positions none

  seats-child_board :
      (u : ℕ) (e : Engine Amount) (board : Board) (timestamp : ℤ) (c : ℕ)
      → IsSound new_v4 e
      → 1 ≤ c
      → c ≤ e.width
      → seats u (child_board e board timestamp c).positions
        ≡ sum_over (moved u board) (subtree_indices c e.width (e.total_positions - 1))
  seats-child_board u e board timestamp c v lo hi = omega (
    arith,
    seats-move_subtree u board.positions (new_v4 e.drawn) 0
        (subtree_indices c e.width (e.total_positions - 1)) (replicate e.total_positions none)
        e.member_boards
        (omega
          (arith, subtree_fits e c v lo hi, length-replicate {A = Option ℕ} e.total_positions none))
        (λ j _. get_or-replicate e.total_positions j none),
    seats-replicate u e.total_positions,
  )

  split_child-IsSound :
      (e : Engine Amount) (board : Board) (timestamp : ℤ) (c : ℕ)
      → IsSound new_v4 e
      → IsSound new_v4 (split_child new_v4 e board timestamp c).0
  unfolding split_child
  split_child-IsSound e board timestamp c v = record {
    wide = v.wide;
    tall = v.tall;
    sized_total = v.sized_total;
    sized =
        AllValues-insert (λ b. length b.positions ≡ e.total_positions) (new_v4 e.drawn)
          (child_board e board timestamp c) e.boards (length-child_board e board timestamp c)
          v.sized;
    fresh = λ j h. elim (Bool-cases (new_v4 e.drawn == new_v4 j)) [
      | inl same ↦ absurd (omega (arith, distinct e.drawn j ((==_iff _ _).0 same)))
      | inr other ↦
          rw
            (
              lookup-insert (new_v4 e.drawn) (new_v4 j) (child_board e board timestamp c) e.boards,
              other,
            )
            (v.fresh j (omega arith))
    ];
  }

  occurrences-split_child :
      (u : ℕ) (e : Engine Amount) (board : Board) (timestamp : ℤ) (c : ℕ)
      → IsSound new_v4 e
      → 1 ≤ c
      → c ≤ e.width
      → occurrences u (split_child new_v4 e board timestamp c).0
        ≡ occurrences u e
          + sum_over (moved u board) (subtree_indices c e.width (e.total_positions - 1))
  unfolding split_child
  occurrences-split_child u e board timestamp c v lo hi = omega (
    arith,
    total-insert (λ b. seats u b.positions) (new_v4 e.drawn) (child_board e board timestamp c)
        e.boards,
    ap (weight (λ b. seats u b.positions)) (v.fresh e.drawn (omega arith)),
    seats-child_board u e board timestamp c v lo hi,
  )

  lookup-split_child :
      (e : Engine Amount) (board : Board) (timestamp : ℤ) (c k : ℕ) (b : Board)
      → IsSound new_v4 e
      → lookup k e.boards ≡ some b
      → lookup k (split_child new_v4 e board timestamp c).0.boards ≡ some b
  unfolding split_child
  lookup-split_child e board timestamp c k b v h = elim (Bool-cases (new_v4 e.drawn == k)) [
    | inl same ↦
        absurd (ground (arith, v.fresh e.drawn (omega arith), (==_iff (new_v4 e.drawn) k).0 same))
    | inr other ↦
        rw (lookup-insert (new_v4 e.drawn) k (child_board e board timestamp c) e.boards, other) h
  ]

  -- The whole split: the engine stays sound, boards that were there stay, and the new boards add what
  -- the subtrees of the old one hold.
  split_from_lem :
      (rounds c : ℕ) (e : Engine Amount) (board : Board) (timestamp : ℤ) (k : ℕ) (b : Board)
      → IsSound new_v4 e
      → lookup k e.boards ≡ some b
      → 1 ≤ c
      → c + rounds ≤ e.width + 1
      → IsSound new_v4 (split_from new_v4 rounds c e board timestamp).0
        × (lookup k (split_from new_v4 rounds c e board timestamp).0.boards ≡ some b)
        × ((u : ℕ)
            → occurrences u (split_from new_v4 rounds c e board timestamp).0
              ≡ occurrences u e
                + over_subtrees (moved u board) rounds c e.width (e.total_positions - 1))
  unfolding split_from
  split_from_lem zero c e board timestamp k b v here lo hi = (v, here, λ u. omega arith)
  split_from_lem (suc rounds) c e board timestamp k b v here lo hi =
      let e' = (split_child new_v4 e board timestamp c).0 in
      let v' = split_child-IsSound e board timestamp c v in
      let here' = lookup-split_child e board timestamp c k b v here in
      let (w, there, grown) =
        split_from_lem rounds (c + 1) e' board timestamp k b v' here' (omega arith) (omega arith) in
      (
        w,
        there,
        λ u.
            omega
              (arith, grown u, occurrences-split_child u e board timestamp c v lo (omega arith)),
      )

  -- A board's seats are its root and what the subtrees of the root hold.
  seats-subtrees :
      (u : ℕ) (e : Engine Amount) (board : Board)
      → IsSound new_v4 e
      → length board.positions ≡ e.total_positions
      → seats u board.positions
        ≡ seat u (get_or board.positions 0 none)
          + over_subtrees (moved u board) e.width 1 e.width (e.total_positions - 1)
  seats-subtrees u e board v size =
      let h : e.height ≡ suc (e.height - 1) = omega arith in
      let total = v.sized_total ∙ ap (total_positions e.width) h in
      let one : e.total_positions ≡ suc (e.total_positions - 1) =
        omega (arith, total, total_positions-block e.width (suc (e.height - 1))) in
      omega (
        arith,
        sum_over-get_or (seat u) none board.positions,
        ap (λ n. sum_over (moved u board) (range 0 n)) (size ∙ one),
        ap (λ t. over_subtrees (moved u board) e.width 1 e.width (t - 1)) total,
        ap (λ t. sum_over (moved u board) (range 1 (t - 1))) total,
        over_subtrees-range e.width (e.height - 1) v.wide (moved u board),
      )

  -- The split of a board and its removal: the engine stays sound, and only the seat of the board's
  -- root is gone.
  pub split_board_lem :
      (e : Engine Amount) (board : Board) (timestamp : ℤ) (k : ℕ) (index : List (ℕ × ℕ))
      → IsSound new_v4 e
      → lookup k e.boards ≡ some board
      → let e' = (split_board new_v4 e board timestamp).0 in
        let e'' = record e' { boards = remove k e'.boards; member_boards = index } in
        IsSound new_v4 e''
        × ((u : ℕ) → occurrences u e'' + seat u (get_or board.positions 0 none) ≡ occurrences u e)
  unfolding split_board
  split_board_lem e board timestamp k index v here =
      let size =
        AllValues-lookup (λ b. length b.positions ≡ e.total_positions) k e.boards board v.sized
          here in
      let e' = (split_from new_v4 e.width 1 e board timestamp).0 in
      let (w, there, grown) =
        split_from_lem e.width 1 e board timestamp k board v here (omega arith) (omega arith) in
      (
        record {
          wide = w.wide;
          tall = w.tall;
          sized_total = w.sized_total;
          sized =
              AllValues-remove (λ b. length b.positions ≡ e'.total_positions) k e'.boards w.sized;
          fresh = λ j h. lookup-remove-none k (new_v4 j) e'.boards (w.fresh j h);
        },
        λ u. omega (
          arith,
          grown u,
          total-remove (λ b. seats u b.positions) k e'.boards,
          ap (weight (λ b. seats u b.positions)) there,
          seats-subtrees u e board v size,
        ),
      )

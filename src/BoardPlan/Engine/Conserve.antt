-- ===== src/BoardPlan/Engine/Conserve.antt =====
-- Every member keeps their seats: what the engine's steps change of how often a member is held, on
-- the boards and among the displaced members together.
pub mod Split
pub mod Cycle
pub mod Members
use mlmforge.Prelude.{
  ℕ, zero, suc, ◌+◌, ◌≤◌, ◌≡◌, refl, ◌∙◌, Option, none, some, List, [], ◌∷◌, ◌++◌, arith, ◌==◌,
  Bool-cases, inl, inr, if◌then◌else◌, length, sum_over, sum_over-append,
}
use mlmforge.Prelude.Assoc.{
  lookup, insert, remove, total, weight, total-insert, total-remove, lookup-insert,
  lookup-remove-none, AllValues, AllValues-insert, AllValues-remove,
}
use mlmforge.BoardPlan.Board.{Board}
use mlmforge.BoardPlan.Board
use mlmforge.BoardPlan.Board.Count.{seat, seats}
use mlmforge.BoardPlan.Engine.{Engine, displace}

abbrev pub on_boards : ℕ → List (ℕ × Board) → ℕ
on_boards u = total (λ b. seats u b.positions)

abbrev pub in_list : ℕ → List ℕ → ℕ
in_list u = sum_over (λ m. seat u (some m))

-- How often the engine holds a member.
abbrev pub occurrences : {Amount : Type 0} → ℕ → Engine Amount → ℕ
occurrences u e = on_boards u e.boards + in_list u e.displaced_members

-- The dimensions are in order, every board has that size, and no board is filed under an identifier
-- that is still to be drawn.
pub record IsSound {Amount : Type 0} (new_v4 : ℕ → ℕ) (e : Engine Amount) : Type 0 where
  pub wide : 1 ≤ e.width
  pub tall : 1 ≤ e.height
  pub sized_total : e.total_positions ≡ Board.total_positions e.width e.height
  pub sized : AllValues (λ b. length b.positions ≡ e.total_positions) e.boards
  pub fresh : (j : ℕ) → e.drawn ≤ j → lookup (new_v4 j) e.boards ≡ none

module _ {Amount : Type 0} (new_v4 : ℕ → ℕ) where
  -- The step keeps the engine sound and holds every member as often as before.
  abbrev pub Keeps : Engine Amount → Engine Amount → Type 0
  Keeps e e' = IsSound new_v4 e → IsSound new_v4 e' × ((u : ℕ) → occurrences u e' ≡ occurrences u e)

  -- The same, with one more place for `m`.
  abbrev pub Adds : ℕ → Engine Amount → Engine Amount → Type 0
  Adds m e e' =
      IsSound new_v4 e
      → IsSound new_v4 e' × ((u : ℕ) → occurrences u e' ≡ occurrences u e + seat u (some m))

  pub Keeps-refl : (e : Engine Amount) → Keeps e e
  Keeps-refl e v = (v, λ u. refl)

  pub Keeps-trans : (e f g : Engine Amount) → Keeps e f → Keeps f g → Keeps e g
  Keeps-trans e f g a b v = let (w, p) = a v in let (x, q) = b w in (x, λ u. q u ∙ p u)

  pub Adds-Keeps : (m : ℕ) (e f g : Engine Amount) → Adds m e f → Keeps f g → Adds m e g
  Adds-Keeps m e f g a b v = let (w, p) = a v in let (x, q) = b w in (x, λ u. q u ∙ p u)

  pub Keeps-Adds : (m : ℕ) (e f g : Engine Amount) → Keeps e f → Adds m f g → Adds m e g
  Keeps-Adds m e f g a b v =
      let (w, p) = a v in let (x, q) = b w in (x, λ u. omega (arith, p u, q u))

  -- A board that is there may be replaced by one of its size.
  pub replace-IsSound :
      (e : Engine Amount) (k : ℕ) (b b' : Board) (index : List (ℕ × ℕ))
      → lookup k e.boards ≡ some b
      → length b'.positions ≡ e.total_positions
      → IsSound new_v4 e
      → IsSound new_v4 (record e { boards = insert k b' e.boards; member_boards = index })
  replace-IsSound e k b b' index here size v = record {
    wide = v.wide;
    tall = v.tall;
    sized_total = v.sized_total;
    sized =
        AllValues-insert (λ b. length b.positions ≡ e.total_positions) k b' e.boards size v.sized;
    fresh = λ j h. elim (Bool-cases (k == new_v4 j)) [
      | inl same ↦ absurd (ground (arith, v.fresh j h))
      | inr other ↦ rw (lookup-insert k (new_v4 j) b' e.boards, other) (v.fresh j h)
    ];
  }

  pub displace-Adds : (e : Engine Amount) (m : ℕ) → Adds m e (displace e m)
  unfolding displace
  displace-Adds e m v = (
    record {
      wide = v.wide;
      tall = v.tall;
      sized_total = v.sized_total;
      sized = v.sized;
      fresh = v.fresh;
    },
    λ u. omega (arith, sum_over-append (λ m. seat u (some m)) e.displaced_members (m ∷ [])),
  )

-- ===== src/Tree/Arena/Slots.antt =====
-- Reads of an arena's slots after a change, and how often an index stands in a list.
use mlmforge.Prelude.{
  ℕ, zero, suc, ◌+◌, ◌≤◌, ◌<◌, ◌≡◌, ◌≢◌, refl, ap, false, not, Option, none, some, List, [], ◌∷◌,
  ◌++◌, arith, ltb, ◌==◌, if◌then◌else◌, Bool-cases, inl, inr, length, get_or, filter, contains,
  All,
}
use mlmforge.Tree.Node.{Node}
use mlmforge.Tree.Arena.{Arena, blank, nil, node_at, modify}

module _ {ℓ} {A : Type ℓ} where
  pub length-modify : (xs : List A) (i : ℕ) (f : A → A) → length (modify xs i f) ≡ length xs
  length-modify [] i f = refl
  length-modify (x ∷ xs) zero f = refl
  length-modify (x ∷ xs) (suc i) f = ap suc (length-modify xs i f)

  pub get_or-modify :
      (xs : List A) (i j : ℕ) (f : A → A) (d : A)
      → i < length xs
      → get_or (modify xs i f) j d ≡ (if i == j then f (get_or xs j d) else get_or xs j d)
  get_or-modify [] i j f d h = absurd (omega arith)
  get_or-modify (x ∷ xs) zero zero f d h = refl
  get_or-modify (x ∷ xs) zero (suc j) f d h = ground arith
  get_or-modify (x ∷ xs) (suc i) zero f d h = ground arith
  get_or-modify (x ∷ xs) (suc i) (suc j) f d h =
      ground (arith, get_or-modify xs i j f d (omega arith))

  pub get_or-concat :
      (xs : List A) (y : A) (j : ℕ) (d : A)
      → get_or (xs ++ y ∷ []) j d ≡ (if length xs == j then y else get_or xs j d)
  get_or-concat [] y zero d = ground arith
  get_or-concat [] y (suc j) d = ground arith
  get_or-concat (x ∷ xs) y zero d = ground arith
  get_or-concat (x ∷ xs) y (suc j) d = ground (arith, get_or-concat xs y j d)

  pub get_or-past : (xs : List A) (j : ℕ) (d : A) → length xs ≤ j → get_or xs j d ≡ d
  get_or-past [] j d h = refl
  get_or-past (x ∷ xs) zero d h = absurd (omega arith)
  get_or-past (x ∷ xs) (suc j) d h = get_or-past xs j d (omega arith)

-- A slot in use is in range.
pub live-lt : (a : Arena) (i : ℕ) → (node_at a i).user_id ≢ nil → i < length a.nodes
live-lt a i h = elim (Bool-cases (ltb i (length a.nodes))) [
  | inl e ↦ ground arith
  | inr e ↦ absurd (h (ap (λ (n : Node). n.user_id) (get_or-past a.nodes i blank (ground arith))))
]

-- How often an index stands in a list.
abbrev pub times : ℕ → List ℕ → ℕ
times c [] = 0
times c (x ∷ xs) = (if x == c then 1 else 0) + times c xs

-- 1 if the pointer is to that index.
abbrev pub points : Option ℕ → ℕ → ℕ
points none i = 0
points (some p) i = if p == i then 1 else 0

pub times-concat :
    (c : ℕ) (xs : List ℕ) (y : ℕ) → times c (xs ++ y ∷ []) ≡ times c xs + (if y == c then 1 else 0)
times-concat c [] y = omega arith
times-concat c (x ∷ xs) y = omega (arith, times-concat c xs y)

pub times-retain :
    (c i : ℕ) (xs : List ℕ)
    → times c (filter (λ x. not (x == i)) xs) ≡ (if i == c then 0 else times c xs)
times-retain c i [] = ground arith
times-retain c i (x ∷ xs) = ground (arith, times-retain c i xs)

pub filter-times : (i : ℕ) (xs : List ℕ) → times i xs ≡ 0 → filter (λ x. not (x == i)) xs ≡ xs
filter-times i [] h = refl
filter-times i (x ∷ xs) h = ground (arith, filter-times i xs)

pub contains-times : (c : ℕ) (xs : List ℕ) → contains c xs ≡ false → times c xs ≡ 0
unfolding contains
contains-times c [] h = refl
contains-times c (x ∷ xs) h = ground (arith, contains-times c xs)

pub contains-ltb : (c : ℕ) (xs : List ℕ) → contains c xs ≡ ltb 0 (times c xs)
unfolding contains
contains-ltb c [] = refl
contains-ltb c (x ∷ xs) = ground (arith, contains-ltb c xs)

-- What holds of every index that stands in a list.
pub All-times {κ} : (P : ℕ → Type κ) (xs : List ℕ) → ((c : ℕ) → 1 ≤ times c xs → P c) → All P xs
All-times P [] h = tt
All-times P (x ∷ xs) h = (h x (ground arith), All-times P xs (λ c le. h c (ground arith)))

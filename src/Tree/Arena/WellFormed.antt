-- ===== src/Tree/Arena/WellFormed.antt =====
-- What holds of an arena between two operations, each part a statement about its slots.
use mlmforge.Prelude.{
  ℕ, ◌+◌, ◌≤◌, ◌<◌, ◌≡◌, ◌≢◌, ◌↔◌, refl, Bool, ◌&&◌, Option, none, some, List, [], ◌∷◌, arith, ltb,
  ◌==◌, if◌then◌else◌, length, length-append,
}
use mlmforge.Prelude.Assoc.{lookup, HasDistinctKeys}
use mlmforge.Tree.Node.{Node}
use mlmforge.Tree.Arena.{Arena, blank, nil, node_at, alloc_at}
use mlmforge.Tree.Arena.Slots.{
  times, points, length-modify, get_or-modify, get_or-concat, get_or-past,
}

-- The slots of an arena, by index.
abbrev pub Slots : Type 0
Slots = ℕ → Node

module _ (slots : Slots) where
  -- A slot that nobody holds is cleared.
  abbrev pub AreCleared : Type 0
  AreCleared = (i : ℕ) → (slots i).user_id ≡ nil → slots i ≡ blank

  -- A node stands in the list of its parent once, and in no other list of children.
  abbrev pub AreChildren : Type 0
  AreChildren = (i c : ℕ) → times c (slots i).children ≡ points (slots c).parent i

  abbrev pub AreSponsored : Type 0
  AreSponsored = (i s : ℕ) → times s (slots i).sponsored ≡ points (slots s).sponsor i

  -- A node is one level below its parent.
  abbrev pub AreLevels : Type 0
  AreLevels = (c i : ℕ) → (slots c).parent ≡ some i → (slots c).depth ≡ (slots i).depth + 1

  -- The sponsor of a node ranks before it, so no chain of sponsors returns.
  abbrev pub AreRanked : (ℕ → ℕ) → Type 0
  AreRanked rank = (s i : ℕ) → (slots s).sponsor ≡ some i → rank i < rank s

  -- The index leads to the slot of each user, and nowhere else.
  abbrev pub IsIndex : List (ℕ × ℕ) → Type 0
  IsIndex index =
      HasDistinctKeys index
      × (lookup nil index ≡ none)
      × ((user_id i : ℕ)
          → user_id ≢ nil
          → (lookup user_id index ≡ some i) ↔ ((slots i).user_id ≡ user_id))

  -- The root is the one node without a parent.
  abbrev pub IsRoot : Option ℕ → Type 0
  IsRoot root = (r : ℕ) → (root ≡ some r) ↔ (((slots r).user_id ≢ nil) × ((slots r).parent ≡ none))

  abbrev pub is_free : ℕ → ℕ → Bool
  is_free size i = (slots i).user_id == nil && ltb i size

  -- The free list holds every cleared slot once.
  abbrev pub AreFree : ℕ → List ℕ → Type 0
  AreFree size free_list = (i : ℕ) → times i free_list ≡ (if is_free size i then 1 else 0)

pub record AreWellFormed (slots : Slots) (index : List (ℕ × ℕ)) (root : Option ℕ) : Type 0 where
  pub cleared : AreCleared slots
  pub children : AreChildren slots
  pub sponsored : AreSponsored slots
  pub levels : AreLevels slots
  pub ranked : (rank : ℕ → ℕ) × AreRanked slots rank
  pub indexed : IsIndex slots index
  pub rooted : IsRoot slots root

pub record IsWellFormed (a : Arena) : Type 0 where
  pub held : AreWellFormed (node_at a) a.index a.root
  pub freed : AreFree (node_at a) (length a.nodes) a.free_list

-- What a slot that was allocated for a node looks like, and all others.
module _ (a : Arena) (node : Node) where
  head_free :
      (i : ℕ) (left : List ℕ)
      → AreFree (node_at a) (length a.nodes) (i ∷ left)
      → ((node_at a i).user_id ≡ nil) × (i < length a.nodes) × (times i left ≡ 0)
  head_free i left free = let one = free i in (ground arith, ground arith, ground arith)

  pub alloc_at-at :
      (free : List ℕ) (j : ℕ)
      → AreFree (node_at a) (length a.nodes) free
      → node_at (alloc_at a node free).0 j
        ≡ (if (alloc_at a node free).1 == j then node else node_at a j)
  alloc_at-at [] j h = get_or-concat a.nodes node j blank
  alloc_at-at (i ∷ left) j h = get_or-modify a.nodes i j (λ _. node) blank (head_free i left h).1

  pub alloc_at-fresh :
      (free : List ℕ)
      → AreCleared (node_at a)
      → AreFree (node_at a) (length a.nodes) free
      → node_at a (alloc_at a node free).1 ≡ blank
  alloc_at-fresh [] cleared h = get_or-past a.nodes (length a.nodes) blank (omega arith)
  alloc_at-fresh (i ∷ left) cleared h = cleared i (head_free i left h).0

  pub alloc_at-free :
      (free : List ℕ)
      → node.user_id ≢ nil
      → AreFree (node_at a) (length a.nodes) free
      → let a' = (alloc_at a node free).0 in AreFree (node_at a') (length a'.nodes) a'.free_list
  alloc_at-free [] live h j =
      rw (get_or-concat a.nodes node j blank, length-append a.nodes (node ∷ []))
        (ground (arith, h j, live))
  alloc_at-free (i ∷ left) live h j =
      let (dead, inside, once) = head_free i left h in
      rw (get_or-modify a.nodes i j (λ _. node) blank inside, length-modify a.nodes i (λ _. node))
        (ground (arith, h j, live))

  pub alloc_at-grows : (free : List ℕ) → length a.nodes ≤ length (alloc_at a node free).0.nodes
  alloc_at-grows [] = omega (arith, length-append a.nodes (node ∷ []))
  alloc_at-grows (i ∷ left) = omega (arith, length-modify a.nodes i (λ _. node))

  pub alloc_at-keeps :
      (free : List ℕ)
      → ((alloc_at a node free).0.index ≡ a.index) × ((alloc_at a node free).0.root ≡ a.root)
  alloc_at-keeps [] = (refl, refl)
  alloc_at-keeps (i ∷ left) = (refl, refl)

-- Which slots are free depends on who holds them only.
pub AreFree-same :
    (f g : Slots) (size size' : ℕ) (free : List ℕ)
    → ((i : ℕ) → (g i).user_id ≡ (f i).user_id)
    → size' ≡ size
    → AreFree f size free
    → AreFree g size' free
AreFree-same f g size size' free users sizes h i = rw (sizes, users i) (h i)

-- Who is pointed to holds its slot.
pub parent-live :
    (f : Slots) (c p : ℕ)
    → AreCleared f
    → AreChildren f
    → (f c).parent ≡ some p
    → (f p).user_id ≢ nil
parent-live f c p cleared children h dead =
    let none_listed : times c (f p).children ≡ 0 = rw (cleared p dead) refl in
    let one : times c (f p).children ≡ points (some p) p = rw h at (children p c) in ground arith

pub sponsor-live :
    (f : Slots) (c s : ℕ)
    → AreCleared f
    → AreSponsored f
    → (f c).sponsor ≡ some s
    → (f s).user_id ≢ nil
sponsor-live f c s cleared sponsored h dead =
    let none_listed : times c (f s).sponsored ≡ 0 = rw (cleared s dead) refl in
    let one : times c (f s).sponsored ≡ points (some s) s = rw h at (sponsored s c) in ground arith

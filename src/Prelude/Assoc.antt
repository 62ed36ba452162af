-- ===== src/Prelude/Assoc.antt =====
-- A `HashMap` keyed by numbers: an association list whose keys are distinct, in the order of
-- insertion. No theorem depends on that order.
use Prim.Native.Nat.{ℕ, ◌+◌}
use mathlib.Core.Path.{◌≡◌, refl, subst}
use mathlib.Core.Logic.{◌≢◌, inl, inr}
use mathlib.Core.Bool.{Bool, false}
use mathlib.Core.List.{List, [], ◌∷◌, map}
use mathlib.Core.Option.{Option, none, some}
use native.Mathlib.Omega.{arith}
use mlmforge.Prelude.Tests.{◌==◌, ==_iff, if◌then◌else◌, is_some, Bool-cases}

module _ {ℓ} {V : Type ℓ} where
  unfoldable pub lookup : ℕ → List (ℕ × V) → Option V
  lookup key [] = none
  lookup key (entry ∷ rest) = if entry.0 == key then some entry.1 else lookup key rest

  -- `HashMap::insert`, the old value dropped.
  unfoldable pub insert : ℕ → V → List (ℕ × V) → List (ℕ × V)
  insert key value [] = (key, value) ∷ []
  insert key value (entry ∷ rest) =
      let kept = entry ∷ insert key value rest in
      if entry.0 == key then (key, value) ∷ rest else kept

  -- `HashMap::remove`
  unfoldable pub remove : ℕ → List (ℕ × V) → List (ℕ × V)
  remove key [] = []
  remove key (entry ∷ rest) =
      let kept = entry ∷ remove key rest in if entry.0 == key then rest else kept

  abbrev pub contains_key : ℕ → List (ℕ × V) → Bool
  contains_key key entries = is_some (lookup key entries)

  abbrev pub values : List (ℕ × V) → List V
  values = map λ entry. entry.1

  pub lookup-insert :
      (key other : ℕ) (value : V) (entries : List (ℕ × V))
      → lookup other (insert key value entries)
        ≡ (if key == other then some value else lookup other entries)
  unfolding lookup insert
  lookup-insert key other value [] = ground arith
  lookup-insert key other value (entry ∷ rest) = ground (arith, lookup-insert key other value rest)

  pub lookup-remove_ne :
      (key other : ℕ) (entries : List (ℕ × V))
      → key ≢ other
      → lookup other (remove key entries) ≡ lookup other entries
  unfolding lookup remove
  lookup-remove_ne key other [] ne = refl
  lookup-remove_ne key other (entry ∷ rest) ne = ground (arith, lookup-remove_ne key other rest ne)

  -- What is missing stays missing when any key is removed.
  pub lookup-remove-none :
      (key other : ℕ) (entries : List (ℕ × V))
      → lookup other entries ≡ none
      → lookup other (remove key entries) ≡ none
  unfolding lookup remove
  lookup-remove-none key other [] missing = refl
  lookup-remove-none key other (entry ∷ rest) missing =
      ground (arith, lookup-remove-none key other rest)

  -- The keys of a map, each once.
  abbrev pub HasDistinctKeys : List (ℕ × V) → Type ℓ
  HasDistinctKeys [] = Unit
  HasDistinctKeys (entry ∷ rest) = (lookup entry.0 rest ≡ none) × HasDistinctKeys rest

  pub insert-HasDistinctKeys :
      (key : ℕ) (value : V) (entries : List (ℕ × V))
      → HasDistinctKeys entries
      → HasDistinctKeys (insert key value entries)
  unfolding insert lookup
  insert-HasDistinctKeys key value [] h = (refl, tt)
  insert-HasDistinctKeys key value (entry ∷ rest) (fresh, h) = elim (Bool-cases (entry.0 == key)) [
    | inl e ↦ rw e (subst (λ k. lookup k rest ≡ none) ((==_iff entry.0 key).0 e) fresh, h)
    | inr e ↦
        let differs : key == entry.0 ≡ false = ground arith in
        rw e (rw (lookup-insert, differs) fresh, insert-HasDistinctKeys key value rest h)
  ]

  pub remove-HasDistinctKeys :
      (key : ℕ) (entries : List (ℕ × V))
      → HasDistinctKeys entries
      → HasDistinctKeys (remove key entries)
  unfolding remove
  remove-HasDistinctKeys key [] h = tt
  remove-HasDistinctKeys key (entry ∷ rest) (fresh, h) = elim (Bool-cases (entry.0 == key)) [
    | inl e ↦ rw e h
    | inr e ↦ rw e (lookup-remove-none key entry.0 rest fresh, remove-HasDistinctKeys key rest h)
  ]

  pub lookup-remove :
      (key other : ℕ) (entries : List (ℕ × V))
      → HasDistinctKeys entries
      → lookup other (remove key entries) ≡ (if key == other then none else lookup other entries)
  unfolding lookup remove
  lookup-remove key other [] h = ground arith
  lookup-remove key other (entry ∷ rest) (fresh, h) = elim (Bool-cases (entry.0 == key)) [
    | inl e ↦
        let gone : lookup key rest ≡ none =
          subst (λ k. lookup k rest ≡ none) ((==_iff entry.0 key).0 e) fresh in
        rw e (ground (arith, gone))
    | inr e ↦ ground (arith, lookup-remove key other rest h)
  ]

  -- A weight of the values, summed over the map, and at one key.
  abbrev pub total : (V → ℕ) → List (ℕ × V) → ℕ
  total f [] = 0
  total f (entry ∷ rest) = f entry.1 + total f rest

  abbrev pub weight : (V → ℕ) → Option V → ℕ
  weight f none = 0
  weight f (some value) = f value

  pub total-insert :
      (f : V → ℕ) (key : ℕ) (value : V) (entries : List (ℕ × V))
      → total f (insert key value entries) + weight f (lookup key entries)
        ≡ total f entries + f value
  unfolding lookup insert
  total-insert f key value [] = omega arith
  total-insert f key value (entry ∷ rest) = ground (arith, total-insert f key value rest)

  pub total-remove :
      (f : V → ℕ) (key : ℕ) (entries : List (ℕ × V))
      → total f (remove key entries) + weight f (lookup key entries) ≡ total f entries
  unfolding lookup remove
  total-remove f key [] = omega arith
  total-remove f key (entry ∷ rest) = ground (arith, total-remove f key rest)

  -- A predicate on every value.
  abbrev pub AllValues {κ} : (V → Type κ) → List (ℕ × V) → Type κ
  AllValues P [] = Unit
  AllValues P (entry ∷ rest) = P entry.1 × AllValues P rest

  module _ {κ} (P : V → Type κ) where
    pub AllValues-insert :
        (key : ℕ) (value : V) (entries : List (ℕ × V))
        → P value
        → AllValues P entries
        → AllValues P (insert key value entries)
    unfolding insert
    AllValues-insert key value [] p all = (p, tt)
    AllValues-insert key value (entry ∷ rest) p all =
        ground (arith, AllValues-insert key value rest p all.1)

    pub AllValues-remove :
        (key : ℕ) (entries : List (ℕ × V)) → AllValues P entries → AllValues P (remove key entries)
    unfolding remove
    AllValues-remove key [] all = tt
    AllValues-remove key (entry ∷ rest) all = ground (arith, AllValues-remove key rest all.1)

    pub AllValues-lookup :
        (key : ℕ) (entries : List (ℕ × V)) (value : V)
        → AllValues P entries
        → lookup key entries ≡ some value
        → P value
    unfolding lookup
    AllValues-lookup key [] value all found = cc
    AllValues-lookup key (entry ∷ rest) value all found = elim (Bool-cases (entry.0 == key)) [
      | inl e ↦ let hit : some entry.1 ≡ some value = rw e at found in subst P (cc hit) all.0
      | inr e ↦ AllValues-lookup key rest value all.1 (rw e at found)
    ]

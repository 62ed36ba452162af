-- ===== src/Commission/Finalize/Order.antt =====
-- commission/walk_order.rs: the final numbers of the walks.
use mlmforge.Prelude.{
  ℕ, zero, suc, ◌+◌, ◌%◌, ◌^◌, ◌≤◌, ◌≡◌, refl, sym, ap, ◌∙◌, true, Option, none, some, List, [],
  ◌∷◌, arith, length, get_elem?, ◌==◌, ==_iff, Bool-cases, is_some, ◌⊎◌, inl, inr,
}
use mathlib.Core.Option
use mlmforge.Prelude.Assoc.{lookup, insert, lookup-insert}
use mlmforge.Commission.Types.{VolumeSource, Walk}
use mlmforge.Commission.Finalize.{
  Cmp, less, equal, greater, insert_by, sort_by, number_walks, assign_indexes, compare_walks,
  positions_from,
}

-- The element stands somewhere in the list.
abbrev IsIn {ℓ} : {A : Type ℓ} → A → List A → Type ℓ
IsIn a xs = (i : ℕ) × (get_elem? xs i ≡ some a)

module _ {ℓ} {A : Type ℓ} {x : A} where
  later : (a : A) (xs : List A) → IsIn x xs → IsIn x (a ∷ xs)
  later a xs (i, h) = (suc i, h)

  past : (a b : A) (xs : List A) → IsIn x (a ∷ xs) → IsIn x (a ∷ b ∷ xs)
  past a b xs (zero, h) = (0, h)
  past a b xs (suc i, h) = (suc (suc i), h)

module _ {ℓ} {A : Type ℓ} (cmp : A → A → Cmp) where
  length-insert_by : (a : A) (bs : List A) → length (insert_by cmp a bs) ≡ suc (length bs)
  unfolding insert_by
  length-insert_by a [] = refl
  length-insert_by a (b ∷ bs) =
      elim (cmp b a)
        as (λ c.
          length (elim c [ less ↦ b ∷ insert_by cmp a bs | _ ↦ a ∷ b ∷ bs ])
          ≡ suc (suc (length bs))) [
            | less ↦ ap suc (length-insert_by a bs)
            | equal ↦ refl
            | greater ↦ refl
          ]

  pub length-sort_by : (xs : List A) → length (sort_by cmp xs) ≡ length xs
  unfolding sort_by
  length-sort_by [] = refl
  length-sort_by (x ∷ xs) = length-insert_by x (sort_by cmp xs) ∙ ap suc (length-sort_by xs)

  -- Both ways: what is inserted into and what comes out.
  insert_by-IsIn :
      (a : A) (bs : List A) (i : ℕ) (x : A)
      → get_elem? (a ∷ bs) i ≡ some x
      → IsIn x (insert_by cmp a bs)
  unfolding insert_by
  insert_by-IsIn a [] i x h = (i, h)
  insert_by-IsIn a (b ∷ bs) zero x h =
      elim (cmp b a) as (λ c. IsIn x (elim c [ less ↦ b ∷ insert_by cmp a bs | _ ↦ a ∷ b ∷ bs ])) [
        | less ↦ later _ _ (insert_by-IsIn a bs 0 x h)
        | equal ↦ (0, h)
        | greater ↦ (0, h)
      ]
  insert_by-IsIn a (b ∷ bs) (suc zero) x h =
      elim (cmp b a) as (λ c. IsIn x (elim c [ less ↦ b ∷ insert_by cmp a bs | _ ↦ a ∷ b ∷ bs ])) [
        | less ↦ (0, h)
        | equal ↦ (1, h)
        | greater ↦ (1, h)
      ]
  insert_by-IsIn a (b ∷ bs) (suc (suc i)) x h =
      elim (cmp b a) as (λ c. IsIn x (elim c [ less ↦ b ∷ insert_by cmp a bs | _ ↦ a ∷ b ∷ bs ])) [
        | less ↦ later _ _ (insert_by-IsIn a bs (suc i) x h)
        | equal ↦ (suc (suc i), h)
        | greater ↦ (suc (suc i), h)
      ]

  IsIn-insert_by :
      (a : A) (bs : List A) (i : ℕ) (x : A)
      → get_elem? (insert_by cmp a bs) i ≡ some x
      → IsIn x (a ∷ bs)
  unfolding insert_by
  IsIn-insert_by a [] i x h = (i, h)
  IsIn-insert_by a (b ∷ bs) zero x h =
      (elim (cmp b a)
          as (λ c.
            get_elem? (elim c [ less ↦ b ∷ insert_by cmp a bs | _ ↦ a ∷ b ∷ bs ]) 0 ≡ some x
            → IsIn x (a ∷ b ∷ bs)) [
              | less ↦ λ e. (1, e)
              | equal ↦ λ e. (0, e)
              | greater ↦ λ e. (0, e)
            ])
        h
  IsIn-insert_by a (b ∷ bs) (suc i) x h =
      (elim (cmp b a)
          as (λ c.
            get_elem? (elim c [ less ↦ b ∷ insert_by cmp a bs | _ ↦ a ∷ b ∷ bs ]) (suc i) ≡ some x
            → IsIn x (a ∷ b ∷ bs)) [
              | less ↦ λ e. past _ _ _ (IsIn-insert_by a bs i x e)
              | equal ↦ λ e. (suc i, e)
              | greater ↦ λ e. (suc i, e)
            ])
        h

  sort_by-IsIn : (xs : List A) (i : ℕ) (x : A) → get_elem? xs i ≡ some x → IsIn x (sort_by cmp xs)
  unfolding sort_by
  sort_by-IsIn [] i x h = cc
  sort_by-IsIn (y ∷ ys) zero x h = insert_by-IsIn y (sort_by cmp ys) 0 x h
  sort_by-IsIn (y ∷ ys) (suc i) x h =
      let (j, at) = sort_by-IsIn ys i x h in insert_by-IsIn y (sort_by cmp ys) (suc j) x at

  IsIn-sort_by : (xs : List A) (i : ℕ) (x : A) → get_elem? (sort_by cmp xs) i ≡ some x → IsIn x xs
  unfolding sort_by
  IsIn-sort_by [] i x h = cc
  IsIn-sort_by (y ∷ ys) i x h = back (IsIn-sort_by ys) (IsIn-insert_by y (sort_by cmp ys) i x h)
    where
      back :
          ((j : ℕ) (z : A) → get_elem? (sort_by cmp ys) j ≡ some z → IsIn z ys)
          → IsIn x (y ∷ sort_by cmp ys)
          → IsIn x (y ∷ ys)
      back ih (zero, at) = (0, at)
      back ih (suc j, at) = later _ _ (ih j x at)

-- A walk under a new number.
abbrev pub numbered : ℕ → Walk → Walk
numbered i w = record w { index = i }

number_walks-at :
    (ws : List Walk) (n : ℕ) (remap : List (ℕ × ℕ)) (i : ℕ) (w : Walk)
    → n + length ws ≤ 2 ^ 32
    → get_elem? ws i ≡ some w
    → get_elem? (number_walks n ws remap).0 i ≡ some (numbered (n + i) w)
unfolding number_walks
number_walks-at [] n remap i w room h = cc
number_walks-at (v ∷ ws) n remap zero w room h =
    let here : n % 2 ^ 32 ≡ n + 0 = omega arith in
    ap (λ (j : ℕ). some (numbered j v)) here
    ∙ ap (λ (o : Option Walk). Option.map (numbered (n + 0)) o) h
number_walks-at (v ∷ ws) n remap (suc i) w room h =
    number_walks-at ws (n + 1) (insert v.index (n % 2 ^ 32) remap) i w (omega arith) h
    ∙ ap (λ (j : ℕ). some (numbered j w)) (omega arith)

-- A number that the map gives is that of a walk with that collector id, or was there before.
number_walks-from :
    (ws : List Walk) (n : ℕ) (remap : List (ℕ × ℕ)) (c r : ℕ)
    → n + length ws ≤ 2 ^ 32
    → lookup c (number_walks n ws remap).1 ≡ some r
    → (lookup c remap ≡ some r)
      ⊎ ((i : ℕ) × (w : Walk) × (get_elem? ws i ≡ some w) × (w.index ≡ c) × (r ≡ n + i))
unfolding number_walks
number_walks-from [] n remap c r room h = inl h
number_walks-from (v ∷ ws) n remap c r room h =
    found (number_walks-from ws (n + 1) (insert v.index (n % 2 ^ 32) remap) c r (omega arith) h)
  where
    found :
        ((lookup c (insert v.index (n % 2 ^ 32) remap) ≡ some r)
          ⊎ ((i : ℕ) × (w : Walk) × (get_elem? ws i ≡ some w) × (w.index ≡ c) × (r ≡ n + 1 + i)))
        → (lookup c remap ≡ some r)
          ⊎ ((i : ℕ) × (w : Walk) × (get_elem? (v ∷ ws) i ≡ some w) × (w.index ≡ c) × (r ≡ n + i))
    found (inr (i, w, at, is_c, e)) = inr (suc i, w, at, is_c, omega arith)
    found (inl e) = elim (Bool-cases (v.index == c)) [
      | inl here ↦ inr (
        0,
        v,
        refl,
        (==_iff v.index c).0 here,
        ground (arith, lookup-insert v.index c (n % 2 ^ 32) remap),
      )
      | inr other ↦ inl (ground (arith, lookup-insert v.index c (n % 2 ^ 32) remap))
    ]

is_kept :
    (ws : List Walk) (n : ℕ) (remap : List (ℕ × ℕ)) (c : ℕ)
    → is_some (lookup c remap) ≡ true
    → is_some (lookup c (number_walks n ws remap).1) ≡ true
unfolding number_walks
is_kept [] n remap c h = h
is_kept (v ∷ ws) n remap c h =
    is_kept ws (n + 1) (insert v.index (n % 2 ^ 32) remap) c
      (ground (arith, lookup-insert v.index c (n % 2 ^ 32) remap))

is_mapped :
    (ws : List Walk) (n : ℕ) (remap : List (ℕ × ℕ)) (i : ℕ) (w : Walk)
    → get_elem? ws i ≡ some w
    → is_some (lookup w.index (number_walks n ws remap).1) ≡ true
unfolding number_walks
is_mapped [] n remap i w h = cc
is_mapped (v ∷ ws) n remap zero w h =
    let same : v.index ≡ w.index = cc in
    is_kept ws (n + 1) (insert v.index (n % 2 ^ 32) remap) w.index
      (ground (arith, lookup-insert v.index w.index (n % 2 ^ 32) remap))
is_mapped (v ∷ ws) n remap (suc i) w h =
    is_mapped ws (n + 1) (insert v.index (n % 2 ^ 32) remap) i w h

length-number_walks :
    (ws : List Walk) (n : ℕ) (remap : List (ℕ × ℕ)) → length (number_walks n ws remap).0 ≡ length ws
unfolding number_walks
length-number_walks [] n remap = refl
length-number_walks (w ∷ ws) n remap =
    ap suc (length-number_walks ws (n + 1) (insert w.index (n % 2 ^ 32) remap))

pub length-assign_indexes :
    (walks : List Walk) (volume : List VolumeSource) (rank_ordinals : List (ℕ × ℕ))
    → length (assign_indexes walks volume rank_ordinals).0 ≡ length walks
unfolding assign_indexes
length-assign_indexes walks volume rank_ordinals =
    length-number_walks (sort_by (compare_walks (positions_from 0 volume []) rank_ordinals) walks) 0
      []
    ∙ length-sort_by (compare_walks (positions_from 0 volume []) rank_ordinals) walks

-- If the walks of the collector, 2 ^ 32 at most, carry their positions as collector ids, then
-- `assign_indexes` maps the id of each walk to a final number, and at that position of its result
-- stands that walk, changed in nothing but that it carries the number; and the result has as many
-- walks.
pub assign_indexes-remap :
    (walks : List Walk) (volume : List VolumeSource) (rank_ordinals : List (ℕ × ℕ))
    → length walks ≤ 2 ^ 32
    → ((i : ℕ) (w : Walk) → get_elem? walks i ≡ some w → w.index ≡ i)
    → (c : ℕ) (w : Walk) → get_elem? walks c ≡ some w
    → (i : ℕ) × (lookup c (assign_indexes walks volume rank_ordinals).1 ≡ some i)
      × (get_elem? (assign_indexes walks volume rank_ordinals).0 i ≡ some (numbered i w))
      × (length (assign_indexes walks volume rank_ordinals).0 ≡ length walks)
unfolding assign_indexes lookup
assign_indexes-remap walks volume rank_ordinals room ids c w h =
    let (k, at) = sort_by-IsIn cmp walks c w h in
    let mapped = is_mapped (sort_by cmp walks) 0 [] k w at in
    let (r, e) =
      some_of (lookup c (number_walks 0 (sort_by cmp walks) []).1) (rw (ids c w h) at mapped) in
    let (i, w', at', is_c, r_is) =
      fresh c r (number_walks-from (sort_by cmp walks) 0 [] c r size e) in
    let (j, back) = IsIn-sort_by cmp walks i w' at' in
    let c_is_j : c ≡ j = sym is_c ∙ ids j w' back in
    let same : some w ≡ some w' = sym h ∙ ap (get_elem? walks) c_is_j ∙ back in
    let r_i : r ≡ i = omega arith in
    (
      r,
      e,
      number_at r w (ap (get_elem? (sort_by cmp walks)) r_i ∙ at' ∙ sym same),
      length-assign_indexes walks volume rank_ordinals,
    )
  where
    cmp : Walk → Walk → Cmp
    cmp = compare_walks (positions_from 0 volume []) rank_ordinals

    size : 0 + length (sort_by cmp walks) ≤ 2 ^ 32
    size = omega (arith, length-sort_by cmp walks)

    some_of : (o : Option ℕ) → is_some o ≡ true → (r : ℕ) × (o ≡ some r)
    some_of none e = cc
    some_of (some r) e = (r, refl)

    number_at :
        (i : ℕ) (v : Walk)
        → get_elem? (sort_by cmp walks) i ≡ some v
        → get_elem? (number_walks 0 (sort_by cmp walks) []).0 i ≡ some (numbered i v)
    number_at i v at =
        number_walks-at (sort_by cmp walks) 0 [] i v size at
        ∙ ap (λ (j : ℕ). some (numbered j v)) (omega arith)

    fresh : (c r : ℕ) {B : Type 0} → (lookup {V = ℕ} c [] ≡ some r) ⊎ B → B
    fresh c r (inl e) = cc
    fresh c r (inr b) = b

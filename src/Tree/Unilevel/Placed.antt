-- ===== src/Tree/Unilevel/Placed.antt =====
-- tree/unilevel.rs: well-formed slots stay so when a node is placed at a cleared one.
use mlmforge.Prelude.{
  ℕ, suc, ◌+◌, ◌≡◌, ◌≢◌, refl, ap, ◌∙◌, Option, none, some, List, [], ◌∷◌, ◌++◌, arith, ◌==◌,
  if◌then◌else◌,
}
use mlmforge.Prelude.Int.{ℤ}
use mlmforge.Prelude.Assoc.{lookup, insert, lookup-insert, insert-HasDistinctKeys}
use mlmforge.Tree.Node.{Node}
use mlmforge.Tree.Arena.{blank, nil, add_sponsored}
use mlmforge.Tree.Arena.Slots.{times, times-concat}
use mlmforge.Tree.Arena.WellFormed.{
  Slots, AreCleared, AreChildren, AreSponsored, AreLevels, AreRanked, IsIndex, IsRoot,
  AreWellFormed,
}
use mlmforge.Tree.Unilevel.{child_node, add_child}

-- A new node at a cleared slot, under a parent and a sponsor elsewhere.
-- The slots after the placement, in the steps of the code.
module _ (f : Slots) (i p s user_id depth : ℕ) (enrolled_at : ℤ) where
  created : Slots
  created j = if i == j then child_node user_id p s depth enrolled_at else f j

  under_parent : Slots
  under_parent j = if p == j then add_child i (created j) else created j

  unfoldable pub placed : Slots
  unfolding under_parent created
  placed j = if s == j then add_sponsored i (under_parent j) else under_parent j

module _ (f : Slots) (i p s user_id depth : ℕ) (enrolled_at : ℤ) (fresh : f i ≡ blank)
    (at_parent : (f p).user_id ≢ nil) (at_sponsor : (f s).user_id ≢ nil)
    (named : user_id ≢ nil) where
  -- The slots after the placement.
  abbrev after : Slots
  after = placed f i p s user_id depth enrolled_at

  not_parent : i ≢ p
  not_parent = λ e. at_parent (rw e at (ap (λ (n : Node). n.user_id) fresh))

  not_sponsor : i ≢ s
  not_sponsor = λ e. at_sponsor (rw e at (ap (λ (n : Node). n.user_id) fresh))

  pub placed-user_id : (j : ℕ) → (after j).user_id ≡ (if i == j then user_id else (f j).user_id)
  unfolding placed
  placed-user_id j = ground arith

  pub placed-parent : (j : ℕ) → (after j).parent ≡ (if i == j then some p else (f j).parent)
  unfolding placed
  placed-parent j = ground arith

  pub placed-sponsor : (j : ℕ) → (after j).sponsor ≡ (if i == j then some s else (f j).sponsor)
  unfolding placed
  placed-sponsor j = ground arith

  placed-depth : (j : ℕ) → (after j).depth ≡ (if i == j then depth else (f j).depth)
  unfolding placed
  placed-depth j = ground arith

  placed-children :
      (j : ℕ) → (after j).children ≡ (if p == j then (f j).children ++ i ∷ [] else (f j).children)
  unfolding placed
  placed-children j = ground (arith, not_parent)

  placed-sponsored :
      (j : ℕ)
      → (after j).sponsored ≡ (if s == j then (f j).sponsored ++ i ∷ [] else (f j).sponsored)
  unfolding placed
  placed-sponsored j = ground (arith, not_sponsor)

  placed-other : (j : ℕ) → i ≢ j → p ≢ j → s ≢ j → after j ≡ f j
  unfolding placed
  placed-other j ni np ns = ground (arith, ni, np, ns)

  placed-AreCleared : AreCleared f → AreCleared after
  placed-AreCleared cleared j h =
      let u = placed-user_id j in
      let ni : i ≢ j = λ e. ground (arith, named) in
      let old : (f j).user_id ≡ nil = ground (arith, ni) in
      let np : p ≢ j = λ e. at_parent (rw e old) in
      let ns : s ≢ j = λ e. at_sponsor (rw e old) in placed-other j ni np ns ∙ cleared j old

  placed-AreChildren : AreChildren f → AreChildren after
  placed-AreChildren children j c =
      rw (placed-children j, placed-parent c)
        (ground (arith, children j c, times-concat c (f j).children i))

  placed-AreSponsored : AreSponsored f → AreSponsored after
  placed-AreSponsored sponsored j c =
      rw (placed-sponsored j, placed-sponsor c)
        (ground (arith, sponsored j c, times-concat c (f j).sponsored i))

  -- Nobody points to a cleared slot.
  unused_parent : AreChildren f → (c : ℕ) → (f c).parent ≢ some i
  unused_parent children c e =
      let none_listed : times c (f i).children ≡ 0 = rw fresh refl in
      let one = children i c in ground arith

  unused_sponsor : AreSponsored f → (c : ℕ) → (f c).sponsor ≢ some i
  unused_sponsor sponsored c e =
      let none_listed : times c (f i).sponsored ≡ 0 = rw fresh refl in
      let one = sponsored i c in ground arith

  placed-AreLevels : depth ≡ (f p).depth + 1 → AreChildren f → AreLevels f → AreLevels after
  placed-AreLevels below children levels c j h =
      rw (placed-depth c, placed-depth j)
        (ground
          (arith, placed-parent c, h, below, not_parent, levels c j, unused_parent children c))

  -- The new node ranks after its sponsor, all others as before.
  abbrev next_rank : (ℕ → ℕ) → ℕ → ℕ
  next_rank rank j = if i == j then suc (rank s) else rank j

  placed-AreRanked :
      (rank : ℕ → ℕ) → AreSponsored f → AreRanked f rank → AreRanked after (next_rank rank)
  placed-AreRanked rank sponsored ranked c j h =
      ground (arith, placed-sponsor c, h, not_sponsor, ranked c j, unused_sponsor sponsored c)

  placed-IsIndex :
      (index : List (ℕ × ℕ))
      → lookup user_id index ≡ none
      → IsIndex f index
      → IsIndex after (insert user_id i index)
  placed-IsIndex index new (distinct, nobody, there) =
      let dead : (f i).user_id ≡ nil = ap (λ (n : Node). n.user_id) fresh in
      (
        insert-HasDistinctKeys user_id i index distinct,
        rw lookup-insert (ground (arith, named)),
        λ u j nz.
            let (fits, leads) = there u j nz in
            let leads_new = (there user_id j named).1 in
            rw (lookup-insert, placed-user_id)
              (
                λ h. ground (arith, dead, fits, nz),
                λ h. ground (arith, dead, new, leads, leads_new, nz),
              ),
      )

  placed-IsRoot : (root : Option ℕ) → IsRoot f root → IsRoot after root
  placed-IsRoot root rooted r =
      let dead : (f i).user_id ≡ nil = ap (λ (n : Node). n.user_id) fresh in
      let (is_one, only) = rooted r in
      rw (placed-user_id, placed-parent)
        (λ h. ground (arith, is_one h, dead), λ h. ground (arith, only, h.0, h.1))

  pub placed-AreWellFormed :
      (index : List (ℕ × ℕ)) (root : Option ℕ)
      → depth ≡ (f p).depth + 1
      → lookup user_id index ≡ none
      → AreWellFormed f index root
      → AreWellFormed after (insert user_id i index) root
  placed-AreWellFormed index root below new w = record {
    cleared = placed-AreCleared w.cleared;
    children = placed-AreChildren w.children;
    sponsored = placed-AreSponsored w.sponsored;
    levels = placed-AreLevels below w.children w.levels;
    ranked = (next_rank w.ranked.0, placed-AreRanked w.ranked.0 w.sponsored w.ranked.1);
    indexed = placed-IsIndex index new w.indexed;
    rooted = placed-IsRoot root w.rooted;
  }

-- ===== src/Tree/Arena/Descent.antt =====
-- tree/arena.rs: `is_descendant_of` climbs to the ancestor exactly from the nodes below it.
use mlmforge.Prelude.{
  ℕ, zero, suc, ◌+◌, ◌≡◌, ◌≢◌, ◌↔◌, refl, sym, ap, ◌∙◌, true, Option, none, some, arith, ◌==◌,
  ==_iff, Bool-cases, inl, inr, length,
}
use mathlib.Core.Path.{subst}
use mlmforge.Tree.Arena.{Arena, nil, node_at}
use mlmforge.Tree.Arena.Walk.{walk_up, parent_of, walk_upline, descends, is_descendant_of}
use mlmforge.Tree.Arena.WellFormed.{IsWellFormed}
use mlmforge.Tree.Arena.Upline.{walk_upline-IsWholeWalk}
use mlmforge.Tree.Arena.Downline.{IsBelow, IsBelow-depth}

module _ (a : Arena) (ancestor : ℕ) where
  descends-IsBelow :
      (rounds c : ℕ) (o : Option ℕ)
      → (node_at a c).parent ≡ o
      → descends a ancestor rounds o ≡ true
      → IsBelow a ancestor 0 c
  unfolding descends
  descends-IsBelow zero c o p h = cc
  descends-IsBelow (suc rounds) c none p h = cc
  descends-IsBelow (suc rounds) c (some i) p h = elim (Bool-cases (i == ancestor)) [
    | inl e ↦ IsBelow.first c (p ∙ ap some ((==_iff i ancestor).0 e))
    | inr e ↦
        IsBelow.next c i (descends-IsBelow rounds i (node_at a i).parent refl (rw e at h)) refl p
  ]

  -- The climb has as many rounds as the walk to the root.
  IsBelow-descends :
      (rounds steps : ℕ) {c : ℕ} (o : Option ℕ)
      → (node_at a c).parent ≡ o
      → (walk_up parent_of a 0 rounds steps o).1 ≡ none
      → IsBelow a ancestor 0 c
      → descends a ancestor rounds o ≡ true
  unfolding descends walk_up
  IsBelow-descends zero steps none p ended (IsBelow.first c h) = cc
  IsBelow-descends zero steps none p ended (IsBelow.next c q b w h) = cc
  IsBelow-descends zero steps (some i) p ended b = cc
  IsBelow-descends (suc rounds) steps none p ended (IsBelow.first c h) = cc
  IsBelow-descends (suc rounds) steps none p ended (IsBelow.next c q b w h) = cc
  IsBelow-descends (suc rounds) steps (some i) p ended (IsBelow.first c h) =
      let same : Path (Option ℕ) (some i) (some ancestor) = sym p ∙ h in ground arith
  IsBelow-descends (suc rounds) steps (some i) p ended (IsBelow.next c q b w h) =
      let same : Path (Option ℕ) (some q) (some i) = sym h ∙ p in
      let below : IsBelow a ancestor 0 i = subst (IsBelow a ancestor 0) (cc same) b in
      elim (Bool-cases (i == ancestor)) [
        | inl e ↦ rw e refl
        | inr e ↦ rw e (IsBelow-descends rounds (steps + 1) (node_at a i).parent refl ended below)
      ]

-- In a well-formed arena a node is a descendant of another exactly if it is below it, which
-- `bfs_downline` without a limit gives. No node is its own descendant.
pub is_descendant_of-IsBelow :
    (a : Arena) (user ancestor : ℕ)
    → IsWellFormed a
    → (node_at a user).user_id ≢ nil
    → (is_descendant_of a user ancestor ≡ true) ↔ IsBelow a ancestor 0 user
unfolding is_descendant_of walk_upline
is_descendant_of-IsBelow a user ancestor wf live = elim (Bool-cases (user == ancestor)) [
  | inl e ↦
      let same : user ≡ ancestor = (==_iff user ancestor).0 e in
      let level : (node_at a user).depth ≡ (node_at a ancestor).depth =
        ap (λ (k : ℕ). (node_at a k).depth) same in
      rw e ((λ h. cc), (λ b. let lower = IsBelow-depth a ancestor 0 wf b in absurd (omega arith)))
  | inr e ↦
      let ended = (walk_upline-IsWholeWalk a user 0 wf live).0 in
      rw e (
        descends-IsBelow a ancestor (length a.nodes + 1) user (node_at a user).parent refl,
        IsBelow-descends a ancestor (length a.nodes + 1) 0 (node_at a user).parent refl ended,
      )
]

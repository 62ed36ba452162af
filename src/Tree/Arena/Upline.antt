-- ===== src/Tree/Arena/Upline.antt =====
-- tree/arena.rs: the walks upward end in a well-formed arena, and follow its pointers.
use mathlib.Core.Path.{subst}
use mlmforge.Prelude.{
  ℕ, zero, suc, ◌+◌, ◌≤◌, ◌<◌, ◌≡◌, ◌≢◌, ◌⊎◌, refl, ap, true, false, ◌&&◌, Option, none, some, List,
  [], ◌∷◌, arith, ltb, leb, ◌==◌, ==_iff, Bool-cases, inl, inr, length,
}
use mlmforge.Tree.Node.{Node}
use mlmforge.Tree.Arena.{Arena, nil, node_at}
use mlmforge.Tree.Arena.Walk.{walk_up, parent_of, sponsor_of, walk_upline, walk_sponsor_upline}
use mlmforge.Tree.Arena.Slots.{times, live-lt}
use mlmforge.Tree.Arena.Distinct.{AreBelow, AreDistinct, AreDistinct-length}
use mlmforge.Tree.Arena.WellFormed.{IsWellFormed, parent-live, sponsor-live}

-- The nodes above an index, along the pointers, as far as they go or up to a limit.
pub data Climbs (up : Node → Option ℕ) (a : Arena) : ℕ → List Node → Type 0 where
  stay : (i : ℕ) → Climbs up a i []
  climb :
      (i p : ℕ) {ns : List Node}
      → up (node_at a i) ≡ some p
      → Climbs up a p ns
      → Climbs up a i (node_at a p ∷ ns)

-- All of them, to the one without a pointer.
pub data Tops (up : Node → Option ℕ) (a : Arena) : ℕ → List Node → Type 0 where
  top : (i : ℕ) → up (node_at a i) ≡ none → Tops up a i []
  climb :
      (i p : ℕ) {ns : List Node}
      → up (node_at a i) ≡ some p
      → Tops up a p ns
      → Tops up a i (node_at a p ∷ ns)

module _ (up : Node → Option ℕ) (a : Arena) (rank : ℕ → ℕ) (limit : ℕ) where
  -- A pointer is to a slot in range that ranks before.
  abbrev pub AreUpward : Type 0
  AreUpward = (s i : ℕ) → up (node_at a s) ≡ some i → (rank i < rank s) × (i < length a.nodes)

  -- What a walk from a slot comes to, where some steps were made before.
  abbrev pub IsWalk : ℕ → ℕ → List Node × Option ℕ → Type 0
  IsWalk s steps r =
      (r.1 ≡ none)
      × Climbs up a s r.0
      × (Tops up a s r.0 ⊎ ((1 ≤ limit) × (length r.0 + steps ≡ limit)))
      × ((limit ≡ 0) ⊎ (length r.0 + steps ≤ limit))

  IsWalk-end :
      (s steps : ℕ)
      → up (node_at a s) ≡ none
      → (limit ≡ 0) ⊎ (steps ≤ limit)
      → IsWalk s steps ([], none)
  IsWalk-end s steps h (inl z) = (refl, stay s, inl (top s h), inl z)
  IsWalk-end s steps h (inr le) = (refl, stay s, inl (top s h), inr (omega arith))

  IsWalk-step :
      (s i steps : ℕ) (r : List Node × Option ℕ)
      → up (node_at a s) ≡ some i
      → IsWalk i (steps + 1) r
      → IsWalk s steps (node_at a i ∷ r.0, r.1)
  IsWalk-step s i steps r h (ended, chain, tops, within) =
      (ended, Climbs.climb s i h chain, higher tops, bound within)
    where
      higher :
          Tops up a i r.0 ⊎ ((1 ≤ limit) × (length r.0 + (steps + 1) ≡ limit))
          → Tops up a s (node_at a i ∷ r.0)
            ⊎ ((1 ≤ limit) × (length (node_at a i ∷ r.0) + steps ≡ limit))
      higher (inl t) = inl (Tops.climb s i h t)
      higher (inr (le, e)) = inr (le, omega arith)

      bound :
          (limit ≡ 0) ⊎ (length r.0 + (steps + 1) ≤ limit)
          → (limit ≡ 0) ⊎ (length (node_at a i ∷ r.0) + steps ≤ limit)
      bound (inl z) = inl z
      bound (inr le) = inr (omega arith)

  -- A slot that ranks before all those behind is none of them.
  further-AreDistinct :
      (s i : ℕ) (behind : List ℕ)
      → rank i < rank s
      → AreDistinct behind
      → ((v : ℕ) → 1 ≤ times v behind → rank s ≤ rank v)
      → AreDistinct (i ∷ behind)
  further-AreDistinct s i behind less distinct after c = elim (Bool-cases (i == c)) [
    | inl e ↦
        let same : rank i ≡ rank c = ap rank ((==_iff i c).0 e) in
        elim (Bool-cases (ltb 0 (times c behind))) [
          | inl hit ↦ let late = after c (ground arith) in absurd (omega arith)
          | inr free ↦ ground arith
        ]
    | inr e ↦ let few = distinct c in rw e (omega arith)
  ]

  further-after :
      (s i : ℕ) (behind : List ℕ)
      → rank i < rank s
      → ((v : ℕ) → 1 ≤ times v behind → rank s ≤ rank v)
      → (v : ℕ) → 1 ≤ times v (i ∷ behind)
      → rank i ≤ rank v
  further-after s i behind less after v h = elim (Bool-cases (i == v)) [
    | inl e ↦ let same : rank i ≡ rank v = ap rank ((==_iff i v).0 e) in omega arith
    | inr e ↦ let late = after v (ground arith) in omega arith
  ]

  -- At the limit the walk stops there.
  IsWalk-limit :
      (s steps : ℕ)
      → (ltb 0 limit && leb limit steps) ≡ true
      → (limit ≡ 0) ⊎ (steps ≤ limit)
      → IsWalk s steps ([], none)
  IsWalk-limit s steps e (inl z) = absurd (ground arith)
  IsWalk-limit s steps e (inr le) =
      (refl, stay s, inr (ground arith, ground arith), inr (omega arith))

  room_left :
      (steps : ℕ)
      → (ltb 0 limit && leb limit steps) ≡ false
      → (limit ≡ 0) ⊎ (steps ≤ limit)
      → (limit ≡ 0) ⊎ (steps + 1 ≤ limit)
  room_left steps e (inl z) = inl z
  room_left steps e (inr le) = elim (Bool-cases (ltb 0 limit)) [
    | inl pos ↦ inr (ground arith)
    | inr none_set ↦ inl (ground arith)
  ]

  module _ (upward : AreUpward) where
    -- The slots behind a walk rank after the next one, so none returns, and the walk ends.
    walk_up-IsWalk :
        (rounds steps s : ℕ) (o : Option ℕ) (behind : List ℕ)
        → up (node_at a s) ≡ o
        → AreBelow (length a.nodes) behind
        → AreDistinct behind
        → ((v : ℕ) → 1 ≤ times v behind → rank s ≤ rank v)
        → length a.nodes ≤ length behind + rounds
        → (limit ≡ 0) ⊎ (steps ≤ limit)
        → IsWalk s steps (walk_up up a limit rounds steps o)
    unfolding walk_up
    walk_up-IsWalk zero steps s none behind h below distinct after enough room =
        IsWalk-end s steps h room
    walk_up-IsWalk (suc rounds) steps s none behind h below distinct after enough room =
        IsWalk-end s steps h room
    walk_up-IsWalk zero steps s (some i) behind h below distinct after enough room =
        let (less, inside) = upward s i h in
        let new = further-AreDistinct s i behind less distinct after in
        absurd (omega (arith, AreDistinct-length (length a.nodes) (i ∷ behind) (inside, below) new))
    walk_up-IsWalk (suc rounds) steps s (some i) behind h below distinct after enough room =
        let (less, inside) = upward s i h in
        elim (Bool-cases (ltb 0 limit && leb limit steps)) [
          | inl e ↦ rw e (IsWalk-limit s steps e room)
          | inr e ↦ rw e (
              IsWalk-step s i steps (walk_up up a limit rounds (steps + 1) (up (node_at a i))) h (
                walk_up-IsWalk rounds (steps + 1) i (up (node_at a i)) (i ∷ behind) refl
                  (inside, below) (further-AreDistinct s i behind less distinct after)
                  (further-after s i behind less after) (omega arith) (room_left steps e room)))
        ]

-- What a whole walk comes to: it has ended, is a chain of pointers, and stops above only at the limit.
abbrev pub IsWholeWalk : (Node → Option ℕ) → Arena → ℕ → ℕ → List Node × Option ℕ → Type 0
IsWholeWalk up a limit start r =
    (r.1 ≡ none)
    × Climbs up a start r.0
    × (Tops up a start r.0 ⊎ ((1 ≤ limit) × (length r.0 ≡ limit)))
    × ((limit ≡ 0) ⊎ (length r.0 ≤ limit))

module _ (a : Arena) (start limit : ℕ) (wf : IsWellFormed a)
    (live : (node_at a start).user_id ≢ nil) where
  IsWholeWalk-start :
      (up : Node → Option ℕ) (rank : ℕ → ℕ) (r : List Node × Option ℕ)
      → IsWalk up a rank limit start 0 r
      → IsWholeWalk up a limit start r
  IsWholeWalk-start up rank r (ended, chain, tops, within) =
      let same : length r.0 + 0 ≡ length r.0 = omega arith in
      (
        ended,
        chain,
        subst (λ (n : ℕ). Tops up a start r.0 ⊎ ((1 ≤ limit) × (n ≡ limit))) same tops,
        subst (λ (n : ℕ). (limit ≡ 0) ⊎ (n ≤ limit)) same within,
      )

  whole :
      (up : Node → Option ℕ) (rank : ℕ → ℕ)
      → AreUpward up a rank limit
      → IsWholeWalk up a limit start
          (walk_up up a limit (length a.nodes + 1) 0 (up (node_at a start)))
  whole up rank upward =
      let inside = live-lt a start live in
      IsWholeWalk-start up rank _ (
        walk_up-IsWalk up a rank limit upward (length a.nodes + 1) 0 start (up (node_at a start))
          (start ∷ []) refl (inside, tt) (λ c. ground arith) first (omega arith)
          (inr (omega arith)))
    where
      first : (v : ℕ) → 1 ≤ times v (start ∷ []) → rank start ≤ rank v
      first v h =
          let same : start ≡ v = ground arith in
          let e : rank start ≡ rank v = ap rank same in omega arith

  -- In a well-formed arena the walk upward from a node ends. It gives the nodes above, each the parent of
  -- the one before, and stops below the root only where it has as many as the limit, if there is one
  -- (0 is none), and never has more.
  pub walk_upline-IsWholeWalk : IsWholeWalk parent_of a limit start (walk_upline a start limit)
  unfolding walk_upline
  walk_upline-IsWholeWalk =
      whole parent_of (λ j. (node_at a j).depth)
        (λ s i h. (
          (let below = wf.held.levels s i h in omega arith),
          live-lt a i (parent-live (node_at a) s i wf.held.cleared wf.held.children h),
        ))

  -- The same of the walk along the sponsors, which ends since no chain of sponsors returns.
  pub walk_sponsor_upline-IsWholeWalk :
      IsWholeWalk sponsor_of a limit start (walk_sponsor_upline a start limit)
  unfolding walk_sponsor_upline
  walk_sponsor_upline-IsWholeWalk = whole sponsor_of wf.held.ranked.0 (λ s i h. (
    wf.held.ranked.1 s i h,
    live-lt a i (sponsor-live (node_at a) s i wf.held.cleared wf.held.sponsored h),
  ))

-- ===== src/Tree/Unilevel/Removal/Moves.antt =====
-- tree/unilevel.rs: to whom a removal gives the recruits of the node.
use mathlib.Core.Path.{subst}
use mlmforge.Prelude.{
  ℕ, suc, ◌-◌, ◌≤◌, ◌≡◌, ◌≢◌, refl, sym, ap, ◌∙◌, true, not, Option, none, some, List, [], ◌∷◌,
  arith, ◌==◌, ==_iff, if◌then◌else◌, Bool-cases, Option-cases, inl, inr, length, contains, filter,
}
use mlmforge.Prelude.Results.{ok, bind_ok, ok_inj}
use mlmforge.Tree.Node.{Node}
use mlmforge.Tree.Arena.{
  Arena, nil, node_at, survivor_above, surviving_sponsor, surviving_recruits, target_for,
  check_recruits, check_each, check_sponsored_removable, check_target, move_recruits,
}
use mlmforge.Tree.Arena.Slots.{times, live-lt, All-times}
use mlmforge.Tree.Arena.Moved.{IsMoved, IsMoved-none, AreLive, move_recruits-IsMoved}
use mlmforge.Tree.Arena.WellFormed.{IsWellFormed, sponsor-live}
use mlmforge.Tree.Unilevel.{UnilevelTree, detach}
use mlmforge.Tree.Unilevel.Detached.{IsDetached, detach-IsDetached}

-- The recruits of the one node that is removed.
pub times-survivors :
    (a : Arena) (i c : ℕ)
    → times c (surviving_recruits a i (i ∷ []))
      ≡ (if i == c then 0 else times c (node_at a i).sponsored)
unfolding surviving_recruits contains
times-survivors a i c = go (node_at a i).sponsored
  where
    go :
        (xs : List ℕ)
        → times c (filter (λ s. not (contains s (i ∷ []))) xs) ≡ (if i == c then 0 else times c xs)
    go [] = ground arith
    go (x ∷ xs) = ground (arith, go xs)

-- The nearest sponsor is the first one, if that is not the node itself.
nearest :
    (a : Arena) (i n : ℕ) (current : Option ℕ)
    → current ≢ some i
    → survivor_above a (i ∷ []) i (suc n) current ≡ ok current
unfolding survivor_above contains
nearest a i n none ne = refl
nearest a i n (some c) ne = elim (Bool-cases (i == c)) [
  | inl e ↦ absurd (ne (ap some (sym ((==_iff i c).0 e))))
  | inr e ↦ rw e refl
]

surviving_sponsor-nearest :
    (a : Arena) (i : ℕ)
    → (node_at a i).user_id ≢ nil
    → (node_at a i).sponsor ≢ some i
    → surviving_sponsor a i (i ∷ []) ≡ ok (node_at a i).sponsor
unfolding surviving_sponsor
surviving_sponsor-nearest a i live ne =
    let size : length a.nodes ≡ suc (length a.nodes - 1) = omega (arith, live-lt a i live) in
    rw size (nearest a i (length a.nodes - 1) (node_at a i).sponsor ne)

module _ (t : UnilevelTree) (i user_id : ℕ) (wf : IsWellFormed t)
    (held : (node_at t i).user_id ≡ user_id) (named : user_id ≢ nil) where
  abbrev pub d : Arena
  d = detach t i

  pub det : IsDetached i t d
  det = detach-IsDetached t i wf.held

  pub live : (node_at t i).user_id ≢ nil
  live = λ e. named (sym held ∙ e)

  not_own_sponsor : (node_at t i).sponsor ≢ some i
  not_own_sponsor = λ e. let up = wf.held.ranked.1 i i e in omega arith

  abbrev pub survivors : List ℕ
  survivors = surviving_recruits d i (i ∷ [])

  survivors-sponsor : (c : ℕ) → 1 ≤ times c survivors → (node_at t c).sponsor ≡ some i
  survivors-sponsor c h =
      let those = times-survivors d i c in
      let before = det.lists i c in let one = wf.held.sponsored i c in ground arith

  pub survivors-AreLive : AreLive d survivors
  survivors-AreLive =
      All-times (λ s. (node_at d s).user_id ≢ nil) survivors
        (λ c h e.
          let dead : (node_at t c).user_id ≡ nil = sym (det.user_ids c) ∙ e in
          let none_there = ap (λ (n : Node). n.sponsor) (wf.held.cleared c dead) in
          let one = survivors-sponsor c h in cc)

  checked_sponsor :
      {u : Unit {0}} (xs : List ℕ) (c : ℕ)
      → check_recruits t i (i ∷ []) xs ≡ ok u
      → 1 ≤ times c xs
      → (s : ℕ) × ((node_at t i).sponsor ≡ some s)
  unfolding check_recruits check_target
  checked_sponsor [] c h le = absurd (omega arith)
  checked_sponsor (x ∷ xs) c h le =
      let (r, found, h') = bind_ok (surviving_sponsor t i (i ∷ [])) _ h in
      let is_sponsor : r ≡ (node_at t i).sponsor =
        ok_inj (sym found ∙ surviving_sponsor-nearest t i live not_own_sponsor) in
      elim (Option-cases (node_at t i).sponsor) [
        | inl e ↦
            let none_found : r ≡ none = is_sponsor ∙ e in
            let refused = subst (λ r. check_target t i (x ∷ xs) r ≡ ok _) none_found h' in cc
        | inr found ↦ found
      ]

  -- If the check passes, a node with recruits has a sponsor.
  pub has_sponsor :
      {u : Unit {0}} (c : ℕ)
      → check_sponsored_removable t (i ∷ []) ≡ ok u
      → 1 ≤ times c survivors
      → (s : ℕ) × ((node_at t i).sponsor ≡ some s)
  unfolding check_sponsored_removable check_each
  has_sponsor {u} c h le =
      let those = times-survivors d i c in
      let same = times-survivors t i c in
      let before = det.lists i c in
      let (u', h', k) =
        bind_ok (check_recruits t i (i ∷ []) (surviving_recruits t i (i ∷ []))) _ h in
      checked_sponsor (surviving_recruits t i (i ∷ [])) c h' (ground arith)

  -- The moves of a removal, by the recruits there are.
  pub handed :
      (xs : List ℕ) (o : Option ℕ)
      → target_for d i (i ∷ []) xs ≡ ok o
      → AreLive d xs
      → ((c : ℕ) → 1 ≤ times c xs → (s : ℕ) × ((node_at t i).sponsor ≡ some s))
      → (target : ℕ) × IsMoved target xs d (move_recruits xs o d).0
        × ((c : ℕ) → contains c xs ≡ true → (node_at t i).sponsor ≡ some target)
  unfolding target_for move_recruits contains
  handed [] o h ls sp = (0, IsMoved-none 0 d, λ c e. cc)
  handed (s ∷ xs) o h ls sp =
      let (target, e) = sp s (ground arith) in
      let live_d : (node_at d i).user_id ≢ nil = λ z. live (sym (det.user_ids i) ∙ z) in
      let other : (node_at d i).sponsor ≢ some i =
        λ z. not_own_sponsor (sym (det.sponsors i) ∙ z) in
      let o_is : o ≡ some target =
        ok_inj (sym h ∙ surviving_sponsor-nearest d i live_d other) ∙ det.sponsors i ∙ e in
      let lt : (node_at d target).user_id ≢ nil = λ z.
        sponsor-live (node_at t) i target wf.held.cleared wf.held.sponsored e
          (sym (det.user_ids target) ∙ z) in
      (
        target,
        subst (λ (o : Option ℕ). IsMoved target (s ∷ xs) d (move_recruits (s ∷ xs) o d).0)
            (sym o_is) (move_recruits-IsMoved target (s ∷ xs) d lt ls),
        λ c hit. e,
      )

-- ===== src/Tree/Unilevel/Removal.antt =====
-- tree/unilevel.rs: `remove_node`.
pub mod Moves
pub mod Released
use mathlib.Core.Path.{subst, fun_ext}
use mlmforge.Prelude.{
  ℕ, zero, suc, ◌+◌, ◌-◌, ◌≤◌, ◌<◌, ◌≡◌, ◌≢◌, ◌⊎◌, refl, sym, ap, ◌∙◌, Bool, true, false, not, ◌||◌,
  Option, none, some, List, [], ◌∷◌, ◌++◌, arith, ltb, ◌==◌, ==_iff, if◌then◌else◌, Bool-cases,
  Option-cases, inl, inr, length, get_or, contains, All, filter,
}
use mlmforge.Prelude.Assoc.{lookup, remove, lookup-remove}
use mlmforge.Prelude.Results.{Result, ok, err, ◌>>=◌, bind_ok, ok_inj}
use mlmforge.Tree.Node.{Node, TreeError, Responsored}
use mlmforge.Tree.Arena.{
  Arena, blank, nil, node_at, modify, modify_node, without_recruits, resolve, survivor_above,
  surviving_sponsor, surviving_recruits, target_for, check_recruits, check_each,
  check_sponsored_removable, check_target, move_recruits, plan_each, hand_over, reparent_sponsored,
  tombstone,
}
use mlmforge.Tree.Arena.Slots.{
  times, points, length-modify, get_or-modify, live-lt, All-times, contains-ltb,
}
use mlmforge.Tree.Arena.Moved.{IsMoved, IsMoved-none, AreLive, move_recruits-IsMoved}
use mlmforge.Tree.Arena.WellFormed.{Slots, AreFree, AreWellFormed, IsWellFormed, sponsor-live}
use mlmforge.Tree.Unilevel.{
  UnilevelTree, clear_root, detach, release, remove_node, check_remove_node, refuse_children,
}
use mlmforge.Tree.Unilevel.Added.{resolved-live}
use mlmforge.Tree.Unilevel.Detached.{is_at, points-is_at, IsDetached, detach-IsDetached}
use mlmforge.Tree.Unilevel.Removed.{emptied-AreWellFormed}
use mlmforge.Tree.Unilevel.Removal.Moves.{survivors, survivors-AreLive, has_sponsor, handed}
use mlmforge.Tree.Unilevel.Removal.Released.{PassesOn, released-IsWellFormed, released-PassesOn}

-- What `reparent_sponsored` does for one node.
reparent_sponsored-one :
    (a : Arena) (i : ℕ) (r : Arena × List Responsored)
    → reparent_sponsored (i ∷ []) a ≡ ok r
    → (o : Option ℕ) × (target_for a i (i ∷ []) (surviving_recruits a i (i ∷ [])) ≡ ok o)
      × (r.0
          ≡ modify_node i without_recruits (move_recruits (surviving_recruits a i (i ∷ [])) o a).0)
unfolding reparent_sponsored plan_each hand_over contains
reparent_sponsored-one a i r h =
    let survivors = surviving_recruits a i (i ∷ []) in
    let (plan, planned, done) = bind_ok (plan_each a (i ∷ []) [] (i ∷ [])) _ h in
    let (o, found, one) = bind_ok (target_for a i (i ∷ []) survivors) _ planned in
    let done' =
      subst (λ p. Path (Result TreeError (Arena × List Responsored)) (ok (hand_over p a)) (ok r))
        (sym (ok_inj one)) done in
    (o, found, sym (ap (λ (x : Arena × List Responsored). x.0) (ok_inj done')))

no_children :
    (user_id : ℕ) (xs : List ℕ) {u : Unit {0}} → refuse_children user_id xs ≡ ok u → xs ≡ []
no_children user_id [] h = refl
no_children user_id (x ∷ xs) h = ground arith

-- What `check_remove_node` finds out.
check_remove_node-ok :
    (t : UnilevelTree) (user_id i : ℕ) {u : Unit {0}}
    → resolve t user_id ≡ ok i
    → check_remove_node t user_id ≡ ok u
    → ((node_at t i).children ≡ []) × (check_sponsored_removable t (i ∷ []) ≡ ok tt)
unfolding check_remove_node
check_remove_node-ok t user_id i found h =
    let (i', found', h1) = bind_ok (resolve t user_id) _ h in
    let same : i' ≡ i = ok_inj (sym found' ∙ found) in
    let (u, leaf, h2) = bind_ok (refuse_children user_id (node_at t i').children) _ h1 in
    subst
      (λ (k : ℕ). ((node_at t k).children ≡ []) × (check_sponsored_removable t (k ∷ []) ≡ ok tt))
      same (no_children user_id (node_at t i').children leaf, h2)

-- A removal at a known index.
release-IsWellFormed :
    (t : UnilevelTree) (user_id i : ℕ) (r : Arena × List Responsored)
    → IsWellFormed t
    → resolve t user_id ≡ ok i
    → (node_at t i).children ≡ []
    → check_sponsored_removable t (i ∷ []) ≡ ok tt
    → reparent_sponsored (i ∷ []) (detach t i) ≡ ok r
    → let t' = (release user_id i r).0 in
      IsWellFormed t' × (lookup user_id t'.index ≡ none) × PassesOn t t' i
unfolding release tombstone
release-IsWellFormed t user_id i r wf found leaf checked moves =
    let (named, held, hit) = resolved-live t user_id i wf found in
    let (o, target_found, is_r) = reparent_sponsored-one (detach t i) i r moves in
    let live = survivors-AreLive t i user_id wf held named in
    let sponsor = λ (c : ℕ) (h : 1 ≤ times c (survivors t i user_id wf held named)).
      has_sponsor t i user_id wf held named c checked h in
    let (target, mov, to_sponsor) =
      handed t i user_id wf held named (survivors t i user_id wf held named) o target_found live
        sponsor in
    let none_below = λ (c : ℕ). ap (times c) leaf in
    let m = (move_recruits (survivors t i user_id wf held named) o (detach t i)).0 in
    let well =
      released-IsWellFormed t i user_id wf held named target m mov to_sponsor none_below hit in
    let passes =
      released-PassesOn t i user_id wf held named target m mov to_sponsor none_below hit in
    let gone : lookup user_id (remove user_id m.index) ≡ none =
      ap (λ (x : List (ℕ × ℕ)). lookup user_id (remove user_id x))
        (mov.index ∙ (detach-IsDetached t i wf.held).index)
      ∙ lookup-remove user_id user_id t.index wf.held.indexed.0
      ∙ ground arith in
    subst
      (λ (a : Arena).
        let t' = tombstone i (record a { index = remove user_id a.index }) in
        IsWellFormed t' × (lookup user_id t'.index ≡ none) × PassesOn t t' i)
      (sym is_r) (well, gone, passes)

-- If `remove_node` succeeds on a well-formed tree, the tree is well formed afterwards, and the user is
-- not in it, nor at its slot; every other node is of the same user, below the same parent, has the same
-- children in order without the removed node, and is sponsored as before or,
-- if the removed node was its sponsor, by that node's sponsor.
pub remove_node-IsWellFormed :
    (t t' : UnilevelTree) (user_id : ℕ) (moved : List Responsored)
    → IsWellFormed t
    → remove_node t user_id ≡ ok (t', moved)
    → IsWellFormed t'
      × (lookup user_id t'.index ≡ none)
      × ((i : ℕ) × (resolve t user_id ≡ ok i) × PassesOn t t' i)
unfolding remove_node
remove_node-IsWellFormed t t' user_id moved wf h =
    let (u, checked, h1) = bind_ok (check_remove_node t user_id) _ h in
    let (i, found, h2) = bind_ok (resolve t user_id) _ h1 in
    let (r, handed_over, h3) = bind_ok (reparent_sponsored (i ∷ []) (detach t i)) _ h2 in
    let (leaf, removable) = check_remove_node-ok t user_id i found checked in
    let (well, gone, passes) =
      release-IsWellFormed t user_id i r wf found leaf removable handed_over in
    let made : release user_id i r ≡ (t', moved) = ok_inj h3 in
    subst
      (λ (r : UnilevelTree × List Responsored).
        IsWellFormed r.0
        × (lookup user_id r.0.index ≡ none)
        × ((i : ℕ) × (resolve t user_id ≡ ok i) × PassesOn t r.0 i))
      made (well, gone, (i, found, passes))

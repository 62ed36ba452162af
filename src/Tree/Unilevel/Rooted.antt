-- ===== src/Tree/Unilevel/Rooted.antt =====
-- tree/unilevel.rs: the empty tree is well formed, and a tree stays so when its root is added.
use mathlib.Core.Path.{subst, fun_ext}
use mlmforge.Prelude.{
  ℕ, true, ==_iff, ◌≡◌, ◌≢◌, refl, sym, ap, ◌∙◌, none, some, List, arith, ◌==◌, if◌then◌else◌,
  Bool-cases, inl, inr,
}
use mlmforge.Prelude.Int.{ℤ}
use mlmforge.Prelude.Assoc.{lookup, insert, lookup-insert, insert-HasDistinctKeys}
use mlmforge.Prelude.Results.{ok, bind_ok, ok_inj}
use mlmforge.Tree.Node.{Node}
use mlmforge.Tree.Arena.{blank, nil, node_at, alloc_at, alloc_slot, check_user_id}
use mlmforge.Tree.Arena.WellFormed.{
  Slots, AreCleared, IsIndex, IsRoot, AreWellFormed, IsWellFormed, alloc_at-at, alloc_at-fresh,
  alloc_at-free, alloc_at-keeps,
}
use mlmforge.Tree.Unilevel.{UnilevelTree, new, root_node, place_root, add_root, check_add_root}

module _ (f : Slots) (i user_id : ℕ) (enrolled_at : ℤ) (fresh : f i ≡ blank)
    (named : user_id ≢ nil) where
  rooted : Slots
  rooted j = if i == j then root_node user_id enrolled_at else f j

  rooted-user_id : (j : ℕ) → (rooted j).user_id ≡ (if i == j then user_id else (f j).user_id)
  unfolding rooted
  rooted-user_id j = ground arith

  rooted-parent : (j : ℕ) → (rooted j).parent ≡ (f j).parent
  unfolding rooted
  rooted-parent j = ground (arith, ap (λ (n : Node). n.parent) fresh)

  rooted-sponsor : (j : ℕ) → (rooted j).sponsor ≡ (f j).sponsor
  unfolding rooted
  rooted-sponsor j = ground (arith, ap (λ (n : Node). n.sponsor) fresh)

  rooted-depth : (j : ℕ) → (rooted j).depth ≡ (f j).depth
  unfolding rooted
  rooted-depth j = ground (arith, ap (λ (n : Node). n.depth) fresh)

  rooted-children : (j : ℕ) → (rooted j).children ≡ (f j).children
  unfolding rooted
  rooted-children j = ground (arith, ap (λ (n : Node). n.children) fresh)

  rooted-sponsored : (j : ℕ) → (rooted j).sponsored ≡ (f j).sponsored
  unfolding rooted
  rooted-sponsored j = ground (arith, ap (λ (n : Node). n.sponsored) fresh)

  rooted-AreCleared : AreCleared f → AreCleared rooted
  unfolding rooted
  rooted-AreCleared cleared j h = elim (Bool-cases (i == j)) [
    | inl e ↦ absurd (named (rw e at h))
    | inr e ↦ rw e (cleared j (rw e at h))
  ]

  rooted-IsIndex :
      (index : List (ℕ × ℕ))
      → lookup user_id index ≡ none
      → IsIndex f index
      → IsIndex rooted (insert user_id i index)
  rooted-IsIndex index absent (distinct, nobody, there) =
      let dead : (f i).user_id ≡ nil = ap (λ (n : Node). n.user_id) fresh in
      (
        insert-HasDistinctKeys user_id i index distinct,
        rw lookup-insert (ground (arith, named)),
        λ u j nz.
            let (fits, leads) = there u j nz in
            let leads_new = (there user_id j named).1 in
            rw (lookup-insert, rooted-user_id)
              (
                λ h. ground (arith, dead, fits, nz),
                λ h. ground (arith, dead, absent, leads, leads_new, nz),
              ),
      )

  rooted-IsRoot : IsRoot f none → IsRoot rooted (some i)
  rooted-IsRoot without r =
      let only = (without r).1 in
      let top : (f i).parent ≡ none = ap (λ (n : Node). n.parent) fresh in
      rw (rooted-user_id, rooted-parent)
        (λ h. ground (arith, named, top), λ h. ground (arith, only, h.0, h.1))

  rooted-AreWellFormed :
      (index : List (ℕ × ℕ))
      → lookup user_id index ≡ none
      → AreWellFormed f index none
      → AreWellFormed rooted (insert user_id i index) (some i)
  rooted-AreWellFormed index absent w = record {
    cleared = rooted-AreCleared w.cleared;
    children = λ j c. rw (rooted-children j, rooted-parent c) (w.children j c);
    sponsored = λ j c. rw (rooted-sponsored j, rooted-sponsor c) (w.sponsored j c);
    levels =
        λ c j h. rw (rooted-depth c, rooted-depth j) (w.levels c j (sym (rooted-parent c) ∙ h));
    ranked = (w.ranked.0, λ c j h. w.ranked.1 c j (sym (rooted-sponsor c) ∙ h));
    indexed = rooted-IsIndex index absent w.indexed;
    rooted = rooted-IsRoot w.rooted;
  }

pub new-IsWellFormed : IsWellFormed new
unfolding lookup
new-IsWellFormed = record {
  held = record {
    cleared = λ i h. refl;
    children = λ i c. refl;
    sponsored = λ i c. refl;
    levels = λ c i h. cc;
    ranked = (λ i. 0, λ s i h. cc);
    indexed = (tt, refl, λ u i nz. (λ h. cc, λ h. absurd (nz (sym h))));
    rooted = λ r. (λ h. cc, λ h. absurd (h.0 refl));
  };
  freed = λ i. ground arith;
}

place_root-IsWellFormed :
    (t : UnilevelTree) (user_id : ℕ) (enrolled_at : ℤ)
    → IsWellFormed t
    → t.root ≡ none
    → user_id ≢ nil
    → lookup user_id t.index ≡ none
    → IsWellFormed (place_root t user_id enrolled_at).0
unfolding place_root alloc_slot rooted
place_root-IsWellFormed t user_id enrolled_at wf rootless named absent =
    let node = root_node user_id enrolled_at in
    let (index, root) = alloc_at-keeps t node t.free_list in
    let fresh = alloc_at-fresh t node t.free_list wf.held.cleared wf.freed in
    let at = λ (j : ℕ). alloc_at-at t node t.free_list j wf.freed in
    record {
      held =
          rw (fun_ext at, index)
            (rooted-AreWellFormed (node_at t) (alloc_at t node t.free_list).1 user_id enrolled_at
              fresh named t.index absent (rw rootless at wf.held));
      freed = alloc_at-free t node t.free_list named wf.freed;
    }

place_root-root :
    (t : UnilevelTree) (user_id : ℕ) (enrolled_at : ℤ)
    → let r = place_root t user_id enrolled_at in r.0.root ≡ some r.1
unfolding place_root
place_root-root t user_id enrolled_at = refl

pub check_add_root-ok :
    (t : UnilevelTree) (user_id : ℕ) {u : Unit {0}}
    → check_add_root t user_id ≡ ok u
    → (user_id ≢ nil) × (t.root ≡ none) × (lookup user_id t.index ≡ none)
unfolding check_add_root check_user_id
check_add_root-ok t user_id h = (ground arith, ground arith, ground arith)

place_root-user_id :
    (t : UnilevelTree) (user_id : ℕ) (enrolled_at : ℤ)
    → IsWellFormed t
    → let r = place_root t user_id enrolled_at in (node_at r.0 r.1).user_id ≡ user_id
unfolding place_root alloc_slot
place_root-user_id t user_id enrolled_at wf =
    let node = root_node user_id enrolled_at in
    let i = (alloc_at t node t.free_list).1 in
    let here : i == i ≡ true = (==_iff i i).1 refl in
    ap (λ (n : Node). n.user_id) (alloc_at-at t node t.free_list i wf.freed) ∙ rw here refl

-- If `add_root` succeeds on a well-formed tree, the tree had no root, and the new one is well formed
-- and has the index that is returned as its root, where a node of the user stands that has no parent.
pub add_root-IsWellFormed :
    (t t' : UnilevelTree) (user_id i : ℕ) (enrolled_at : ℤ)
    → IsWellFormed t
    → add_root t user_id enrolled_at ≡ ok (t', i)
    → (t.root ≡ none)
      × IsWellFormed t'
      × (t'.root ≡ some i)
      × ((node_at t' i).user_id ≡ user_id)
      × ((node_at t' i).parent ≡ none)
unfolding add_root
add_root-IsWellFormed t t' user_id i enrolled_at wf h =
    let (checked, passed, h1) = bind_ok (check_add_root t user_id) _ h in
    let (named, rootless, absent) = check_add_root-ok t user_id passed in
    let made : place_root t user_id enrolled_at ≡ (t', i) = ok_inj h1 in
    let well =
      subst (λ (r : UnilevelTree × ℕ). IsWellFormed r.0) made
        (place_root-IsWellFormed t user_id enrolled_at wf rootless named absent) in
    let top =
      subst (λ (r : UnilevelTree × ℕ). r.0.root ≡ some r.1) made
        (place_root-root t user_id enrolled_at) in
    (
      rootless,
      well,
      top,
      subst (λ (r : UnilevelTree × ℕ). (node_at r.0 r.1).user_id ≡ user_id) made
          (place_root-user_id t user_id enrolled_at wf),
      ((well.held.rooted i).0 top).1,
    )

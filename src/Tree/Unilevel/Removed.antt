-- ===== src/Tree/Unilevel/Removed.antt =====
-- tree/unilevel.rs: a tree stays well formed when a leaf is removed.
use mathlib.Core.Path.{subst}
use mlmforge.Prelude.{
  ℕ, ◌≡◌, ◌≢◌, ◌↔◌, refl, sym, ◌∙◌, true, false, Option, none, some, List, arith, ◌==◌, ==_iff,
  if◌then◌else◌, Bool-cases, inl, inr, contains,
}
use mlmforge.Prelude.Assoc.{lookup, remove, lookup-remove, remove-HasDistinctKeys}
use mlmforge.Tree.Arena.{Arena, blank, nil, node_at}
use mlmforge.Tree.Arena.Slots.{times, points, contains-ltb}
use mlmforge.Tree.Arena.Moved.{IsMoved}
use mlmforge.Tree.Arena.WellFormed.{
  Slots, AreCleared, AreChildren, AreSponsored, AreLevels, AreRanked, IsIndex, IsRoot,
  AreWellFormed,
}
use mlmforge.Tree.Unilevel.{clear_root}
use mlmforge.Tree.Unilevel.Detached.{IsDetached}

clear_root_iff :
    (i : ℕ) (root : Option ℕ) (r : ℕ) → (clear_root i root ≡ some r) ↔ ((root ≡ some r) × (i ≢ r))
clear_root_iff i none r = (λ h. cc, λ h. cc h.0)
clear_root_iff i (some k) r =
    (λ h. (ground arith, λ e. ground arith), λ h. ground (arith, h.0, h.1))

-- A leaf whose recruits, if any, were moved to its sponsor, and whose slot is then cleared.
module _ (i user_id target : ℕ) (survivors : List ℕ) (t d m : Arena)
    (w : AreWellFormed (node_at t) t.index t.root) (held : (node_at t i).user_id ≡ user_id)
    (named : user_id ≢ nil) (leaf : (c : ℕ) → times c (node_at t i).children ≡ 0)
    (det : IsDetached i t d) (mov : IsMoved target survivors d m)
    (others : (c : ℕ) → i ≢ c → times c survivors ≡ times c (node_at d i).sponsored)
    (not_own : times i survivors ≡ 0)
    (to_sponsor : (c : ℕ) → contains c survivors ≡ true → (node_at t i).sponsor ≡ some target) where
  abbrev emptied : Slots
  emptied j = if i == j then blank else node_at m j

  emptied-parent : (c : ℕ) → (emptied c).parent ≡ (if i == c then none else (node_at t c).parent)
  emptied-parent c = ground (arith, mov.parents c, det.parents c)

  emptied-depth : (c : ℕ) → (emptied c).depth ≡ (if i == c then 0 else (node_at t c).depth)
  emptied-depth c = ground (arith, mov.depths c, det.depths c)

  emptied-user_id : (c : ℕ) → (emptied c).user_id ≡ (if i == c then nil else (node_at t c).user_id)
  emptied-user_id c = ground (arith, mov.user_ids c, det.user_ids c)

  emptied-sponsor :
      (c : ℕ)
      → (emptied c).sponsor ≡ (
          if i == c
          then none
          else if contains c survivors
          then some target
          else (node_at t c).sponsor)
  emptied-sponsor c = ground (arith, mov.sponsors c, det.sponsors c)

  -- Who is moved was sponsored by the leaf.
  survivor_times : (c : ℕ) → i ≢ c → times c survivors ≡ points (node_at t c).sponsor i
  survivor_times c ne = others c ne ∙ det.lists i c ∙ ground (arith, ne, w.sponsored i c)

  emptied-AreCleared : AreCleared emptied
  emptied-AreCleared j h = elim (Bool-cases (i == j)) [
    | inl e ↦ rw e refl
    | inr e ↦
        let dead_m : (node_at m j).user_id ≡ nil = rw e at h in
        let dead_d = sym (mov.user_ids j) ∙ dead_m in
        let dead_t = sym (det.user_ids j) ∙ dead_d in
        rw e (mov.cleared j dead_d ∙ det.cleared j dead_t ∙ w.cleared j dead_t)
  ]

  emptied-AreChildren : AreChildren emptied
  emptied-AreChildren j c =
      let at_leaf = leaf c in
      rw (emptied-parent c) (ground (arith, mov.children j, det.children j c, w.children j c))

  emptied-AreSponsored : AreSponsored emptied
  emptied-AreSponsored j c = rw (emptied-sponsor c) (elim (Bool-cases (i == c)) [
    | inl e ↦
        let none_left = contains-ltb c survivors in
        let c_is_i : i ≡ c = (==_iff i c).0 e in
        let gone : times c survivors ≡ 0 = subst (λ k. times k survivors ≡ 0) c_is_i not_own in
        rw e (ground (arith, mov.lists j c, det.lists j c, gone, c_is_i))
    | inr e ↦
        let ne : i ≢ c = λ p. ground arith in
        rw e (
          ground (
            arith,
            mov.lists j c,
            det.lists j c,
            w.sponsored j c,
            survivor_times c ne,
            to_sponsor c,
            contains-ltb c survivors,
            w.ranked.1 i target,
          ))
  ])

  emptied-AreLevels : AreLevels emptied
  emptied-AreLevels c j h =
      rw (emptied-depth c, emptied-depth j)
        (ground (arith, emptied-parent c, h, w.levels c j, w.children i c, leaf c))

  emptied-AreRanked : AreRanked emptied w.ranked.0
  emptied-AreRanked c j h = elim (Bool-cases (i == c)) [
    | inl e ↦ let none_left : Path (Option ℕ) none (some j) = rw e at h in cc
    | inr e ↦
        let ne : i ≢ c = λ p. ground arith in
        ground (
          arith,
          emptied-sponsor c,
          h,
          w.ranked.1 c j,
          w.ranked.1 c i,
          w.ranked.1 i target,
          survivor_times c ne,
          to_sponsor c,
          contains-ltb c survivors,
        )
  ]

  emptied-IsIndex : lookup user_id t.index ≡ some i → IsIndex emptied (remove user_id t.index)
  emptied-IsIndex hit =
      let (distinct, nobody, there) = w.indexed in
      (
        remove-HasDistinctKeys user_id t.index distinct,
        rw (lookup-remove user_id nil t.index distinct) (ground (arith, nobody)),
        λ u j nz.
            let (fits, leads) = there u j nz in
            rw (lookup-remove user_id u t.index distinct, emptied-user_id)
              (λ h. ground (arith, fits, held), λ h. ground (arith, leads, hit, nz)),
      )

  emptied-IsRoot : IsRoot emptied (clear_root i t.root)
  emptied-IsRoot r =
      let (is_one, only) = w.rooted r in
      let (kept, keeps) = clear_root_iff i t.root r in
      rw (emptied-user_id, emptied-parent)
        (
          λ h. ground (arith, is_one (kept h).0, (kept h).1),
          λ h.
              let ne : i ≢ r = λ e. h.0 (rw ((==_iff i r).1 e) refl) in
              let differs : i == r ≡ false = ground arith in keeps (only (rw differs at h), ne),
        )

  pub emptied-AreWellFormed :
      lookup user_id t.index ≡ some i
      → AreWellFormed emptied (remove user_id t.index) (clear_root i t.root)
  emptied-AreWellFormed hit = record {
    cleared = emptied-AreCleared;
    children = emptied-AreChildren;
    sponsored = emptied-AreSponsored;
    levels = emptied-AreLevels;
    ranked = (w.ranked.0, emptied-AreRanked);
    indexed = emptied-IsIndex hit;
    rooted = emptied-IsRoot;
  }

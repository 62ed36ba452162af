-- ===== src/Tree/Unilevel/Detached.antt =====
-- tree/unilevel.rs: a tree whose node has left its parent's and its sponsor's lists.
use mathlib.Core.Path.{subst}
use mlmforge.Prelude.{
  ℕ, ◌≡◌, ◌≢◌, refl, sym, ap, ◌∙◌, Bool, false, Option, none, some, arith, ◌==◌, if◌then◌else◌,
  length,
}
use mlmforge.Tree.Node.{Node}
use mlmforge.Tree.Arena.{Arena, blank, nil, node_at}
use mlmforge.Tree.Arena.Slots.{
  times, points, times-retain, filter-times, length-modify, get_or-modify, live-lt,
}
use mlmforge.Tree.Arena.WellFormed.{AreWellFormed, parent-live, sponsor-live}
use mlmforge.Tree.Unilevel.{
  UnilevelTree, retain_ne, drop_child, drop_sponsored, modify_some, clear_root, detach,
}

abbrev pub is_at : Option ℕ → ℕ → Bool
is_at none j = false
is_at (some p) j = p == j

pub points-is_at : (o : Option ℕ) (j : ℕ) → points o j ≡ (if is_at o j then 1 else 0)
points-is_at none j = refl
points-is_at (some p) j = refl

-- The slot that is pointed to, if any, holds a node.
abbrev LeadsToLive : Arena → Option ℕ → Type 0
LeadsToLive a none = Unit
LeadsToLive a (some p) = (node_at a p).user_id ≢ nil

modify_some-at :
    (o : Option ℕ) (g : Node → Node) (a : Arena) (j : ℕ)
    → LeadsToLive a o
    → node_at (modify_some o g a) j ≡ (if is_at o j then g (node_at a j) else node_at a j)
modify_some-at none g a j live = refl
modify_some-at (some p) g a j live = get_or-modify a.nodes p j g blank (live-lt a p live)

modify_some-keeps :
    (o : Option ℕ) (g : Node → Node) (a : Arena)
    → let a' = modify_some o g a in
      (length a'.nodes ≡ length a.nodes)
      × (a'.index ≡ a.index)
      × (a'.free_list ≡ a.free_list)
      × (a'.root ≡ a.root)
modify_some-keeps none g a = (refl, refl, refl, refl)
modify_some-keeps (some p) g a = (length-modify a.nodes p g, refl, refl, refl)

leads_to_parent :
    (t : UnilevelTree) (i : ℕ) (o : Option ℕ)
    → AreWellFormed (node_at t) t.index t.root
    → (node_at t i).parent ≡ o
    → LeadsToLive t o
leads_to_parent t i none w h = tt
leads_to_parent t i (some p) w h = parent-live (node_at t) i p w.cleared w.children h

leads_to_sponsor :
    (t : UnilevelTree) (i : ℕ) (o : Option ℕ)
    → AreWellFormed (node_at t) t.index t.root
    → (node_at t i).sponsor ≡ o
    → LeadsToLive t o
leads_to_sponsor t i none w h = tt
leads_to_sponsor t i (some s) w h = sponsor-live (node_at t) i s w.cleared w.sponsored h

LeadsToLive-kept :
    (a b : Arena) (o : Option ℕ)
    → ((j : ℕ) → (node_at b j).user_id ≡ (node_at a j).user_id)
    → LeadsToLive a o
    → LeadsToLive b o
LeadsToLive-kept a b none same live = tt
LeadsToLive-kept a b (some p) same live = λ e. live (sym (same p) ∙ e)

-- A live slot is not reached from a pointer to a live one, if it is cleared.
not_at :
    (a : Arena) (o : Option ℕ) (j : ℕ)
    → LeadsToLive a o
    → (node_at a j).user_id ≡ nil
    → is_at o j ≡ false
not_at a none j live dead = refl
not_at a (some p) j live dead =
    let differs : p ≢ j = λ e. live (rw e dead) in ground (arith, differs)

pub record IsDetached (i : ℕ) (a a' : Arena) : Type 0 where
  pub size : length a'.nodes ≡ length a.nodes
  pub index : a'.index ≡ a.index
  pub free_list : a'.free_list ≡ a.free_list
  pub root : a'.root ≡ clear_root i a.root
  pub user_ids : (j : ℕ) → (node_at a' j).user_id ≡ (node_at a j).user_id
  pub parents : (j : ℕ) → (node_at a' j).parent ≡ (node_at a j).parent
  pub sponsors : (j : ℕ) → (node_at a' j).sponsor ≡ (node_at a j).sponsor
  pub depths : (j : ℕ) → (node_at a' j).depth ≡ (node_at a j).depth
  pub children :
      (j c : ℕ)
      → times c (node_at a' j).children ≡ (if i == c then 0 else times c (node_at a j).children)
  pub kept : (j : ℕ) → (node_at a' j).children ≡ retain_ne i (node_at a j).children
  pub lists :
      (j c : ℕ)
      → times c (node_at a' j).sponsored ≡ (if i == c then 0 else times c (node_at a j).sponsored)
  pub cleared : (j : ℕ) → (node_at a j).user_id ≡ nil → node_at a' j ≡ node_at a j

module _ (t : UnilevelTree) (i : ℕ) (w : AreWellFormed (node_at t) t.index t.root) where
  abbrev orphan : Arena
  orphan = modify_some (node_at t i).parent (drop_child i) t

  orphan-at :
      (j : ℕ)
      → node_at orphan j
        ≡ (if is_at (node_at t i).parent j then drop_child i (node_at t j) else node_at t j)
  orphan-at j =
      modify_some-at (node_at t i).parent (drop_child i) t j
        (leads_to_parent t i (node_at t i).parent w refl)

  orphan-user_id : (j : ℕ) → (node_at orphan j).user_id ≡ (node_at t j).user_id
  orphan-user_id j = ap (λ (n : Node). n.user_id) (orphan-at j) ∙ ground arith

  orphan-sponsor : (node_at orphan i).sponsor ≡ (node_at t i).sponsor
  orphan-sponsor = ap (λ (n : Node). n.sponsor) (orphan-at i) ∙ ground arith

  detach-at :
      (j : ℕ)
      → node_at (detach t i) j ≡ (
          let n =
            if is_at (node_at t i).parent j then drop_child i (node_at t j) else node_at t j in
          if is_at (node_at t i).sponsor j then drop_sponsored i n else n)
  unfolding detach
  detach-at j =
      let o = (node_at orphan i).sponsor in
      let live =
        LeadsToLive-kept t orphan (node_at t i).sponsor orphan-user_id
          (leads_to_sponsor t i (node_at t i).sponsor w refl) in
      modify_some-at o (drop_sponsored i) orphan j
        (subst (LeadsToLive orphan) (sym orphan-sponsor) live)
      ∙ λ k. if is_at (orphan-sponsor k) j then drop_sponsored i (orphan-at j k) else orphan-at j k

  detach-keeps :
      let d = detach t i in
      (length d.nodes ≡ length t.nodes)
      × (d.index ≡ t.index)
      × (d.free_list ≡ t.free_list)
      × (d.root ≡ clear_root i t.root)
  unfolding detach
  detach-keeps =
      let (size, index, free_list, root) =
        modify_some-keeps (node_at t i).parent (drop_child i) t in
      let (size', index', free_list', root') =
        modify_some-keeps (node_at orphan i).sponsor (drop_sponsored i) orphan in
      (size' ∙ size, index' ∙ index, free_list' ∙ free_list, ap (clear_root i) (root' ∙ root))

  pub detach-IsDetached : IsDetached i t (detach t i)
  detach-IsDetached = record {
    size = detach-keeps.0;
    index = detach-keeps.1;
    free_list = detach-keeps.2;
    root = detach-keeps.3;
    user_ids = λ j. ap (λ (n : Node). n.user_id) (detach-at j) ∙ ground arith;
    parents = λ j. ap (λ (n : Node). n.parent) (detach-at j) ∙ ground arith;
    sponsors = λ j. ap (λ (n : Node). n.sponsor) (detach-at j) ∙ ground arith;
    depths = λ j. ap (λ (n : Node). n.depth) (detach-at j) ∙ ground arith;
    children = λ j c.
        ap (λ (n : Node). times c n.children) (detach-at j)
        ∙ ground (
          arith,
          times-retain c i (node_at t j).children,
          w.children j c,
          points-is_at (node_at t i).parent j,
        );
    kept = λ j.
        ap (λ (n : Node). n.children) (detach-at j)
        ∙ ground (
          arith,
          filter-times i (node_at t j).children,
          w.children j i,
          points-is_at (node_at t i).parent j,
        );
    lists = λ j c.
        ap (λ (n : Node). times c n.sponsored) (detach-at j)
        ∙ ground (
          arith,
          times-retain c i (node_at t j).sponsored,
          w.sponsored j c,
          points-is_at (node_at t i).sponsor j,
        );
    cleared = λ j h.
        let no_parent =
          not_at t (node_at t i).parent j (leads_to_parent t i (node_at t i).parent w refl) h in
        let no_sponsor =
          not_at t (node_at t i).sponsor j (leads_to_sponsor t i (node_at t i).sponsor w refl) h in
        detach-at j ∙ rw (no_parent, no_sponsor) refl;
  }

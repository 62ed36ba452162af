-- ===== src/Tree/Binary/Reordered.antt =====
-- An arena is well formed whatever the order of its lists of children.
use mlmforge.Prelude.{ℕ, ◌≡◌, refl, sym, ap, ◌∙◌, List, [], ◌∷◌, arith, length}
use mlmforge.Tree.Node.{Node}
use mlmforge.Tree.Arena.{Arena, node_at}
use mlmforge.Tree.Arena.Slots.{times}
use mlmforge.Tree.Arena.WellFormed.{IsWellFormed, AreFree-same}
use mlmforge.Tree.Binary.{with_children}

-- The second arena lists the same children as the first.
pub record IsReordered (a a' : Arena) : Type 0 where
  pub size : length a'.nodes ≡ length a.nodes
  pub index : a'.index ≡ a.index
  pub free_list : a'.free_list ≡ a.free_list
  pub root : a'.root ≡ a.root
  pub slots : (j : ℕ) → node_at a' j ≡ with_children (node_at a' j).children (node_at a j)
  pub children : (j c : ℕ) → times c (node_at a' j).children ≡ times c (node_at a j).children

times-none : (xs : List ℕ) → ((c : ℕ) → times c xs ≡ 0) → xs ≡ []
times-none [] h = refl
times-none (x ∷ xs) h = let none_here = h x in ground arith

module _ (a a' : Arena) (r : IsReordered a a') where
  same {ℓ} :
      {B : Type ℓ} (j : ℕ) (of : Node → B)
      → ((cs : List ℕ) (n : Node) → of (with_children cs n) ≡ of n)
      → of (node_at a' j) ≡ of (node_at a j)
  same j of h = ap of (r.slots j) ∙ h (node_at a' j).children (node_at a j)

  pub IsReordered-user_id : (j : ℕ) → (node_at a' j).user_id ≡ (node_at a j).user_id
  IsReordered-user_id j = same j (λ n. n.user_id) (λ cs n. refl)

  pub IsReordered-parent : (j : ℕ) → (node_at a' j).parent ≡ (node_at a j).parent
  IsReordered-parent j = same j (λ n. n.parent) (λ cs n. refl)

  pub IsReordered-sponsor : (j : ℕ) → (node_at a' j).sponsor ≡ (node_at a j).sponsor
  IsReordered-sponsor j = same j (λ n. n.sponsor) (λ cs n. refl)

  sponsored : (j : ℕ) → (node_at a' j).sponsored ≡ (node_at a j).sponsored
  sponsored j = same j (λ n. n.sponsored) (λ cs n. refl)

  depth : (j : ℕ) → (node_at a' j).depth ≡ (node_at a j).depth
  depth j = same j (λ n. n.depth) (λ cs n. refl)

  pub IsReordered-IsWellFormed : IsWellFormed a → IsWellFormed a'
  IsReordered-IsWellFormed wf = record {
    held = record {
      cleared = λ j h.
          let empty = wf.held.cleared j (sym (IsReordered-user_id j) ∙ h) in
          let bare : (node_at a' j).children ≡ [] =
            times-none (node_at a' j).children
              (λ c. r.children j c ∙ ap (λ (n : Node). times c n.children) empty) in
          r.slots j ∙ (λ k. with_children (bare k) (empty k));
      children = λ j c. rw (r.children j c, IsReordered-parent c) (wf.held.children j c);
      sponsored = λ j c. rw (sponsored j, IsReordered-sponsor c) (wf.held.sponsored j c);
      levels = λ c j h. rw (depth c, depth j) (wf.held.levels c j (sym (IsReordered-parent c) ∙ h));
      ranked = (wf.held.ranked.0, λ c j h. wf.held.ranked.1 c j (sym (IsReordered-sponsor c) ∙ h));
      indexed =
          let (distinct, nobody, there) = wf.held.indexed in
          rw r.index (distinct, nobody, λ u j nz. rw (IsReordered-user_id j) (there u j nz));
      rooted = λ x. rw (r.root, IsReordered-user_id x, IsReordered-parent x) (wf.held.rooted x);
    };
    freed =
        rw r.free_list (
          AreFree-same (node_at a) (node_at a') _ _ a.free_list IsReordered-user_id r.size
            wf.freed);
  }

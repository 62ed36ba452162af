-- ===== src/Tree/Unilevel/Removal/Released.antt =====
-- tree/unilevel.rs: the tree after a removal, when the recruits were moved.
use mathlib.Core.Path.{fun_ext}
use mlmforge.Prelude.{
  ℕ, ◌<◌, ◌≡◌, ◌≢◌, refl, sym, ap, ◌∙◌, true, false, some, List, [], ◌∷◌, arith, ◌==◌,
  if◌then◌else◌, length, contains,
}
use mlmforge.Prelude.Assoc.{lookup, remove}
use mlmforge.Tree.Node.{Node}
use mlmforge.Tree.Arena.{
  Arena, blank, nil, node_at, modify, without_recruits, surviving_recruits, tombstone,
}
use mlmforge.Tree.Arena.Slots.{times, points, length-modify, get_or-modify, live-lt, contains-ltb}
use mlmforge.Tree.Arena.Moved.{IsMoved}
use mlmforge.Tree.Arena.WellFormed.{AreFree, IsWellFormed}
use mlmforge.Tree.Unilevel.{UnilevelTree, detach, retain_ne}
use mlmforge.Tree.Unilevel.Detached.{is_at, points-is_at, IsDetached, detach-IsDetached}
use mlmforge.Tree.Unilevel.Removed.{emptied-AreWellFormed}
use mlmforge.Tree.Unilevel.Removal.Moves.{times-survivors}

-- What is left of a tree without the node at that index.
abbrev pub PassesOn : UnilevelTree → UnilevelTree → ℕ → Type 0
PassesOn t t' i =
    (node_at t' i ≡ blank)
    × ((c : ℕ)
        → i ≢ c
        → ((node_at t' c).user_id ≡ (node_at t c).user_id)
          × ((node_at t' c).parent ≡ (node_at t c).parent)
          × ((node_at t' c).children ≡ retain_ne i (node_at t c).children)
          × ((node_at t' c).sponsor ≡ (
              if is_at (node_at t c).sponsor i
              then (node_at t i).sponsor
              else (node_at t c).sponsor)))

module _ (t : UnilevelTree) (i user_id : ℕ) (wf : IsWellFormed t)
    (held : (node_at t i).user_id ≡ user_id) (named : user_id ≢ nil) where
  abbrev d : Arena
  d = detach t i

  det : IsDetached i t d
  det = detach-IsDetached t i wf.held

  live : (node_at t i).user_id ≢ nil
  live = λ e. named (sym held ∙ e)

  abbrev survivors : List ℕ
  survivors = surviving_recruits d i (i ∷ [])

  -- The tree after the moves and the release, by the target and the tree that the moves leave.
  abbrev pub released : Arena → Arena
  released m = tombstone i (record (record m { nodes = modify m.nodes i without_recruits }) {
    index = remove user_id m.index;
  })

  module _ (target : ℕ) (m : Arena) (mov : IsMoved target survivors d m)
      (to_sponsor : (c : ℕ) → contains c survivors ≡ true → (node_at t i).sponsor ≡ some target)
      (leaf : (c : ℕ) → times c (node_at t i).children ≡ 0)
      (hit : lookup user_id t.index ≡ some i) where
    inside : i < length m.nodes
    inside = omega (arith, live-lt t i live, mov.size, det.size)

    abbrev bare : List Node
    bare = modify m.nodes i without_recruits

    released-size : length (released m).nodes ≡ length t.nodes
    unfolding tombstone
    released-size =
        length-modify bare i (λ _. blank)
        ∙ length-modify m.nodes i without_recruits
        ∙ mov.size
        ∙ det.size

    released-at : (j : ℕ) → node_at (released m) j ≡ (if i == j then blank else node_at m j)
    unfolding tombstone
    released-at j =
        let inside_bare : i < length bare =
          omega (arith, inside, length-modify m.nodes i without_recruits) in
        rw
          (
            get_or-modify bare i j (λ _. blank) blank inside_bare,
            get_or-modify m.nodes i j without_recruits blank inside,
          )
          (ground arith)

    released-freed :
        AreFree (node_at (released m)) (length (released m).nodes) (released m).free_list
    unfolding tombstone
    released-freed j =
        let user : (node_at (released m) j).user_id
            ≡ (if i == j then nil else (node_at t j).user_id) =
          ap (λ (n : Node). n.user_id) (released-at j)
          ∙ ground (arith, mov.user_ids j, det.user_ids j) in
        let list : times j m.free_list ≡ times j t.free_list =
          ap (times j) (mov.free_list ∙ det.free_list) in
        let in_use = live-lt t i live in
        let before = wf.freed j in rw (list, released-size, user) (ground (arith, live))

    pub released-IsWellFormed : IsWellFormed (released m)
    unfolding tombstone
    released-IsWellFormed = record {
      held =
          rw (fun_ext released-at, mov.index ∙ det.index, mov.root ∙ det.root)
            (emptied-AreWellFormed i user_id target survivors t d m wf.held held named leaf det mov
              (λ c ne. times-survivors d i c ∙ ground (arith, ne))
              (times-survivors d i i ∙ ground arith) to_sponsor hit);
      freed = released-freed;
    }

    moved_are : (c : ℕ) → i ≢ c → contains c survivors ≡ is_at (node_at t c).sponsor i
    moved_are c ne =
        let one : times c survivors ≡ points (node_at t c).sponsor i =
          times-survivors d i c ∙ ground (arith, ne, det.lists i c, wf.held.sponsored i c) in
        contains-ltb c survivors ∙ rw (one, points-is_at (node_at t c).sponsor i) (ground arith)

    pub released-PassesOn : PassesOn t (released m) i
    released-PassesOn = (
      released-at i ∙ ground arith,
      λ c ne.
          let differs : i == c ≡ false = ground arith in
          let rest : node_at (released m) c ≡ node_at m c = released-at c ∙ rw differs refl in
          (
            ap (λ (n : Node). n.user_id) rest ∙ mov.user_ids c ∙ det.user_ids c,
            ap (λ (n : Node). n.parent) rest ∙ mov.parents c ∙ det.parents c,
            ap (λ (n : Node). n.children) rest ∙ mov.children c ∙ det.kept c,
            ap (λ (n : Node). n.sponsor) rest
                ∙ mov.sponsors c
                ∙ ground (arith, moved_are c ne, to_sponsor c, det.sponsors c),
          ),
    )

-- ===== src/Tree/Arena/Moved.antt =====
-- What an arena looks like after recruits were given to a new sponsor.
use mlmforge.Prelude.{
  ℕ, ◌+◌, ◌<◌, ◌≡◌, ◌≢◌, refl, sym, ap, ◌∙◌, some, List, [], ◌∷◌, arith, ◌==◌, if◌then◌else◌,
  length, contains, All,
}
use mlmforge.Tree.Node.{Node}
use mlmforge.Tree.Arena.{
  Arena, blank, nil, node_at, modify, with_sponsor, add_sponsored, move_recruit, move_recruits,
}
use mlmforge.Tree.Arena.Slots.{times, times-concat, length-modify, get_or-modify, live-lt}

abbrev pub AreLive : Arena → List ℕ → Type 0
AreLive a = All (λ s. (node_at a s).user_id ≢ nil)

-- The recruits have the target as sponsor and stand at the end of its list; the rest is as before.
pub record IsMoved (target : ℕ) (survivors : List ℕ) (a a' : Arena) : Type 0 where
  pub size : length a'.nodes ≡ length a.nodes
  pub index : a'.index ≡ a.index
  pub free_list : a'.free_list ≡ a.free_list
  pub root : a'.root ≡ a.root
  pub user_ids : (j : ℕ) → (node_at a' j).user_id ≡ (node_at a j).user_id
  pub parents : (j : ℕ) → (node_at a' j).parent ≡ (node_at a j).parent
  pub children : (j : ℕ) → (node_at a' j).children ≡ (node_at a j).children
  pub depths : (j : ℕ) → (node_at a' j).depth ≡ (node_at a j).depth
  pub sponsors :
      (j : ℕ)
      → (node_at a' j).sponsor
        ≡ (if contains j survivors then some target else (node_at a j).sponsor)
  pub lists :
      (j c : ℕ)
      → times c (node_at a' j).sponsored
        ≡ times c (node_at a j).sponsored + (if target == j then times c survivors else 0)
  pub cleared : (j : ℕ) → (node_at a j).user_id ≡ nil → node_at a' j ≡ node_at a j

pub IsMoved-none : (target : ℕ) (a : Arena) → IsMoved target [] a a
unfolding contains
IsMoved-none target a = record {
  size = refl;
  index = refl;
  free_list = refl;
  root = refl;
  user_ids = λ j. refl;
  parents = λ j. refl;
  children = λ j. refl;
  depths = λ j. refl;
  sponsors = λ j. refl;
  lists = λ j c. ground arith;
  cleared = λ j h. refl;
}

module _ (target s : ℕ) (a : Arena) (at_target : (node_at a target).user_id ≢ nil)
    (at_recruit : (node_at a s).user_id ≢ nil) where
  abbrev moved : Arena
  moved = (move_recruit s (some target) a).0

  abbrev listed : List Node
  listed = modify a.nodes s (with_sponsor (some target))

  moved-at :
      (j : ℕ)
      → node_at moved j ≡ (
          let n = if s == j then with_sponsor (some target) (node_at a j) else node_at a j in
          if target == j then add_sponsored s n else n)
  unfolding move_recruit
  moved-at j =
      let inside : target < length listed =
        omega (
          arith,
          live-lt a target at_target,
          length-modify a.nodes s (with_sponsor (some target)),
        ) in
      rw
        (
          get_or-modify listed target j (add_sponsored s) blank inside,
          get_or-modify a.nodes s j (with_sponsor (some target)) blank (live-lt a s at_recruit),
        )
        refl

  moved-sponsor :
      (j : ℕ) → (node_at moved j).sponsor ≡ (if s == j then some target else (node_at a j).sponsor)
  moved-sponsor j = ap (λ (n : Node). n.sponsor) (moved-at j) ∙ ground arith

  moved-lists :
      (j c : ℕ)
      → times c (node_at moved j).sponsored
        ≡ times c (node_at a j).sponsored + (if target == j then times c (s ∷ []) else 0)
  moved-lists j c =
      ap (λ (n : Node). times c n.sponsored) (moved-at j)
      ∙ ground (arith, times-concat c (node_at a j).sponsored s)

  moved-cleared : (j : ℕ) → (node_at a j).user_id ≡ nil → node_at moved j ≡ node_at a j
  moved-cleared j h =
      let ns : s ≢ j = λ e. at_recruit (rw e h) in
      let nt : target ≢ j = λ e. at_target (rw e h) in moved-at j ∙ ground (arith, ns, nt)

  moved-IsMoved : IsMoved target (s ∷ []) a moved
  unfolding move_recruit contains
  moved-IsMoved = record {
    size =
        length-modify listed target (add_sponsored s)
        ∙ length-modify a.nodes s (with_sponsor (some target));
    index = refl;
    free_list = refl;
    root = refl;
    user_ids = λ j. ap (λ (n : Node). n.user_id) (moved-at j) ∙ ground arith;
    parents = λ j. ap (λ (n : Node). n.parent) (moved-at j) ∙ ground arith;
    children = λ j. ap (λ (n : Node). n.children) (moved-at j) ∙ ground arith;
    depths = λ j. ap (λ (n : Node). n.depth) (moved-at j) ∙ ground arith;
    sponsors = λ j. moved-sponsor j ∙ ground arith;
    lists = moved-lists;
    cleared = moved-cleared;
  }

-- One recruit and then the others.
IsMoved-cons :
    (target s : ℕ) (survivors : List ℕ) (a b c : Arena)
    → IsMoved target (s ∷ []) a b
    → IsMoved target survivors b c
    → IsMoved target (s ∷ survivors) a c
unfolding contains
IsMoved-cons target s survivors a b c m n = record {
  size = n.size ∙ m.size;
  index = n.index ∙ m.index;
  free_list = n.free_list ∙ m.free_list;
  root = n.root ∙ m.root;
  user_ids = λ j. n.user_ids j ∙ m.user_ids j;
  parents = λ j. n.parents j ∙ m.parents j;
  children = λ j. n.children j ∙ m.children j;
  depths = λ j. n.depths j ∙ m.depths j;
  sponsors = λ j. n.sponsors j ∙ ground (arith, m.sponsors j);
  lists = λ j k. n.lists j k ∙ ground (arith, m.lists j k);
  cleared = λ j h. n.cleared j (m.user_ids j ∙ h) ∙ m.cleared j h;
}

AreLive-kept :
    (a b : Arena) (xs : List ℕ)
    → ((j : ℕ) → (node_at b j).user_id ≡ (node_at a j).user_id)
    → AreLive a xs
    → AreLive b xs
AreLive-kept a b [] same live = tt
AreLive-kept a b (x ∷ xs) same (l, ls) = (λ e. l (sym (same x) ∙ e), AreLive-kept a b xs same ls)

pub move_recruits-IsMoved :
    (target : ℕ) (survivors : List ℕ) (a : Arena)
    → (node_at a target).user_id ≢ nil
    → AreLive a survivors
    → IsMoved target survivors a (move_recruits survivors (some target) a).0
unfolding move_recruits
move_recruits-IsMoved target [] a lt ls = IsMoved-none target a
move_recruits-IsMoved target (s ∷ survivors) a lt (l, ls) =
    let first = moved-IsMoved target s a lt l in
    let b = (move_recruit s (some target) a).0 in
    IsMoved-cons target s survivors a b (move_recruits survivors (some target) b).0 first (
      move_recruits-IsMoved target survivors b (λ e. lt (sym (first.user_ids target) ∙ e))
        (AreLive-kept a b survivors first.user_ids ls))

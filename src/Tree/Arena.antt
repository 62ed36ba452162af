-- ===== src/Tree/Arena.antt =====
-- tree/arena.rs: the slots that all trees share, and what changes them.
--
-- An index out of range, at which the source panics, reads as a cleared slot; in a well-formed arena
-- (Arena/WellFormed.antt) none is stored.
pub mod Walk
pub mod Slots
pub mod WellFormed
pub mod Upline
pub mod Moved
pub mod Downline
pub mod Subtree
pub mod Position
pub mod Descent
pub mod Distinct
use mathlib.Core.Option
use mlmforge.Prelude.{
  ℕ, zero, suc, ◌+◌, ◌-◌, Bool, true, false, not, ◌&&◌, ◌||◌, Option, none, some, List, [], ◌∷◌,
  ◌++◌, map, ltb, leb, ◌==◌, if◌then◌else◌, is_none, length, get_elem?, get_or, filter, contains,
}
use mlmforge.Prelude.Int.{ℤ, pos}
use mlmforge.Prelude.Assoc.{lookup, insert, remove}
use mlmforge.Prelude.Results.{Result, ok, err, ◌>>=◌}
use mlmforge.Tree.Node.{
  Node, TreeError, Responsored, user_not_found, nil_user_id, sponsor_cycle,
  sponsorless_with_recruits, position_out_of_range,
}

-- `Uuid::nil()`
abbrev pub nil : ℕ
nil = 0

-- A cleared slot.
abbrev pub blank : Node
blank = record {
  user_id = nil;
  parent = none;
  children = [];
  sponsor = none;
  sponsored = [];
  depth = 0;
  enrolled_at = pos 0;
}

pub record Arena : Type 0 where
  pub nodes : List Node
  pub index : List (ℕ × ℕ)
  pub free_list : List ℕ
  pub root : Option ℕ

abbrev pub new : Arena
new = record { nodes = []; index = []; free_list = []; root = none }

abbrev pub node_at : Arena → ℕ → Node
node_at a i = get_or a.nodes i blank

-- `nodes[i]` changed in place.
abbrev pub modify {ℓ} : {A : Type ℓ} → List A → ℕ → (A → A) → List A
modify [] i f = []
modify (x ∷ xs) zero f = f x ∷ xs
modify (x ∷ xs) (suc i) f = x ∷ modify xs i f

abbrev pub modify_node : ℕ → (Node → Node) → Arena → Arena
modify_node i f a = record a { nodes = modify a.nodes i f }

-- An absent user is an error.
abbrev pub found_index : ℕ → Option ℕ → Result TreeError ℕ
found_index user_id none = err (user_not_found user_id)
found_index user_id (some i) = ok i

unfoldable pub resolve : Arena → ℕ → Result TreeError ℕ
unfolding lookup
resolve a user_id = found_index user_id (lookup user_id a.index)

unfoldable pub check_user_id : ℕ → Result TreeError (Unit {0})
check_user_id user_id = if user_id == nil then err nil_user_id else ok tt

-- The last free slot is reused; without one the arena grows. `free_list.pop()` takes from the end,
-- which is the head of the model's list.
abbrev pub alloc_at : Arena → Node → List ℕ → Arena × ℕ
alloc_at a node [] = (record a { nodes = a.nodes ++ node ∷ []; free_list = [] }, length a.nodes)
alloc_at a node (i ∷ left) =
    (record a { nodes = modify a.nodes i (λ _. node); free_list = left }, i)

unfoldable pub alloc_slot : Arena → Node → Arena × ℕ
alloc_slot a node = alloc_at a node a.free_list

unfoldable pub tombstone : ℕ → Arena → Arena
tombstone i a = record a { nodes = modify a.nodes i (λ _. blank); free_list = i ∷ a.free_list }

-- The loop over `0..bound`, by the rounds left.
unfoldable pub survivor_above : Arena → List ℕ → ℕ → ℕ → Option ℕ → Result TreeError (Option ℕ)
unfolding contains
survivor_above a removed i zero current = err (sponsor_cycle (node_at a i).user_id (length a.nodes))
survivor_above a removed i (suc rounds) none = ok none
survivor_above a removed i (suc rounds) (some candidate) =
    let rest = survivor_above a removed i rounds (node_at a candidate).sponsor in
    if not (contains candidate removed) then ok (some candidate) else rest

unfoldable pub surviving_sponsor : Arena → ℕ → List ℕ → Result TreeError (Option ℕ)
unfolding survivor_above
surviving_sponsor a i removed = survivor_above a removed i (length a.nodes) (node_at a i).sponsor

unfoldable pub surviving_recruits : Arena → ℕ → List ℕ → List ℕ
unfolding contains
surviving_recruits a i removed = filter (λ s. not (contains s removed)) (node_at a i).sponsored

-- A target that is one of the recruits would sponsor itself.
unfoldable pub check_target : Arena → ℕ → List ℕ → Option ℕ → Result TreeError (Unit {0})
unfolding contains
check_target a i survivors none =
    err (sponsorless_with_recruits (node_at a i).user_id (length survivors))
check_target a i survivors (some target) =
    if contains target survivors
    then err (sponsor_cycle (node_at a i).user_id (length a.nodes))
    else ok tt

unfoldable pub check_recruits : Arena → ℕ → List ℕ → List ℕ → Result TreeError (Unit {0})
unfolding surviving_sponsor check_target
check_recruits a i removed [] = ok tt
check_recruits a i removed (s ∷ survivors) =
    surviving_sponsor a i removed >>= check_target a i (s ∷ survivors)

-- The loop over the removed nodes, those that are left.
unfoldable pub check_each : Arena → List ℕ → List ℕ → Result TreeError (Unit {0})
unfolding check_recruits surviving_recruits
check_each a removed [] = ok tt
check_each a removed (i ∷ left) =
    check_recruits a i removed (surviving_recruits a i removed) >>= λ _. check_each a removed left

unfoldable pub check_sponsored_removable : Arena → List ℕ → Result TreeError (Unit {0})
unfolding check_each
check_sponsored_removable a removed = check_each a removed removed

-- A removed node, the recruits that it gives up, and who they go to.
pub record Handover : Type 0 where
  pub from : ℕ
  pub survivors : List ℕ
  pub target : Option ℕ

-- Without recruits the sponsors are not walked. An error is where the source panics.
unfoldable pub target_for : Arena → ℕ → List ℕ → List ℕ → Result TreeError (Option ℕ)
unfolding surviving_sponsor
target_for a i removed [] = ok none
target_for a i removed (s ∷ survivors) = surviving_sponsor a i removed

-- Every target is resolved before anything moves. A repeated index is skipped.
unfoldable pub plan_each : Arena → List ℕ → List ℕ → List ℕ → Result TreeError (List Handover)
unfolding target_for surviving_recruits contains
plan_each a removed planned [] = ok []
plan_each a removed planned (i ∷ left) =
    let skipped = plan_each a removed planned left in
    let survivors = surviving_recruits a i removed in
    let taken = target_for a i removed survivors >>= λ target.
    plan_each a removed (i ∷ planned) left >>= λ plan.
    ok (record { from = i; survivors = survivors; target = target } ∷ plan) in
    if contains i planned then skipped else taken

abbrev pub with_sponsor : Option ℕ → Node → Node
with_sponsor target n = record n { sponsor = target }

abbrev pub add_sponsored : ℕ → Node → Node
add_sponsored s n = record n { sponsored = n.sponsored ++ s ∷ [] }

-- A recruit gets its new sponsor. (The moved recruits are collected in order.)
unfoldable pub move_recruit : ℕ → Option ℕ → Arena → Arena × List Responsored
move_recruit s none a = (modify_node s (with_sponsor none) a, [])
move_recruit s (some target) a =
    let a' = modify_node target (add_sponsored s) (modify_node s (with_sponsor (some target)) a) in
    (
      a',
      record { user_id = (node_at a' s).user_id; new_sponsor_id = (node_at a' target).user_id }
          ∷ [],
    )

unfoldable pub move_recruits : List ℕ → Option ℕ → Arena → Arena × List Responsored
unfolding move_recruit
move_recruits [] target a = (a, [])
move_recruits (s ∷ survivors) target a =
    let (a', first) = move_recruit s target a in
    let (a'', rest) = move_recruits survivors target a' in (a'', first ++ rest)

abbrev pub without_recruits : Node → Node
without_recruits n = record n { sponsored = [] }

unfoldable pub hand_over : List Handover → Arena → Arena × List Responsored
unfolding move_recruits
hand_over [] a = (a, [])
hand_over (h ∷ plan) a =
    let (a', first) = move_recruits h.survivors h.target a in
    let (a'', rest) = hand_over plan (modify_node h.from without_recruits a') in
    (a'', first ++ rest)

unfoldable pub reparent_sponsored : List ℕ → Arena → Result TreeError (Arena × List Responsored)
unfolding plan_each hand_over
reparent_sponsored removed a = plan_each a removed [] removed >>= λ plan. ok (hand_over plan a)

unfoldable pub node_count : Arena → ℕ
node_count a = length a.nodes - length a.free_list

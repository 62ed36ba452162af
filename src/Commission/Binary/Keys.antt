-- ===== src/Commission/Binary/Keys.antt =====
-- commission/binary.rs: which positions a map of legs has an entry for.
use mlmforge.Prelude.{
  ℕ, ◌≡◌, refl, sym, ap, ◌∙◌, Bool, true, false, ◌||◌, List, [], ◌∷◌, map, arith, ◌==◌, Bool-cases,
  inl, inr,
}
use mlmforge.Prelude.Assoc.{lookup, insert, contains_key, lookup-insert}
use mlmforge.Prelude.Results.{ok, bind_ok, ok_inj}
use mlmforge.Decimal.{Decimal, try_add}
use mlmforge.Tree.Arena.{node_at}
use mlmforge.Tree.Binary.{BinaryTree, slots_of}
use mlmforge.Commission.Walk.{unwrap_or}
use mlmforge.Commission.Finalize.{Cmp, less, equal, greater, insert_by, sort_by, cmp_ℕ}
use mlmforge.Commission.Binary.Config.{PairingConfig, CycleStepConfig, LegVolumes}
use mlmforge.Commission.Binary.Prep.{
  no_legs, DepthEntry, cmp_depth, nodes_by_depth, subtree_of, sum_subtrees, sum_legs,
  accumulate_leg_volumes, sorted_positions,
}
use mlmforge.Commission.Binary.Settle.{carried}
use mlmforge.Commission.Binary.Pairing.{carry_each, after_payout}
use mlmforge.Commission.Binary.CycleStep.{carry_cycles}

-- Whether an element with that key is in a list.
abbrev pub has {ℓ} : {A : Type ℓ} → (A → ℕ) → ℕ → List A → Bool
has key x [] = false
has key x (a ∷ rest) = key a == x || has key x rest

module _ {ℓ} {A : Type ℓ} (cmp : A → A → Cmp) (key : A → ℕ) (x : ℕ) where
  has-insert_by :
      (a : A) (bs : List A) → has key x (insert_by cmp a bs) ≡ (key a == x || has key x bs)
  unfolding insert_by
  has-insert_by a [] = refl
  has-insert_by a (b ∷ bs) =
      elim (cmp b a)
        as (λ c.
          has key x (elim c [ less ↦ b ∷ insert_by cmp a bs | _ ↦ a ∷ b ∷ bs ])
          ≡ (key a == x || (key b == x || has key x bs))) [
            | less ↦ rw (has-insert_by a bs) (ground arith)
            | equal ↦ refl
            | greater ↦ refl
          ]

  pub has-sort_by : (rest : List A) → has key x (sort_by cmp rest) ≡ has key x rest
  unfolding sort_by
  has-sort_by [] = refl
  has-sort_by (a ∷ rest) =
      has-insert_by a (sort_by cmp rest) ∙ ap (λ (b : Bool). key a == x || b) (has-sort_by rest)

pub has-map {ℓ κ} :
    {A : Type ℓ} {B : Type κ} (f : A → B) (key : B → ℕ) (x : ℕ) (rest : List A)
    → has key x (map f rest) ≡ has (λ a. key (f a)) x rest
has-map f key x [] = refl
has-map f key x (a ∷ rest) = ap (λ (b : Bool). key (f a) == x || b) (has-map f key x rest)

pub has-contains_key {ℓ} :
    {V : Type ℓ} (x : ℕ) (entries : List (ℕ × V))
    → has (λ (entry : ℕ × V). entry.0) x entries ≡ contains_key x entries
unfolding lookup
has-contains_key x [] = refl
has-contains_key x (entry ∷ rest) = elim (Bool-cases (entry.0 == x)) [
  | inl e ↦ rw e refl
  | inr e ↦ rw e (has-contains_key x rest)
]

contains_key-insert {ℓ} :
    {V : Type ℓ} (key x : ℕ) (v : V) (entries : List (ℕ × V))
    → contains_key x (insert key v entries) ≡ (key == x || contains_key x entries)
contains_key-insert key x v entries = elim (Bool-cases (key == x)) [
  | inl e ↦ rw (lookup-insert, e) refl
  | inr e ↦ rw (lookup-insert, e) refl
]

-- The keys that a loop has inserted, and those it inserts next.
or_later : (a b c : Bool) → (b || (a || c)) ≡ ((a || b) || c)
or_later true true c = refl
or_later true false c = refl
or_later false true c = refl
or_later false false c = refl

abbrev pub position : ℕ → ℕ
position i = i

module _ (x : ℕ) where
  carry_each-keys :
      (config : PairingConfig) (eligible : ℕ → Bool) (working : List (ℕ × LegVolumes))
      (positions : List ℕ) (next r : List (ℕ × LegVolumes))
      → carry_each config eligible working next positions ≡ ok r
      → contains_key x r ≡ (has position x positions || contains_key x next)
  unfolding carry_each
  carry_each-keys config eligible working [] next r h = ap (contains_key x) (sym (ok_inj h))
  carry_each-keys config eligible working (uid ∷ positions) next r h =
      let (legs, paid, h1) = bind_ok (after_payout config.volume_after_payout _ _) _ h in
      carry_each-keys config eligible working positions _ r h1
      ∙ ap (λ (b : Bool). has position x positions || b)
          (contains_key-insert uid x (carried config.carry_forward_cap legs) next)
      ∙ or_later (uid == x) (has position x positions) (contains_key x next)

  carry_cycles-keys :
      (config : CycleStepConfig) (post : List (ℕ × LegVolumes)) (positions : List ℕ)
      (next : List (ℕ × LegVolumes))
      → contains_key x (carry_cycles config post next positions)
        ≡ (has position x positions || contains_key x next)
  unfolding carry_cycles
  carry_cycles-keys config post [] next = refl
  carry_cycles-keys config post (uid ∷ positions) next =
      carry_cycles-keys config post positions _
      ∙ ap (λ (b : Bool). has position x positions || b) (contains_key-insert uid x _ next)
      ∙ or_later (uid == x) (has position x positions) (contains_key x next)

  sum_legs-keys :
      (tree : BinaryTree) (totals : List (ℕ × Decimal)) (carry_forward : List (ℕ × LegVolumes))
      (nodes : List DepthEntry) (legs r : List (ℕ × LegVolumes))
      → sum_legs tree totals carry_forward legs nodes ≡ ok r
      → contains_key x r ≡ (has (λ (n : DepthEntry). n.user_id) x nodes || contains_key x legs)
  unfolding sum_legs
  sum_legs-keys tree totals carry_forward [] legs r h = ap (contains_key x) (sym (ok_inj h))
  sum_legs-keys tree totals carry_forward (n ∷ nodes) legs r h =
      let (left, added, h1) =
        bind_ok
          (try_add (subtree_of totals (slots_of n.slot tree.slots).0)
            (unwrap_or no_legs (lookup n.user_id carry_forward)).left)
          _ h in
      let (right, added', h2) =
        bind_ok
          (try_add (subtree_of totals (slots_of n.slot tree.slots).1)
            (unwrap_or no_legs (lookup n.user_id carry_forward)).right)
          _ h1 in
      sum_legs-keys tree totals carry_forward nodes _ r h2
      ∙ ap (λ (b : Bool). has (λ (n : DepthEntry). n.user_id) x nodes || b)
          (contains_key-insert n.user_id x (record { left = left; right = right }) legs)
      ∙ or_later (n.user_id == x) (has (λ (n : DepthEntry). n.user_id) x nodes)
          (contains_key x legs)

  bare : (b : Bool) → (b || false) ≡ b
  bare true = refl
  bare false = refl

  -- The working legs are those of the positions in the tree.
  pub accumulate_leg_volumes-keys :
      (tree : BinaryTree) (totals : List (ℕ × Decimal)) (carry_forward r : List (ℕ × LegVolumes))
      → accumulate_leg_volumes tree totals carry_forward ≡ ok r
      → contains_key x r ≡ contains_key x tree.arena.index
  unfolding accumulate_leg_volumes nodes_by_depth lookup
  accumulate_leg_volumes-keys tree totals carry_forward r h =
      let (sums, summed, h1) = bind_ok (sum_subtrees tree totals [] (nodes_by_depth tree)) _ h in
      let entries =
        map
          (λ (entry : ℕ × ℕ). record {
            slot = entry.1;
            user_id = entry.0;
            depth = (node_at tree.arena entry.1).depth;
          })
          tree.arena.index in
      sum_legs-keys tree sums carry_forward (nodes_by_depth tree) [] r h1
      ∙ bare (has (λ (n : DepthEntry). n.user_id) x (nodes_by_depth tree))
      ∙ has-sort_by cmp_depth (λ (n : DepthEntry). n.user_id) x entries
      ∙ has-map _ (λ (n : DepthEntry). n.user_id) x tree.arena.index
      ∙ has-contains_key x tree.arena.index

  -- The positions are those that have working legs, sorted or not.
  pub working-keys :
      (working : List (ℕ × LegVolumes))
      → has position x (map (λ (entry : ℕ × LegVolumes). entry.0) working) ≡ contains_key x working
  working-keys working =
      has-map (λ (entry : ℕ × LegVolumes). entry.0) position x working ∙ has-contains_key x working

  pub sorted_positions-keys :
      (working : List (ℕ × LegVolumes))
      → has position x (sorted_positions working) ≡ contains_key x working
  unfolding sorted_positions
  sorted_positions-keys working =
      has-sort_by cmp_ℕ position x (map (λ (entry : ℕ × LegVolumes). entry.0) working)
      ∙ working-keys working

  -- Every position is carried forward, and no other.
  pub carry_each-all :
      (config : PairingConfig) (eligible : ℕ → Bool) (working r : List (ℕ × LegVolumes))
      → carry_each config eligible working [] (sorted_positions working) ≡ ok r
      → contains_key x r ≡ contains_key x working
  unfolding lookup
  carry_each-all config eligible working r h =
      carry_each-keys config eligible working (sorted_positions working) [] r h
      ∙ bare (has position x (sorted_positions working))
      ∙ sorted_positions-keys working

  pub carry_cycles-all :
      (config : CycleStepConfig) (post working : List (ℕ × LegVolumes))
      → contains_key x
          (carry_cycles config post [] (map (λ (entry : ℕ × LegVolumes). entry.0) working))
        ≡ contains_key x working
  unfolding lookup
  carry_cycles-all config post working =
      carry_cycles-keys config post (map (λ (entry : ℕ × LegVolumes). entry.0) working) []
      ∙ bare (has position x (map (λ (entry : ℕ × LegVolumes). entry.0) working))
      ∙ working-keys working

-- ===== src/Commission/Eligibility/PassUp.antt =====
-- commission/walk.rs: which sources `build_pass_up_context` makes a distributor pass up.
use mathlib.Core.List.{Perm}
use mlmforge.Prelude.{
  ==_iff, ℕ, zero, suc, ◌≡◌, refl, sym, ap, ◌∙◌, Bool, true, false, ◌&&◌, ◌||◌, some, List, [], ◌∷◌,
  ◌++◌, map, ◌==◌, if◌then◌else◌, Bool-cases, inl, inr, contains, take,
}
use mlmforge.Prelude.Assoc.{lookup, lookup-insert}
use mlmforge.Prelude.Results.{Result, ok, err}
use mlmforge.Tree.Node.{Node, TreeError}
use mlmforge.Tree.Navigator.{TreeNavigator}
use mlmforge.Commission.Types.{PassUpConfig}
use mlmforge.Commission.Eligibility.{
  is_empty, sort_by_enrolment, recruit_sources, skip_set_of, add_skip_set, pass_up_one,
  pass_up_each, build_pass_up_context,
}
use mlmforge.Commission.Eligibility.Enrolled.{AreByEnrolment, sort_by_enrolment-AreByEnrolment}
use mlmforge.Commission.Walk.{set_contains, is_passed_up}

abbrev pub is_node : ℕ → Node → Bool
is_node user_id n = n.user_id == user_id

-- Some element passes the test.
abbrev pub any {ℓ} : {A : Type ℓ} → (A → Bool) → List A → Bool
any p [] = false
any p (x ∷ xs) = p x || any p xs

or_assoc : (a b c : Bool) → ((a || b) || c) ≡ (a || (b || c))
or_assoc true b c = refl
or_assoc false b c = refl

contains-append :
    (m : ℕ) (xs ys : List ℕ) → contains m (xs ++ ys) ≡ (contains m xs || contains m ys)
unfolding contains
contains-append m [] ys = refl
contains-append m (x ∷ xs) ys =
    ap (λ (b : Bool). x == m || b) (contains-append m xs ys)
    ∙ sym (or_assoc (x == m) (contains m xs) (contains m ys))

contains-map :
    (m : ℕ) (ns : List Node) → contains m (map (λ (n : Node). n.user_id) ns) ≡ any (is_node m) ns
unfolding contains
contains-map m [] = refl
contains-map m (n ∷ ns) = ap (λ (b : Bool). n.user_id == m || b) (contains-map m ns)

is_false : (b : Bool) → (b ≡ true → false ≡ true) → b ≡ false
is_false true h = sym (h refl)
is_false false h = refl

absorb : (b c own : Bool) → (b ≡ true → own ≡ true) → (own || (c && own)) ≡ (b || own)
absorb true c own h = ap (λ (t : Bool). t || (c && own)) (h refl)
absorb false true true h = refl
absorb false false true h = refl
absorb false true false h = refl
absorb false false false h = refl

module _ (tree : TreeNavigator) (pass_up : PassUpConfig) (source_id : ℕ) where
  abbrev pub in_downline : Result TreeError (List Node) → Bool
  in_downline (err e) = false
  in_downline (ok descendants) = any (is_node source_id) descendants

  -- The source is the recruit or, where commissions are included, someone in its downline.
  abbrev pub is_of : Node → Bool
  is_of recruit =
      recruit.user_id == source_id
      || (pass_up.includes_commissions && in_downline (tree.get_downline recruit.user_id 0))

  -- The source is of one of the recruits that were enrolled first, as many as are passed up.
  abbrev pub is_of_first : Result TreeError (List Node) → Bool
  is_of_first (err e) = false
  is_of_first (ok sponsored) = any is_of (take pass_up.count (sort_by_enrolment sponsored))

  recruit_sources-is_of :
      (includes : Bool) (recruit : Node) (downline : Result TreeError (List Node))
      → contains source_id (recruit_sources includes recruit downline)
        ≡ (recruit.user_id == source_id || (includes && in_downline downline))
  unfolding recruit_sources contains
  recruit_sources-is_of true recruit (err e) = refl
  recruit_sources-is_of false recruit (err e) = refl
  recruit_sources-is_of true recruit (ok ds) =
      ap (λ (b : Bool). recruit.user_id == source_id || b) (contains-map source_id ds)
  recruit_sources-is_of false recruit (ok ds) = refl

  skip_set_of-is_of :
      (n : ℕ) (recruits : List Node)
      → contains source_id (skip_set_of tree pass_up.includes_commissions n recruits)
        ≡ any is_of (take n recruits)
  unfolding skip_set_of contains
  skip_set_of-is_of zero recruits = refl
  skip_set_of-is_of (suc n) [] = refl
  skip_set_of-is_of (suc n) (r ∷ rs) =
      let downline = tree.get_downline r.user_id 0 in
      let own = recruit_sources pass_up.includes_commissions r downline in
      let first = recruit_sources-is_of pass_up.includes_commissions r downline in
      contains-append source_id own (skip_set_of tree pass_up.includes_commissions n rs) ∙ λ i.
      first i || skip_set_of-is_of n rs i

  -- An empty set holds nothing.
  not_empty : (set : List ℕ) → contains source_id set ≡ true → is_empty set ≡ false
  unfolding is_empty contains
  not_empty [] h = cc
  not_empty (x ∷ xs) h = refl

  nothing : (set : List ℕ) → is_empty set ≡ true → contains source_id set ≡ false
  unfolding is_empty contains
  nothing [] e = refl
  nothing (x ∷ xs) e = cc

  abbrev held : ℕ → List (ℕ × List ℕ) → Bool
  held user_id skip_sets = set_contains source_id (lookup user_id skip_sets)

  add_skip_set-held :
      (user_id other : ℕ) (set : List ℕ) (skip_sets : List (ℕ × List ℕ))
      → (held other skip_sets ≡ true → user_id ≡ other → contains source_id set ≡ true)
      → held other (add_skip_set user_id set skip_sets)
        ≡ (if user_id == other then contains source_id set else held other skip_sets)
  unfolding add_skip_set set_contains
  add_skip_set-held user_id other set skip_sets h =
      let added = lookup-insert user_id other set skip_sets in
      elim (Bool-cases (is_empty set)) [
        | inl e ↦
            let unless : held other skip_sets ≡ true → user_id ≡ other → ⊥ =
              λ p q. let found = h p q in let full = not_empty set found in cc in
            let none_held : contains source_id set ≡ false = nothing set e in
            elim (Bool-cases (user_id == other)) [
              | inl same ↦
                  rw (e, same, none_held)
                    (is_false _ (λ p. absurd (unless p ((==_iff user_id other).0 same))))
              | inr differs ↦ rw (e, differs) refl
            ]
        | inr e ↦ elim (Bool-cases (user_id == other)) [
          | inl same ↦ rw (e, added, same) refl
          | inr differs ↦ rw (e, added, differs) refl
        ]
      ]

  pass_up_one-held :
      (user_id node_id : ℕ) (sponsored : Result TreeError (List Node))
      (skip_sets : List (ℕ × List ℕ))
      → (held node_id skip_sets ≡ true → user_id ≡ node_id → is_of_first sponsored ≡ true)
      → held node_id (pass_up_one tree pass_up user_id sponsored skip_sets)
        ≡ (if user_id == node_id then is_of_first sponsored else held node_id skip_sets)
  unfolding pass_up_one
  pass_up_one-held user_id node_id (err e) skip_sets h = elim (Bool-cases (user_id == node_id)) [
    | inl same ↦ rw same (is_false _ (h_at same))
    | inr differs ↦ rw differs refl
  ]
    where
      h_at : user_id == node_id ≡ true → held node_id skip_sets ≡ true → false ≡ true
      h_at same p = h p ((==_iff user_id node_id).0 same)
  pass_up_one-held user_id node_id (ok sponsored) skip_sets h =
      let recruits = sort_by_enrolment sponsored in
      let set = skip_set_of tree pass_up.includes_commissions pass_up.count recruits in
      let first = skip_set_of-is_of pass_up.count recruits in
      add_skip_set-held user_id node_id set skip_sets (λ p q. first ∙ h p q)
      ∙ ap (λ (b : Bool). if user_id == node_id then b else held node_id skip_sets) first

  -- What is held stays within what is to be passed up.
  pass_up_each-held :
      (participant_ids : List ℕ) (node_id : ℕ) (skip_sets : List (ℕ × List ℕ))
      → (held node_id skip_sets ≡ true → is_of_first (tree.get_sponsored node_id) ≡ true)
      → held node_id (pass_up_each tree pass_up participant_ids skip_sets) ≡ (
          held node_id skip_sets
          || (contains node_id participant_ids && is_of_first (tree.get_sponsored node_id)))
  unfolding pass_up_each contains
  pass_up_each-held [] node_id skip_sets h = or_false (held node_id skip_sets)
    where
      or_false : (b : Bool) → b ≡ (b || false)
      or_false true = refl
      or_false false = refl
  pass_up_each-held (user_id ∷ left) node_id skip_sets h =
      let skip_sets' = pass_up_one tree pass_up user_id (tree.get_sponsored user_id) skip_sets in
      let b = held node_id skip_sets in
      let c = contains node_id left in
      let own = is_of_first (tree.get_sponsored node_id) in
      elim (Bool-cases (user_id == node_id)) [
        | inl same ↦
            let it : user_id ≡ node_id = (==_iff user_id node_id).0 same in
            let its : is_of_first (tree.get_sponsored user_id) ≡ own =
              ap (λ (k : ℕ). is_of_first (tree.get_sponsored k)) it in
            let one : held node_id skip_sets' ≡ own =
              (rw same at (
                pass_up_one-held user_id node_id (tree.get_sponsored user_id) skip_sets
                  (λ p q. its ∙ h p)))
              ∙ its in
            pass_up_each-held left node_id skip_sets' (λ p. sym one ∙ p)
            ∙ (ap (λ (t : Bool). t || (c && own)) one ∙ rw same (absorb b c own h))
        | inr differs ↦
            let one : held node_id skip_sets' ≡ b = rw differs at (
              pass_up_one-held user_id node_id (tree.get_sponsored user_id) skip_sets
                (λ p q. let e = (==_iff user_id node_id).1 q in cc)) in
            pass_up_each-held left node_id skip_sets' (λ p. h (sym one ∙ p))
            ∙ (ap (λ (t : Bool). t || (c && own)) one ∙ rw differs refl)
      ]

  -- What `first` says of a distributor's recruits: sorted by their enrolment, and by the user id where
  -- that is the same, the source is of one of the first, as many as are passed up.
  abbrev pub IsFirst : Result TreeError (List Node) → Bool → Type 0
  IsFirst (err e) first = first ≡ false
  IsFirst (ok sponsored) first =
      (recruits : List Node) × Perm recruits sponsored
      × AreByEnrolment recruits
      × (first ≡ any is_of (take pass_up.count recruits))

  is_of_first-IsFirst :
      (sponsored : Result TreeError (List Node)) → IsFirst sponsored (is_of_first sponsored)
  is_of_first-IsFirst (err e) = refl
  is_of_first-IsFirst (ok sponsored) =
      let (same, sorted) = sort_by_enrolment-AreByEnrolment sponsored in
      (sort_by_enrolment sponsored, same, sorted, refl)

  -- For every distributor: `is_passed_up` holds, after `build_pass_up_context`, exactly if it is among
  -- the participants and the source is of one of the first of its recruits, as many as are passed up,
  -- where these stand in the order of their enrolment, and of their user ids where that is the same:
  -- the source is such a recruit, or someone in its downline where commissions are included. A
  -- distributor whose recruits the tree does not give passes nothing up.
  pub build_pass_up_context-is_passed_up :
      (participant_ids : List ℕ) (node_id : ℕ)
      → (first : Bool) × IsFirst (tree.get_sponsored node_id) first
        × (is_passed_up
              (some (build_pass_up_context tree pass_up participant_ids))
              node_id
              source_id
            ≡ (contains node_id participant_ids && first))
  unfolding build_pass_up_context is_passed_up lookup set_contains
  build_pass_up_context-is_passed_up participant_ids node_id = (
    is_of_first (tree.get_sponsored node_id),
    is_of_first-IsFirst (tree.get_sponsored node_id),
    pass_up_each-held participant_ids node_id [] (λ e. cc),
  )

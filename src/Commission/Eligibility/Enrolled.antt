-- ===== src/Commission/Eligibility/Enrolled.antt =====
-- commission/walk.rs: the order in which `build_pass_up_context` takes a distributor's recruits.
use mathlib.Core.List.{Perm}
use mathlib.Core.List.Perm
use mlmforge.Prelude.{◌+◌, ◌≤◌, ◌≡◌, true, false, List, [], ◌∷◌, arith, Bool-cases, inl, inr, All}
use mlmforge.Prelude.Int.{pos_part, neg_part}
use mlmforge.Tree.Node.{Node}
use mlmforge.Commission.Eligibility.{enrolled_before, insert_by_enrolment, sort_by_enrolment}

-- Enrolled no later, and of no higher user id where both were enrolled at the same time. An integer is
-- the difference of its two parts.
abbrev pub IsEnrolledBy : Node → Node → Type 0
IsEnrolledBy a b =
    let at = pos_part a.enrolled_at + neg_part b.enrolled_at in
    let by = pos_part b.enrolled_at + neg_part a.enrolled_at in
    (at ≤ by) × (at ≡ by → a.user_id ≤ b.user_id)

abbrev pub AreByEnrolment : List Node → Type 0
AreByEnrolment [] = Unit
AreByEnrolment (n ∷ ns) = All (IsEnrolledBy n) ns × AreByEnrolment ns

enrolled_before-true : (a b : Node) → enrolled_before a b ≡ true → IsEnrolledBy a b
unfolding enrolled_before
enrolled_before-true a b h = (ground arith, λ e. ground arith)

enrolled_before-false : (a b : Node) → enrolled_before a b ≡ false → IsEnrolledBy b a
unfolding enrolled_before
enrolled_before-false a b h = (ground arith, λ e. ground arith)

IsEnrolledBy-trans : (a b c : Node) → IsEnrolledBy a b → IsEnrolledBy b c → IsEnrolledBy a c
IsEnrolledBy-trans a b c (h, h') (k, k') = (omega arith, λ e. ground arith)

All-trans :
    (a b : Node) (ns : List Node)
    → IsEnrolledBy a b
    → All (IsEnrolledBy b) ns
    → All (IsEnrolledBy a) ns
All-trans a b [] h all = tt
All-trans a b (c ∷ ns) h (k, all) = (IsEnrolledBy-trans a b c h k, All-trans a b ns h all)

insert-All :
    (m a : Node) (bs : List Node)
    → IsEnrolledBy m a
    → All (IsEnrolledBy m) bs
    → All (IsEnrolledBy m) (insert_by_enrolment a bs)
unfolding insert_by_enrolment
insert-All m a [] h all = (h, tt)
insert-All m a (b ∷ bs) h (k, all) = elim (Bool-cases (enrolled_before b a)) [
  | inl e ↦ rw e (k, insert-All m a bs h all)
  | inr e ↦ rw e (h, (k, all))
]

insert-AreByEnrolment :
    (a : Node) (bs : List Node) → AreByEnrolment bs → AreByEnrolment (insert_by_enrolment a bs)
unfolding insert_by_enrolment
insert-AreByEnrolment a [] s = (tt, tt)
insert-AreByEnrolment a (b ∷ bs) (all, s) = elim (Bool-cases (enrolled_before b a)) [
  | inl e ↦ rw e (insert-All b a bs (enrolled_before-true b a e) all, insert-AreByEnrolment a bs s)
  | inr e ↦
      let before = enrolled_before-false b a e in
      rw e ((before, All-trans a b bs before all), (all, s))
]

insert-perm : (a : Node) (bs : List Node) → Perm (insert_by_enrolment a bs) (a ∷ bs)
unfolding insert_by_enrolment
insert-perm a [] = Perm.refl (a ∷ [])
insert-perm a (b ∷ bs) = elim (Bool-cases (enrolled_before b a)) [
  | inl e ↦ rw e (Perm.trans (Perm.cons b (insert-perm a bs)) (Perm.swap a b bs))
  | inr e ↦ rw e (Perm.refl (a ∷ b ∷ bs))
]

-- The sort gives the same nodes, as often as they were, in the order of their enrolment.
pub sort_by_enrolment-AreByEnrolment :
    (ns : List Node) → Perm (sort_by_enrolment ns) ns × AreByEnrolment (sort_by_enrolment ns)
unfolding sort_by_enrolment
sort_by_enrolment-AreByEnrolment [] = (Perm.refl [], tt)
sort_by_enrolment-AreByEnrolment (n ∷ ns) =
    let (same, sorted) = sort_by_enrolment-AreByEnrolment ns in
    (
      Perm.trans (insert-perm n (sort_by_enrolment ns)) (Perm.cons n same),
      insert-AreByEnrolment n (sort_by_enrolment ns) sorted,
    )

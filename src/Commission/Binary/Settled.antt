-- ===== src/Commission/Binary/Settled.antt =====
-- commission/binary.rs: what holds of every earning still holds when they are sorted and settled.
use mathlib.Core.Path.{subst}
use mlmforge.Prelude.{
  ℕ, suc, ◌≡◌, refl, ap, ◌∙◌, true, false, not, ◌&&◌, Option, none, some, List, [], ◌∷◌, map, All,
  All-append, Bool-cases, inl, inr, arith, ◌==◌, length,
}
use mlmforge.Prelude.Results.{ok, bind_ok, ok_inj}
use mlmforge.Decimal.{Decimal}
use mlmforge.Decimal.Allocate.{allocate_largest_remainder}
use mlmforge.Decimal.Allocate.Length.{length-allocate_largest_remainder}
use mlmforge.Decimal.Ratio.{sum_exceeds}
use mlmforge.Commission.Finalize.{Cmp, less, equal, greater, insert_by, sort_by}
use mlmforge.Commission.Binary.Config.{BinaryCommissionEarning}
use mlmforge.Commission.Binary.Settle.{
  sort_binary, compare_binary, join_group, chunk_by_earner, amounts, with_amounts, rounded,
  settle_group, settle_groups, apply_aggregate_cap, finalize_earnings,
}

module _ (P : BinaryCommissionEarning → Type 0) where
  insert_by-All :
      (cmp : BinaryCommissionEarning → BinaryCommissionEarning → Cmp) (a : BinaryCommissionEarning)
      (bs : List BinaryCommissionEarning)
      → P a
      → All P bs
      → All P (insert_by cmp a bs)
  unfolding insert_by
  insert_by-All cmp a [] p all = (p, tt)
  insert_by-All cmp a (b ∷ bs) p (q, all) =
      elim (cmp b a) as (λ c. All P (elim c [ less ↦ b ∷ insert_by cmp a bs | _ ↦ a ∷ b ∷ bs ])) [
        | less ↦ (q, insert_by-All cmp a bs p all)
        | equal ↦ (p, (q, all))
        | greater ↦ (p, (q, all))
      ]

  pub sort_binary-All : (es : List BinaryCommissionEarning) → All P es → All P (sort_binary es)
  unfolding sort_binary sort_by
  sort_binary-All [] all = tt
  sort_binary-All (e ∷ es) (p, all) =
      insert_by-All compare_binary e (sort_binary es) p (sort_binary-All es all)

  join_group-All :
      (e : BinaryCommissionEarning) (groups : List (List BinaryCommissionEarning))
      → P e
      → All (All P) groups
      → All (All P) (join_group e groups)
  join_group-All e [] p all = ((p, tt), tt)
  join_group-All e ([] ∷ groups) p (q, all) = ((p, tt), all)
  join_group-All e ((f ∷ group) ∷ groups) p (q, all) =
      elim (Bool-cases (e.earner_id == f.earner_id)) [
        | inl h ↦ rw h ((p, q), all)
        | inr h ↦ rw h ((p, tt), (q, all))
      ]

  chunk_by_earner-All :
      (es : List BinaryCommissionEarning) → All P es → All (All P) (chunk_by_earner es)
  unfolding chunk_by_earner
  chunk_by_earner-All [] all = tt
  chunk_by_earner-All (e ∷ es) (p, all) =
      join_group-All e (chunk_by_earner es) p (chunk_by_earner-All es all)

-- `P` holds before the earnings are settled, and `Q` afterwards: of one that is rounded, and of one that
-- gets a share of the cap.
module _ (P Q : BinaryCommissionEarning → Type 0) (round_minor : Decimal → ℕ → Decimal)
    (minor_units : ℕ) (cap : Option Decimal)
    (whole : (e : BinaryCommissionEarning)
      → P e
      → Q (record e { dollar_amount = round_minor e.dollar_amount minor_units }))
    (share : (e : BinaryCommissionEarning) (amount c : Decimal)
      → cap ≡ some c
      → P e
      → Q (record e { dollar_amount = amount; capped = true })) where
  with_whole-All :
      (es : List BinaryCommissionEarning)
      → All P es
      → All Q (with_amounts false es (map (rounded round_minor minor_units) (amounts es)))
  unfolding with_amounts
  with_whole-All [] all = tt
  with_whole-All (e ∷ es) (p, all) = (whole e p, with_whole-All es all)

  with_shares-All :
      (c : Decimal) (es : List BinaryCommissionEarning) (shares : List Decimal)
      → cap ≡ some c
      → length shares ≡ length es
      → All P es
      → All Q (with_amounts true es shares)
  unfolding with_amounts
  with_shares-All c [] shares capped size all = tt
  with_shares-All c (e ∷ es) [] capped size all = absurd (ground arith)
  with_shares-All c (e ∷ es) (a ∷ shares) capped size (p, all) =
      (share e a c capped p, with_shares-All c es shares capped (ground arith) all)

  length-amounts : (es : List BinaryCommissionEarning) → length (amounts es) ≡ length es
  length-amounts [] = refl
  length-amounts (e ∷ es) = ap suc (length-amounts es)

  settle_group-All :
      (c : Decimal) (es r : List BinaryCommissionEarning)
      → cap ≡ some c
      → All P es
      → settle_group round_minor c minor_units es ≡ ok r
      → All Q r
  unfolding settle_group
  settle_group-All c es r capped all h =
      let whole = map (rounded round_minor minor_units) (amounts es) in
      elim (Bool-cases (not (sum_exceeds (amounts es) c) && not (sum_exceeds whole c))) [
        | inl e ↦ subst (All Q) (ok_inj (rw e at h)) (with_whole-All es all)
        | inr e ↦
            let (shares, shared, h1) =
              bind_ok (allocate_largest_remainder (amounts es) c minor_units) _ (rw e at h) in
            let size =
              length-allocate_largest_remainder (amounts es) c minor_units shares shared
              ∙ length-amounts es in
            subst (All Q) (ok_inj h1) (with_shares-All c es shares capped size all)
      ]

  settle_groups-All :
      (c : Decimal) (groups : List (List BinaryCommissionEarning))
      (r : List BinaryCommissionEarning)
      → cap ≡ some c
      → All (All P) groups
      → settle_groups round_minor c minor_units groups ≡ ok r
      → All Q r
  unfolding settle_groups
  settle_groups-All c [] r capped all h = subst (All Q) (ok_inj h) tt
  settle_groups-All c (g ∷ groups) r capped (p, all) h =
      let (first, settled, h1) = bind_ok (settle_group round_minor c minor_units g) _ h in
      let (rest, others, h2) = bind_ok (settle_groups round_minor c minor_units groups) _ h1 in
      subst (All Q) (ok_inj h2) (
        All-append Q first rest (settle_group-All c g first capped p settled)
          (settle_groups-All c groups rest capped all others))

  rounded-All :
      (es : List BinaryCommissionEarning)
      → All P es
      → All Q (
          map
            (λ (e : BinaryCommissionEarning). record e {
              dollar_amount = round_minor e.dollar_amount minor_units;
            })
            es)
  rounded-All [] all = tt
  rounded-All (e ∷ es) (p, all) = (whole e p, rounded-All es all)

  pub finalize_earnings-All :
      (es r : List BinaryCommissionEarning) (o : Option Decimal)
      → cap ≡ o
      → All P es
      → finalize_earnings round_minor es o minor_units ≡ ok r
      → All Q r
  unfolding finalize_earnings apply_aggregate_cap
  finalize_earnings-All es r none capped all h = subst (All Q) (ok_inj h) (rounded-All es all)
  finalize_earnings-All es r (some c) capped all h =
      settle_groups-All c (chunk_by_earner (sort_binary es)) r capped
        (chunk_by_earner-All P (sort_binary es) (sort_binary-All P es all)) h

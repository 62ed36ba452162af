-- ===== src/Decimal/Allocate/Length.antt =====
-- decimal.rs: `allocate_largest_remainder` gives a part to each share.
use mathlib.Core.Path.{Path}
use mlmforge.Prelude.{
  ℕ, suc, ◌+◌, ◌-◌, ◌*◌, ◌/◌, ◌^◌, ◌%◌, ◌≡◌, refl, sym, ap, ◌∙◌, not, ◌||◌, ◌==◌, ltb, List, [],
  ◌∷◌, map, length, length-map, get_or, set, length-set, range, sum_over, Bool-cases, inl, inr,
}
use Prim.Native.Nat.{max}
use mlmforge.Prelude.Int.{pos, is_negative}
use mlmforge.Prelude.Results.{Result, ok, err, bind_ok, ok_inj}
use mlmforge.Decimal.{Decimal, NumericError, NumericErrorKind, fit, max_scale}
use mlmforge.Decimal.Allocate.{
  hand_out, sort_served, allocate_units, or_fail, fit_units, at_common, common_scale, any_negative,
  allocate_at, allocate_largest_remainder,
}

length-hand_out :
    (order : List ℕ) (leftover : ℕ) (units : List ℕ)
    → length (hand_out order leftover units) ≡ length units
unfolding hand_out
length-hand_out [] leftover units = refl
length-hand_out (i ∷ order) leftover units = elim (Bool-cases (leftover == 0)) [
  | inl e ↦ rw e refl
  | inr e ↦ rw e (
      length-hand_out order (leftover - 1) (set units i (get_or units i 0 + 1))
      ∙ length-set units i (get_or units i 0 + 1))
]

length-allocate_units :
    (shares : List ℕ) (cap_units total : ℕ)
    → length (allocate_units shares cap_units total) ≡ length shares
unfolding allocate_units
length-allocate_units shares cap_units total =
    let units = map (λ (s : ℕ). s * cap_units / total) shares in
    let remainders = map (λ (s : ℕ). s * cap_units % total) shares in
    length-hand_out (sort_served remainders (range 0 (length shares)))
      (cap_units - sum_over (λ (u : ℕ). u) units) units
    ∙ length-map (λ (s : ℕ). s * cap_units / total) shares

length-fit_units :
    (fail : NumericErrorKind → NumericError) (scale : ℕ) (units : List ℕ) (ds : List Decimal)
    → fit_units fail scale units ≡ ok ds
    → length ds ≡ length units
unfolding fit_units
length-fit_units fail scale [] ds h = ap length (sym (ok_inj h))
length-fit_units fail scale (u ∷ units) ds h =
    let (d, first, h1) = bind_ok (or_fail fail (fit (pos u) scale)) _ h in
    let (rest, others, h2) = bind_ok (fit_units fail scale units) _ h1 in
    ap length (sym (ok_inj h2)) ∙ ap suc (length-fit_units fail scale units rest others)

module _ (shares : List Decimal) (cap : Decimal) (scale : ℕ) (ds : List Decimal) where
  refused : (e : NumericError) → Path (Result NumericError (List Decimal)) (err e) (ok ds) → ⊥
  refused e p = cc

  length-allocate_at :
      (common : ℕ) → allocate_at shares cap scale common ≡ ok ds → length ds ≡ length shares
  unfolding allocate_at
  length-allocate_at common h =
      let parts = map (at_common common) shares in
      let total = sum_over (λ (s : ℕ). s) parts in
      let unit = 10 ^ (common - scale) in
      let cap_units = at_common common cap / unit in
      elim (Bool-cases (total == 0)) [
        | inl e ↦ absurd (refused _ (rw e at h))
        | inr e ↦ elim (Bool-cases (not (at_common common cap % unit == 0))) [
          | inl e' ↦ absurd (refused _ (rw (e, e') at h))
          | inr e' ↦
              length-fit_units _ scale (allocate_units parts cap_units total) ds (rw (e, e') at h)
              ∙ length-allocate_units parts cap_units total
              ∙ length-map (at_common common) shares
        ]
      ]

  pub length-allocate_largest_remainder :
      allocate_largest_remainder shares cap scale ≡ ok ds → length ds ≡ length shares
  unfolding allocate_largest_remainder
  length-allocate_largest_remainder h = elim (Bool-cases (ltb max_scale scale)) [
    | inl c ↦ absurd (refused _ (rw (c, allocate_largest_remainder) at h))
    | inr c ↦ elim (Bool-cases (is_negative cap.mantissa || any_negative shares)) [
      | inl n ↦ absurd (refused _ (rw (c, allocate_largest_remainder, n) at h))
      | inr n ↦
          length-allocate_at (common_scale shares (max cap.scale scale))
            (rw (c, allocate_largest_remainder, n) at h)
    ]
  ]

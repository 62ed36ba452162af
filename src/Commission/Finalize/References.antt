-- ===== src/Commission/Finalize/References.antt =====
-- commission/walk_order.rs: `assemble` keeps each earning with the walk and the step that it is of.
use mlmforge.Prelude.{
  ℕ, suc, ◌+◌, ◌-◌, ◌^◌, ◌≤◌, ◌≡◌, refl, sym, ap, ◌∙◌, some, List, [], ◌∷◌, map, arith, length,
  get_elem?, All, All-append,
}
use mlmforge.Prelude.Assoc.{lookup}
use mlmforge.Decimal.{Decimal}
use mlmforge.Commission.Types.{
  VolumeSource, CommissionEarning, StepOutcome, paid, forfeited, WalkStep, Walk, PlanIdentity,
  CommissionCalculationResult,
}
use mlmforge.Commission.Walk.Levels.{Row, paid_row, paid_steps, earning_row}
use mlmforge.Commission.Walk.Audit.{paid_rows}
use mlmforge.Commission.Finalize.{
  Cmp, less, equal, greater, insert_by, sort_by, assign_indexes, remap_walk, remap_earning,
  remap_earnings, round_earnings, sort_earnings, compare_earnings, assemble,
}
use mlmforge.Commission.Finalize.Order.{
  numbered, assign_indexes-remap, length-sort_by, length-assign_indexes,
}

-- The row is of a paid step of the walk: of that step's node, at the step's position from 1.
abbrev pub IsRowOf : Walk → Row → Type 0
IsRowOf w row =
    (row.0 ≡ some w.index)
    × (row.1 ≡ w.source_id)
    × (1 ≤ row.3)
    × (s : WalkStep) × (get_elem? w.steps (row.3 - 1) ≡ some s)
    × (s.outcome ≡ paid)
    × (s.node_id ≡ row.2)

-- The row is of a step of the walk that stands at the walk's number.
abbrev pub Resolves : List Walk → Row → Type 0
Resolves ws row = (w : Walk) × (get_elem? ws w.index ≡ some w) × IsRowOf w row

-- Every walk carries its position.
abbrev pub ArePositions : List Walk → Type 0
ArePositions ws = (i : ℕ) (w : Walk) → get_elem? ws i ≡ some w → w.index ≡ i

module _ {ℓ κ} {A : Type ℓ} (P : A → Type κ) where
  All-get : (xs : List A) → ((i : ℕ) (x : A) → get_elem? xs i ≡ some x → P x) → All P xs
  All-get [] h = tt
  All-get (x ∷ xs) h = (h 0 x refl, All-get xs (λ i y e. h (suc i) y e))

  All-insert_by :
      (cmp : A → A → Cmp) (a : A) (bs : List A) → P a → All P bs → All P (insert_by cmp a bs)
  unfolding insert_by
  All-insert_by cmp a [] h hs = (h, tt)
  All-insert_by cmp a (b ∷ bs) h (hb, hs) =
      elim (cmp b a) as (λ c. All P (elim c [ less ↦ b ∷ insert_by cmp a bs | _ ↦ a ∷ b ∷ bs ])) [
        | less ↦ (hb, All-insert_by cmp a bs h hs)
        | equal ↦ (h, (hb, hs))
        | greater ↦ (h, (hb, hs))
      ]

  All-sort_by : (cmp : A → A → Cmp) (xs : List A) → All P xs → All P (sort_by cmp xs)
  unfolding sort_by
  All-sort_by cmp [] hs = tt
  All-sort_by cmp (x ∷ xs) (h, hs) = All-insert_by cmp x (sort_by cmp xs) h (All-sort_by cmp xs hs)

-- The rows that the paid steps stand for are of the walk, the steps from `before` on.
module _ (w : Walk) where
  paid_row-IsRowOf :
      (before : ℕ) (s : WalkStep) (o : StepOutcome) (rows : List Row)
      → s.outcome ≡ o
      → get_elem? w.steps before ≡ some s
      → All (IsRowOf w) rows
      → All (IsRowOf w) (paid_row w.index w.source_id (before + 1) s o rows)
  paid_row-IsRowOf before s forfeited rows is at h = h
  paid_row-IsRowOf before s paid rows is at h =
      let back : before + 1 - 1 ≡ before = omega arith in
      ((refl, refl, omega arith, s, ap (get_elem? w.steps) back ∙ at, is, refl), h)

  paid_steps-IsRowOf :
      (before : ℕ) (ss : List WalkStep)
      → ((i : ℕ) → get_elem? ss i ≡ get_elem? w.steps (before + i))
      → All (IsRowOf w) (paid_steps w.index w.source_id (before + 1) ss)
  unfolding paid_steps
  paid_steps-IsRowOf before [] h = tt
  paid_steps-IsRowOf before (s ∷ ss) h =
      let first : before + 0 ≡ before = omega arith in
      paid_row-IsRowOf before s s.outcome _ refl (sym (h 0 ∙ ap (get_elem? w.steps) first))
        (paid_steps-IsRowOf (before + 1) ss (λ i. h (suc i) ∙ ap (get_elem? w.steps) (omega arith)))

pub paid_rows-Resolves :
    (ws vs : List Walk)
    → ((i : ℕ) (w : Walk) → get_elem? vs i ≡ some w → get_elem? ws w.index ≡ some w)
    → All (Resolves ws) (paid_rows vs)
unfolding paid_rows
paid_rows-Resolves ws [] h = tt
paid_rows-Resolves ws (v ∷ vs) h =
    All-append (Resolves ws) _ _
      (weaken (h 0 v refl) _
        (paid_steps-IsRowOf v 0 v.steps (λ i. ap (get_elem? v.steps) (omega arith))))
      (paid_rows-Resolves ws vs (λ i w e. h (suc i) w e))
  where
    weaken :
        get_elem? ws v.index ≡ some v
        → (rows : List Row) → All (IsRowOf v) rows
        → All (Resolves ws) rows
    weaken at [] hs = tt
    weaken at (row ∷ rows) (is, hs) = ((v, at, is), weaken at rows hs)

abbrev pub EarningResolves : List Walk → CommissionEarning → Type 0
EarningResolves ws e = Resolves ws (earning_row e)

pub All-rows :
    (ws : List Walk) (es : List CommissionEarning)
    → All (Resolves ws) (map earning_row es)
    → All (EarningResolves ws) es
All-rows ws [] h = tt
All-rows ws (e ∷ es) (h, hs) = (h, All-rows ws es hs)

module _ (ws ws' : List Walk) (remap : List (ℕ × ℕ))
    (maps : (c : ℕ) (w : Walk)
      → get_elem? ws c ≡ some w
      → (i : ℕ) × (lookup c remap ≡ some i) × (get_elem? ws' i ≡ some (numbered i w))) where
  remap_earning-Resolves :
      (e : CommissionEarning)
      → EarningResolves ws e
      → (e' : CommissionEarning) × (remap_earning remap e e.walk ≡ some e') × EarningResolves ws' e'
  unfolding remap_earning remap_walk
  remap_earning-Resolves e (w, at, (of, source, level, s, step, is_paid, node)) =
      let (i, found, there) = maps w.index w at in
      (
        record e { walk = some i },
        ap (remap_earning remap e) of ∙ ap (remap_walk e) found,
        (numbered i w, there, (refl, source, level, s, step, is_paid, node)),
      )

  remap_earnings-Resolves :
      (es : List CommissionEarning)
      → All (EarningResolves ws) es
      → (es' : List CommissionEarning) × (remap_earnings remap es ≡ some es')
        × All (EarningResolves ws') es'
        × (length es' ≡ length es)
  unfolding remap_earnings
  remap_earnings-Resolves [] h = ([], refl, tt, refl)
  remap_earnings-Resolves (e ∷ es) (h, hs) =
      let (e', one, r) = remap_earning-Resolves e h in
      let (es', rest, rs, size) = remap_earnings-Resolves es hs in
      (e' ∷ es', rw (one, rest), (r, rs), ap suc size)

-- Rounding changes only the money.
round_earnings-Resolves :
    (round_minor : Decimal → ℕ → Decimal) (minor_units : ℕ) (ws : List Walk)
    (es : List CommissionEarning)
    → All (EarningResolves ws) es
    → All (EarningResolves ws) (round_earnings round_minor es minor_units)
unfolding round_earnings
round_earnings-Resolves round_minor minor_units ws [] h = tt
round_earnings-Resolves round_minor minor_units ws (e ∷ es) (h, hs) =
    (h, round_earnings-Resolves round_minor minor_units ws es hs)

length-round_earnings :
    (round_minor : Decimal → ℕ → Decimal) (minor_units : ℕ) (es : List CommissionEarning)
    → length (round_earnings round_minor es minor_units) ≡ length es
unfolding round_earnings
length-round_earnings round_minor minor_units [] = refl
length-round_earnings round_minor minor_units (e ∷ es) =
    ap suc (length-round_earnings round_minor minor_units es)

pub assemble-Resolves :
    (round_minor : Decimal → ℕ → Decimal) (earnings : List CommissionEarning) (walks : List Walk)
    (volume : List VolumeSource) (rank_ordinals : List (ℕ × ℕ)) (plan_identity : PlanIdentity)
    (minor_units : ℕ)
    → length walks ≤ 2 ^ 32
    → ArePositions walks
    → All (EarningResolves walks) earnings
    → (r : CommissionCalculationResult) × (assemble round_minor earnings walks volume rank_ordinals
          plan_identity minor_units
        ≡ some r)
      × All (EarningResolves r.walks) r.earnings
      × (length r.walks ≡ length walks)
      × (length r.earnings ≡ length earnings)
unfolding assemble sort_earnings
assemble-Resolves round_minor earnings walks volume rank_ordinals plan_identity minor_units room ids
      h =
    let assigned = assign_indexes walks volume rank_ordinals in
    let (es', remapped, rs, size) =
      remap_earnings-Resolves walks assigned.0 assigned.1 maps earnings h in
    let rounded = round_earnings-Resolves round_minor minor_units assigned.0 es' rs in
    (
      record {
        earnings = sort_by compare_earnings (round_earnings round_minor es' minor_units);
        walks = assigned.0;
        plan = plan_identity;
      },
      rw remapped,
      All-sort_by (EarningResolves assigned.0) compare_earnings _ rounded,
      length-assign_indexes walks volume rank_ordinals,
      length-sort_by compare_earnings (round_earnings round_minor es' minor_units)
          ∙ length-round_earnings round_minor minor_units es'
          ∙ size,
    )
  where
    maps :
        (c : ℕ) (w : Walk)
        → get_elem? walks c ≡ some w
        → (i : ℕ) × (lookup c (assign_indexes walks volume rank_ordinals).1 ≡ some i)
          × (get_elem? (assign_indexes walks volume rank_ordinals).0 i ≡ some (numbered i w))
    maps c w at =
        let (i, found, there, _) =
          assign_indexes-remap walks volume rank_ordinals room ids c w at in
        (i, found, there)

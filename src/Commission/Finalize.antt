-- ===== src/Commission/Finalize.antt =====
-- commission/finalize.rs, commission/walk_order.rs and `sort_earnings` of commission/walk.rs: the end
-- of every calculation. `round_minor` is `rust_decimal`'s rounding to a number of places.
pub mod Order
pub mod References
use mlmforge.Prelude.{
  ℕ, ◌+◌, ◌-◌, ◌%◌, ◌^◌, Bool, true, false, Option, none, some, List, [], ◌∷◌, map, ltb, leb, ◌==◌,
  if◌then◌else◌, length, contains,
}
use mlmforge.Prelude.Assoc.{lookup, insert}
use mlmforge.Prelude.Results.{Result, ok, err}
use mlmforge.Decimal.{Decimal}
use mlmforge.Commission.Types.{
  VolumeSource, CommissionEarning, CalculationError, unknown_currency, WalkKind, Walk, PlanIdentity,
  CommissionCalculationResult,
}

unfoldable pub known_currency : ℕ → Option ℕ → Result CalculationError ℕ
known_currency base_currency none = err (unknown_currency base_currency)
known_currency base_currency (some minor_units) = ok minor_units

-- The currency table is read by `minor_units`.
unfoldable pub plan_minor_units : (ℕ → Option ℕ) → ℕ → Result CalculationError ℕ
unfolding known_currency
plan_minor_units minor_units base_currency =
    known_currency base_currency (minor_units base_currency)

unfoldable pub round_earnings :
    (Decimal → ℕ → Decimal) → List CommissionEarning → ℕ → List CommissionEarning
round_earnings round_minor earnings minor_units =
    map
      (λ (e : CommissionEarning). record e {
        dollar_amount = round_minor e.dollar_amount minor_units;
      })
      earnings

-- A comparison: below, equal or above.
pub data Cmp : Type 0 where
  less equal greater : Cmp

abbrev pub then_with : Cmp → Cmp → Cmp
then_with less next = less
then_with equal next = next
then_with greater next = greater

abbrev pub cmp_ℕ : ℕ → ℕ → Cmp
cmp_ℕ a b = if ltb a b then less else if ltb b a then greater else equal

-- `Option`'s order: `None` first.
abbrev pub cmp_option : Option ℕ → Option ℕ → Cmp
cmp_option none none = equal
cmp_option none (some b) = less
cmp_option (some a) none = greater
cmp_option (some a) (some b) = cmp_ℕ a b

unfoldable pub compare_earnings : CommissionEarning → CommissionEarning → Cmp
compare_earnings a b = then_with (cmp_ℕ a.earner_id b.earner_id) (
    then_with (cmp_ℕ a.source_id b.source_id)
      (then_with (cmp_ℕ a.level b.level) (cmp_option a.walk b.walk)))

-- `sort_by` is stable: an element goes before those that are not below it.
unfoldable pub insert_by {ℓ} : {A : Type ℓ} → (A → A → Cmp) → A → List A → List A
insert_by cmp a [] = a ∷ []
insert_by cmp a (b ∷ bs) =
    let rest = insert_by cmp a bs in elim (cmp b a) [ less ↦ b ∷ rest | _ ↦ a ∷ b ∷ bs ]

unfoldable pub sort_by {ℓ} : {A : Type ℓ} → (A → A → Cmp) → List A → List A
unfolding insert_by
sort_by cmp [] = []
sort_by cmp (a ∷ rest) = insert_by cmp a (sort_by cmp rest)

unfoldable pub sort_earnings : List CommissionEarning → List CommissionEarning
unfolding sort_by compare_earnings
sort_earnings earnings = sort_by compare_earnings earnings

-- `position.entry(id).or_insert(i)` for each source in turn.
unfoldable pub keep_first : ℕ → ℕ → List (ℕ × ℕ) → Option ℕ → List (ℕ × ℕ)
unfolding insert
keep_first source_id i position none = insert source_id i position
keep_first source_id i position (some j) = position

unfoldable pub positions_from : ℕ → List VolumeSource → List (ℕ × ℕ) → List (ℕ × ℕ)
unfolding keep_first lookup
positions_from i [] position = position
positions_from i (v ∷ vs) position =
    positions_from (i + 1) vs (keep_first v.source_id i position (lookup v.source_id position))

unfoldable pub kind_key : WalkKind → ℕ
kind_key WalkKind.level = 0
kind_key WalkKind.generation = 1

abbrev pub or_default : ℕ → Option ℕ → ℕ
or_default d none = d
or_default d (some n) = n

-- The order of `Option<(u16, &str)>`.
unfoldable pub compare_ranks : List (ℕ × ℕ) → Option ℕ → Option ℕ → Cmp
unfolding lookup
compare_ranks rank_ordinals none none = equal
compare_ranks rank_ordinals none (some b) = less
compare_ranks rank_ordinals (some a) none = greater
compare_ranks rank_ordinals (some a) (some b) =
    then_with
      (cmp_ℕ (or_default 0 (lookup a rank_ordinals)) (or_default 0 (lookup b rank_ordinals)))
      (cmp_ℕ a b)

-- A source that the volume does not hold is at `usize::MAX`.
unfoldable pub source_position : Walk → List (ℕ × ℕ) → ℕ
unfolding lookup
source_position w position = or_default (2 ^ 64 - 1) (lookup w.source_id position)

unfoldable pub compare_walks : List (ℕ × ℕ) → List (ℕ × ℕ) → Walk → Walk → Cmp
unfolding kind_key compare_ranks source_position
compare_walks position rank_ordinals a b = then_with (cmp_ℕ (kind_key a.kind) (kind_key b.kind)) (
    then_with (cmp_option a.stream_id b.stream_id) (
      then_with (compare_ranks rank_ordinals a.rank b.rank) (
        then_with (cmp_ℕ (source_position a position) (source_position b position))
          (cmp_ℕ a.index b.index))))

-- The loop that numbers the sorted walks and records the old number of each.
unfoldable pub number_walks : ℕ → List Walk → List (ℕ × ℕ) → List Walk × List (ℕ × ℕ)
unfolding insert
number_walks new_index [] remap = ([], remap)
number_walks new_index (w ∷ ws) remap =
    let (ws', remap') =
      number_walks (new_index + 1) ws (insert w.index (new_index % 2 ^ 32) remap) in
    (record w { index = new_index % 2 ^ 32 } ∷ ws', remap')

unfoldable pub assign_indexes :
    List Walk → List VolumeSource → List (ℕ × ℕ) → List Walk × List (ℕ × ℕ)
unfolding number_walks sort_by compare_walks positions_from
assign_indexes walks volume rank_ordinals =
    number_walks 0 (sort_by (compare_walks (positions_from 0 volume []) rank_ordinals) walks) []

-- `none` where the source panics: no walk carried the earning's collector id.
unfoldable pub remap_walk : CommissionEarning → Option ℕ → Option CommissionEarning
remap_walk e none = none
remap_walk e (some i) = some (record e { walk = some i })

unfoldable pub remap_earning :
    List (ℕ × ℕ) → CommissionEarning → Option ℕ → Option CommissionEarning
unfolding remap_walk lookup
remap_earning remap e none = some e
remap_earning remap e (some collector_id) = remap_walk e (lookup collector_id remap)

infixl 5 ◌>>=◌
abbrev ◌>>=◌ {ℓ κ} : {A : Type ℓ} {B : Type κ} → Option A → (A → Option B) → Option B
none >>= f = none
some a >>= f = f a

unfoldable pub remap_earnings :
    List (ℕ × ℕ) → List CommissionEarning → Option (List CommissionEarning)
unfolding remap_earning
remap_earnings remap [] = some []
remap_earnings remap (e ∷ es) = do
  e' ← remap_earning remap e e.walk
  es' ← remap_earnings remap es
  some (e' ∷ es')

unfoldable pub assemble :
    (Decimal → ℕ → Decimal)
    → List CommissionEarning
    → List Walk
    → List VolumeSource
    → List (ℕ × ℕ)
    → PlanIdentity
    → ℕ
    → Option CommissionCalculationResult
unfolding assign_indexes remap_earnings round_earnings sort_earnings
assemble round_minor earnings walks volume rank_ordinals plan_identity minor_units = do
  let assigned = assign_indexes walks volume rank_ordinals
  remapped ← remap_earnings assigned.1 earnings
  some (record {
    earnings = sort_earnings (round_earnings round_minor remapped minor_units);
    walks = assigned.0;
    plan = plan_identity;
  })

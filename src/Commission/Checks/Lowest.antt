-- ===== src/Commission/Checks/Lowest.antt =====
-- commission/walk.rs: the snapshot checks accept exactly the sound inputs, and name the lowest offender
-- otherwise.
use mlmforge.Prelude.{
  ℕ, zero, suc, ◌≤◌, ◌<◌, ◌≡◌, refl, Bool, true, false, not, Option, none, some, List, [], ◌∷◌, map,
  arith, ltb, contains, is_none, All, filter, get_elem?, Bool-cases, inl, inr, if◌then◌else◌,
  ltb→lt, ltb→le,
}
use mlmforge.Prelude.Assoc.{lookup}
use mlmforge.Prelude.Results.{◌>>=◌, Result, ok, err}
use mlmforge.Prelude.Int.{is_negative}
use mlmforge.Commission.Types.{
  DistributorSnapshot, RankDefinition, CalculationError, unknown_snapshot_rank,
  invalid_personal_volume, distributor_not_in_snapshot,
}
use mlmforge.Commission.Checks.{
  min_by_key, has_unknown_rank, has_negative_volume, has_no_snapshot, refuse_rank, refuse_volume,
  refuse_missing, validate_snapshots,
}

module _ {A : Type 0} (key : A → ℕ) where
  -- The element is in the list, passes the test, and is of the least key among those that do.
  abbrev pub IsLowest : (A → Bool) → List A → A → Type 0
  IsLowest bad xs a =
      ((i : ℕ) × (get_elem? xs i ≡ some a))
      × (bad a ≡ true)
      × ((i : ℕ) (x : A) → get_elem? xs i ≡ some x → bad x ≡ true → key a ≤ key x)

  abbrev pub HasNone : (A → Bool) → List A → Type 0
  HasNone bad = All λ x. bad x ≡ false

  -- What a search for the lowest answers.
  abbrev pub Answers : (A → Bool) → List A → Option A → Type 0
  Answers bad xs none = HasNone bad xs
  Answers bad xs (some a) = IsLowest bad xs a

  Answers-skip :
      (bad : A → Bool) (x : A) (xs : List A) (o : Option A)
      → bad x ≡ false
      → Answers bad xs o
      → Answers bad (x ∷ xs) o
  Answers-skip bad x xs none good h = (good, h)
  Answers-skip bad x xs (some a) good ((i, at), is_bad, least) = ((suc i, at), is_bad, least')
    where
      least' : (j : ℕ) (y : A) → get_elem? (x ∷ xs) j ≡ some y → bad y ≡ true → key a ≤ key y
      least' zero y e b = cc
      least' (suc j) y e b = least j y e b

  HasNone-get :
      (bad : A → Bool) (xs : List A) (i : ℕ) (y : A)
      → HasNone bad xs
      → get_elem? xs i ≡ some y
      → bad y ≡ false
  HasNone-get bad [] i y h e = cc
  HasNone-get bad (x ∷ xs) zero y (h, hs) e = cc
  HasNone-get bad (x ∷ xs) (suc i) y (h, hs) e = HasNone-get bad xs i y hs e

  pick :
      (bad : A → Bool) (x : A) (xs : List A) (o : Option A)
      → bad x ≡ true
      → Answers bad xs o
      → Answers bad
          (x ∷ xs)
          (elim o [ none ↦ some x | some y ↦ if ltb (key y) (key x) then some y else some x ])
  pick bad x xs none b h = ((0, refl), b, least)
    where
      least : (j : ℕ) (y : A) → get_elem? (x ∷ xs) j ≡ some y → bad y ≡ true → key x ≤ key y
      least zero y e by = let same : key x ≡ key y = cc in omega arith
      least (suc j) y e by = cc (HasNone-get bad xs j y h e)
  pick bad x xs (some a) b ((i, at), is_bad, least) = elim (Bool-cases (ltb (key a) (key x))) [
    | inl lower ↦ rw lower ((suc i, at), is_bad, below (ltb→lt (key a) (key x) lower))
    | inr not_lower ↦ rw not_lower ((0, refl), b, above (ltb→le (key a) (key x) not_lower))
  ]
    where
      below :
          key a < key x
          → (j : ℕ) (y : A) → get_elem? (x ∷ xs) j ≡ some y
          → bad y ≡ true
          → key a ≤ key y
      below lt zero y e by = let same : key x ≡ key y = cc in omega arith
      below lt (suc j) y e by = least j y e by

      above :
          key x ≤ key a
          → (j : ℕ) (y : A) → get_elem? (x ∷ xs) j ≡ some y
          → bad y ≡ true
          → key x ≤ key y
      above le zero y e by = let same : key x ≡ key y = cc in omega arith
      above le (suc j) y e by = omega (arith, least j y e by)

  min_by_key-Answers :
      (bad : A → Bool) (xs : List A) → Answers bad xs (min_by_key key (filter bad xs))
  unfolding min_by_key
  min_by_key-Answers bad [] = tt
  min_by_key-Answers bad (x ∷ xs) = elim (Bool-cases (bad x)) [
    | inl b ↦ rw b (pick bad x xs (min_by_key key (filter bad xs)) b (min_by_key-Answers bad xs))
    | inr good ↦
        rw good
          (Answers-skip bad x xs (min_by_key key (filter bad xs)) good (min_by_key-Answers bad xs))
  ]

module _ (ranks : List RankDefinition) (snapshots : List (ℕ × DistributorSnapshot))
    (required : List ℕ) where
  -- The offences: a rank outside the ladder, a negative volume, a missing snapshot.
  abbrev pub unknown_rank : ℕ × DistributorSnapshot → Bool
  unknown_rank entry = not (contains entry.1.rank (map (λ (r : RankDefinition). r.name) ranks))

  abbrev pub negative_volume : ℕ × DistributorSnapshot → Bool
  negative_volume entry = is_negative entry.1.personal_volume.mantissa

  abbrev pub no_snapshot : ℕ → Bool
  no_snapshot user_id = is_none (lookup user_id snapshots)

  abbrev pub entry_key : ℕ × DistributorSnapshot → ℕ
  entry_key entry = entry.0

  abbrev pub id_key : ℕ → ℕ
  id_key user_id = user_id

  -- What the outcome of the checks says of the snapshots.
  abbrev pub IsVerdict : Result CalculationError (Unit {0}) → Type 0
  IsVerdict (ok done) =
      HasNone entry_key unknown_rank snapshots
      × HasNone entry_key negative_volume snapshots
      × HasNone id_key no_snapshot required
  IsVerdict (err (unknown_snapshot_rank user_id rank)) =
      (s : DistributorSnapshot) × (s.rank ≡ rank)
      × IsLowest entry_key unknown_rank snapshots (user_id, s)
  IsVerdict (err (invalid_personal_volume user_id volume)) =
      HasNone entry_key unknown_rank snapshots
      × (s : DistributorSnapshot) × (s.personal_volume ≡ volume)
      × IsLowest entry_key negative_volume snapshots (user_id, s)
  IsVerdict (err (distributor_not_in_snapshot user_id)) =
      HasNone entry_key unknown_rank snapshots
      × HasNone entry_key negative_volume snapshots
      × IsLowest id_key no_snapshot required user_id
  IsVerdict (err other) = ⊥

  verdict :
      (ranked counted : Option (ℕ × DistributorSnapshot)) (missing : Option ℕ)
      → Answers entry_key unknown_rank snapshots ranked
      → Answers entry_key negative_volume snapshots counted
      → Answers id_key no_snapshot required missing
      → IsVerdict
          (refuse_rank ranked >>= λ _. refuse_volume counted >>= λ _. refuse_missing missing)
  unfolding refuse_rank refuse_volume refuse_missing
  verdict none none none a b c = (a, b, c)
  verdict none none (some user_id) a b c = (a, b, c)
  verdict none (some (user_id, s)) missing a b c = (a, s, refl, b)
  verdict (some (user_id, s)) counted missing a b c = (s, refl, a)

  -- The checks accept exactly if every snapshot's rank is in the ladder, no personal volume is negative
  -- and every required user has a snapshot. Otherwise the error is of the first of these three kinds of
  -- offence that occurs, and it names the lowest user id among those that commit it, with the rank or
  -- the volume of that user's entry.
  pub validate_snapshots-IsVerdict : IsVerdict (validate_snapshots ranks snapshots required)
  unfolding validate_snapshots has_unknown_rank has_negative_volume has_no_snapshot
  validate_snapshots-IsVerdict =
      verdict _ _ _ (min_by_key-Answers entry_key unknown_rank snapshots)
        (min_by_key-Answers entry_key negative_volume snapshots)
        (min_by_key-Answers id_key no_snapshot required)

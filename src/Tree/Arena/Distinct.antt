-- ===== src/Tree/Arena/Distinct.antt =====
-- Lists of distinct slots of an arena are no longer than the arena.
use mlmforge.Prelude.{
  ℕ, zero, suc, ◌+◌, ◌≤◌, ◌<◌, ◌≡◌, not, List, [], ◌∷◌, ◌++◌, arith, ◌==◌, length, filter, All,
}
use mlmforge.Tree.Arena.Slots.{times, times-retain}

abbrev pub AreBelow : ℕ → List ℕ → Type 0
AreBelow n = All (λ i. i < n)

abbrev pub AreDistinct : List ℕ → Type 0
AreDistinct xs = (c : ℕ) → times c xs ≤ 1

length-retain :
    (i : ℕ) (xs : List ℕ) → length (filter (λ x. not (x == i)) xs) + times i xs ≡ length xs
length-retain i [] = omega arith
length-retain i (x ∷ xs) = ground (arith, length-retain i xs)

retain-AreBelow :
    (n : ℕ) (xs : List ℕ) → AreBelow (suc n) xs → AreBelow n (filter (λ x. not (x == n)) xs)
retain-AreBelow n [] h = tt
retain-AreBelow n (x ∷ xs) (b, bs) = ground (arith, retain-AreBelow n xs bs)

pub AreDistinct-length : (n : ℕ) (xs : List ℕ) → AreBelow n xs → AreDistinct xs → length xs ≤ n
AreDistinct-length zero [] h d = omega arith
AreDistinct-length zero (x ∷ xs) (b, bs) d = absurd (omega arith)
AreDistinct-length (suc n) xs h d =
    let fewer =
      AreDistinct-length n (filter (λ x. not (x == n)) xs) (retain-AreBelow n xs h)
        (λ c. ground (arith, times-retain c n xs, d c)) in
    omega (arith, fewer, length-retain n xs, d n)

pub times-append : (c : ℕ) (xs ys : List ℕ) → times c (xs ++ ys) ≡ times c xs + times c ys
times-append c [] ys = omega arith
times-append c (x ∷ xs) ys = omega (arith, times-append c xs ys)

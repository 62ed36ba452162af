-- ===== src/Decimal/Ratio/Nearest.antt =====
-- decimal.rs: `round_quotient` gives a decimal in range that is nearest to the quotient at its scale.
use mathlib.Core.Path.{subst}
use native.Mathlib.Nat.{div-add-mod', mul-le-mul_left}
use mlmforge.Prelude.{
  ℕ, zero, suc, ◌+◌, ◌-◌, ◌*◌, ◌/◌, ◌%◌, ◌^◌, ◌≤◌, ◌<◌, ◌≡◌, sym, ap, Bool, ◌||◌, ◌&&◌, arith, leb,
  ltb, ◌==◌, Bool-cases, inl, inr,
}
use mlmforge.Prelude.Int.{abs, signed, abs-signed}
use mlmforge.Prelude.Results.{ok, ok_inj}
use mlmforge.Decimal.{Decimal, limit_96}
use mlmforge.Decimal.Exact.{pow_pos}
use mlmforge.Decimal.Ratio.{round_even_by, round_dropping, round_ratio, round_quotient}

-- `kept` steps of a size are within half a step of the number.
abbrev pub IsNearest : ℕ → ℕ → ℕ → Type 0
IsNearest num step kept =
    (2 * (kept * step) ≤ 2 * num + step) × (2 * num ≤ 2 * (kept * step) + step)

round_even_by-IsNearest :
    (base step below : ℕ)
    → below < step
    → IsNearest (base * step + below) step (round_even_by (below * 2) step base)
round_even_by-IsNearest base step below h =
    elim (Bool-cases (ltb step (below * 2) || ((below * 2 == step) && (base % 2 == 1)))) [
      | inl e ↦ rw e (ground arith, ground arith)
      | inr e ↦ rw e (ground arith, ground arith)
    ]

-- A decimal with a coefficient below 2 ^ 96, at the scale less what was dropped, that is nearest to num / den
-- at the full scale.
abbrev pub IsRounded : Bool → ℕ → ℕ → ℕ → Decimal → Type 0
IsRounded negative num den max_scale d =
    (drop : ℕ) × (d.scale + drop ≡ max_scale)
    × (d.mantissa ≡ signed negative (abs d.mantissa))
    × (abs d.mantissa < limit_96)
    × IsNearest num (10 ^ drop * den) (abs d.mantissa)

-- One round of the loop: what is kept, of the quotient and its remainder.
round-IsNearest :
    (num den unit : ℕ)
    → 1 ≤ den
    → 1 ≤ unit
    → IsNearest num
        (unit * den)
        (round_even_by (((num / den % unit) * den + num % den) * 2) (unit * den) (num / den / unit))
round-IsNearest num den unit hd hu =
    let whole = div-add-mod' num den in
    let parts = div-add-mod' (num / den) unit in
    let small : num % den < den = grind arith in
    let few : num / den % unit < unit = grind arith in
    let q = num / den in
    let below : q % unit * den + num % den < unit * den =
      let next : suc (q % unit) ≤ unit = omega arith in
      let over = mul-le-mul_left den next in omega arith in
    let sum : q / unit * (unit * den) + (q % unit * den + num % den) ≡ num =
      let spread = ap (λ (k : ℕ). k * den) parts in omega arith in
    subst
      (λ (n : ℕ).
        IsNearest n (unit * den)
          (round_even_by ((q % unit * den + num % den) * 2) (unit * den) (q / unit)))
      sum (round_even_by-IsNearest (q / unit) (unit * den) (q % unit * den + num % den) below)

round_dropping-IsRounded :
    (negative : Bool) (num den max_scale drop rounds : ℕ) (d : Decimal)
    → 1 ≤ den
    → drop + rounds ≤ max_scale + 1
    → round_dropping negative (num / den) (num % den) den max_scale drop rounds ≡ ok d
    → IsRounded negative num den max_scale d
unfolding round_dropping
round_dropping-IsRounded negative num den max_scale drop zero d hd hr h = cc
round_dropping-IsRounded negative num den max_scale drop (suc rounds) d hd hr h =
    let unit = 10 ^ drop in
    let kept =
      round_even_by (((num / den % unit) * den + num % den) * 2) (unit * den) (num / den / unit) in
    let later =
      λ (e : round_dropping negative (num / den) (num % den) den max_scale (drop + 1) rounds
          ≡ ok d).
        round_dropping-IsRounded negative num den max_scale (drop + 1) rounds d hd (omega arith)
          e in
    elim (Bool-cases (leb limit_96 (num / den / unit / 10))) [
      | inl e ↦ later (rw e at h)
      | inr e ↦ elim (Bool-cases (ltb kept limit_96)) [
        | inl e' ↦
            let made : Path Decimal
                (record { mantissa = signed negative kept; scale = max_scale - drop }) d =
              ok_inj (rw (e, e') at h) in
            let near = round-IsNearest num den unit hd (pow_pos drop) in
            subst (IsRounded negative num den max_scale) made (
              drop,
              omega arith,
              ap (signed negative) (sym (abs-signed negative kept)),
              rw abs-signed (ground arith),
              rw abs-signed near,
            )
        | inr e' ↦ later (rw (e, e') at h)
      ]
    ]

-- If `round_quotient` succeeds, with a divisor above zero, the result is at some scale of at most
-- `max_scale`, its coefficient is below 2 ^ 96 and has the sign that is given, and it is within half a
-- unit of that scale of the exact quotient of the two values: written without division, with both sides
-- brought to whole numbers.
pub round_quotient-IsRounded :
    (negative : Bool) (num num_scale den den_scale max_scale : ℕ) (d : Decimal)
    → 1 ≤ den
    → round_quotient negative num num_scale den den_scale max_scale ≡ ok d
    → IsRounded negative
        (num * 10 ^ (max_scale + den_scale - num_scale))
        (den * 10 ^ (num_scale - (max_scale + den_scale)))
        max_scale
        d
unfolding round_quotient round_ratio
round_quotient-IsRounded negative num num_scale den den_scale max_scale d hd h =
    let to = max_scale + den_scale in
    elim (Bool-cases (leb num_scale to)) [
      | inl e ↦
          let level : num_scale - to ≡ 0 = ground arith in
          let one : den * 10 ^ (num_scale - to) ≡ den = rw level (omega arith) in
          subst (λ (k : ℕ). IsRounded negative (num * 10 ^ (to - num_scale)) k max_scale d)
            (sym one)
            (round_dropping-IsRounded negative (num * 10 ^ (to - num_scale)) den max_scale 0
              (max_scale + 1) d hd (omega arith) (rw e at h))
      | inr e ↦
          let level : to - num_scale ≡ 0 = ground arith in
          let one : num * 10 ^ (to - num_scale) ≡ num = rw level (omega arith) in
          let some_left : 1 ≤ den * 10 ^ (num_scale - to) =
            let over = mul-le-mul_left den (pow_pos (num_scale - to)) in omega arith in
          subst (λ (k : ℕ). IsRounded negative k (den * 10 ^ (num_scale - to)) max_scale d)
            (sym one)
            (round_dropping-IsRounded negative num (den * 10 ^ (num_scale - to)) max_scale 0
              (max_scale + 1) d some_left (omega arith) (rw e at h))
    ]

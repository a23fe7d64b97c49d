-- ===== src/Placement/Division.antt =====
-- What `reserve_agent_avoiding` of bins/coordinator/src/state.rs relies on in the division of two
-- `u32` as `f64`, and a division that has it.
use native.Mathlib.Nat.{
  div-mul-le_self, le-div_iff_mul-le, mul-le-mul, mul-le-mul_right, le_of_mul-le-mul_right,
}
use task_scheduler.Prelude.{ℕ, zero, suc, ◌*◌, ◌/◌, ◌^◌, ◌≤◌, ◌<◌, arith}

-- The quotient is the exact one, rounded to 53 bits: two different fractions of numbers below
-- `2 ^ 26` that are at most 1 differ by more than their roundings.
pub record IsDivision (divide : ℕ → ℕ → ℕ) : Type 0 where
  pub separates :
      (a b p q : ℕ)
      → a ≤ p
      → b ≤ q
      → p < 2 ^ 26
      → q < 2 ^ 26
      → a * q < b * p
      → divide a p < divide b q

-- The quotient in units of `2 ^ -52`, rounded down.
abbrev pub fixed_point : ℕ → ℕ → ℕ
fixed_point a p = a * 2 ^ 52 / p

positive_right : (n b p : ℕ) → n < b * p → 0 < p
positive_right n b zero h = omega arith
positive_right n b (suc p) h = omega arith

positive_left : (n b p : ℕ) → n < b * p → 0 < b
positive_left n zero p h = omega arith
positive_left n (suc b) p h = omega arith

fixed_point-separates :
    (a b p q : ℕ)
    → a ≤ p
    → b ≤ q
    → p < 2 ^ 26
    → q < 2 ^ 26
    → a * q < b * p
    → fixed_point a p < fixed_point b q
fixed_point-separates a b p q ha hb hp hq h =
    let unit : ℕ = 2 ^ 52 in
    let some_p : 0 < p = positive_right (a * q) b p h in
    let some_b : 0 < b = positive_left (a * q) b p h in
    let some_q : 0 < q = omega arith in
    let x : ℕ = a * unit / p in
    let below_p : p ≤ 2 ^ 26 = omega arith in
    let below_q : q ≤ 2 ^ 26 = omega arith in
    let small : p * q ≤ unit = omega (arith, mul-le-mul below_p below_q) in
    let scaled : suc x * q * p ≤ b * unit * p =
      omega (
        arith,
        mul-le-mul_right q (div-mul-le_self (a * unit) p),
        mul-le-mul_right unit h,
        small,
      ) in
    (le-div_iff_mul-le some_q).1 (le_of_mul-le-mul_right scaled some_p)

pub fixed_point-IsDivision : IsDivision fixed_point
fixed_point-IsDivision = record { separates = fixed_point-separates }

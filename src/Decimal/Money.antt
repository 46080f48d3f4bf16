-- ===== src/Decimal/Money.antt =====
-- Lemmas on `money` of app/services/quotation_calculator.py.
use native.Mathlib.Nat.{div-mul-le_self, lt-div-mul-add, mul-div-mul_left, pow-suc}
use global_detergent_sales_a.Prelude.{ℕ, ◌+◌, ◌*◌, ◌^◌, ◌≤◌, ◌<◌, ◌≡◌, arith, suc, ap, ◌∙◌}
use global_detergent_sales_a.Exec.{ok}
use global_detergent_sales_a.Decimal.{
  Decimal, precision_limit, half_up, money, of_cents, percent_of, mul, round_prec,
}
use global_detergent_sales_a.Decimal.Rounding.{pow_pos, round_prec_fits}

-- Half-up division is the integer whose distance from the quotient is at most one half, and
-- strictly less than one half above it.
pub half_up_bounds :
    (n d : ℕ)
    → 1 ≤ d
    → (2 * d * half_up n d ≤ 2 * n + d) × (2 * n + d < 2 * d * half_up n d + 2 * d)
unfolding half_up
half_up_bounds n d h =
    let low = div-mul-le_self (2 * n + d) (2 * d) in
    let high = lt-div-mul-add {a = 2 * n + d} {b = 2 * d} (omega arith) in
    (grind arith, grind arith)

-- An amount that `money` returns is within half a cent of the value, a tie is rounded up, and it
-- has at most 28 digits.
pub money_bounds :
    (d : Decimal) {c : ℕ}
    → money d ≡ ok c
    → (2 * 10 ^ d.scale * c ≤ 200 * d.coefficient + 10 ^ d.scale)
      × (200 * d.coefficient + 10 ^ d.scale < 2 * 10 ^ d.scale * c + 2 * 10 ^ d.scale)
      × (c < precision_limit)
unfolding money
money_bounds d h =
    let (low, high) = half_up_bounds (100 * d.coefficient) (10 ^ d.scale) (pow_pos d.scale) in
    (ground (arith, low), ground (arith, high), ground arith)

-- Whole cents are left as they are.
pub money-of_cents : (n : ℕ) → n < precision_limit → money (of_cents n) ≡ ok n
unfolding money half_up
money-of_cents n h = ground arith

pub money-of_cents_inv :
    (n : ℕ) {c : ℕ} → money (of_cents n) ≡ ok c → (c ≡ n) × (n < precision_limit)
unfolding money half_up
money-of_cents_inv n h = (ground arith, ground arith)

half_up_scaled : (k n d : ℕ) → 0 < k → half_up (k * n) (k * d) ≡ half_up n d
unfolding half_up
half_up_scaled k n d h =
    let top : 2 * (k * n) + k * d ≡ k * (2 * n + d) = omega arith in
    let bottom : 2 * (k * d) ≡ k * (2 * d) = omega arith in
    rw (top, bottom) (mul-div-mul_left (2 * n + d) (2 * d) h)

pow_four : (s : ℕ) → 10 ^ (2 + s + 2) ≡ 100 * (100 * 10 ^ s)
pow_four s =
    let e : 2 + s + 2 ≡ suc (suc (suc (suc s))) = omega arith in
    rw e (
      omega (
        arith,
        pow-suc 10 (suc (suc (suc s))),
        pow-suc 10 (suc (suc s)),
        pow-suc 10 (suc s),
        pow-suc 10 s,
      ))

-- A percentage of an amount in cents, where the product fits the precision.
pub money-percent_of :
    (cents : ℕ) (p : Decimal) {c : ℕ}
    → money (percent_of (mul (of_cents cents) p)) ≡ ok c
    → cents * p.coefficient < precision_limit
    → c ≡ half_up (cents * p.coefficient) (100 * 10 ^ p.scale)
unfolding money percent_of mul
money-percent_of cents p {c} h fits =
    let once = round_prec_fits (cents * p.coefficient) fits in
    let twice : round_prec (round_prec (cents * p.coefficient)) ≡ cents * p.coefficient =
      ap round_prec once ∙ once in
    let value : half_up (100 * round_prec (round_prec (cents * p.coefficient)))
          (10 ^ (2 + p.scale + 2))
        ≡ half_up (cents * p.coefficient) (100 * 10 ^ p.scale) =
      rw (twice, pow_four p.scale)
        (half_up_scaled 100 (cents * p.coefficient) (100 * 10 ^ p.scale) (omega arith)) in
    ground (arith, value)

pub half_up-le : (n d m : ℕ) → 1 ≤ d → n ≤ m * d → half_up n d ≤ m
half_up-le n d m pos h = let (low, _) = half_up_bounds n d pos in grind (arith, low)

-- Where a percentage fits, `money` returns it.
pub money-percent_of_fits :
    (cents : ℕ) (p : Decimal)
    → cents * p.coefficient < precision_limit
    → half_up (cents * p.coefficient) (100 * 10 ^ p.scale) < precision_limit
    → money (percent_of (mul (of_cents cents) p))
      ≡ ok (half_up (cents * p.coefficient) (100 * 10 ^ p.scale))
unfolding money percent_of mul
money-percent_of_fits cents p fits small =
    let once = round_prec_fits (cents * p.coefficient) fits in
    let twice : round_prec (round_prec (cents * p.coefficient)) ≡ cents * p.coefficient =
      ap round_prec once ∙ once in
    rw
      (
        twice,
        pow_four p.scale,
        half_up_scaled 100 (cents * p.coefficient) (100 * 10 ^ p.scale) (omega arith),
      )
      (ground arith)

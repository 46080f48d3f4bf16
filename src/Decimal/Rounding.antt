-- ===== src/Decimal/Rounding.antt =====
-- Lemmas on the rounding of the decimal context, as app/services/quotation_calculator.py uses it.
use native.Mathlib.Nat.{pow-suc, le-div_iff_mul-le}
use global_detergent_sales_a.Prelude.{
  ℕ, zero, suc, ◌*◌, ◌/◌, ◌^◌, ◌≤◌, ◌<◌, ◌≡◌, refl, arith, ltb, inl, inr, Bool-cases, ltb→lt, ◌+◌,
  ◌-◌,
}
use global_detergent_sales_a.Decimal.{
  precision_limit, excess, half_even, drop_excess, round_prec, add_cents, sub_cents,
}

pub pow_pos : (k : ℕ) → 1 ≤ 10 ^ k
pow_pos zero = omega arith
pow_pos (suc k) = omega (arith, pow-suc 10 k, pow_pos k)

excess_fits : (fuel n : ℕ) → n < precision_limit → excess fuel n ≡ 0
unfolding excess
excess_fits zero n h = refl
excess_fits (suc fuel) n h = ground arith

-- Numbers that fit the precision are not rounded.
pub round_prec_fits : (n : ℕ) → n < precision_limit → round_prec n ≡ n
unfolding round_prec
round_prec_fits n h = rw (excess_fits n n h)

-- What remains after the excess digits are dropped still has as many digits as the precision.
excess_keeps : (fuel n : ℕ) → precision_limit ≤ n → 10 ^ 27 * 10 ^ excess fuel n ≤ n
unfolding excess
excess_keeps zero n h = omega arith
excess_keeps (suc fuel) n h = elim (Bool-cases (ltb (n / 10) precision_limit)) [
  | inl small ↦
      let none_left = excess_fits fuel (n / 10) (ltb→lt (n / 10) precision_limit small) in
      ground (arith, none_left)
  | inr large ↦
      let ih = excess_keeps fuel (n / 10) (ground arith) in
      ground (arith, ih, pow-suc 10 (excess fuel (n / 10)))
]

excess_pos : (n : ℕ) → precision_limit ≤ n → (k : ℕ) × (excess n n ≡ suc k)
unfolding excess
excess_pos zero h = absurd (omega arith)
excess_pos (suc n) h = (excess n (suc n / 10), ground arith)

le-half_even : (n d : ℕ) → n / d ≤ half_even n d
unfolding half_even
le-half_even n d = ground arith

le-drop_excess : (k n : ℕ) → 10 ^ 27 * 10 ^ suc k ≤ n → precision_limit ≤ drop_excess (suc k) n
unfolding drop_excess
le-drop_excess k n h =
    let d_pos = pow_pos (suc k) in
    let q_large = (le-div_iff_mul-le {k = 10 ^ suc k} d_pos).1 h in
    let q = le-half_even n (10 ^ suc k) in grind (arith, pow-suc 10 k, pow_pos k, q_large, q)

-- Numbers beyond the precision stay beyond it.
pub le-round_prec : (n : ℕ) → precision_limit ≤ n → precision_limit ≤ round_prec n
unfolding round_prec
le-round_prec n h =
    let (k, e) = excess_pos n h in rw e (le-drop_excess k n (rw (← e) (excess_keeps n n h)))

-- A rounded number that fits the precision was not changed.
pub round_prec-eq_of_lt : (n : ℕ) → round_prec n < precision_limit → round_prec n ≡ n
round_prec-eq_of_lt n h = round_prec_fits n (ground (arith, le-round_prec n))

pub add_cents_fits : (a b : ℕ) → a + b < precision_limit → add_cents a b ≡ a + b
unfolding add_cents
add_cents_fits a b h = round_prec_fits (a + b) h

pub sub_cents_fits : (a b : ℕ) → a - b < precision_limit → sub_cents a b ≡ a - b
unfolding sub_cents
sub_cents_fits a b h = round_prec_fits (a - b) h

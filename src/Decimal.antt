-- ===== src/Decimal.antt =====
-- Python's `decimal.Decimal` as app/services/quotation_calculator.py uses it: finite values that
-- are not negative, in the default context (28 significant digits, ROUND_HALF_EVEN), and `money`.
-- A value is `coefficient / 10 ^ scale`; a value with a positive exponent has its zeros written
-- out. Rounding to significant digits does not depend on the scale, so it acts on coefficients.
pub mod Rounding
pub mod Money
use global_detergent_sales_a.Prelude.{
  ℕ, zero, suc, ◌+◌, ◌-◌, ◌*◌, ◌/◌, ◌%◌, ◌^◌, ltb, leb, ◌==◌, if◌then◌else◌,
}
use global_detergent_sales_a.Errors.{Error}
use global_detergent_sales_a.Exec.{Result, ok, err}

pub record Decimal : Type 0 where
  pub coefficient : ℕ
  pub scale : ℕ

-- The first coefficient with more digits than the context's precision.
abbrev pub precision_limit : ℕ
precision_limit = 10 ^ 28

-- How many digits of `n` lie beyond the precision.
unfoldable pub excess : ℕ → ℕ → ℕ
excess zero n = 0
excess (suc fuel) n =
    let rest = excess fuel (n / 10) in if ltb n precision_limit then 0 else suc rest

-- `n / d` to the nearest integer, ties to the even one.
unfoldable pub half_even : ℕ → ℕ → ℕ
half_even n d =
    let q = n / d in
    let r = n % d in if ltb (2 * r) d then q else if ltb d (2 * r) then q + 1 else q + q % 2

-- `n / d` to the nearest integer, ties upwards.
unfoldable pub half_up : ℕ → ℕ → ℕ
half_up n d = (2 * n + d) / (2 * d)

drop_excess : ℕ → ℕ → ℕ
unfolding half_even
drop_excess zero n = n
drop_excess (suc k) n = half_even n (10 ^ suc k) * 10 ^ suc k

-- The context's rounding of a result. A number of digits is at most the number itself.
unfoldable pub round_prec : ℕ → ℕ
unfolding excess drop_excess
round_prec n = drop_excess (excess n n) n

-- `Decimal(n)` of an int is exact.
abbrev pub of_int : ℕ → Decimal
of_int n = record { coefficient = n; scale = 0 }

-- An amount of whole cents.
abbrev pub of_cents : ℕ → Decimal
of_cents n = record { coefficient = n; scale = 2 }

-- `a * b`
unfoldable pub mul : Decimal → Decimal → Decimal
unfolding round_prec
mul a b = record {
  coefficient = round_prec (a.coefficient * b.coefficient);
  scale = a.scale + b.scale;
}

-- `a / Decimal("100")`
unfoldable pub percent_of : Decimal → Decimal
unfolding round_prec
percent_of a = record { coefficient = round_prec a.coefficient; scale = a.scale + 2 }

-- `a + b` of two amounts in cents
unfoldable pub add_cents : ℕ → ℕ → ℕ
unfolding round_prec
add_cents a b = round_prec (a + b)

-- `money`: `quantize` to cents, half up. `quantize` raises `InvalidOperation` where the result has
-- more digits than the precision. The result is the number of cents.
unfoldable pub money : Decimal → Result ℕ
unfolding half_up
money d =
    let cents = half_up (100 * d.coefficient) (10 ^ d.scale) in
    if ltb cents precision_limit then ok cents else err Error.invalid_operation

-- `a - b` of two amounts in cents, where `b` is not the larger
unfoldable pub sub_cents : ℕ → ℕ → ℕ
unfolding round_prec
sub_cents a b = round_prec (a - b)

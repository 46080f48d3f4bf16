-- ===== src/Calculator/Succeeds.antt =====
-- Lemmas on when app/services/quotation_calculator.py has totals.
use native.Mathlib.Nat.{
  le-mul_of_pos_right, mul-le-mul_left, mul-le-mul_right, le_trans, le-mul_of_pos_right,
}
use global_detergent_sales_a.Prelude.{ℕ, ◌+◌, ◌-◌, ◌*◌, ◌^◌, ◌≤◌, ◌<◌, ◌≡◌, arith, le→leb}
use global_detergent_sales_a.Exec.{ok}
use global_detergent_sales_a.Decimal.{precision_limit, half_up}
use global_detergent_sales_a.Decimal.Rounding.{pow_pos, sub_cents_fits, add_cents_fits}
use global_detergent_sales_a.Decimal.Money.{money-percent_of_fits, money-of_cents, half_up-le}
use global_detergent_sales_a.Schemas.Rules.{QuotationRules, IsValidRules}
use global_detergent_sales_a.Schemas.Quotation.{QuoteTotals}
use global_detergent_sales_a.Calculator.{calculate_totals}

abbrev discount_of : QuotationRules → ℕ → ℕ
discount_of rules subtotal =
    half_up (subtotal * rules.default_discount_percent.coefficient)
      (100 * 10 ^ rules.default_discount_percent.scale)

abbrev tax_of : QuotationRules → ℕ → ℕ
tax_of rules subtotal =
    half_up ((subtotal - discount_of rules subtotal) * rules.tax_percent.coefficient)
      (100 * 10 ^ rules.tax_percent.scale)

discount_of-le :
    (rules : QuotationRules) (subtotal : ℕ)
    → IsValidRules rules
    → discount_of rules subtotal ≤ subtotal
discount_of-le rules subtotal v =
    half_up-le (subtotal * rules.default_discount_percent.coefficient)
      (100 * 10 ^ rules.default_discount_percent.scale) subtotal
      (omega (arith, pow_pos rules.default_discount_percent.scale))
      (mul-le-mul_left subtotal v.discount_capped)

tax_of-le :
    (rules : QuotationRules) (subtotal : ℕ)
    → tax_of rules subtotal ≤ subtotal * rules.tax_percent.coefficient
tax_of-le rules subtotal =
    let base = subtotal - discount_of rules subtotal in
    let rate = rules.tax_percent.coefficient in
    let unit = 100 * 10 ^ rules.tax_percent.scale in
    let unit_pos : 1 ≤ unit = omega (arith, pow_pos rules.tax_percent.scale) in
    let less : base * rate ≤ subtotal * rate = mul-le-mul_right rate (omega arith) in
    let more : subtotal * rate ≤ subtotal * rate * unit =
      le-mul_of_pos_right (subtotal * rate) unit_pos in
    half_up-le (base * rate) unit (subtotal * rate) unit_pos (le_trans less more)

-- Under valid rules the totals of a subtotal are computed, with no error, wherever the subtotal
-- times each percentage leaves room in the 28 digits of the context.
pub calculate_totals_total :
    (rules : QuotationRules) (subtotal : ℕ)
    → IsValidRules rules
    → subtotal * rules.default_discount_percent.coefficient < precision_limit
    → subtotal + subtotal * rules.tax_percent.coefficient < precision_limit
    → (t : QuoteTotals) × (calculate_totals rules subtotal ≡ ok t)
unfolding calculate_totals
calculate_totals_total rules subtotal v fd ft =
    let d = discount_of rules subtotal in
    let t = tax_of rules subtotal in
    let d_le : d ≤ subtotal = discount_of-le rules subtotal v in
    let t_le : t ≤ subtotal * rules.tax_percent.coefficient = tax_of-le rules subtotal in
    let less : (subtotal - d) * rules.tax_percent.coefficient
        ≤ subtotal * rules.tax_percent.coefficient =
      mul-le-mul_right rules.tax_percent.coefficient (omega arith) in
    (
      record {
        subtotal = subtotal;
        discount = d;
        tax = t;
        total = subtotal - d + t;
        currency = rules.currency;
      },
      rw (
        money-percent_of_fits subtotal rules.default_discount_percent fd (omega arith),
        le→leb d subtotal d_le,
        sub_cents_fits subtotal d (omega arith),
        money-percent_of_fits (subtotal - d) rules.tax_percent (omega arith) (omega arith),
        add_cents_fits (subtotal - d) t (omega arith),
        money-of_cents (subtotal - d + t) (omega arith),
        money-of_cents subtotal (omega arith),
      ),
    )

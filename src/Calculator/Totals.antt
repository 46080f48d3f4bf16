-- ===== src/Calculator/Totals.antt =====
-- Lemmas on the totals of app/services/quotation_calculator.py.
use mathlib.Core.List.{foldl}
use global_detergent_sales_a.Prelude.{
  ℕ, ◌+◌, ◌-◌, ◌*◌, ◌^◌, ◌≤◌, ◌<◌, ◌≡◌, List, [], ◌∷◌, arith, leb, leb→le, true, ◌∙◌,
}
use global_detergent_sales_a.Exec.{ok}
use global_detergent_sales_a.Decimal.{
  precision_limit, of_cents, mul, percent_of, add_cents, sub_cents, round_prec, money, half_up,
}
use global_detergent_sales_a.Decimal.Rounding.{round_prec_fits, round_prec-eq_of_lt}
use global_detergent_sales_a.Decimal.Money.{money-percent_of, money-of_cents_inv}
use global_detergent_sales_a.Schemas.Rules.{QuotationRules}
use global_detergent_sales_a.Schemas.Quotation.{QuoteLine, QuoteTotals, QuoteCartItem}
use global_detergent_sales_a.Catalog.{ProductRepository}
use global_detergent_sales_a.Calculator.{
  sum_subtotals, calculate_totals, calculate_lines, calculate,
}

-- The plain sum of the lines' subtotals.
pub sum_exact : List QuoteLine → ℕ
sum_exact [] = 0
sum_exact (line ∷ lines) = line.subtotal + sum_exact lines

-- If the sum in the context fits the precision, no addition was rounded.
sum_from-exact :
    (acc : ℕ) (lines : List QuoteLine)
    → foldl (λ acc (line : QuoteLine). add_cents acc line.subtotal) acc lines < precision_limit
    → foldl (λ acc (line : QuoteLine). add_cents acc line.subtotal) acc lines
      ≡ acc + sum_exact lines
unfolding sum_exact add_cents
sum_from-exact acc [] h = omega arith
sum_from-exact acc (line ∷ lines) h =
    let ih = sum_from-exact (add_cents acc line.subtotal) lines h in
    let exact = round_prec-eq_of_lt (acc + line.subtotal) in omega (arith, ih, exact)

-- How totals that were returned came about.
pub record TotalsComputed (rules : QuotationRules) (subtotal : ℕ) (t : QuoteTotals) : Type 0 where
  pub discount_at :
      money (percent_of (mul (of_cents subtotal) rules.default_discount_percent)) ≡ ok t.discount
  pub discount_le : leb t.discount subtotal ≡ true
  pub tax_at :
      money (percent_of (mul (of_cents (sub_cents subtotal t.discount)) rules.tax_percent))
      ≡ ok t.tax
  pub total_at : money (of_cents (add_cents (sub_cents subtotal t.discount) t.tax)) ≡ ok t.total
  pub subtotal_at : money (of_cents subtotal) ≡ ok t.subtotal
  pub currency_at : t.currency ≡ rules.currency

pub calculate_totals_inv :
    (rules : QuotationRules) (subtotal : ℕ) {t : QuoteTotals}
    → calculate_totals rules subtotal ≡ ok t
    → TotalsComputed rules subtotal t
unfolding calculate_totals
calculate_totals_inv rules subtotal {t} h = ground arith

-- The totals that are returned: the shown subtotal is the given one, the discount does not exceed
-- it, and the total is what remains after the discount plus the tax, all to the cent.
pub calculate_totals_balance :
    (rules : QuotationRules) (subtotal : ℕ) {t : QuoteTotals}
    → calculate_totals rules subtotal ≡ ok t
    → (t.subtotal ≡ subtotal)
      × (subtotal < precision_limit)
      × (t.discount ≤ t.subtotal)
      × (t.total + t.discount ≡ t.subtotal + t.tax)
      × (t.currency ≡ rules.currency)
unfolding add_cents sub_cents
calculate_totals_balance rules subtotal {t} h =
    let c = calculate_totals_inv rules subtotal h in
    let (shown, fits) = money-of_cents_inv subtotal c.subtotal_at in
    let le = leb→le t.discount subtotal c.discount_le in
    let (total_eq, total_fits) =
      money-of_cents_inv (add_cents (sub_cents subtotal t.discount) t.tax) c.total_at in
    let taxable = round_prec_fits (subtotal - t.discount) (omega arith) in
    let sum_eq = round_prec-eq_of_lt (round_prec (subtotal - t.discount) + t.tax) total_fits in
    (shown, fits, omega arith, omega arith, c.currency_at)

calculate_inv :
    (catalog : ProductRepository) (rules : QuotationRules) (cart : List QuoteCartItem)
    {lines : List QuoteLine} {t : QuoteTotals}
    → calculate catalog rules cart ≡ ok (lines, t)
    → (calculate_lines catalog rules cart ≡ ok lines)
      × (calculate_totals rules (sum_subtotals lines) ≡ ok t)
unfolding calculate
calculate_inv catalog rules cart h = (ground arith, ground arith)

-- Whenever a quotation is calculated, its subtotal is the exact sum of its lines' subtotals, the
-- discount does not exceed it, the total plus the discount is the subtotal plus the tax, and the
-- currency is that of the rules: no amount is lost to the context's rounding.
pub calculate_balance :
    (catalog : ProductRepository) (rules : QuotationRules) (cart : List QuoteCartItem)
    {lines : List QuoteLine} {t : QuoteTotals}
    → calculate catalog rules cart ≡ ok (lines, t)
    → (t.subtotal ≡ sum_exact lines)
      × (t.discount ≤ t.subtotal)
      × (t.total + t.discount ≡ t.subtotal + t.tax)
      × (t.currency ≡ rules.currency)
unfolding sum_subtotals
calculate_balance catalog rules cart {lines} {t} h =
    let (_, totals) = calculate_inv catalog rules cart h in
    let (shown, fits, le, balance, currency) =
      calculate_totals_balance rules (sum_subtotals lines) totals in
    (shown ∙ sum_from-exact 0 lines fits ∙ omega arith, le, balance, currency)

-- Where the products fit the precision of the context, the discount is the percentage of the
-- subtotal, and the tax that of the discounted subtotal, each to the nearest cent.
pub calculate_totals_percentages :
    (rules : QuotationRules) (subtotal : ℕ) {t : QuoteTotals}
    → calculate_totals rules subtotal ≡ ok t
    → subtotal * rules.default_discount_percent.coefficient < precision_limit
    → subtotal * rules.tax_percent.coefficient < precision_limit
    → (t.discount
        ≡ half_up
            (subtotal * rules.default_discount_percent.coefficient)
            (100 * 10 ^ rules.default_discount_percent.scale))
      × (t.tax
          ≡ half_up
              ((subtotal - t.discount) * rules.tax_percent.coefficient)
              (100 * 10 ^ rules.tax_percent.scale))
unfolding sub_cents
calculate_totals_percentages rules subtotal {t} h fd ft =
    let c = calculate_totals_inv rules subtotal h in
    let (_, fits, _, _, _) = calculate_totals_balance rules subtotal h in
    let taxable : sub_cents subtotal t.discount ≡ subtotal - t.discount =
      round_prec_fits (subtotal - t.discount) (omega arith) in
    let tax_fits : (subtotal - t.discount) * rules.tax_percent.coefficient < precision_limit =
      grind arith in
    (
      money-percent_of subtotal rules.default_discount_percent c.discount_at fd,
      money-percent_of (subtotal - t.discount) rules.tax_percent (rw taxable at c.tax_at) tax_fits,
    )

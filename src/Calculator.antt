-- ===== src/Calculator.antt =====
-- app/services/quotation_calculator.py: the prices of the cart and the totals, from the catalog
-- and the rules alone.
pub mod Lines
pub mod Totals
pub mod Succeeds
use mathlib.Core.List.{foldl}
use global_detergent_sales_a.Prelude.{
  ℕ, ◌-◌, ◌++◌, Text, text_eq, is_blank, Bool, not, Option, none, some, List, [], ◌∷◌, is_empty,
  leb, ◌==◌, if◌then◌else◌,
}
use global_detergent_sales_a.Errors.{Error}
use global_detergent_sales_a.Exec.{Result, ok, err, bind, require}
use global_detergent_sales_a.Decimal.{
  Decimal, of_int, of_cents, mul, percent_of, add_cents, sub_cents, money,
}
use global_detergent_sales_a.Schemas.Product.{Product}
use global_detergent_sales_a.Schemas.Rules.{QuotationRules}
use global_detergent_sales_a.Schemas.Quotation.{QuoteCartItem, QuoteLine, QuoteTotals}
use global_detergent_sales_a.Catalog.{ProductRepository, get_by_id}

-- `_product_description`
unfoldable pub product_description : Product → Text
product_description p = p.name ++ (32 ∷ (p.packaging.size ++ (32 ∷ p.packaging.unit)))

-- An active product that was looked up, or the error.
unfoldable pub if_active : Option Product → Result Product
if_active none = err Error.product_not_found
if_active (some p) = if p.active then ok p else err Error.product_not_found

-- `_current_active_product`; `QuotationService._require_active_product` is the same code.
unfoldable pub current_active_product : ProductRepository → Text → Result Product
unfolding if_active
current_active_product catalog product_id =
    if is_blank product_id
    then err Error.product_not_found
    else if_active (get_by_id catalog product_id)

module _ (catalog : ProductRepository) (rules : QuotationRules) where
  -- `_calculate_line`, from the resolved product on
  unfoldable pub price_line : ℕ → Product → Result QuoteLine
  unfolding product_description
  price_line quantity p =
      if text_eq p.price.currency rules.currency
      then bind (money p.price.amount) (λ unit_price.
        bind (money (mul p.price.amount (of_int quantity))) λ subtotal. ok (record {
          product_id = p.id;
          sku = p.sku;
          description = product_description p;
          quantity = quantity;
          unit_price = unit_price;
          subtotal = subtotal;
        }))
      else err Error.currency_mismatch

  -- `_calculate_line`; the schema of a cart item admits no quantity below zero.
  unfoldable pub calculate_line : QuoteCartItem → Result QuoteLine
  unfolding price_line
  calculate_line item =
      if item.quantity == 0
      then err Error.invalid_quantity
      else bind (current_active_product catalog item.product_id) (price_line item.quantity)

  -- `[self._calculate_line(item, rules) for item in cart]`
  unfoldable pub calculate_lines : List QuoteCartItem → Result (List QuoteLine)
  calculate_lines [] = ok []
  calculate_lines (item ∷ cart) =
      bind (calculate_line item) λ line. bind (calculate_lines cart) λ lines. ok (line ∷ lines)

-- `sum((line.subtotal for line in lines), start=_ZERO)`
unfoldable pub sum_subtotals : List QuoteLine → ℕ
sum_subtotals lines = foldl (λ acc line. add_cents acc line.subtotal) 0 lines

-- The totals of `calculate`. A discount above the subtotal would make every later amount negative,
-- which the validator of `QuoteTotals` rejects.
unfoldable pub calculate_totals : QuotationRules → ℕ → Result QuoteTotals
calculate_totals rules subtotal =
    bind (money (percent_of (mul (of_cents subtotal) rules.default_discount_percent))) λ discount.
      if leb discount subtotal
      then (let taxable = sub_cents subtotal discount in
          bind (money (percent_of (mul (of_cents taxable) rules.tax_percent))) λ tax.
            bind (money (of_cents (add_cents taxable tax))) λ total.
              bind (money (of_cents subtotal)) λ shown. ok (record {
                subtotal = shown;
                discount = discount;
                tax = tax;
                total = total;
                currency = rules.currency;
              }))
      else err Error.validation_error

-- `QuotationCalculator.calculate`
unfoldable pub calculate :
    ProductRepository → QuotationRules → List QuoteCartItem → Result (List QuoteLine × QuoteTotals)
unfolding sum_subtotals
calculate catalog rules cart =
    if is_empty cart
    then err Error.empty_quote
    else bind (calculate_lines catalog rules cart)
        λ lines. bind (calculate_totals rules (sum_subtotals lines)) λ totals. ok (lines, totals)

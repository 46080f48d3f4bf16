-- ===== src/Calculator/Lines.antt =====
-- Lemmas on the lines of app/services/quotation_calculator.py.
use global_detergent_sales_a.Prelude.{
  ◌<◌, ◌≡◌, Text, true, List, [], ◌∷◌, arith, some, text_eq_iff, inr, inl,
}
use global_detergent_sales_a.Exec.{ok, Result-cases}
use global_detergent_sales_a.Decimal.{money, mul, of_int}
use global_detergent_sales_a.Schemas.Product.{Product}
use global_detergent_sales_a.Schemas.Rules.{QuotationRules}
use global_detergent_sales_a.Schemas.Quotation.{QuoteCartItem, QuoteLine}
use global_detergent_sales_a.Catalog.{ProductRepository, get_by_id}
use global_detergent_sales_a.Calculator.{
  current_active_product, price_line, calculate_line, calculate_lines, product_description,
}

-- What a line says of the cart item and the catalog product that it was made from.
pub record IsPriced (rules : QuotationRules) (p : Product) (item : QuoteCartItem) (line : QuoteLine)
    : Type 0 where
  pub active : p.active ≡ true
  pub currency : p.price.currency ≡ rules.currency
  pub product : line.product_id ≡ p.id
  pub sku : line.sku ≡ p.sku
  pub description : line.description ≡ product_description p
  pub quantity : line.quantity ≡ item.quantity
  pub positive : 0 < item.quantity
  pub unit : money p.price.amount ≡ ok line.unit_price
  pub amount : money (mul p.price.amount (of_int item.quantity)) ≡ ok line.subtotal

module _ (catalog : ProductRepository) (rules : QuotationRules) where
  -- Every line was made from its item, by the product that the catalog has under the item's ID.
  abbrev pub LinesMatch : List QuoteCartItem → List QuoteLine → Type 0
  LinesMatch [] [] = Unit
  LinesMatch [] (_ ∷ _) = ⊥
  LinesMatch (_ ∷ _) [] = ⊥
  LinesMatch (item ∷ cart) (line ∷ lines) =
      ((p : Product) × (get_by_id catalog item.product_id ≡ some p) × IsPriced rules p item line)
      × LinesMatch cart lines

  active_inv :
      (product_id : Text) {p : Product}
      → current_active_product catalog product_id ≡ ok p
      → (get_by_id catalog product_id ≡ some p) × (p.active ≡ true)
  unfolding current_active_product
  active_inv product_id h = (ground arith, ground arith)

  price_line_inv :
      (item : QuoteCartItem) (p : Product) {line : QuoteLine}
      → p.active ≡ true
      → 0 < item.quantity
      → price_line catalog rules item.quantity p ≡ ok line
      → IsPriced rules p item line
  unfolding price_line
  price_line_inv item p {line} active pos h =
      let same = text_eq_iff p.price.currency rules.currency in
      record {
        active = active;
        currency = ground (arith, same);
        product = ground arith;
        sku = ground arith;
        description = ground arith;
        quantity = ground arith;
        positive = pos;
        unit = ground arith;
        amount = ground arith;
      }

  calculate_line_inv :
      (item : QuoteCartItem) {line : QuoteLine}
      → calculate_line catalog rules item ≡ ok line
      → (p : Product) × (get_by_id catalog item.product_id ≡ some p) × IsPriced rules p item line
  unfolding calculate_line
  calculate_line_inv item {line} h =
      elim (Result-cases (current_active_product catalog item.product_id)) [
        | inr (e, failed) ↦ absurd (ground arith)
        | inl (p, found) ↦
            let (at_id, active) = active_inv item.product_id found in
            (p, at_id, price_line_inv item p active (ground arith) (ground arith))
      ]

  -- The lines of the cart are its items, in order, each priced by the active product of its ID.
  pub calculate_lines-match :
      (cart : List QuoteCartItem) (lines : List QuoteLine)
      → calculate_lines catalog rules cart ≡ ok lines
      → LinesMatch cart lines
  unfolding calculate_lines
  calculate_lines-match [] [] h = tt
  calculate_lines-match [] (line ∷ lines) h = ground arith
  calculate_lines-match (item ∷ cart) [] h = ground arith
  calculate_lines-match (item ∷ cart) (line ∷ lines) h =
      (calculate_line_inv item (ground arith), calculate_lines-match cart lines (ground arith))

-- ===== src/Tests/Pricing.antt =====
-- The catalog, the money and the calculator on concrete data.
use global_detergent_sales_a.Prelude.{
  ◌+◌, ◌≤◌, ◌<◌, ◌*◌, ◌^◌, ◌-◌, ◌≡◌, refl, codes, strip, [], ◌∷◌, some, All, arith, text_eq,
  is_blank,
}
use global_detergent_sales_a.Exec.{ok}
use global_detergent_sales_a.Decimal.{
  precision_limit, half_up, money, round_prec, mul, percent_of, add_cents, sub_cents,
}
use global_detergent_sales_a.Decimal.Money.{money_bounds}
use global_detergent_sales_a.Schemas.Quotation.{QuoteTotals}
use global_detergent_sales_a.Catalog.{
  get_by_id, new_repository, find, ProductRepository, index_products, only_active, normalize_sku,
}
use global_detergent_sales_a.Catalog.Index.{get_by_id_self, get_by_id-id}
use global_detergent_sales_a.Calculator.{
  calculate, calculate_lines, calculate_totals, calculate_line, price_line, current_active_product,
  product_description, sum_subtotals,
}
use global_detergent_sales_a.Calculator.Lines.{LinesMatch, calculate_lines-match}
use global_detergent_sales_a.Calculator.Totals.{
  sum_exact, calculate_balance, calculate_totals_percentages,
}
use global_detergent_sales_a.Calculator.Succeeds.{calculate_totals_total}
use global_detergent_sales_a.Tests.Data.{
  catalog, rules, two_soaps, lines, totals, soap, two_products,
}

abbrev two_catalog : ProductRepository
two_catalog = record {
  products = two_products;
  active_products = two_products;
  products_by_id =
      (codes "p2", record soap { id = codes "p2"; sku = codes "S-2" }) ∷ (codes "p1", soap) ∷ [];
  products_by_sku =
      (codes "S-2", record soap { id = codes "p2"; sku = codes "S-2" }) ∷ (codes "S-1", soap) ∷ [];
}

two_catalog_at : new_repository (λ s. s) two_products ≡ ok two_catalog
unfolding new_repository index_products only_active normalize_sku find strip text_eq
two_catalog_at = refl

lines_at : calculate_lines catalog rules two_soaps ≡ ok lines
unfolding calculate_lines calculate_line price_line current_active_product get_by_id find strip
    is_blank text_eq money mul round_prec product_description
lines_at = refl

totals_at : calculate_totals rules 2500 ≡ ok totals
unfolding calculate_totals money mul percent_of add_cents sub_cents round_prec
totals_at = refl

calculate_at : calculate catalog rules two_soaps ≡ ok (lines, totals)
unfolding calculate sum_subtotals add_cents round_prec
calculate_at = rw (lines_at) (rw totals_at refl)

money_bounds_example :
    (2 * 10 ^ 3 * 1235 ≤ 200 * 12345 + 10 ^ 3)
    × (200 * 12345 + 10 ^ 3 < 2 * 10 ^ 3 * 1235 + 2 * 10 ^ 3)
    × (1235 < precision_limit)
money_bounds_example =
    money_bounds (record { coefficient = 12345; scale = 3 }) (unfold money half_up in refl)

get_by_id_self_example : All (λ p. get_by_id two_catalog p.id ≡ some p) two_products
get_by_id_self_example =
    get_by_id_self (λ s. s) two_products two_catalog (unfold strip in (refl, (refl, tt)))
      two_catalog_at

get_by_id-id_example : strip (codes " p1") ≡ codes "p1"
get_by_id-id_example =
    get_by_id-id (λ s. s) two_products two_catalog two_catalog_at (codes " p1") soap
      (unfold get_by_id find strip text_eq in refl)

calculate_lines-match_example : LinesMatch catalog rules two_soaps lines
calculate_lines-match_example = calculate_lines-match catalog rules two_soaps lines lines_at

calculate_balance_example :
    (2500 ≡ sum_exact lines)
    × (250 ≤ 2500)
    × (2700 + 250 ≡ 2500 + 450)
    × (codes "USD" ≡ codes "USD")
calculate_balance_example = calculate_balance catalog rules two_soaps calculate_at

calculate_totals_percentages_example :
    (250 ≡ half_up (2500 * 10) (100 * 10 ^ 0)) × (450 ≡ half_up ((2500 - 250) * 20) (100 * 10 ^ 0))
calculate_totals_percentages_example =
    calculate_totals_percentages rules 2500 totals_at (omega arith) (omega arith)

calculate_totals_total_example : (t : QuoteTotals) × (calculate_totals rules 2500 ≡ ok t)
calculate_totals_total_example =
    calculate_totals_total rules 2500
      (record { validity_positive = omega arith; discount_capped = omega arith }) (omega arith)
      (omega arith)

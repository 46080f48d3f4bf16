-- ===== src/Schemas/Rules.antt =====
-- app/schemas/quotation_rules.py: the commercial settings of a quotation.
use global_detergent_sales_a.Prelude.{ℕ, ◌*◌, ◌^◌, ◌≤◌, ◌<◌, Text, List}
use global_detergent_sales_a.Decimal.{Decimal}

pub record QuotationRules : Type 0 where
  pub currency : Text
  pub quotation_prefix : Text
  pub validity_days : ℕ
  pub default_discount_percent : Decimal
  pub tax_percent : Decimal
  pub terms : List Text

-- What the validators of the schema guarantee of the numbers: the percentages are not negative by
-- their type, the validity is positive, and the discount is at most 100 percent.
pub record IsValidRules (r : QuotationRules) : Type 0 where
  pub validity_positive : 0 < r.validity_days
  pub discount_capped :
      r.default_discount_percent.coefficient ≤ 100 * 10 ^ r.default_discount_percent.scale

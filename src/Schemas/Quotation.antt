-- ===== src/Schemas/Quotation.antt =====
-- app/schemas/quotation.py: customers, cart items, priced lines, totals, previews and quotations.
-- Amounts of money are numbers of cents: every amount in a line or in totals is a result of
-- `money`, whose exponent is -2.
use global_detergent_sales_a.Prelude.{ℕ, Text, Option, List}

pub record CustomerInfo : Type 0 where
  pub name : Option Text
  pub company_name : Option Text
  pub phone : Text
  pub email : Option Text
  pub address : Option Text
  pub contact_person : Option Text
  pub notes : Option Text

pub record QuoteCartItem : Type 0 where
  pub product_id : Text
  pub quantity : ℕ

pub record QuoteLine : Type 0 where
  pub product_id : Text
  pub sku : Text
  pub description : Text
  pub quantity : ℕ
  pub unit_price : ℕ
  pub subtotal : ℕ

pub record QuoteTotals : Type 0 where
  pub subtotal : ℕ
  pub discount : ℕ
  pub tax : ℕ
  pub total : ℕ
  pub currency : Text

pub record QuotePreview : Type 0 where
  pub customer : CustomerInfo
  pub items : List QuoteLine
  pub totals : QuoteTotals
  pub validity_days : ℕ
  pub terms : List Text

-- A moment is a number of seconds since a fixed one, in UTC; a date is a number of days. The
-- private attribute `_pdf_path` is not set until a path is attached.
pub record GeneratedQuotation : Type 0 where
  pub preview : QuotePreview
  pub quotation_id : Text
  pub issued_at : ℕ
  pub valid_until : ℕ
  pub pdf_path : Option Text

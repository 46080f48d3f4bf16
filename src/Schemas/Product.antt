-- ===== src/Schemas/Product.antt =====
-- app/schemas/product.py: the product record of the catalog.
use global_detergent_sales_a.Prelude.{Text, Bool, Option, List}
use global_detergent_sales_a.Decimal.{Decimal}

pub record Packaging : Type 0 where
  pub size : Text
  pub unit : Text

-- The validators admit finite amounts that are not negative, so an amount is a `Decimal`.
pub record Price : Type 0 where
  pub amount : Decimal
  pub currency : Text

pub record ProductTechnicalDetails : Type 0 where
  pub color : Option Text
  pub fragrance : Option Text
  pub ph : Option Text

pub record Product : Type 0 where
  pub id : Text
  pub sku : Text
  pub name : Text
  pub category : Text
  pub short_description : Text
  pub description : Text
  pub applications : List Text
  pub packaging : Packaging
  pub price : Price
  pub instructions : Option Text
  pub safety_information : Option Text
  pub technical_details : ProductTechnicalDetails
  pub active_ingredients : List Text
  pub recommended_surfaces : List Text
  pub contact_time : Option Text
  pub dilution_ratio : Option Text
  pub certifications : List Text
  pub approved_claims : List Text
  pub keywords : List Text
  pub active : Bool

-- ===== src/Tests/Data.antt =====
-- Concrete data: a catalog of one product, the rules, collaborators, and sessions on the way from a
-- cart to a quotation.
use global_detergent_sales_a.Prelude.{Text, codes, true, false, none, some, List, [], ◌∷◌}
use global_detergent_sales_a.Exec.{ok}
use global_detergent_sales_a.Schemas.Product.{Product}
use global_detergent_sales_a.Schemas.Rules.{QuotationRules}
use global_detergent_sales_a.Schemas.Quotation.{
  CustomerInfo, QuoteCartItem, QuoteLine, QuoteTotals, QuotePreview,
}
use global_detergent_sales_a.Schemas.Session.{ConversationState, ConversationSession}
use global_detergent_sales_a.Catalog.{ProductRepository}
use global_detergent_sales_a.Quotation.{Services, ConfirmationInterpretation}
use global_detergent_sales_a.Quotation.Confirm.{CurrentTurnContext}

abbrev pub soap : Product
soap = record {
  id = codes "p1";
  sku = codes "S-1";
  name = codes "Soap";
  category = codes "hand";
  short_description = [];
  description = [];
  applications = [];
  packaging = record { size = codes "5"; unit = codes "L" };
  price = record { amount = record { coefficient = 1250; scale = 2 }; currency = codes "USD" };
  instructions = none;
  safety_information = none;
  technical_details = record { color = none; fragrance = none; ph = none };
  active_ingredients = [];
  recommended_surfaces = [];
  contact_time = none;
  dilution_ratio = none;
  certifications = [];
  approved_claims = [];
  keywords = [];
  active = true;
}

abbrev pub two_products : List Product
two_products = soap ∷ record soap { id = codes "p2"; sku = codes "S-2" } ∷ []

abbrev pub catalog : ProductRepository
catalog = record {
  products = soap ∷ [];
  active_products = soap ∷ [];
  products_by_id = (codes "p1", soap) ∷ [];
  products_by_sku = (codes "s-1", soap) ∷ [];
}

-- Ten percent of discount, twenty percent of tax
abbrev pub rules : QuotationRules
rules = record {
  currency = codes "USD";
  quotation_prefix = codes "Q";
  validity_days = 30;
  default_discount_percent = record { coefficient = 10; scale = 0 };
  tax_percent = record { coefficient = 20; scale = 0 };
  terms = [];
}

-- A digest that tells carts apart by their first quantity.
abbrev digest_of : List QuoteCartItem → Text
digest_of [] = codes "f"
digest_of (item ∷ _) = 102 ∷ item.quantity ∷ []

abbrev pub services : Services
services = record {
  catalog = catalog;
  rules = rules;
  digest = λ i. digest_of i.cart;
  confirmation_interpreter = λ message. ConfirmationInterpretation.explicit;
  clock = some 864000;
  quotation_id_factory = λ prefix at. ok (codes "Q-1");
  generate_quotation_pdf = λ q. ok (codes "Q-1.pdf");
}

abbrev pub customer : CustomerInfo
customer = record {
  name = some (codes "Ann");
  company_name = none;
  phone = codes "+1";
  email = none;
  address = none;
  contact_person = none;
  notes = none;
}

abbrev pub two_soaps : List QuoteCartItem
two_soaps = record { product_id = codes "p1"; quantity = 2 } ∷ []

abbrev pub session : ConversationSession
session = record {
  session_id = codes "s";
  customer_phone = codes "+1";
  state = ConversationState.building_quote;
  selected_product_id = none;
  customer = customer;
  cart = two_soaps;
  quote_confirmed = false;
  last_quotation_id = none;
  recent_messages = [];
  created_at = 0;
  updated_at = 0;
  quote_revision = 1;
  prepared_preview_fingerprint = none;
  preview_delivered = false;
  preview_originating_turn_id = none;
  confirmation_turn_id = none;
  confirmation_message = none;
  last_generated_quote = none;
}

-- The preview of the cart
abbrev pub lines : List QuoteLine
lines =
    record {
      product_id = codes "p1";
      sku = codes "S-1";
      description = codes "Soap 5 L";
      quantity = 2;
      unit_price = 1250;
      subtotal = 2500;
    }
    ∷ []

abbrev pub totals : QuoteTotals
totals = record { subtotal = 2500; discount = 250; tax = 450; total = 2700; currency = codes "USD" }

abbrev pub preview : QuotePreview
preview = record {
  customer = customer;
  items = lines;
  totals = totals;
  validity_days = 30;
  terms = [];
}

-- The fingerprint of the cart, the turns of the preview and the confirmation, and the message
abbrev pub fingerprint : Text
fingerprint = 102 ∷ 2 ∷ []

abbrev pub context : CurrentTurnContext
context = record {
  session_id = codes "s";
  turn_id = codes "t2";
  customer_message = codes "yes";
  preceding_turn_ids = codes "t1" ∷ [];
}

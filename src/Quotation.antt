-- ===== src/Quotation.antt =====
-- app/services/quotation_service.py: the quotation life cycle over one conversation session.
-- This file has what the operations share: the collaborators, the checks of values, and the
-- revocation of an authorization. The operations are in the modules below, by concern.
pub mod Cart
pub mod Customer
pub mod Preview
pub mod Confirm
pub mod Generate
pub mod Outcomes
pub mod Replay
pub mod Revocation
pub mod Flow
pub mod Edits
use global_detergent_sales_a.Prelude.{
  ℕ, zero, suc, ◌+◌, ℤ, pos, negsuc, Text, text_eq, strip, is_blank, Bool, true, false, not, ◌||◌,
  ◌&&◌, Option, none, some, List, [], ◌∷◌, is_empty, if◌then◌else◌,
}
use global_detergent_sales_a.Errors.{Error}
use global_detergent_sales_a.Exec.{Done, Result, ok, err, Exec}
use global_detergent_sales_a.Decimal.{Decimal}
use global_detergent_sales_a.Schemas.Rules.{QuotationRules}
use global_detergent_sales_a.Schemas.Quotation.{CustomerInfo, QuoteCartItem, GeneratedQuotation}
use global_detergent_sales_a.Schemas.Session.{ConversationState, ConversationSession}
use global_detergent_sales_a.Catalog.{ProductRepository}

-- `ConfirmationInterpretation`
pub data ConfirmationInterpretation : Type 0 where
  explicit ambiguous : ConfirmationInterpretation

-- What `quote_fingerprint` serializes: the prices are those of the cart's products.
pub record FingerprintInput : Type 0 where
  pub customer : CustomerInfo
  pub cart : List QuoteCartItem
  pub current_prices : List (Text × Decimal)
  pub currency : Text
  pub quotation_rules : QuotationRules

-- The collaborators of `QuotationService`. `digest` is the SHA-256 of the canonical JSON of its
-- input. `clock` returns no moment where it is not timezone-aware. The clock, the factory of IDs
-- and the PDF service stand for one call each: what that call returns or raises.
pub record Services : Type 0 where
  pub catalog : ProductRepository
  pub rules : QuotationRules
  pub digest : FingerprintInput → Text
  pub confirmation_interpreter : Text → ConfirmationInterpretation
  pub clock : Option ℕ
  pub quotation_id_factory : Text → ℕ → Result Text
  pub generate_quotation_pdf : GeneratedQuotation → Result Text

-- The values that a caller may pass as a quantity.
pub data PyObject : Type 0 where
  int : ℤ → PyObject
  bool : Bool → PyObject
  other : PyObject

-- `_validate_quantity`: a bool is an int in Python, and is refused all the same.
unfoldable pub validate_quantity : PyObject → Result ℕ
validate_quantity (PyObject.int (pos zero)) = err Error.invalid_quantity
validate_quantity (PyObject.int (pos (suc n))) = ok (suc n)
validate_quantity (PyObject.int (negsuc n)) = err Error.invalid_quantity
validate_quantity (PyObject.bool b) = err Error.invalid_quantity
validate_quantity PyObject.other = err Error.invalid_quantity

-- `_is_nonblank`
unfoldable pub is_nonblank : Option Text → Bool
is_nonblank none = false
is_nonblank (some s) = not (is_blank s)

-- `_validate_binding_value`
unfoldable pub validate_binding_value : Text → Result Text
validate_binding_value s = if is_blank s then err Error.value_error else ok (strip s)

-- `_customer_information_is_ready`
unfoldable pub customer_information_is_ready : ConversationSession → Bool
customer_information_is_ready s =
    (is_nonblank s.customer.name || is_nonblank s.customer.company_name)
    && (not (is_blank s.customer_phone) && text_eq s.customer.phone s.customer_phone)

-- `validate_customer_information`
unfoldable pub validate_customer_information : Exec ConversationSession Done
validate_customer_information s = if customer_information_is_ready s then (ok tt, s) else (
  err Error.customer_information_required,
  record s { state = ConversationState.customer_details },
)

-- `_invalidate_quote_authorization`
unfoldable pub invalidate_quote_authorization : ConversationSession → ConversationSession
invalidate_quote_authorization s = record s {
  quote_revision = s.quote_revision + 1;
  prepared_preview_fingerprint = none;
  preview_delivered = false;
  preview_originating_turn_id = none;
  quote_confirmed = false;
  confirmation_turn_id = none;
  confirmation_message = none;
  last_generated_quote = none;
}

-- `_commit_cart_change`
unfoldable pub commit_cart_change : List QuoteCartItem → ConversationSession → ConversationSession
unfolding invalidate_quote_authorization
commit_cart_change new_cart s =
    record (invalidate_quote_authorization (record s { cart = new_cart })) {
      state =
          if is_empty new_cart
          then ConversationState.product_discussion
          else ConversationState.building_quote;
    }

-- `_customer_update_state`
unfoldable pub customer_update_state : ConversationSession → ConversationState
customer_update_state s =
    if not (customer_information_is_ready s)
    then ConversationState.customer_details
    else if is_empty s.cart
    then ConversationState.product_discussion
    else ConversationState.building_quote

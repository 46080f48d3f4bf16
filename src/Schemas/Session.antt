-- ===== src/Schemas/Session.antt =====
-- app/schemas/session.py: the conversation session.
use global_detergent_sales_a.Prelude.{ℕ, Text, Bool, false, Option, none, List, [], ◌==◌}
use global_detergent_sales_a.Schemas.Quotation.{CustomerInfo, QuoteCartItem}

pub data ConversationState : Type 0 where
  new discovery product_discussion building_quote customer_details : ConversationState
  quote_review awaiting_confirmation quote_generated : ConversationState

abbrev rank : ConversationState → ℕ
rank ConversationState.new = 0
rank ConversationState.discovery = 1
rank ConversationState.product_discussion = 2
rank ConversationState.building_quote = 3
rank ConversationState.customer_details = 4
rank ConversationState.quote_review = 5
rank ConversationState.awaiting_confirmation = 6
rank ConversationState.quote_generated = 7

-- `a is b` of two states
abbrev pub is_state : ConversationState → ConversationState → Bool
is_state a b = rank a == rank b

pub data Role : Type 0 where
  user assistant : Role

pub record ConversationMessage : Type 0 where
  pub role : Role
  pub content : Text
  pub timestamp : ℕ

pub record GeneratedQuoteReplayMetadata : Type 0 where
  pub quotation_id : Text
  pub quote_fingerprint : Text
  pub confirmation_turn_id : Text
  pub pdf_path : Text
  pub generated_at : ℕ

pub record ConversationSession : Type 0 where
  pub session_id : Text
  pub customer_phone : Text
  pub state : ConversationState
  pub selected_product_id : Option Text
  pub customer : CustomerInfo
  pub cart : List QuoteCartItem
  pub quote_confirmed : Bool
  pub last_quotation_id : Option Text
  pub recent_messages : List ConversationMessage
  pub created_at : ℕ
  pub updated_at : ℕ
  pub quote_revision : ℕ
  pub prepared_preview_fingerprint : Option Text
  pub preview_delivered : Bool
  pub preview_originating_turn_id : Option Text
  pub confirmation_turn_id : Option Text
  pub confirmation_message : Option Text
  pub last_generated_quote : Option GeneratedQuoteReplayMetadata

-- `CustomerInfo(phone=...)`
abbrev pub customer_with_phone : Text → CustomerInfo
customer_with_phone phone = record {
  name = none;
  company_name = none;
  phone = phone;
  email = none;
  address = none;
  contact_person = none;
  notes = none;
}

-- `ConversationSession(customer_phone=...)`: the customer is seeded with the transport's phone. The
-- fresh UUID and the time of creation come from outside.
unfoldable pub new_session : Text → Text → ℕ → ConversationSession
new_session fresh_id customer_phone now = record {
  session_id = fresh_id;
  customer_phone = customer_phone;
  state = ConversationState.new;
  selected_product_id = none;
  customer = customer_with_phone customer_phone;
  cart = [];
  quote_confirmed = false;
  last_quotation_id = none;
  recent_messages = [];
  created_at = now;
  updated_at = now;
  quote_revision = 0;
  prepared_preview_fingerprint = none;
  preview_delivered = false;
  preview_originating_turn_id = none;
  confirmation_turn_id = none;
  confirmation_message = none;
  last_generated_quote = none;
}

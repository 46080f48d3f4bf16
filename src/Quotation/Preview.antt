-- ===== src/Quotation/Preview.antt =====
-- Preparing a preview and recording its delivery: app/services/quotation_service.py, and
-- `quote_fingerprint` of app/schemas/session.py.
use global_detergent_sales_a.Prelude.{
  Text, option_text_eq, Bool, true, false, not, ◌||◌, Option, none, some, List, [], ◌∷◌,
}
use global_detergent_sales_a.Errors.{Error}
use global_detergent_sales_a.Exec.{
  Result, ok, bind, Exec, Done, reads, raise_if, modify, pure, ◌>>=◌, ◌>>◌,
}
use global_detergent_sales_a.Decimal.{Decimal}
use global_detergent_sales_a.Schemas.Quotation.{QuoteCartItem, QuotePreview}
use global_detergent_sales_a.Schemas.Session.{ConversationState, ConversationSession, is_state}
use global_detergent_sales_a.Calculator.{current_active_product, calculate}
use global_detergent_sales_a.Quotation.{
  Services, validate_binding_value, validate_customer_information,
}

-- A supplied fingerprint or turn is not the one that was prepared.
unfoldable pub binding_differs : Text → Option Text → Bool
binding_differs supplied prepared = not (option_text_eq prepared (some supplied))

-- What `prepare_quotation` writes
unfoldable pub bind_preview : Text → Text → ConversationSession → ConversationSession
bind_preview fingerprint turn_id s = record s {
  prepared_preview_fingerprint = some fingerprint;
  preview_delivered = false;
  preview_originating_turn_id = some turn_id;
  quote_confirmed = false;
  confirmation_turn_id = none;
  confirmation_message = none;
  state = ConversationState.quote_review;
}

-- What `mark_ready_for_confirmation` writes
unfoldable pub record_delivery : ConversationSession → ConversationSession
record_delivery s = record s {
  preview_delivered = true;
  quote_confirmed = false;
  confirmation_turn_id = none;
  confirmation_message = none;
  state = ConversationState.awaiting_confirmation;
}

module _ (services : Services) where
  -- `_calculate_preview`
  unfoldable pub calculate_preview : ConversationSession → Result QuotePreview
  calculate_preview s = bind (calculate services.catalog services.rules s.cart) λ priced.
      ok (record {
        customer = s.customer;
        items = priced.0;
        totals = priced.1;
        validity_days = services.rules.validity_days;
        terms = services.rules.terms;
      })

  -- The prices that `_current_quote_fingerprint` collects: one for each item of the cart.
  unfoldable pub current_prices : List QuoteCartItem → Result (List (Text × Decimal))
  current_prices [] = ok []
  current_prices (item ∷ cart) =
      bind (current_active_product services.catalog item.product_id) λ product.
        bind (current_prices cart) λ prices. ok ((item.product_id, product.price.amount) ∷ prices)

  -- `_current_quote_fingerprint`, and `quote_fingerprint`, whose checks of the prices always pass:
  -- each product of the cart has a price there, and a catalog price is finite and not negative.
  unfoldable pub current_quote_fingerprint : ConversationSession → Result Text
  current_quote_fingerprint s = bind (current_prices s.cart) λ prices. ok (
      services.digest (record {
        customer = s.customer;
        cart = s.cart;
        current_prices = prices;
        currency = services.rules.currency;
        quotation_rules = services.rules;
      }))

  unfoldable pub prepare_quotation : Text → Exec ConversationSession QuotePreview
  unfolding bind_preview
  prepare_quotation turn_id = do
    valid_turn_id ← reads (λ s. validate_binding_value turn_id)
    preview ← reads calculate_preview
    validate_customer_information
    fingerprint ← reads current_quote_fingerprint
    modify (bind_preview fingerprint valid_turn_id)
    pure preview

  unfoldable pub mark_ready_for_confirmation : Text → Text → Exec ConversationSession Done
  unfolding record_delivery binding_differs
  mark_ready_for_confirmation preview_fingerprint turn_id = do
    supplied_fingerprint ← reads (λ s. validate_binding_value preview_fingerprint)
    supplied_turn_id ← reads (λ s. validate_binding_value turn_id)
    stale ← reads (λ s. ok (
        binding_differs supplied_fingerprint s.prepared_preview_fingerprint
        || binding_differs supplied_turn_id s.preview_originating_turn_id))
    raise_if stale Error.stale_preview
    current_fingerprint ← reads current_quote_fingerprint
    changed ← reads (λ s. ok (binding_differs current_fingerprint s.prepared_preview_fingerprint))
    raise_if changed Error.stale_preview
    in_review ← reads (λ s. ok (is_state s.state ConversationState.quote_review))
    raise_if (not in_review) Error.invalid_conversation_state
    modify record_delivery

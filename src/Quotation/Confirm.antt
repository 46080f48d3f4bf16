-- ===== src/Quotation/Confirm.antt =====
-- Confirmation of a delivered preview: app/services/quotation_service.py.
use global_detergent_sales_a.Prelude.{
  Text, text_eq, is_blank, any, Bool, true, not, ◌||◌, Option, none, some, List, if◌then◌else◌,
  false, is_none,
}
use global_detergent_sales_a.Errors.{Error}
use global_detergent_sales_a.Exec.{
  Result, ok, err, bind, Exec, Done, reads, raise_if, modify, ◌>>=◌, ◌>>◌,
}
use global_detergent_sales_a.Schemas.Session.{ConversationState, ConversationSession, is_state}
use global_detergent_sales_a.Quotation.{
  Services, ConfirmationInterpretation, validate_binding_value, validate_customer_information,
  is_nonblank,
}
use global_detergent_sales_a.Quotation.Preview.{
  calculate_preview, current_quote_fingerprint, binding_differs,
}

-- `CurrentTurnContext`
pub record CurrentTurnContext : Type 0 where
  pub session_id : Text
  pub turn_id : Text
  pub customer_message : Text
  pub preceding_turn_ids : List Text

-- `_validate_current_turn_context`: the valid turn ID, beside the message as it came
unfoldable pub validate_current_turn_context :
    ConversationSession → CurrentTurnContext → Result Text
validate_current_turn_context s context =
    if not (text_eq context.session_id s.session_id)
    then err Error.invalid_conversation_state
    else bind (validate_binding_value context.turn_id) λ turn_id.
      if any is_blank context.preceding_turn_ids
      then err Error.type_error
      else if is_blank context.customer_message
      then err Error.quote_not_confirmed
      else ok turn_id

-- `preview_turn_id is None or turn_id == preview_turn_id or preview_turn_id not in preceding`
unfoldable pub is_premature : Option Text → Text → List Text → Bool
is_premature none turn_id preceding = true
is_premature (some preview_turn_id) turn_id preceding =
    text_eq turn_id preview_turn_id || not (any (text_eq preview_turn_id) preceding)

abbrev pub is_explicit : ConfirmationInterpretation → Bool
is_explicit ConfirmationInterpretation.explicit = true
is_explicit ConfirmationInterpretation.ambiguous = false

-- What `confirm` writes
unfoldable pub record_confirmation : Text → Text → ConversationSession → ConversationSession
record_confirmation turn_id customer_message s = record s {
  quote_confirmed = true;
  confirmation_turn_id = some turn_id;
  confirmation_message = some customer_message;
}

module _ (services : Services) where
  -- `_validate_current_delivered_preview`
  unfoldable pub validate_current_delivered_preview : Exec ConversationSession Done
  unfolding binding_differs
  validate_current_delivered_preview = do
    reads (calculate_preview services)
    validate_customer_information
    awaiting ← reads (λ s. ok (is_state s.state ConversationState.awaiting_confirmation))
    raise_if (not awaiting) Error.invalid_conversation_state
    delivered ← reads (λ s. ok s.preview_delivered)
    raise_if (not delivered) Error.invalid_conversation_state
    unbound ← reads (λ s. ok (is_none s.prepared_preview_fingerprint))
    raise_if unbound Error.stale_preview
    fingerprint ← reads (current_quote_fingerprint services)
    changed ← reads (λ s. ok (binding_differs fingerprint s.prepared_preview_fingerprint))
    raise_if changed Error.stale_preview

  unfoldable pub confirm : CurrentTurnContext → Exec ConversationSession Done
  unfolding record_confirmation
  confirm context = do
    turn_id ← reads (λ s. validate_current_turn_context s context)
    validate_current_delivered_preview
    premature ←
        reads
          (λ s. ok (is_premature s.preview_originating_turn_id turn_id context.preceding_turn_ids))
    raise_if premature Error.invalid_conversation_state
    raise_if (not (is_explicit (services.confirmation_interpreter context.customer_message)))
        Error.quote_not_confirmed
    modify (record_confirmation turn_id context.customer_message)

  -- `validate_generation_authorization`
  unfoldable pub validate_generation_authorization : Exec ConversationSession Done
  validate_generation_authorization = do
    validate_current_delivered_preview
    unauthorized ← reads (λ s. ok (
        not s.quote_confirmed
        || (not (is_nonblank s.confirmation_turn_id) || not (is_nonblank s.confirmation_message))))
    raise_if unauthorized Error.quote_not_confirmed

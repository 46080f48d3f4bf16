-- ===== src/Tests/Lifecycle.antt =====
-- The life cycle of a quotation on concrete data.
use global_detergent_sales_a.Prelude.{
  ◌≢◌, Text, codes, ◌≡◌, refl, true, false, none, some, text_eq, strip, is_blank, option_text_eq,
  ◌≢◌,
}
use global_detergent_sales_a.Errors.{Error}
use global_detergent_sales_a.Exec.{ok, err}
use global_detergent_sales_a.Decimal.{
  money, mul, percent_of, add_cents, sub_cents, round_prec, half_up,
}
use global_detergent_sales_a.Schemas.Quotation.{GeneratedQuotation}
use global_detergent_sales_a.Schemas.Session.{
  ConversationState, ConversationSession, GeneratedQuoteReplayMetadata,
}
use global_detergent_sales_a.Calculator.{
  current_active_product, if_active, calculate, calculate_lines, calculate_line, price_line,
  product_description, sum_subtotals, calculate_totals,
}
use global_detergent_sales_a.Catalog.{get_by_id, find}
use global_detergent_sales_a.Quotation.{
  ConfirmationInterpretation, validate_binding_value, is_nonblank, customer_information_is_ready,
  validate_customer_information,
}
use global_detergent_sales_a.Quotation.Preview.{
  calculate_preview, current_prices, current_quote_fingerprint, bind_preview, record_delivery,
  mark_ready_for_confirmation, binding_differs,
}
use global_detergent_sales_a.Quotation.Confirm.{
  validate_current_turn_context, is_premature, record_confirmation, confirm,
  validate_current_delivered_preview, validate_generation_authorization,
}
use global_detergent_sales_a.Quotation.Generate.{
  build_generated_quotation, record_generation, generate, generate_new,
}
use global_detergent_sales_a.Quotation.Outcomes.{IsDelivered, IsIn, confirm-inv, mark_ready-inv}
use global_detergent_sales_a.Quotation.Replay.{
  Generated, with_outside, generate-authorized, generate-idempotent,
}
use global_detergent_sales_a.Quotation.Flow.{
  IsQuotable, quote_lifecycle, quote_lifecycle-generates, quote_lifecycle-stale,
}
use global_detergent_sales_a.Tests.Data.{services, session, preview, fingerprint, context}

calculate_preview_at : calculate_preview services session ≡ ok preview
unfolding calculate_preview calculate calculate_lines calculate_line price_line
    current_active_product if_active product_description sum_subtotals calculate_totals get_by_id
    find strip is_blank text_eq money mul percent_of add_cents sub_cents round_prec half_up
calculate_preview_at = refl

fingerprint_at : current_quote_fingerprint services session ≡ ok fingerprint
unfolding current_quote_fingerprint current_prices current_active_product if_active get_by_id find
    strip is_blank text_eq
fingerprint_at = refl

is_quotable : IsQuotable services session (codes "t1") fingerprint context
unfolding validate_binding_value strip is_blank validate_current_turn_context is_premature
    is_nonblank text_eq customer_information_is_ready
is_quotable = record {
  preview = preview;
  preview_at = calculate_preview_at;
  ready = refl;
  current = fingerprint_at;
  bound_fingerprint = refl;
  turn = codes "t1";
  bound_turn = refl;
  later_turn = codes "t2";
  context_at = refl;
  later = refl;
  explicit = refl;
  turn_nonblank = refl;
  message_nonblank = refl;
  issued_at = 864000;
  issued = refl;
  id = codes "Q-1";
  identified = refl;
  path = codes "Q-1.pdf";
  stored = refl;
}

abbrev prepared : ConversationSession
prepared = record session {
  prepared_preview_fingerprint = some fingerprint;
  preview_originating_turn_id = some (codes "t1");
  state = ConversationState.quote_review;
}

abbrev delivered : ConversationSession
delivered = record prepared {
  preview_delivered = true;
  state = ConversationState.awaiting_confirmation;
}

abbrev confirmed : ConversationSession
confirmed = record delivered {
  quote_confirmed = true;
  confirmation_turn_id = some (codes "t2");
  confirmation_message = some (codes "yes");
}

abbrev metadata : GeneratedQuoteReplayMetadata
metadata = record {
  quotation_id = codes "Q-1";
  quote_fingerprint = fingerprint;
  confirmation_turn_id = codes "t2";
  pdf_path = codes "Q-1.pdf";
  generated_at = 864000;
}

abbrev generated : ConversationSession
generated = record confirmed {
  last_generated_quote = some metadata;
  last_quotation_id = some (codes "Q-1");
  state = ConversationState.quote_generated;
}

abbrev quotation : GeneratedQuotation
quotation = record {
  preview = preview;
  quotation_id = codes "Q-1";
  issued_at = 864000;
  valid_until = 40;
  pdf_path = some (codes "Q-1.pdf");
}

quote_lifecycle-generates_example :
    quote_lifecycle services (codes "t1") fingerprint context session ≡ (ok quotation, generated)
unfolding is_quotable build_generated_quotation record_generation bind_preview record_delivery
    record_confirmation
quote_lifecycle-generates_example =
    quote_lifecycle-generates services session (codes "t1") fingerprint context is_quotable refl

-- The session after a quotation was generated, and edited fields aside
abbrev quoted : ConversationSession
quoted = record session { last_generated_quote = some metadata }

is_quotable_again : IsQuotable services quoted (codes "t1") fingerprint context
unfolding validate_binding_value strip is_blank validate_current_turn_context is_premature
    is_nonblank text_eq customer_information_is_ready
is_quotable_again = record {
  preview = preview;
  preview_at = unfold calculate_preview in calculate_preview_at;
  ready = refl;
  current = unfold current_quote_fingerprint in fingerprint_at;
  bound_fingerprint = refl;
  turn = codes "t1";
  bound_turn = refl;
  later_turn = codes "t2";
  context_at = refl;
  later = refl;
  explicit = refl;
  turn_nonblank = refl;
  message_nonblank = refl;
  issued_at = 864000;
  issued = refl;
  id = codes "Q-1";
  identified = refl;
  path = codes "Q-1.pdf";
  stored = refl;
}

quote_lifecycle-stale_example :
    quote_lifecycle services (codes "t1") fingerprint context quoted
    ≡ (err Error.stale_preview, record confirmed { last_generated_quote = some metadata })
unfolding is_quotable_again bind_preview record_delivery record_confirmation
quote_lifecycle-stale_example =
    quote_lifecycle-stale services quoted (codes "t1") fingerprint context is_quotable_again
      metadata refl

delivers_at :
    mark_ready_for_confirmation services fingerprint (codes "t1") prepared ≡ (ok tt, delivered)
unfolding mark_ready_for_confirmation validate_binding_value binding_differs
    current_quote_fingerprint current_prices current_active_product if_active get_by_id find strip
    is_blank text_eq option_text_eq
delivers_at = refl

confirms_at : confirm services context delivered ≡ (ok tt, confirmed)
unfolding confirm validate_current_turn_context validate_binding_value is_premature
    record_confirmation validate_current_delivered_preview validate_customer_information
    customer_information_is_ready is_nonblank calculate_preview calculate calculate_lines
    calculate_line price_line current_active_product if_active product_description sum_subtotals
    calculate_totals get_by_id find strip is_blank text_eq money mul percent_of add_cents sub_cents
    round_prec half_up current_quote_fingerprint current_prices binding_differs option_text_eq
confirms_at = refl

generates_at : generate services confirmed ≡ (ok quotation, generated)
unfolding generate generate_new validate_generation_authorization validate_current_delivered_preview
    validate_customer_information customer_information_is_ready is_nonblank calculate_preview
    calculate calculate_lines calculate_line price_line current_active_product if_active
    product_description sum_subtotals calculate_totals get_by_id find strip is_blank text_eq money
    mul percent_of add_cents sub_cents round_prec half_up current_quote_fingerprint current_prices
    binding_differs option_text_eq build_generated_quotation record_generation
generates_at = refl

mark_ready-inv_example :
    (f : Text) × (t : Text) × (validate_binding_value fingerprint ≡ ok f)
    × (validate_binding_value (codes "t1") ≡ ok t)
    × (prepared.prepared_preview_fingerprint ≡ some f)
    × (prepared.preview_originating_turn_id ≡ some t)
    × (current_quote_fingerprint services prepared ≡ ok f)
    × (prepared.state ≡ ConversationState.quote_review)
    × (delivered ≡ record_delivery prepared)
mark_ready-inv_example =
    mark_ready-inv services fingerprint (codes "t1") prepared delivered delivers_at

confirm-inv_example :
    (preview_turn_id : Text) × (IsDelivered services delivered)
    × (context.session_id ≡ delivered.session_id)
    × (is_blank context.turn_id ≡ false)
    × (delivered.preview_originating_turn_id ≡ some preview_turn_id)
    × (strip context.turn_id ≢ preview_turn_id)
    × IsIn preview_turn_id context.preceding_turn_ids
    × (is_blank context.customer_message ≡ false)
    × (services.confirmation_interpreter context.customer_message
        ≡ ConfirmationInterpretation.explicit)
    × (confirmed ≡ record delivered {
      quote_confirmed = true;
      confirmation_turn_id = some (strip context.turn_id);
      confirmation_message = some context.customer_message;
    })
confirm-inv_example = confirm-inv services context delivered confirmed confirms_at

generate-authorized_example : Generated services confirmed generated quotation
generate-authorized_example =
    generate-authorized services confirmed generated quotation refl generates_at

generate-idempotent_example :
    generate
      (with_outside services none
        (λ prefix at. ok (codes "Q-2"))
        (λ q. err Error.quotation_generation))
      generated
    ≡ (ok quotation, generated)
generate-idempotent_example =
    generate-idempotent services confirmed generated quotation none (λ prefix at. ok (codes "Q-2"))
      (λ q. err Error.quotation_generation) refl generates_at

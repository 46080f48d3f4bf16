-- ===== src/Quotation/Generate.antt =====
-- Generation and replay of a quotation: app/services/quotation_service.py.
use global_detergent_sales_a.Prelude.{
  ℕ, ◌+◌, ◌/◌, Text, text_eq, Bool, not, ◌||◌, Option, none, some,
}
use global_detergent_sales_a.Errors.{Error}
use global_detergent_sales_a.Exec.{ok, or_error, Exec, reads, raise_if, modify, pure, ◌>>=◌, ◌>>◌}
use global_detergent_sales_a.Schemas.Quotation.{QuotePreview, GeneratedQuotation}
use global_detergent_sales_a.Schemas.Session.{
  ConversationState, ConversationSession, GeneratedQuoteReplayMetadata, is_state,
}
use global_detergent_sales_a.Quotation.{Services, validate_customer_information}
use global_detergent_sales_a.Quotation.Preview.{
  calculate_preview, current_quote_fingerprint, binding_differs,
}
use global_detergent_sales_a.Quotation.Confirm.{validate_generation_authorization}

-- `_build_generated_quotation`; a day has 86400 seconds.
unfoldable pub build_generated_quotation :
    QuotePreview → Text → ℕ → Option Text → GeneratedQuotation
build_generated_quotation preview quotation_id issued_at pdf_path = record {
  preview = preview;
  quotation_id = quotation_id;
  issued_at = issued_at;
  valid_until = issued_at / 86400 + preview.validity_days;
  pdf_path = pdf_path;
}

-- The test of `_replay_generated_quotation`: the metadata are not those of the session as it is.
unfoldable pub is_stale_replay : GeneratedQuoteReplayMetadata → Text → ConversationSession → Bool
unfolding binding_differs
is_stale_replay metadata fingerprint s =
    not (is_state s.state ConversationState.quote_generated)
    || (binding_differs metadata.quotation_id s.last_quotation_id
        || (binding_differs metadata.quote_fingerprint s.prepared_preview_fingerprint
            || (not (text_eq fingerprint metadata.quote_fingerprint)
                || (binding_differs metadata.confirmation_turn_id s.confirmation_turn_id
                    || not s.quote_confirmed))))

-- What `generate` writes after the PDF was stored
unfoldable pub record_generation :
    GeneratedQuoteReplayMetadata → ConversationSession → ConversationSession
record_generation metadata s = record s {
  last_generated_quote = some metadata;
  last_quotation_id = some metadata.quotation_id;
  state = ConversationState.quote_generated;
}

module _ (services : Services) where
  -- `_replay_generated_quotation`, from the metadata that are there on
  unfoldable pub replay_metadata :
      GeneratedQuoteReplayMetadata → Exec ConversationSession GeneratedQuotation
  replay_metadata metadata = do
    preview ← reads (calculate_preview services)
    validate_customer_information
    fingerprint ← reads (current_quote_fingerprint services)
    stale ← reads (λ s. ok (is_stale_replay metadata fingerprint s))
    raise_if stale Error.stale_preview
    pure (
        build_generated_quotation preview metadata.quotation_id metadata.generated_at
          (some metadata.pdf_path))

  -- `generate` where there is nothing to replay
  unfoldable pub generate_new : Exec ConversationSession GeneratedQuotation
  unfolding binding_differs record_generation
  generate_new = do
    validate_generation_authorization services
    preview ← reads (calculate_preview services)
    quote_fingerprint ← reads (current_quote_fingerprint services)
    changed ← reads (λ s. ok (binding_differs quote_fingerprint s.prepared_preview_fingerprint))
    raise_if changed Error.stale_preview
    issued_at ← reads (λ s. or_error services.clock Error.value_error)
    quotation_id ←
        reads (λ s. services.quotation_id_factory services.rules.quotation_prefix issued_at)
    pdf_path ← reads (λ s.
        services.generate_quotation_pdf
          (build_generated_quotation preview quotation_id issued_at none))
    confirmation_turn_id ← reads (λ s. or_error s.confirmation_turn_id Error.quote_not_confirmed)
    modify (
        record_generation (record {
          quotation_id = quotation_id;
          quote_fingerprint = quote_fingerprint;
          confirmation_turn_id = confirmation_turn_id;
          pdf_path = pdf_path;
          generated_at = issued_at;
        }))
    pure (build_generated_quotation preview quotation_id issued_at (some pdf_path))

  unfoldable pub generate : Exec ConversationSession GeneratedQuotation
  generate s = elim s.last_generated_quote [
    | none ↦ generate_new s
    | some metadata ↦ replay_metadata metadata s
  ]

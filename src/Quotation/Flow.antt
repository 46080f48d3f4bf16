-- ===== src/Quotation/Flow.antt =====
-- Lemmas on the whole life cycle of a quotation in app/services/quotation_service.py.
use global_detergent_sales_a.Errors.{Error}
use global_detergent_sales_a.Prelude.{
  ℕ, Text, ◌≡◌, refl, true, false, none, some, arith, option_text_eq_refl,
}
use global_detergent_sales_a.Exec.{ok, Exec, ◌>>◌, err}
use global_detergent_sales_a.Schemas.Quotation.{QuotePreview, GeneratedQuotation}
use global_detergent_sales_a.Schemas.Session.{
  ConversationState, ConversationSession, GeneratedQuoteReplayMetadata,
}
use global_detergent_sales_a.Quotation.{
  Services, validate_binding_value, is_nonblank, validate_customer_information,
  customer_information_is_ready,
}
use global_detergent_sales_a.Quotation.Preview.{
  calculate_preview, current_prices, current_quote_fingerprint, prepare_quotation,
  mark_ready_for_confirmation, bind_preview, record_delivery,
}
use global_detergent_sales_a.Quotation.Confirm.{
  CurrentTurnContext, confirm, validate_current_turn_context, is_premature, is_explicit,
  record_confirmation, validate_current_delivered_preview, validate_generation_authorization,
}
use global_detergent_sales_a.Quotation.Generate.{
  generate, build_generated_quotation, replay_metadata, is_stale_replay, generate_new,
  record_generation,
}

-- What a session and the services must offer for a quotation to come about: a calculable cart,
-- ready customer details, a fingerprint, valid bindings, a later turn with an explicit
-- confirmation, and collaborators that answer.
pub record IsQuotable (services : Services) (s : ConversationSession) (turn_id fingerprint : Text)
    (context : CurrentTurnContext) : Type 0 where
  pub preview : QuotePreview
  pub preview_at : calculate_preview services s ≡ ok preview
  pub ready : customer_information_is_ready s ≡ true
  pub current : current_quote_fingerprint services s ≡ ok fingerprint
  pub bound_fingerprint : validate_binding_value fingerprint ≡ ok fingerprint
  pub turn : Text
  pub bound_turn : validate_binding_value turn_id ≡ ok turn
  pub later_turn : Text
  pub context_at : validate_current_turn_context s context ≡ ok later_turn
  pub later : is_premature (some turn) later_turn context.preceding_turn_ids ≡ false
  pub explicit : is_explicit (services.confirmation_interpreter context.customer_message) ≡ true
  pub turn_nonblank : is_nonblank (some later_turn) ≡ true
  pub message_nonblank : is_nonblank (some context.customer_message) ≡ true
  pub issued_at : ℕ
  pub issued : services.clock ≡ some issued_at
  pub id : Text
  pub identified : services.quotation_id_factory services.rules.quotation_prefix issued_at ≡ ok id
  pub path : Text
  pub stored :
      services.generate_quotation_pdf (build_generated_quotation preview id issued_at none)
      ≡ ok path

-- The steps of the life cycle, in order, as the conversation makes them.
pub quote_lifecycle :
    Services → Text → Text → CurrentTurnContext → Exec ConversationSession GeneratedQuotation
quote_lifecycle services turn_id fingerprint context = do
  prepare_quotation services turn_id
  mark_ready_for_confirmation services fingerprint turn_id
  confirm services context
  generate services

-- The checks of a delivered preview pass on a session that has all that they ask for.
validate_current_delivered_preview-passes :
    (services : Services) (s : ConversationSession) (preview : QuotePreview) (fingerprint : Text)
    → calculate_preview services s ≡ ok preview
    → customer_information_is_ready s ≡ true
    → s.state ≡ ConversationState.awaiting_confirmation
    → s.preview_delivered ≡ true
    → current_quote_fingerprint services s ≡ ok fingerprint
    → s.prepared_preview_fingerprint ≡ some fingerprint
    → validate_current_delivered_preview services s ≡ (ok tt, s)
unfolding validate_current_delivered_preview validate_customer_information
validate_current_delivered_preview-passes services s preview fingerprint a b c d e f =
    ground (arith, option_text_eq_refl (some fingerprint))

module _ (services : Services) (s : ConversationSession) (turn_id fingerprint : Text)
    (context : CurrentTurnContext) (q : IsQuotable services s turn_id fingerprint context) where
  -- The sessions after each step
  abbrev s1 : ConversationSession
  s1 = bind_preview fingerprint q.turn s

  abbrev s2 : ConversationSession
  s2 = record_delivery s1

  abbrev s3 : ConversationSession
  s3 = record_confirmation q.later_turn context.customer_message s2

  prepares : prepare_quotation services turn_id s ≡ (ok q.preview, s1)
  unfolding prepare_quotation validate_customer_information
  prepares = ground (arith, q.bound_turn, q.preview_at, q.ready, q.current)

  delivers : mark_ready_for_confirmation services fingerprint turn_id s1 ≡ (ok tt, s2)
  unfolding mark_ready_for_confirmation current_quote_fingerprint current_prices bind_preview
  delivers =
      let current : current_quote_fingerprint services s1 ≡ ok fingerprint = q.current in
      ground (
        arith,
        q.bound_turn,
        q.bound_fingerprint,
        current,
        option_text_eq_refl (some fingerprint),
        option_text_eq_refl (some q.turn),
      )

  confirms : confirm services context s2 ≡ (ok tt, s3)
  unfolding confirm
  confirms =
      let checked =
        validate_current_delivered_preview-passes services s2 q.preview fingerprint
          (unfold calculate_preview bind_preview record_delivery in q.preview_at)
          (unfold customer_information_is_ready bind_preview record_delivery in q.ready)
          (unfold record_delivery in refl) (unfold record_delivery in refl)
          (unfold current_quote_fingerprint current_prices bind_preview record_delivery in
            q.current)
          (unfold bind_preview record_delivery in refl) in
      let turn : validate_current_turn_context s2 context ≡ ok q.later_turn =
        unfold validate_current_turn_context bind_preview record_delivery in q.context_at in
      let later : is_premature s2.preview_originating_turn_id q.later_turn
            context.preceding_turn_ids
          ≡ false =
        unfold bind_preview record_delivery in q.later in
      ground (arith, checked, turn, later, q.explicit)

  calculated : calculate_preview services s3 ≡ ok q.preview
  unfolding calculate_preview bind_preview record_delivery record_confirmation
  calculated = q.preview_at

  still_ready : customer_information_is_ready s3 ≡ true
  unfolding customer_information_is_ready bind_preview record_delivery record_confirmation
  still_ready = q.ready

  fingerprinted : current_quote_fingerprint services s3 ≡ ok fingerprint
  unfolding current_quote_fingerprint current_prices bind_preview record_delivery
      record_confirmation
  fingerprinted = q.current

  authorizes : validate_generation_authorization services s3 ≡ (ok tt, s3)
  unfolding validate_generation_authorization bind_preview record_delivery record_confirmation
  authorizes =
      let checked =
        validate_current_delivered_preview-passes services s3 q.preview fingerprint calculated
          still_ready refl refl fingerprinted refl in
      ground (arith, checked, q.turn_nonblank, q.message_nonblank)

  abbrev metadata : GeneratedQuoteReplayMetadata
  metadata = record {
    quotation_id = q.id;
    quote_fingerprint = fingerprint;
    confirmation_turn_id = q.later_turn;
    pdf_path = q.path;
    generated_at = q.issued_at;
  }

  abbrev quotation : GeneratedQuotation
  quotation = build_generated_quotation q.preview q.id q.issued_at (some q.path)

  generates : generate_new services s3 ≡ (ok quotation, record_generation metadata s3)
  unfolding generate_new bind_preview record_delivery record_confirmation
  generates = ground (
    arith,
    authorizes,
    calculated,
    fingerprinted,
    option_text_eq_refl (some fingerprint),
    q.issued,
    q.identified,
    q.stored,
  )

  -- A quotation that is calculable, prepared, delivered and explicitly confirmed from a later turn
  -- is generated, if none was generated before: the result carries the ID, the time and the path
  -- that the collaborators gave, and the session ends in QUOTE_GENERATED with the metadata that
  -- replay it.
  pub quote_lifecycle-generates :
      s.last_generated_quote ≡ none
      → quote_lifecycle services turn_id fingerprint context s
        ≡ (ok quotation, record_generation metadata s3)
  unfolding quote_lifecycle generate bind_preview record_delivery record_confirmation
  quote_lifecycle-generates new = ground (arith, prepares, delivers, confirms, generates)

  -- The same steps on a session that still holds the metadata of an earlier quotation end in
  -- STALE_PREVIEW, with the confirmation recorded, whatever the earlier quotation was: preparing
  -- a preview again does not clear the metadata, and their replay wants the state QUOTE_GENERATED.
  pub quote_lifecycle-stale :
      (earlier : GeneratedQuoteReplayMetadata)
      → s.last_generated_quote ≡ some earlier
      → quote_lifecycle services turn_id fingerprint context s ≡ (err Error.stale_preview, s3)
  unfolding quote_lifecycle generate replay_metadata validate_customer_information is_stale_replay
      bind_preview record_delivery record_confirmation
  quote_lifecycle-stale earlier old =
      ground (arith, prepares, delivers, confirms, calculated, still_ready, fingerprinted)

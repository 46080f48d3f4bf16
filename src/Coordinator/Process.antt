-- ===== src/Coordinator/Process.antt =====
-- `process_outcome` of app/services/whatsapp_processing_coordinator.py, and the methods it calls.
use global_detergent_sales_a.Prelude.{
  Text, text_eq, Bool, true, false, not, Option, none, some, [], ◌∷◌, if◌then◌else◌, is_none,
}
use global_detergent_sales_a.Errors.{Error}
use global_detergent_sales_a.Exec.{
  Result, ok, err, Done, Exec, pure, raise, raise_if, reads, ◌>>=◌, ◌>>◌,
}
use global_detergent_sales_a.Schemas.Whatsapp.{
  WebhookOutcomeKind, WebhookParseOutcome, IncomingMessage, is_message_kind,
}
use global_detergent_sales_a.Dedup.{
  ProcessingStage, ClaimDecision, SafeReplayMetadata, MessageProcessingRecord, MessageClaim,
  is_stage, has_uncertain_external_action, owns_processing,
}
use global_detergent_sales_a.Dedup.Operations.{ActionField, Operation}
use global_detergent_sales_a.Dedup.Methods.{run_claim}
use global_detergent_sales_a.Coordinator.{
  Collaborators, Event, Processing, ProcessingDisposition, new_replay, new_owner_token,
  unsupported_media_response,
}
use global_detergent_sales_a.Coordinator.Actions.{store, request, operate, under_heartbeat, perform}

abbrev pub is_complete_decision : ClaimDecision → Bool
is_complete_decision ClaimDecision.complete = true
is_complete_decision ClaimDecision.acquired = false
is_complete_decision ClaimDecision.resumed = false
is_complete_decision ClaimDecision.busy = false

module _ (c : Collaborators) where
  module _ (message_id owner : Text) where
    -- Every exception of the acknowledgement becomes the error that asks for a retry.
    abbrev pub retryable : Result Done → Result Done
    retryable (ok done) = ok done
    retryable (err e) = err Error.processing_retryable

    -- The acknowledgement of a preview in `_deliver_text`
    unfoldable pub acknowledge : Text → Option Text → Option Text → Exec Processing Done
    unfolding under_heartbeat
    acknowledge sender none turn_id = pure tt
    acknowledge sender (some fingerprint) none = raise Error.assertion_error
    acknowledge sender (some fingerprint) (some turn_id) = do
      answer ← under_heartbeat c message_id owner (
          request c (λ n. c.acknowledge_successful_delivery n sender fingerprint turn_id)
            (λ a. Event.acknowledged fingerprint turn_id))
      reads (λ s. retryable answer)

    -- `_deliver_text`
    unfoldable pub deliver_text :
        Text → SafeReplayMetadata → Exec Processing MessageProcessingRecord
    unfolding perform acknowledge operate
    deliver_text sender replay = do
      outbound_message_id ←
          perform c message_id owner ActionField.text_delivery (sender ∷ replay.response_text ∷ [])
            (λ n. c.send_text n sender replay.response_text)
      acknowledge sender replay.preview_fingerprint replay.preview_originating_turn_id
      operate c message_id owner (Operation.mark_text_sent outbound_message_id)

    -- `_upload_document`, from the file's name on
    unfoldable pub upload_named : Text → Exec Processing MessageProcessingRecord
    unfolding perform operate
    upload_named filename = do
      uploaded ←
          perform c message_id owner ActionField.document_upload (filename ∷ [])
            (λ n. c.upload_document n filename)
      raise_if (not (text_eq uploaded.filename filename)) Error.processing_retryable
      operate c message_id owner (Operation.mark_document_uploaded uploaded.media_id)

    -- `_upload_document`
    unfoldable pub upload_document : SafeReplayMetadata → Exec Processing MessageProcessingRecord
    unfolding upload_named
    upload_document replay = elim replay.document_filename [
      | none ↦ raise Error.processing_retryable
      | some filename ↦ upload_named filename
    ]

    -- `_deliver_document`, from the checkpoint on
    unfoldable pub deliver_named :
        Text → Option Text → Option Text → Exec Processing MessageProcessingRecord
    unfolding perform operate
    deliver_named sender none media_id = raise Error.processing_retryable
    deliver_named sender (some filename) none = raise Error.processing_retryable
    deliver_named sender (some filename) (some media_id) = do
      outbound_message_id ←
          perform c message_id owner ActionField.document_delivery
            (sender ∷ media_id ∷ filename ∷ []) (λ n. c.send_document n sender media_id filename)
      operate c message_id owner (Operation.mark_document_sent (some outbound_message_id))

    -- `_deliver_document`
    unfoldable pub deliver_document :
        Text
        → MessageProcessingRecord
        → SafeReplayMetadata
        → Exec Processing MessageProcessingRecord
    unfolding deliver_named
    deliver_document sender r replay =
        deliver_named sender replay.document_filename r.document_media_id

    -- The reply that `_create_replay` saves, without its heartbeat
    abbrev pub ask_agent : Text → Option Text → Exec Processing SafeReplayMetadata
    ask_agent sender none = raise Error.assertion_error
    ask_agent sender (some text) = do
      answer ← request c (λ n. c.process_message n sender text) (λ a. Event.agent_run sender text)
      reply ← reads (λ s. answer)
      reads (λ s. new_replay c.path_name reply)

    -- `_create_replay`
    unfoldable pub create_replay :
        WebhookOutcomeKind → IncomingMessage → Exec Processing SafeReplayMetadata
    unfolding new_replay
    create_replay WebhookOutcomeKind.text_message m = ask_agent m.sender_phone m.text
    create_replay WebhookOutcomeKind.unsupported_message m = reads (λ s.
        new_replay c.path_name (record {
          response_text = unsupported_media_response;
          generated_quote = none;
          prepared_preview = none;
        }))
    create_replay WebhookOutcomeKind.ignored m = raise Error.type_error
    create_replay WebhookOutcomeKind.invalid m = raise Error.type_error

    -- `process_outcome`, from the document's delivery on
    unfoldable pub finish : MessageProcessingRecord → Exec Processing ProcessingDisposition
    unfolding operate
    finish r =
        if is_stage r.stage ProcessingStage.document_sent
        then operate c message_id owner Operation.mark_message_processed
          >> pure ProcessingDisposition.completed
        else raise Error.processing_retryable

    unfoldable pub resume_document :
        Text → SafeReplayMetadata → MessageProcessingRecord → Exec Processing ProcessingDisposition
    unfolding deliver_document finish
    resume_document sender replay r =
        if is_stage r.stage ProcessingStage.document_uploaded
        then deliver_document sender r replay >>= finish
        else finish r

    -- `process_outcome`, from the text's delivery on
    unfoldable pub resume_upload :
        Text → SafeReplayMetadata → MessageProcessingRecord → Exec Processing ProcessingDisposition
    unfolding upload_document resume_document operate
    resume_upload sender replay r =
        if is_stage r.stage ProcessingStage.text_sent
        then (if is_none replay.generated_quotation_id
            then operate c message_id owner Operation.mark_message_processed
              >> pure ProcessingDisposition.completed
            else upload_document replay >>= resume_document sender replay)
        else resume_document sender replay r

    -- `process_outcome`, from the saved result on
    unfoldable pub resume_text :
        Text
        → Option SafeReplayMetadata
        → MessageProcessingRecord
        → Exec Processing ProcessingDisposition
    unfolding deliver_text resume_upload
    resume_text sender none r = raise Error.processing_retryable
    resume_text sender (some replay) r =
        if is_stage r.stage ProcessingStage.result_saved
        then deliver_text sender replay >>= resume_upload sender replay
        else resume_upload sender replay r

    -- The record of the claim, after the result was saved if it was not
    unfoldable pub ensure_result :
        WebhookOutcomeKind
        → IncomingMessage
        → MessageProcessingRecord
        → Exec Processing MessageProcessingRecord
    unfolding under_heartbeat create_replay operate
    ensure_result kind m r =
        if is_stage r.stage ProcessingStage.claimed
        then (do
          created_replay ← under_heartbeat c message_id owner (create_replay kind m)
          operate c message_id owner (Operation.save_result created_replay))
        else pure r

    -- `process_outcome`, with the claim
    unfoldable pub process_claim :
        WebhookOutcomeKind → IncomingMessage → MessageClaim → Exec Processing ProcessingDisposition
    unfolding ensure_result resume_text
    process_claim kind m claim =
        if is_complete_decision claim.decision
        then pure ProcessingDisposition.completed_duplicate
        else if not (owns_processing claim)
        then raise Error.processing_retryable
        else if has_uncertain_external_action claim.claimed_record
        then raise Error.processing_retryable
        else ensure_result kind m claim.claimed_record >>= λ r.
            resume_text m.sender_phone r.replay r

  -- `process_outcome`, with a message
  unfoldable pub process_incoming :
      WebhookOutcomeKind → IncomingMessage → Exec Processing ProcessingDisposition
  unfolding new_owner_token process_claim
  process_incoming kind m = do
    owner_token ← reads (λ s. new_owner_token c.owner_token_factory)
    claim ←
        store c (λ now cell. run_claim c.is_printable c.settings m.message_id owner_token now cell)
    process_claim m.message_id owner_token kind m claim

  -- `process_outcome`
  unfoldable pub process_outcome : WebhookParseOutcome → Exec Processing ProcessingDisposition
  unfolding process_incoming
  process_outcome outcome = elim outcome.message [
    | none ↦ raise Error.type_error
    | some m ↦
        if is_message_kind outcome.kind
        then process_incoming outcome.kind m
        else raise Error.type_error
  ]

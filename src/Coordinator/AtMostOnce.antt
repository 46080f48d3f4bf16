-- ===== src/Coordinator/AtMostOnce.antt =====
-- How often a provider may have accepted an external action of one message, over whole runs of
-- `process_outcome` of app/services/whatsapp_processing_coordinator.py.
use global_detergent_sales_a.Prelude.{
  ◌≤◌, Text, ◌≡◌, refl, inl, inr, not, Option, some, none, List, [], ◌∷◌, arith, if◌then◌else◌,
  Option-cases, is_none, ◌+◌,
}
use global_detergent_sales_a.Errors.{Error}
use global_detergent_sales_a.Exec.{pure, raise, reads, ◌>>=◌, ◌>>◌}
use global_detergent_sales_a.Schemas.Whatsapp.{
  WebhookOutcomeKind, WebhookParseOutcome, IncomingMessage, is_message_kind,
}
use global_detergent_sales_a.Dedup.{MessageProcessingRecord, SafeReplayMetadata, MessageClaim}
use global_detergent_sales_a.Dedup.Operations.{ActionField, Operation}
use global_detergent_sales_a.Dedup.Methods.{run_claim}
use global_detergent_sales_a.Coordinator.{
  Collaborators, Processing, ProcessingDisposition, is_stage, has_uncertain_external_action,
  new_owner_token, ProcessingStage, owns_processing,
}
use global_detergent_sales_a.Coordinator.Actions.{store, operate, under_heartbeat}
use global_detergent_sales_a.Coordinator.Process.{
  deliver_text, upload_document, deliver_document, create_replay, ensure_result, finish,
  resume_document, resume_upload, resume_text, process_claim, process_incoming, process_outcome,
  is_complete_decision,
}
use global_detergent_sales_a.Coordinator.BegunRecord.{has_begun}
use global_detergent_sales_a.Coordinator.Begun.{run_claim-begun}
use global_detergent_sales_a.Coordinator.Calls.{
  AtMostOnce, Keeps, Keeps-bind, Keeps-if, Keeps-store, accepted_calls, accepted_calls-none, bit-le,
}
use global_detergent_sales_a.Coordinator.Perform.{Keeps-operate, Keeps-under_heartbeat}
use global_detergent_sales_a.Coordinator.Deliveries.{
  Keeps-deliver_text, Keeps-upload_document, Keeps-deliver_named, Keeps-create_replay,
}

module _ (c : Collaborators) (f : ActionField) where
  module _ (message_id owner : Text) where
    Keeps-finish : (r : MessageProcessingRecord) → Keeps f (finish c message_id owner r)
    unfolding finish
    Keeps-finish r =
        let mark = operate c message_id owner Operation.mark_message_processed in
        Keeps-if f (is_stage r.stage ProcessingStage.document_sent)
          (mark >> pure ProcessingDisposition.completed) (raise Error.processing_retryable)
          (Keeps-bind f mark (λ _. pure ProcessingDisposition.completed)
            (Keeps-operate c f message_id owner Operation.mark_message_processed refl) (λ _ s h. h))
          (λ s h. h)

    Keeps-resume_document :
        (sender : Text) (replay : SafeReplayMetadata) (r : MessageProcessingRecord)
        → Keeps f (resume_document c message_id owner sender replay r)
    unfolding resume_document deliver_document
    Keeps-resume_document sender replay r =
        Keeps-if f (is_stage r.stage ProcessingStage.document_uploaded)
          (deliver_document c message_id owner sender r replay >>= finish c message_id owner)
          (finish c message_id owner r)
          (Keeps-bind f (deliver_document c message_id owner sender r replay)
            (finish c message_id owner)
            (Keeps-deliver_named c f message_id owner sender replay.document_filename
              r.document_media_id)
            Keeps-finish)
          (Keeps-finish r)

    Keeps-resume_upload :
        (sender : Text) (replay : SafeReplayMetadata) (r : MessageProcessingRecord)
        → Keeps f (resume_upload c message_id owner sender replay r)
    unfolding resume_upload
    Keeps-resume_upload sender replay r =
        let mark =
          operate c message_id owner Operation.mark_message_processed
          >> pure {S = Processing} ProcessingDisposition.completed in
        let upload =
          upload_document c message_id owner replay
          >>= resume_document c message_id owner sender replay in
        Keeps-if f (is_stage r.stage ProcessingStage.text_sent)
          (if is_none replay.generated_quotation_id then mark else upload)
          (resume_document c message_id owner sender replay r)
          (Keeps-if f (is_none replay.generated_quotation_id) mark upload
            (Keeps-bind f (operate c message_id owner Operation.mark_message_processed)
              (λ _. pure ProcessingDisposition.completed)
              (Keeps-operate c f message_id owner Operation.mark_message_processed refl)
              (λ _ s h. h))
            (Keeps-bind f (upload_document c message_id owner replay)
              (resume_document c message_id owner sender replay)
              (Keeps-upload_document c f message_id owner replay)
              (Keeps-resume_document sender replay)))
          (Keeps-resume_document sender replay r)

    Keeps-resume_text :
        (sender : Text) (replay : Option SafeReplayMetadata) (r : MessageProcessingRecord)
        → Keeps f (resume_text c message_id owner sender replay r)
    unfolding resume_text
    Keeps-resume_text sender none r s h = h
    Keeps-resume_text sender (some replay) r s h =
        Keeps-if f (is_stage r.stage ProcessingStage.result_saved)
          (deliver_text c message_id owner sender replay
            >>= resume_upload c message_id owner sender replay)
          (resume_upload c message_id owner sender replay r)
          (Keeps-bind f (deliver_text c message_id owner sender replay)
            (resume_upload c message_id owner sender replay)
            (Keeps-deliver_text c f message_id owner sender replay)
            (Keeps-resume_upload sender replay))
          (Keeps-resume_upload sender replay r) s h

    Keeps-ensure_result :
        (kind : WebhookOutcomeKind) (m : IncomingMessage) (r : MessageProcessingRecord)
        → Keeps f (ensure_result c message_id owner kind m r)
    unfolding ensure_result
    Keeps-ensure_result kind m r =
        let created =
          under_heartbeat c message_id owner (create_replay c message_id owner kind m) in
        let save = λ (replay : SafeReplayMetadata).
          operate c message_id owner (Operation.save_result replay) in
        Keeps-if f (is_stage r.stage ProcessingStage.claimed) (created >>= save) (pure r)
          (Keeps-bind f created save
            (Keeps-under_heartbeat c f message_id owner (create_replay c message_id owner kind m)
              (Keeps-create_replay c f message_id owner kind m))
            (λ replay. Keeps-operate c f message_id owner (Operation.save_result replay) refl))
          (λ s h. h)

    Keeps-process_claim :
        (kind : WebhookOutcomeKind) (m : IncomingMessage) (claim : MessageClaim)
        → Keeps f (process_claim c message_id owner kind m claim)
    unfolding process_claim
    Keeps-process_claim kind m claim =
        let r = claim.claimed_record in
        let retry = raise {S = Processing} {A = ProcessingDisposition} Error.processing_retryable in
        let resume = λ (r : MessageProcessingRecord).
          resume_text c message_id owner m.sender_phone r.replay r in
        let work = ensure_result c message_id owner kind m r >>= resume in
        let certain = if has_uncertain_external_action r then retry else work in
        let owned = if not (owns_processing claim) then retry else certain in
        Keeps-if f (is_complete_decision claim.decision)
          (pure ProcessingDisposition.completed_duplicate) owned (λ s h. h)
          (Keeps-if f (not (owns_processing claim)) retry certain (λ s h. h)
            (Keeps-if f (has_uncertain_external_action r) retry work (λ s h. h)
              (Keeps-bind f (ensure_result c message_id owner kind m r) resume
                (Keeps-ensure_result kind m r)
                (λ r'. Keeps-resume_text m.sender_phone r'.replay r'))))

  Keeps-process_incoming :
      (kind : WebhookOutcomeKind) (m : IncomingMessage) → Keeps f (process_incoming c kind m)
  unfolding process_incoming
  Keeps-process_incoming kind m =
      let claimed = λ (owner : Text).
        store c (λ now cell. run_claim c.is_printable c.settings m.message_id owner now cell) in
      let token = reads {S = Processing} (λ s. new_owner_token c.owner_token_factory) in
      Keeps-bind f token (λ owner. claimed owner >>= process_claim c m.message_id owner kind m)
        (λ s h. h)
        (λ owner.
          Keeps-bind f (claimed owner) (process_claim c m.message_id owner kind m)
            (Keeps-store c f
              (λ now cell. run_claim c.is_printable c.settings m.message_id owner now cell)
              (λ now cell. run_claim-begun c.is_printable c.settings m.message_id owner now f cell))
            (Keeps-process_claim m.message_id owner kind m))

  -- A run of `process_outcome` keeps the invariant that the provider may have accepted an external
  -- action of the message at most once for each record that has expired, and once more only if the
  -- stored record says that it has begun, whatever the collaborators answer, whenever they renew, and
  -- however the run ends.
  pub process_outcome-AtMostOnce :
      (outcome : WebhookParseOutcome) (s : Processing)
      → AtMostOnce f s
      → AtMostOnce f (process_outcome c outcome s).1
  unfolding process_outcome
  process_outcome-AtMostOnce outcome s h = elim (Option-cases outcome.message) [
    | inl missing ↦ rw missing h
    | inr (m, found) ↦ rw found (
        Keeps-if f (is_message_kind outcome.kind) (process_incoming c outcome.kind m)
          (raise Error.type_error) (Keeps-process_incoming outcome.kind m) (λ s h. h) s h)
  ]

-- Runs for one message, one after the other, each with collaborators and an outcome of its own
unfoldable pub process_all : List (Collaborators × WebhookParseOutcome) → Processing → Processing
unfolding process_outcome
process_all [] s = s
process_all ((c, outcome) ∷ runs) s = process_all runs (process_outcome c outcome s).1

process_all-AtMostOnce :
    (f : ActionField) (runs : List (Collaborators × WebhookParseOutcome)) (s : Processing)
    → AtMostOnce f s
    → AtMostOnce f (process_all runs s)
unfolding process_all
process_all-AtMostOnce f [] s h = h
process_all-AtMostOnce f ((c, outcome) ∷ runs) s h =
    process_all-AtMostOnce f runs (process_outcome c outcome s).1
      (process_outcome-AtMostOnce c f outcome s h)

-- Over any runs for one message that follow each other, from a state without events, and whatever the
-- collaborators of each run answer, the provider may have accepted each external action (the text,
-- the upload, the document) at most once, and once more for each time that the message's record has
-- expired in the store.
pub accepted_calls-at_most_once :
    (f : ActionField) (runs : List (Collaborators × WebhookParseOutcome)) (s : Processing)
    → s.trace ≡ []
    → accepted_calls f (process_all runs s).trace ≤ 1 + (process_all runs s).key.expirations
accepted_calls-at_most_once f runs s empty = omega (
  arith,
  process_all-AtMostOnce f runs s (rw empty (accepted_calls-none f s.key)),
  bit-le (has_begun f (process_all runs s).key.cell),
)

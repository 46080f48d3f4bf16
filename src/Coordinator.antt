-- ===== src/Coordinator.antt =====
-- app/services/whatsapp_processing_coordinator.py: one inbound message is advanced through the
-- checkpoints of its processing record.
-- What other programs answer depends on the number of the call, so that a repeated call may be
-- answered otherwise. A call of the store happens at the server's time of that call. The heartbeat
-- that renews the claim during a slow call is the list of the times at which it renews.
pub mod Actions
pub mod Process
pub mod BegunRecord
pub mod Begun
pub mod Calls
pub mod Perform
pub mod Deliveries
pub mod AtMostOnce
pub mod Inbox
use global_detergent_sales_a.Prelude.{
  ℕ, ◌+◌, ◌++◌, Text, strip, is_blank, is_empty, codes, Bool, true, false, not, ◌&&◌, ◌||◌, Option,
  none, some, List, [], ◌∷◌, if◌then◌else◌, option_text_eq,
}
use global_detergent_sales_a.Errors.{Error}
use global_detergent_sales_a.Exec.{Result, ok, err, Done, Exec, pure, raise, ◌>>=◌, ◌>>◌}
use global_detergent_sales_a.Schemas.Whatsapp.{
  WebhookOutcomeKind, WebhookParseOutcome, IncomingMessage, is_message_kind,
}
use global_detergent_sales_a.Dedup.{
  ProcessingStage, ClaimDecision, SafeReplayMetadata, MessageProcessingRecord, MessageClaim,
  is_stage, has_uncertain_external_action, owns_processing,
}
use global_detergent_sales_a.Dedup.Validation.{is_valid_replay}
use global_detergent_sales_a.Dedup.Scripts.{Cell}
use global_detergent_sales_a.Dedup.Expiry.{Key, on_key}
use global_detergent_sales_a.Dedup.Operations.{ActionField, Operation}
use global_detergent_sales_a.Dedup.Methods.{DedupSettings, run_claim, run_renewal, run_operation}

-- `UNSUPPORTED_MEDIA_RESPONSE`
abbrev pub unsupported_media_response : Text
unsupported_media_response =
    codes "At the moment I can assist through text messages. Please send your request as text."

-- `ProcessingDisposition`
pub data ProcessingDisposition : Type 0 where
  completed completed_duplicate : ProcessingDisposition

-- How a call of the transport ends: it returns; it raises the transport's own error, with its
-- ambiguity and the parts that were delivered; it raises an error of validation or storage; it
-- raises anything else.
pub data Answer {ℓ} (A : Type ℓ) : Type ℓ where
  accepted : A → Answer A
  failed : Bool → List Text → Answer A
  rejected : Answer A
  broken : Error → Answer A

-- What `process_message` returns that the transport uses: the text, the ID and the path of a
-- generated quotation, the fingerprint and the turn of a prepared preview.
pub record ConversationReply : Type 0 where
  pub response_text : Text
  pub generated_quote : Option (Text × Text)
  pub prepared_preview : Option (Text × Text)

-- `DocumentUploadResult`
pub record DocumentUploadResult : Type 0 where
  pub media_id : Text
  pub filename : Text

-- The collaborators. `path_name` is `Path(...).name`, and `is_printable` is `str.isprintable`.
pub record Collaborators : Type 0 where
  pub settings : DedupSettings
  pub is_printable : Text → Bool
  pub path_name : Text → Text
  pub owner_token_factory : Text
  pub clock : ℕ → ℕ
  pub renewals : ℕ → List ℕ
  pub process_message : ℕ → Text → Text → Result ConversationReply
  pub acknowledge_successful_delivery : ℕ → Text → Text → Text → Result Done
  pub send_text : ℕ → Text → Text → Answer (Option Text)
  pub upload_document : ℕ → Text → Answer DocumentUploadResult
  pub send_document : ℕ → Text → Text → Text → Answer Text

-- A call of the transport, with its arguments, and whether the provider may have accepted it; a run
-- of the agent; an acknowledgement of a preview.
pub data Event : Type 0 where
  called : ActionField → List Text → Bool → Event
  agent_run : Text → Text → Event
  acknowledged : Text → Text → Event

-- The key of the message in the store, the number of calls made, and the events so far
pub record Processing : Type 0 where
  pub key : Key
  pub calls : ℕ
  pub trace : List Event

-- `not error.outcome_uncertain and not error.delivered_parts`; the errors of documents have no parts.
abbrev pub is_definite : ActionField → Bool → List Text → Bool
is_definite ActionField.text_delivery uncertain parts = not uncertain && is_empty parts
is_definite ActionField.document_upload uncertain parts = not uncertain
is_definite ActionField.document_delivery uncertain parts = not uncertain

-- The provider may have accepted the call.
abbrev pub may_be_accepted {ℓ} : {A : Type ℓ} → ActionField → Answer A → Bool
may_be_accepted f (accepted a) = true
may_be_accepted f (failed uncertain parts) = not (is_definite f uncertain parts)
may_be_accepted f rejected = false
may_be_accepted f (broken e) = true

-- `{...}` around the fields that `_create_replay` reads of a reply
abbrev pub first_of : Option (Text × Text) → Option Text
first_of none = none
first_of (some (a, b)) = some (strip a)

abbrev pub second_of : Option (Text × Text) → Option Text
second_of none = none
second_of (some (a, b)) = some (strip b)

-- `SafeReplayMetadata(...)`: its validators strip the IDs, the name and the binding.
unfoldable pub new_replay : (Text → Text) → ConversationReply → Result SafeReplayMetadata
unfolding is_valid_replay
new_replay path_name reply =
    let m : SafeReplayMetadata = record {
      response_text = reply.response_text;
      generated_quotation_id = first_of reply.generated_quote;
      document_filename = elim reply.generated_quote [
        | none ↦ none
        | some (id, path) ↦ some (strip (path_name path))
      ];
      preview_fingerprint = first_of reply.prepared_preview;
      preview_originating_turn_id = second_of reply.prepared_preview;
    } in
    if is_valid_replay m then ok m else err Error.validation_error

-- `_new_owner_token`
unfoldable pub new_owner_token : Text → Result Text
new_owner_token token = if is_blank token then err Error.value_error else ok (strip token)

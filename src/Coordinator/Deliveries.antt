-- ===== src/Coordinator/Deliveries.antt =====
-- Lemmas on the external actions of app/services/whatsapp_processing_coordinator.py: how often a
-- provider may have accepted one, over each delivery.
use mathlib.Core.Path.{subst}
use global_detergent_sales_a.Prelude.{
  ℕ, Text, ◌≡◌, refl, inl, inr, true, not, Option, some, none, List, [], ◌∷◌, arith, Bool-cases,
  Option-cases, text_eq,
}
use global_detergent_sales_a.Errors.{Error}
use global_detergent_sales_a.Exec.{Result, Done, reads, ◌>>=◌, ◌>>◌, raise_if}
use global_detergent_sales_a.Schemas.Whatsapp.{WebhookOutcomeKind, IncomingMessage}
use global_detergent_sales_a.Dedup.{SafeReplayMetadata}
use global_detergent_sales_a.Dedup.Operations.{ActionField, Operation}
use global_detergent_sales_a.Coordinator.{
  Answer, Collaborators, Event, Processing, DocumentUploadResult, ConversationReply, new_replay,
}
use global_detergent_sales_a.Coordinator.Actions.{request, operate, under_heartbeat, perform}
use global_detergent_sales_a.Coordinator.Process.{
  acknowledge, deliver_text, upload_document, upload_named, deliver_named, create_replay, retryable,
  ask_agent,
}
use global_detergent_sales_a.Coordinator.BegunRecord.{same_field}
use global_detergent_sales_a.Coordinator.Calls.{Keeps, Keeps-bind, Keeps-request}
use global_detergent_sales_a.Coordinator.Perform.{
  Keeps-operate, Keeps-under_heartbeat, Keeps-perform_other, Keeps-perform_self,
}

same_field_eq : (f g : ActionField) → same_field f g ≡ true → f ≡ g
same_field_eq ActionField.text_delivery ActionField.text_delivery h = refl
same_field_eq ActionField.document_upload ActionField.document_upload h = refl
same_field_eq ActionField.document_delivery ActionField.document_delivery h = refl
same_field_eq f g h = absurd (ground arith)

module _ (c : Collaborators) (f : ActionField) (message_id owner : Text) where
  Keeps-perform {ℓ} :
      {A : Type ℓ} (g : ActionField) (arguments : List Text) (ask : ℕ → Answer A)
      → Keeps f (perform c message_id owner g arguments ask)
  Keeps-perform g arguments ask = elim (Bool-cases (same_field f g)) [
    | inl same ↦
        subst (λ h. Keeps f (perform c message_id owner h arguments ask)) (same_field_eq f g same)
          (Keeps-perform_self c f message_id owner arguments ask)
    | inr other ↦ Keeps-perform_other c f message_id owner g arguments ask other
  ]

  Keeps-acknowledge :
      (sender : Text) (fingerprint turn_id : Option Text)
      → Keeps f (acknowledge c message_id owner sender fingerprint turn_id)
  unfolding acknowledge
  Keeps-acknowledge sender none turn_id s h = h
  Keeps-acknowledge sender (some fingerprint) none s h = h
  Keeps-acknowledge sender (some fingerprint) (some turn_id) s h =
      let ask = λ (n : ℕ). c.acknowledge_successful_delivery n sender fingerprint turn_id in
      let event = λ (a : Result Done). Event.acknowledged fingerprint turn_id in
      Keeps-bind f (under_heartbeat c message_id owner (request c ask event))
        (λ answer. reads (λ s. retryable c message_id owner answer))
        (Keeps-under_heartbeat c f message_id owner (request c ask event)
          (Keeps-request c f ask event (λ a. refl)))
        (λ a s h. h) s h

  pub Keeps-deliver_text :
      (sender : Text) (replay : SafeReplayMetadata)
      → Keeps f (deliver_text c message_id owner sender replay)
  unfolding deliver_text
  Keeps-deliver_text sender replay =
      let acknowledged =
        acknowledge c message_id owner sender replay.preview_fingerprint
          replay.preview_originating_turn_id in
      let mark = λ (id : Option Text). operate c message_id owner (Operation.mark_text_sent id) in
      Keeps-bind f
        (perform c message_id owner ActionField.text_delivery (sender ∷ replay.response_text ∷ [])
          (λ n. c.send_text n sender replay.response_text))
        (λ id. acknowledged >> mark id)
        (Keeps-perform ActionField.text_delivery (sender ∷ replay.response_text ∷ [])
          (λ n. c.send_text n sender replay.response_text))
        (λ id.
          Keeps-bind f acknowledged (λ _. mark id)
            (Keeps-acknowledge sender replay.preview_fingerprint replay.preview_originating_turn_id)
            (λ _. Keeps-operate c f message_id owner (Operation.mark_text_sent id) refl))

  pub Keeps-upload_document :
      (replay : SafeReplayMetadata) → Keeps f (upload_document c message_id owner replay)
  unfolding upload_document upload_named
  Keeps-upload_document replay s h = elim (Option-cases replay.document_filename) [
    | inl missing ↦ rw missing h
    | inr (filename, found) ↦
        let mark = λ (u : DocumentUploadResult).
          operate c message_id owner (Operation.mark_document_uploaded u.media_id) in
        let checked = λ (u : DocumentUploadResult).
          raise_if {S = Processing} (not (text_eq u.filename filename))
            Error.processing_retryable in
        rw found (
          Keeps-bind f
            (perform c message_id owner ActionField.document_upload (filename ∷ [])
              (λ n. c.upload_document n filename))
            (λ u. checked u >> mark u)
            (Keeps-perform ActionField.document_upload (filename ∷ [])
              (λ n. c.upload_document n filename))
            (λ u.
              Keeps-bind f (checked u) (λ _. mark u) (λ s h. h)
                (λ _.
                  Keeps-operate c f message_id owner (Operation.mark_document_uploaded u.media_id)
                    refl))
            s h)
  ]

  pub Keeps-deliver_named :
      (sender : Text) (filename media_id : Option Text)
      → Keeps f (deliver_named c message_id owner sender filename media_id)
  unfolding deliver_named
  Keeps-deliver_named sender none media_id s h = h
  Keeps-deliver_named sender (some filename) none s h = h
  Keeps-deliver_named sender (some filename) (some media_id) s h =
      Keeps-bind f
        (perform c message_id owner ActionField.document_delivery
          (sender ∷ media_id ∷ filename ∷ []) (λ n. c.send_document n sender media_id filename))
        (λ id. operate c message_id owner (Operation.mark_document_sent (some id)))
        (Keeps-perform ActionField.document_delivery (sender ∷ media_id ∷ filename ∷ [])
          (λ n. c.send_document n sender media_id filename))
        (λ id. Keeps-operate c f message_id owner (Operation.mark_document_sent (some id)) refl) s h

  Keeps-ask_agent :
      (sender : Text) (text : Option Text) → Keeps f (ask_agent c message_id owner sender text)
  Keeps-ask_agent sender none s h = h
  Keeps-ask_agent sender (some text) s h =
      let event = λ (a : Result ConversationReply). Event.agent_run sender text in
      Keeps-bind f (request c (λ n. c.process_message n sender text) event)
        (λ answer. reads (λ s. answer) >>= λ reply. reads (λ s. new_replay c.path_name reply))
        (Keeps-request c f (λ n. c.process_message n sender text) event (λ a. refl))
        (λ answer.
          Keeps-bind f (reads (λ s. answer)) (λ reply. reads (λ s. new_replay c.path_name reply))
            (λ s h. h) (λ reply s h. h))
        s h

  pub Keeps-create_replay :
      (kind : WebhookOutcomeKind) (m : IncomingMessage)
      → Keeps f (create_replay c message_id owner kind m)
  unfolding create_replay
  Keeps-create_replay WebhookOutcomeKind.text_message m s h =
      Keeps-ask_agent m.sender_phone m.text s h
  Keeps-create_replay WebhookOutcomeKind.unsupported_message m s h = h
  Keeps-create_replay WebhookOutcomeKind.ignored m s h = h
  Keeps-create_replay WebhookOutcomeKind.invalid m s h = h

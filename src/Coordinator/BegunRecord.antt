-- ===== src/Coordinator/BegunRecord.antt =====
-- Lemmas on when an external action of a processing record has begun, over the transitions and the
-- scripts of app/services/message_deduplication_service.py.
use global_detergent_sales_a.Prelude.{
  ℕ, Text, ◌≡◌, refl, Bool, true, false, not, some, none, arith, ap, ◌==◌,
}
use global_detergent_sales_a.Exec.{ok}
use global_detergent_sales_a.Dedup.{ExternalActionState, MessageProcessingRecord, is_action}
use global_detergent_sales_a.Dedup.Validation.{validated}
use global_detergent_sales_a.Dedup.Scripts.{Cell, stamped, taken_over}
use global_detergent_sales_a.Dedup.Operations.{
  ActionField, Operation, action_of, transition, completion,
}
use global_detergent_sales_a.Dedup.Methods.{DedupSettings, claim_message, renew_claim, mutate_owned}
use global_detergent_sales_a.Dedup.Writes.{
  Renewal, Mutation, renew_claim-outcome, mutate_owned-outcome,
}
use global_detergent_sales_a.Dedup.Claims.{ClaimWrite, claim_message-write}

abbrev begun_record : ActionField → MessageProcessingRecord → Bool
begun_record f r = not (is_action (action_of f r) ExternalActionState.not_started)

-- The stored record says that the action has begun.
abbrev pub has_begun : ActionField → Cell → Bool
has_begun f none = false
has_begun f (some r) = begun_record f r

abbrev field_rank : ActionField → ℕ
field_rank ActionField.text_delivery = 0
field_rank ActionField.document_upload = 1
field_rank ActionField.document_delivery = 2

abbrev pub same_field : ActionField → ActionField → Bool
same_field f g = field_rank f == field_rank g

-- The operation takes the beginning of the action back.
abbrev pub resets : ActionField → Operation → Bool
resets f (Operation.save_result m) = false
resets f (Operation.begin_action g) = false
resets f (Operation.not_accepted g) = same_field f g
resets f (Operation.mark_text_sent i) = false
resets f (Operation.mark_document_sent i) = false
resets f (Operation.mark_document_uploaded i) = false
resets f Operation.mark_message_processed = false

transition-begun :
    (f : ActionField) (op : Operation) (r q : MessageProcessingRecord)
    → resets f op ≡ false
    → transition op r ≡ ok q
    → begun_record f r ≡ true
    → begun_record f q ≡ true
unfolding transition validated completion
transition-begun ActionField.text_delivery (Operation.begin_action ActionField.text_delivery) r q k
      h b =
    ground arith
transition-begun ActionField.text_delivery (Operation.not_accepted ActionField.text_delivery) r q k
      h b =
    ground arith
transition-begun f op r q k h b = ground arith

-- A transition that begins an action finds it not begun, and leaves it begun.
begin-begun :
    (f : ActionField) (r q : MessageProcessingRecord)
    → transition (Operation.begin_action f) r ≡ ok q
    → (begun_record f r ≡ false) × (begun_record f q ≡ true)
unfolding transition validated
begin-begun ActionField.text_delivery r q h = (ground arith, ground arith)
begin-begun ActionField.document_upload r q h = (ground arith, ground arith)
begin-begun ActionField.document_delivery r q h = (ground arith, ground arith)

stamped-begun :
    (f : ActionField) (owner : Text) (lease_ms now_ms : ℕ) (current q : MessageProcessingRecord)
    → begun_record f (stamped owner lease_ms now_ms current q) ≡ begun_record f q
unfolding stamped
stamped-begun ActionField.text_delivery owner lease_ms now_ms current q = ground arith
stamped-begun ActionField.document_upload owner lease_ms now_ms current q = ground arith
stamped-begun ActionField.document_delivery owner lease_ms now_ms current q = ground arith

taken_over-begun :
    (f : ActionField) (owner : Text) (lease_ms now_ms : ℕ) (r : MessageProcessingRecord)
    → begun_record f (taken_over owner lease_ms now_ms r) ≡ begun_record f r
unfolding taken_over
taken_over-begun ActionField.text_delivery owner lease_ms now_ms r = refl
taken_over-begun ActionField.document_upload owner lease_ms now_ms r = refl
taken_over-begun ActionField.document_delivery owner lease_ms now_ms r = refl

module _ (settings : DedupSettings) (message_id owner : Text) (now_ms : ℕ) (f : ActionField) where
  pub claim_message-begun :
      (cell : Cell)
      → has_begun f cell ≡ true
      → has_begun f (claim_message settings message_id owner now_ms cell).1 ≡ true
  claim_message-begun cell b = elim (claim_message-write settings message_id owner now_ms cell) [
    | ClaimWrite.unchanged e ↦ rw e b
    | ClaimWrite.created e _ ↦ absurd (cc (ap (has_begun f) e, b))
    | ClaimWrite.taken r at e ↦
        rw (e, taken_over-begun f owner settings.lease_ms now_ms r) (rw at at b)
  ]

  pub renew_claim-begun :
      (cell : Cell)
      → has_begun f cell ≡ true
      → has_begun f (renew_claim settings message_id owner now_ms cell).1 ≡ true
  renew_claim-begun cell b = elim (renew_claim-outcome settings message_id owner now_ms cell) [
    | Renewal.refused e _ ↦ rw e b
    | Renewal.renewed held e ↦
        rw (ap (λ p. p.1) e, taken_over-begun f owner settings.lease_ms now_ms held.current)
          (rw held.at at b)
  ]

  -- An operation that does not take the beginning back leaves a begun action begun.
  pub mutate_owned-begun :
      (op : Operation) (cell : Cell)
      → resets f op ≡ false
      → has_begun f cell ≡ true
      → has_begun f (mutate_owned settings message_id owner op cell now_ms cell).1 ≡ true
  mutate_owned-begun op cell k b =
      elim (mutate_owned-outcome settings message_id owner now_ms op cell cell) [
        | Mutation.refused e _ ↦ rw e b
        | Mutation.stored held read q at valid same step e ↦
            rw (ap (λ p. p.1) e, stamped-begun f owner settings.lease_ms now_ms held.current q)
              (transition-begun f op read q k step (rw at at b))
      ]

  -- A beginning that succeeds found the action not begun, and left it begun.
  pub mutate_owned-begins :
      (cell : Cell) {q : MessageProcessingRecord}
      → (mutate_owned settings message_id owner (Operation.begin_action f) cell now_ms cell).0
        ≡ ok q
      → (has_begun f cell ≡ false)
        × (has_begun f
              (mutate_owned settings message_id owner (Operation.begin_action f) cell now_ms cell).1
            ≡ true)
  mutate_owned-begins cell {q} h =
      elim (mutate_owned-outcome settings message_id owner now_ms (Operation.begin_action f) cell
        cell) [
          | Mutation.refused _ none_done ↦ absurd (none_done q h)
          | Mutation.stored held read p at valid same step e ↦
              let (before, after) = begin-begun f read p step in
              (
                rw at before,
                rw (ap (λ x. x.1) e, stamped-begun f owner settings.lease_ms now_ms held.current p)
                    after,
              )
        ]

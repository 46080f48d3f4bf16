-- ===== src/Coordinator/Begun.antt =====
-- Lemmas on when an external action of a processing record has begun, over the store's operations
-- that app/services/whatsapp_processing_coordinator.py calls.
use global_detergent_sales_a.Prelude.{ℕ, Text, ◌≡◌, inl, inr, Bool, true, false, arith, ◌∙◌}
use global_detergent_sales_a.Exec.{ok, Result-cases}
use global_detergent_sales_a.Dedup.{MessageProcessingRecord}
use global_detergent_sales_a.Dedup.Scripts.{Cell}
use global_detergent_sales_a.Dedup.Operations.{
  ActionField, Operation, validate_arguments, optional_identifier, validate_identifier,
}
use global_detergent_sales_a.Dedup.Methods.{
  DedupSettings, run_claim, run_renewal, run_operation, validate_identity_pair,
}
use global_detergent_sales_a.Coordinator.BegunRecord.{
  has_begun, resets, claim_message-begun, renew_claim-begun, mutate_owned-begun,
  mutate_owned-begins,
}

-- The methods with their checks: a check that fails leaves the record, and one that passes keeps
-- what the operation resets.
module _ (is_printable : Text → Bool) where
  validate_arguments-resets :
      (f : ActionField) (op op' : Operation)
      → validate_arguments is_printable op ≡ ok op'
      → resets f op' ≡ resets f op
  unfolding validate_arguments
  validate_arguments-resets f (Operation.save_result m) op' h = ground arith
  validate_arguments-resets f (Operation.begin_action g) op' h = ground arith
  validate_arguments-resets f (Operation.not_accepted g) op' h = ground (arith, h)
  validate_arguments-resets f (Operation.mark_text_sent i) op' h =
      elim (Result-cases (optional_identifier is_printable i)) [
        | inl (j, e) ↦ ground (arith, e)
        | inr (x, e) ↦ absurd (ground (arith, e))
      ]
  validate_arguments-resets f (Operation.mark_document_sent i) op' h =
      elim (Result-cases (optional_identifier is_printable i)) [
        | inl (j, e) ↦ ground (arith, e)
        | inr (x, e) ↦ absurd (ground (arith, e))
      ]
  validate_arguments-resets f (Operation.mark_document_uploaded i) op' h =
      elim (Result-cases (validate_identifier is_printable 512 i)) [
        | inl (j, e) ↦ ground (arith, e)
        | inr (x, e) ↦ absurd (ground (arith, e))
      ]
  validate_arguments-resets f Operation.mark_message_processed op' h = ground arith

  module _ (settings : DedupSettings) (message_id owner : Text) (now_ms : ℕ) (f : ActionField) where
    pub run_claim-begun :
        (cell : Cell)
        → has_begun f cell ≡ true
        → has_begun f (run_claim is_printable settings message_id owner now_ms cell).1 ≡ true
    unfolding run_claim
    run_claim-begun cell b =
        elim (Result-cases (validate_identity_pair is_printable settings message_id owner)) [
          | inr (x, e) ↦ rw e b
          | inl ((id, w), e) ↦ rw e (claim_message-begun settings id w now_ms f cell b)
        ]

    pub run_renewal-begun :
        (cell : Cell)
        → has_begun f cell ≡ true
        → has_begun f (run_renewal is_printable settings message_id owner now_ms cell).1 ≡ true
    unfolding run_renewal
    run_renewal-begun cell b =
        elim (Result-cases (validate_identity_pair is_printable settings message_id owner)) [
          | inr (x, e) ↦ rw e b
          | inl ((id, w), e) ↦ rw e (renew_claim-begun settings id w now_ms f cell b)
        ]

    pub run_operation-begun :
        (op : Operation) (cell : Cell)
        → resets f op ≡ false
        → has_begun f cell ≡ true
        → has_begun f (run_operation is_printable settings op message_id owner cell now_ms cell).1
          ≡ true
    unfolding run_operation
    run_operation-begun op cell k b = elim (Result-cases (validate_arguments is_printable op)) [
      | inr (x, e) ↦ rw e b
      | inl (op', e) ↦
          elim (Result-cases (validate_identity_pair is_printable settings message_id owner)) [
            | inr (x, e') ↦ rw (e, e') b
            | inl ((id, w), e') ↦
                rw (e, e')
                  (mutate_owned-begun settings id w now_ms f op' cell
                    (validate_arguments-resets f op op' e ∙ k) b)
          ]
    ]

    pub run_operation-begins :
        (cell : Cell) {q : MessageProcessingRecord}
        → (run_operation is_printable settings
            (Operation.begin_action f)
            message_id
            owner
            cell
            now_ms
            cell).0
          ≡ ok q
        → (has_begun f cell ≡ false)
          × (has_begun f
                (run_operation is_printable settings
                  (Operation.begin_action f)
                  message_id
                  owner
                  cell
                  now_ms
                  cell).1
              ≡ true)
    unfolding run_operation validate_arguments
    run_operation-begins cell h =
        elim (Result-cases (validate_identity_pair is_printable settings message_id owner)) [
          | inr (x, e) ↦ absurd (ground (arith, e))
          | inl ((id, w), e) ↦ rw e (mutate_owned-begins settings id w now_ms f cell (rw e at h))
        ]

-- ===== src/Dedup/Transitions.antt =====
-- Lemmas on the transitions of app/services/message_deduplication_service.py: the order of stages,
-- the saved result, and the external actions.
use global_detergent_sales_a.Prelude.{
  ◌≤◌, ◌≡◌, true, false, Option, some, none, arith, Bool-cases, is_some, inl, inr, ◌⊎◌, sym, ◌∙◌,
  refl,
}
use global_detergent_sales_a.Errors.{Error}
use global_detergent_sales_a.Exec.{ok, err}
use global_detergent_sales_a.Dedup.{
  ProcessingStage, SafeReplayMetadata, MessageProcessingRecord, stage_rank, is_stage,
  should_run_agent, should_resume_delivery, has_uncertain_external_action, ClaimDecision,
}
use global_detergent_sales_a.Dedup.Validation.{is_valid_record, validated, replay_fits}
use global_detergent_sales_a.Dedup.Operations.{ActionField, Operation, transition, completion}

-- The second record continues the first: its stage is not earlier, it is of the same message,
-- and a result that is there is kept.
pub record Continues (r q : MessageProcessingRecord) : Type 0 where
  pub forward : stage_rank r.stage ≤ stage_rank q.stage
  pub identity : q.message_id ≡ r.message_id
  pub kept : (r.replay ≡ none) ⊎ (q.replay ≡ r.replay)

pub Continues-refl : (r : MessageProcessingRecord) → Continues r r
Continues-refl r = record { forward = ground arith; identity = refl; kept = inr refl }

kept_trans :
    {p q r : Option SafeReplayMetadata}
    → (p ≡ none) ⊎ (q ≡ p)
    → (q ≡ none) ⊎ (r ≡ q)
    → (p ≡ none) ⊎ (r ≡ p)
kept_trans (inl empty) b = inl empty
kept_trans (inr same) (inl empty) = inl (sym same ∙ empty)
kept_trans (inr same) (inr next) = inr (next ∙ same)

pub Continues-trans :
    {p q r : MessageProcessingRecord} → Continues p q → Continues q r → Continues p r
Continues-trans a b = record {
  forward = ground (arith, a.forward, b.forward);
  identity = b.identity ∙ a.identity;
  kept = kept_trans a.kept b.kept;
}

-- The record moves on or stays, and its result stays.
continues :
    {r q : MessageProcessingRecord}
    → stage_rank r.stage ≤ stage_rank q.stage
    → r.message_id ≡ q.message_id
    → r.replay ≡ q.replay
    → Continues r q
continues rank id same = record { forward = rank; identity = sym id; kept = inr (sym same) }

-- A record of the first stage that is valid has no result yet.
no_result :
    (r : MessageProcessingRecord)
    → is_valid_record r ≡ true
    → is_stage r.stage ProcessingStage.claimed ≡ true
    → r.replay ≡ none
unfolding is_valid_record replay_fits
no_result r valid first = ground arith

completion-Continues :
    (replay : Option SafeReplayMetadata) (r q : MessageProcessingRecord)
    → completion replay r ≡ ok q
    → Continues r q
unfolding completion validated
completion-Continues none r q h = absurd (ground arith)
completion-Continues (some m) r q h =
    continues
      (elim (Bool-cases (is_some m.generated_quotation_id)) [
        | inl there ↦ ground arith
        | inr missing ↦ ground arith
      ])
      (ground arith) (ground arith)

-- A transition from a valid record that succeeds gives a record that continues it.
pub transition-Continues :
    (op : Operation) (r q : MessageProcessingRecord)
    → is_valid_record r ≡ true
    → transition op r ≡ ok q
    → Continues r q
unfolding transition validated
transition-Continues (Operation.save_result m) r q valid h = record {
  forward = ground arith;
  identity = ground arith;
  kept = inl (no_result r valid (ground arith));
}
transition-Continues (Operation.begin_action ActionField.text_delivery) r q valid h =
    continues (ground arith) (ground arith) (ground arith)
transition-Continues (Operation.begin_action ActionField.document_upload) r q valid h =
    continues (ground arith) (ground arith) (ground arith)
transition-Continues (Operation.begin_action ActionField.document_delivery) r q valid h =
    continues (ground arith) (ground arith) (ground arith)
transition-Continues (Operation.not_accepted ActionField.text_delivery) r q valid h =
    continues (ground arith) (ground arith) (ground arith)
transition-Continues (Operation.not_accepted ActionField.document_upload) r q valid h =
    continues (ground arith) (ground arith) (ground arith)
transition-Continues (Operation.not_accepted ActionField.document_delivery) r q valid h =
    continues (ground arith) (ground arith) (ground arith)
transition-Continues (Operation.mark_text_sent i) r q valid h =
    continues (ground arith) (ground arith) (ground arith)
transition-Continues (Operation.mark_document_uploaded i) r q valid h =
    continues (ground arith) (ground arith) (ground arith)
transition-Continues (Operation.mark_document_sent i) r q valid h =
    continues (ground arith) (ground arith) (ground arith)
transition-Continues Operation.mark_message_processed r q valid h =
    completion-Continues r.replay r q h

-- After an external action has begun, an attempt to begin it again on that record fails, and no
-- claim of the record permits a run of the agent or a resumed delivery.
pub begin_action-once :
    (f : ActionField) (r q : MessageProcessingRecord) (decision : ClaimDecision)
    → transition (Operation.begin_action f) r ≡ ok q
    → (transition (Operation.begin_action f) q ≡ err Error.message_stage)
      × (should_run_agent (record { decision = decision; claimed_record = q }) ≡ false)
      × (should_resume_delivery (record { decision = decision; claimed_record = q }) ≡ false)
unfolding transition validated should_run_agent should_resume_delivery has_uncertain_external_action
begin_action-once ActionField.text_delivery r q decision h =
    (ground arith, ground arith, ground arith)
begin_action-once ActionField.document_upload r q decision h =
    (ground arith, ground arith, ground arith)
begin_action-once ActionField.document_delivery r q decision h =
    (ground arith, ground arith, ground arith)

-- ===== src/Dedup/Completion.antt =====
-- Lemmas on complete records of app/services/message_deduplication_service.py.
use global_detergent_sales_a.Prelude.{Text, ℕ, ◌≡◌, ◌≢◌, some, arith}
use global_detergent_sales_a.Exec.{ok}
use global_detergent_sales_a.Dedup.{ProcessingStage, MessageProcessingRecord}
use global_detergent_sales_a.Dedup.Scripts.{Cell, claim_script}
use global_detergent_sales_a.Dedup.Operations.{Operation}
use global_detergent_sales_a.Dedup.Methods.{DedupSettings, claim_message, renew_claim, mutate_owned}
use global_detergent_sales_a.Dedup.Refusals.{IsHeld}
use global_detergent_sales_a.Dedup.Writes.{
  Renewal, Mutation, renew_claim-outcome, mutate_owned-outcome,
}

-- The record that a worker holds is not complete.
held_incomplete :
    (owner : Text) (now_ms : ℕ) (r : MessageProcessingRecord)
    → r.stage ≡ ProcessingStage.complete
    → ¬ IsHeld owner now_ms (some r)
held_incomplete owner now_ms r done held = held.incomplete (ground (arith, held.at))

-- A complete record is final: no claim, no renewal and no operation of any worker, on whatever
-- record it has read, changes it, and every renewal and every operation fails.
pub complete_final :
    (settings : DedupSettings) (message_id owner : Text) (now_ms : ℕ) (op : Operation) (seen : Cell)
    (r : MessageProcessingRecord)
    → r.stage ≡ ProcessingStage.complete
    → ((claim_message settings message_id owner now_ms (some r)).1 ≡ some r)
      × ((renew_claim settings message_id owner now_ms (some r)).1 ≡ some r)
      × ((mutate_owned settings message_id owner op seen now_ms (some r)).1 ≡ some r)
      × ((q : MessageProcessingRecord)
          → (renew_claim settings message_id owner now_ms (some r)).0 ≢ ok q)
      × ((q : MessageProcessingRecord)
          → (mutate_owned settings message_id owner op seen now_ms (some r)).0 ≢ ok q)
unfolding claim_message claim_script
complete_final settings message_id owner now_ms op seen r done =
    elim (renew_claim-outcome settings message_id owner now_ms (some r)) [
      | Renewal.renewed held _ ↦ absurd (held_incomplete owner now_ms r done held)
      | Renewal.refused same none_done ↦
          elim (mutate_owned-outcome settings message_id owner now_ms op seen (some r)) [
            | Mutation.stored held _ _ _ _ _ _ _ ↦ absurd (held_incomplete owner now_ms r done held)
            | Mutation.refused same' none_done' ↦ (ground arith, same, same', none_done, none_done')
          ]
    ]

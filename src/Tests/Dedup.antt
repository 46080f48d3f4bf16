-- ===== src/Tests/Dedup.antt =====
-- The processing record of a message on concrete data.
use global_detergent_sales_a.Dedup.Completion.{complete_final}
use global_detergent_sales_a.Dedup.Refusals.{IsHeld}
use global_detergent_sales_a.Prelude.{
  ℕ, ◌+◌, ◌<◌, codes, ◌≡◌, inl, refl, true, false, none, some, [], ◌∷◌, arith, text_eq,
  option_text_eq, is_blank, strip, ◌≢◌,
}
use global_detergent_sales_a.Errors.{Error}
use global_detergent_sales_a.Exec.{ok, err}
use global_detergent_sales_a.Dedup.{
  ProcessingStage, ExternalActionState, ClaimDecision, MessageProcessingRecord, SafeReplayMetadata,
  owns_processing, should_run_agent, should_resume_delivery,
}
use global_detergent_sales_a.Dedup.Validation.{
  is_valid_record, has_valid_fields, ownership_fits, replay_fits, ids_fit, deliveries_fit,
  validated, deserialize_record, optional_nonblank, optional_positive, optional_replay,
  is_valid_replay, optional_basename,
}
use global_detergent_sales_a.Dedup.Scripts.{
  claim_script, first_claim, lease_expired, stamped, owned_update_script,
}
use global_detergent_sales_a.Dedup.Operations.{ActionField, Operation, transition}
use global_detergent_sales_a.Dedup.Methods.{
  DedupSettings, claim_message, mutate_owned, initial_record, get_record, plan, commit,
  commit_planned, read_status, renew_claim,
}
use global_detergent_sales_a.Dedup.Exclusion.{IsClaimable, claim_message-owns, claim_message-busy}
use global_detergent_sales_a.Dedup.Transitions.{begin_action-once}
use global_detergent_sales_a.Dedup.History.{World, Step, Reach, CellContinues}
use global_detergent_sales_a.Dedup.History.Order.{Reach-continues, mutate_owned-current}

abbrev pub settings : DedupSettings
settings = record { lease_ms = 100; incomplete_ttl_seconds = 86400; completed_ttl_seconds = 604800 }

-- Claimed by the worker "w" at time 1000
abbrev pub claimed_record : MessageProcessingRecord
claimed_record = record (initial_record (codes "m") (codes "w")) {
  lease_expires_at_ms = some 1100;
  revision = 1;
  created_at_ms = 1000;
  updated_at_ms = 1000;
}

-- The agent's result
abbrev pub reply : SafeReplayMetadata
reply = record {
  response_text = codes "hi";
  generated_quotation_id = none;
  document_filename = none;
  preview_fingerprint = none;
  preview_originating_turn_id = none;
}

abbrev pub saved : MessageProcessingRecord
saved = record claimed_record { stage = ProcessingStage.result_saved; replay = some reply }

abbrev saved_at_1050 : MessageProcessingRecord
saved_at_1050 = record saved { lease_expires_at_ms = some 1150; revision = 2; updated_at_ms = 1050 }

claim_at : claim_message settings (codes "m") (codes "w") 1000 none ≡ (
  ok (record { decision = ClaimDecision.acquired; claimed_record = claimed_record }),
  some claimed_record,
)
unfolding claim_message claim_script first_claim deserialize_record is_valid_record has_valid_fields
    ownership_fits replay_fits ids_fit deliveries_fit optional_nonblank optional_positive
    optional_replay is_blank strip text_eq
claim_at = refl

claim_message-owns_example :
    IsClaimable (codes "w") 1000 none
    × (some claimed_record ≡ some claimed_record)
    × (claimed_record.owner_token ≡ some (codes "w"))
    × (claimed_record.lease_expires_at_ms ≡ some (1000 + 100))
claim_message-owns_example =
    claim_message-owns settings (codes "m") (codes "w") 1000 none (some claimed_record) claim_at
      (unfold owns_processing in refl)

pub is_valid_claimed : is_valid_record claimed_record ≡ true
unfolding is_valid_record has_valid_fields ownership_fits replay_fits ids_fit deliveries_fit
    optional_nonblank optional_positive optional_replay is_blank strip
is_valid_claimed = refl

claim_message-busy_example :
    claim_message settings (codes "m") (codes "other") 1050 (some claimed_record) ≡ (
      ok (record { decision = ClaimDecision.busy; claimed_record = claimed_record }),
      some claimed_record,
    )
claim_message-busy_example =
    claim_message-busy settings (codes "m") (codes "other") 1050 claimed_record 1100
      is_valid_claimed refl (λ e. cc) (λ e. cc) refl (omega arith)

begins :
    transition (Operation.begin_action ActionField.text_delivery) saved
    ≡ ok (record saved { text_delivery = ExternalActionState.uncertain })
unfolding transition validated is_valid_record has_valid_fields ownership_fits replay_fits ids_fit
    deliveries_fit optional_nonblank optional_positive optional_replay is_valid_replay
    optional_basename is_blank strip
begins = refl

begin_action-once_example :
    (transition
        (Operation.begin_action ActionField.text_delivery)
        (record saved { text_delivery = ExternalActionState.uncertain })
      ≡ err Error.message_stage)
    × (should_run_agent (record {
      decision = ClaimDecision.acquired;
      claimed_record = record saved { text_delivery = ExternalActionState.uncertain };
    })
        ≡ false)
    × (should_resume_delivery (record {
      decision = ClaimDecision.acquired;
      claimed_record = record saved { text_delivery = ExternalActionState.uncertain };
    })
        ≡ false)
begin_action-once_example =
    begin_action-once ActionField.text_delivery saved
      (record saved { text_delivery = ExternalActionState.uncertain }) ClaimDecision.acquired begins

mutates :
    mutate_owned settings
      (codes "m")
      (codes "w")
      (Operation.save_result reply)
      (some claimed_record)
      1050
      (some claimed_record)
    ≡ (ok saved_at_1050, some saved_at_1050)
unfolding mutate_owned commit_planned commit plan get_record read_status owned_update_script stamped
    lease_expired transition validated deserialize_record is_valid_record has_valid_fields
    ownership_fits replay_fits ids_fit deliveries_fit optional_nonblank optional_positive
    optional_replay is_valid_replay optional_basename is_blank strip text_eq option_text_eq
mutates = refl

abbrev read_once : World
read_once = record {
  now_ms = 1050;
  cell = some claimed_record;
  expires_at_ms = 86401000;
  expirations = 0;
  seen = claimed_record ∷ [];
}

mutate_owned-current_example :
    (read_once.cell ≡ some claimed_record)
    × (claimed_record.owner_token ≡ some (codes "w"))
    × ((t : ℕ) × (claimed_record.lease_expires_at_ms ≡ some t) × (1050 < t))
mutate_owned-current_example =
    mutate_owned-current settings (codes "m") read_once (codes "w") (Operation.save_result reply)
      claimed_record saved_at_1050 (some saved_at_1050) (inl refl, tt) (inl refl) mutates

Reach-continues_example :
    CellContinues
      (some claimed_record)
      (mutate_owned settings
        (codes "m")
        (codes "w")
        (Operation.save_result reply)
        (some claimed_record)
        1050
        (some claimed_record)).1
Reach-continues_example =
    Reach-continues settings (codes "m") {w = read_once} (inl refl, tt)
      (Reach.next Reach.here
        (Step.mutate read_once (codes "w") (Operation.save_result reply) claimed_record (inl refl)))
      refl

pub is_held : IsHeld (codes "w") 1050 (some claimed_record)
is_held = record {
  current = claimed_record;
  at = refl;
  incomplete = λ e. cc;
  owned = refl;
  lease = 1100;
  leased = refl;
  running = omega arith;
}

pub saves : transition (Operation.save_result reply) claimed_record ≡ ok saved
unfolding transition validated is_valid_record has_valid_fields ownership_fits replay_fits ids_fit
    deliveries_fit optional_nonblank optional_positive optional_replay is_valid_replay
    optional_basename is_blank strip
saves = refl

-- A record whose processing is over
abbrev completed : MessageProcessingRecord
completed = record saved {
  stage = ProcessingStage.complete;
  owner_token = none;
  lease_expires_at_ms = none;
  completed_at_ms = some 1050;
  text_delivery = ExternalActionState.succeeded;
}

complete_final_example :
    ((claim_message settings (codes "m") (codes "w") 1060 (some completed)).1 ≡ some completed)
    × ((renew_claim settings (codes "m") (codes "w") 1060 (some completed)).1 ≡ some completed)
    × ((mutate_owned settings
          (codes "m")
          (codes "w")
          (Operation.save_result reply)
          (some saved)
          1060
          (some completed)).1
        ≡ some completed)
    × ((q : MessageProcessingRecord)
        → (renew_claim settings (codes "m") (codes "w") 1060 (some completed)).0 ≢ ok q)
    × ((q : MessageProcessingRecord)
        → (mutate_owned settings
            (codes "m")
            (codes "w")
            (Operation.save_result reply)
            (some saved)
            1060
            (some completed)).0
          ≢ ok q)
complete_final_example =
    complete_final settings (codes "m") (codes "w") 1060 (Operation.save_result reply) (some saved)
      completed refl

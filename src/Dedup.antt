-- ===== src/Dedup.antt =====
-- app/services/message_deduplication_service.py: the processing record of one inbound message, as
-- it is stored in Redis, and the properties that its clients read.
-- A stored record is its JSON text; the model holds the record that the text stands for.
pub mod Validation
pub mod Scripts
pub mod Operations
pub mod Methods
pub mod Expiry
pub mod Transitions
pub mod Exclusion
pub mod Refusals
pub mod Writes
pub mod Progress
pub mod Completion
pub mod Availability
pub mod Identifiers
pub mod Validated
pub mod Claims
pub mod History
use global_detergent_sales_a.Prelude.{ℕ, Text, Bool, true, false, not, ◌&&◌, ◌||◌, Option, ◌==◌}

-- `ProcessingStage`
pub data ProcessingStage : Type 0 where
  claimed result_saved text_sent document_uploaded document_sent complete : ProcessingStage

-- `ExternalActionState`
pub data ExternalActionState : Type 0 where
  not_started uncertain succeeded : ExternalActionState

-- `ClaimDecision`
pub data ClaimDecision : Type 0 where
  acquired resumed busy complete : ClaimDecision

-- The order of the stages in a message's life.
abbrev pub stage_rank : ProcessingStage → ℕ
stage_rank ProcessingStage.claimed = 0
stage_rank ProcessingStage.result_saved = 1
stage_rank ProcessingStage.text_sent = 2
stage_rank ProcessingStage.document_uploaded = 3
stage_rank ProcessingStage.document_sent = 4
stage_rank ProcessingStage.complete = 5

-- `a is b` of two stages
abbrev pub is_stage : ProcessingStage → ProcessingStage → Bool
is_stage a b = stage_rank a == stage_rank b

abbrev action_rank : ExternalActionState → ℕ
action_rank ExternalActionState.not_started = 0
action_rank ExternalActionState.uncertain = 1
action_rank ExternalActionState.succeeded = 2

-- `a is b` of two action states
abbrev pub is_action : ExternalActionState → ExternalActionState → Bool
is_action a b = action_rank a == action_rank b

-- `SafeReplayMetadata`
pub record SafeReplayMetadata : Type 0 where
  pub response_text : Text
  pub generated_quotation_id : Option Text
  pub document_filename : Option Text
  pub preview_fingerprint : Option Text
  pub preview_originating_turn_id : Option Text

-- `MessageProcessingRecord`
pub record MessageProcessingRecord : Type 0 where
  pub message_id : Text
  pub stage : ProcessingStage
  pub owner_token : Option Text
  pub lease_expires_at_ms : Option ℕ
  pub revision : ℕ
  pub created_at_ms : ℕ
  pub updated_at_ms : ℕ
  pub completed_at_ms : Option ℕ
  pub replay : Option SafeReplayMetadata
  pub text_delivery : ExternalActionState
  pub document_upload : ExternalActionState
  pub document_delivery : ExternalActionState
  pub text_outbound_id : Option Text
  pub document_media_id : Option Text
  pub document_outbound_id : Option Text

-- `has_uncertain_external_action`
unfoldable pub has_uncertain_external_action : MessageProcessingRecord → Bool
has_uncertain_external_action r =
    is_action r.text_delivery ExternalActionState.uncertain
    || (is_action r.document_upload ExternalActionState.uncertain
        || is_action r.document_delivery ExternalActionState.uncertain)

-- `MessageClaim`
pub record MessageClaim : Type 0 where
  pub decision : ClaimDecision
  pub claimed_record : MessageProcessingRecord

-- The decisions that give ownership
abbrev pub is_owner : ClaimDecision → Bool
is_owner ClaimDecision.acquired = true
is_owner ClaimDecision.resumed = true
is_owner ClaimDecision.busy = false
is_owner ClaimDecision.complete = false

-- `owns_processing`
unfoldable pub owns_processing : MessageClaim → Bool
owns_processing c = is_owner c.decision

-- `should_run_agent`
unfoldable pub should_run_agent : MessageClaim → Bool
unfolding owns_processing
should_run_agent c = owns_processing c && is_stage c.claimed_record.stage ProcessingStage.claimed

-- `should_resume_delivery`
unfoldable pub should_resume_delivery : MessageClaim → Bool
unfolding owns_processing has_uncertain_external_action
should_resume_delivery c =
    owns_processing c
    && (not (is_stage c.claimed_record.stage ProcessingStage.claimed)
        && (not (is_stage c.claimed_record.stage ProcessingStage.complete)
            && not (has_uncertain_external_action c.claimed_record)))

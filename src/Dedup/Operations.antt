-- ===== src/Dedup/Operations.antt =====
-- The operations of `MessageDeduplicationService` on an owned record: their arguments, and the
-- replacements that they compute.
use global_detergent_sales_a.Prelude.{
  ℕ, Text, strip, is_blank, length, Bool, true, false, not, ◌||◌, Option, none, some, is_some, ltb,
  if◌then◌else◌, ◌&&◌,
}
use global_detergent_sales_a.Errors.{Error}
use global_detergent_sales_a.Exec.{Result, ok, err, bind}
use global_detergent_sales_a.Dedup.{
  ProcessingStage, ExternalActionState, SafeReplayMetadata, MessageProcessingRecord, is_stage,
  is_action,
}
use global_detergent_sales_a.Dedup.Validation.{validated, has_quotation}

-- The external actions, named by the field that holds their state
pub data ActionField : Type 0 where
  text_delivery document_upload document_delivery : ActionField

-- `getattr(record, field_name)`
abbrev pub action_of : ActionField → MessageProcessingRecord → ExternalActionState
action_of ActionField.text_delivery r = r.text_delivery
action_of ActionField.document_upload r = r.document_upload
action_of ActionField.document_delivery r = r.document_delivery

abbrev pub set_action :
    ActionField → ExternalActionState → MessageProcessingRecord → MessageProcessingRecord
set_action ActionField.text_delivery a r = record r { text_delivery = a }
set_action ActionField.document_upload a r = record r { document_upload = a }
set_action ActionField.document_delivery a r = record r { document_delivery = a }

-- The stage in which an action takes place
abbrev pub stage_of : ActionField → ProcessingStage
stage_of ActionField.text_delivery = ProcessingStage.result_saved
stage_of ActionField.document_upload = ProcessingStage.text_sent
stage_of ActionField.document_delivery = ProcessingStage.document_uploaded

abbrev pub requires_quotation : ActionField → Bool
requires_quotation ActionField.text_delivery = false
requires_quotation ActionField.document_upload = true
requires_quotation ActionField.document_delivery = false

-- The operations that change an owned record: `save_result`; `begin_text_send`,
-- `begin_document_upload` and `begin_document_send`; the three that mark an action as not accepted;
-- `mark_text_sent`, `mark_document_uploaded` and `mark_document_sent`; `mark_message_processed`.
pub data Operation : Type 0 where
  save_result : SafeReplayMetadata → Operation
  begin_action not_accepted : ActionField → Operation
  mark_text_sent mark_document_sent : Option Text → Operation
  mark_document_uploaded : Text → Operation
  mark_message_processed : Operation

-- `_require_stage`, `_require_action_state` and the like: the rest follows only if the test holds.
abbrev pub when_allowed : Bool → MessageProcessingRecord → Result MessageProcessingRecord
when_allowed test replacement = if test then validated replacement else err Error.message_stage

-- The transition of `mark_message_processed`, by the replay metadata
unfoldable pub completion :
    Option SafeReplayMetadata → MessageProcessingRecord → Result MessageProcessingRecord
completion none r = err Error.message_stage
completion (some m) r =
    when_allowed
      (is_stage r.stage (
        if is_some m.generated_quotation_id
        then ProcessingStage.document_sent
        else ProcessingStage.text_sent))
      (record r {
        stage = ProcessingStage.complete;
        owner_token = none;
        lease_expires_at_ms = none;
        completed_at_ms = some 1;
      })

-- The transitions: what an operation makes of the record that it read, with `_updated_record`.
unfoldable pub transition : Operation → MessageProcessingRecord → Result MessageProcessingRecord
unfolding completion
transition (Operation.save_result m) r =
    when_allowed (is_stage r.stage ProcessingStage.claimed)
      (record r { stage = ProcessingStage.result_saved; replay = some m })
transition (Operation.begin_action f) r =
    when_allowed
      (is_stage r.stage (stage_of f)
        && (is_action (action_of f r) ExternalActionState.not_started
            && (not (requires_quotation f) || has_quotation r.replay)))
      (set_action f ExternalActionState.uncertain r)
transition (Operation.not_accepted f) r =
    when_allowed
      (is_stage r.stage (stage_of f) && is_action (action_of f r) ExternalActionState.uncertain)
      (set_action f ExternalActionState.not_started r)
transition (Operation.mark_text_sent outbound_id) r =
    when_allowed
      (is_stage r.stage ProcessingStage.result_saved
        && is_action r.text_delivery ExternalActionState.uncertain)
      (record r {
        stage = ProcessingStage.text_sent;
        text_delivery = ExternalActionState.succeeded;
        text_outbound_id = outbound_id;
      })
transition (Operation.mark_document_uploaded media_id) r =
    when_allowed
      (is_stage r.stage ProcessingStage.text_sent
        && is_action r.document_upload ExternalActionState.uncertain)
      (record r {
        stage = ProcessingStage.document_uploaded;
        document_upload = ExternalActionState.succeeded;
        document_media_id = some media_id;
      })
transition (Operation.mark_document_sent outbound_id) r =
    when_allowed
      (is_stage r.stage ProcessingStage.document_uploaded
        && is_action r.document_delivery ExternalActionState.uncertain)
      (record r {
        stage = ProcessingStage.document_sent;
        document_delivery = ExternalActionState.succeeded;
        document_outbound_id = outbound_id;
      })
transition Operation.mark_message_processed r = completion r.replay r

-- `str.isprintable` follows the Unicode tables and is a parameter.
module _ (is_printable : Text → Bool) where
  -- `_validate_identifier`
  unfoldable pub validate_identifier : ℕ → Text → Result Text
  validate_identifier maximum value =
      let normalized = strip value in
      if is_blank value || (ltb maximum (length normalized) || not (is_printable normalized))
      then err Error.value_error
      else ok normalized

  -- `_optional_identifier`
  unfoldable pub optional_identifier : Option Text → Result (Option Text)
  unfolding validate_identifier
  optional_identifier none = ok none
  optional_identifier (some value) = bind (validate_identifier 512 value) λ s. ok (some s)

  -- The arguments of an operation that are identifiers, validated
  unfoldable pub validate_arguments : Operation → Result Operation
  unfolding validate_identifier optional_identifier
  validate_arguments (Operation.mark_text_sent outbound_id) =
      bind (optional_identifier outbound_id) λ i. ok (Operation.mark_text_sent i)
  validate_arguments (Operation.mark_document_uploaded media_id) =
      bind (validate_identifier 512 media_id) λ i. ok (Operation.mark_document_uploaded i)
  validate_arguments (Operation.mark_document_sent outbound_id) =
      bind (optional_identifier outbound_id) λ i. ok (Operation.mark_document_sent i)
  validate_arguments op = ok op

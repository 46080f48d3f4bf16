-- ===== src/Dedup/Validation.antt =====
-- The validators of `MessageProcessingRecord` and `SafeReplayMetadata`, as tests.
use global_detergent_sales_a.Prelude.{
  ℕ, Text, codes, text_eq, is_blank, length, any, Bool, true, false, not, ◌&&◌, ◌||◌, Option, none,
  some, is_none, is_some, leb, ltb, ◌==◌, if◌then◌else◌,
}
use global_detergent_sales_a.Errors.{Error}
use global_detergent_sales_a.Exec.{Result, ok, err}
use global_detergent_sales_a.Dedup.{
  ProcessingStage, ExternalActionState, SafeReplayMetadata, MessageProcessingRecord, is_stage,
  is_action, stage_rank,
}

-- A value of type `NonBlankString | None`
unfoldable pub optional_nonblank : Option Text → Bool
optional_nonblank none = true
optional_nonblank (some s) = not (is_blank s)

-- A value of type `PositiveStrictInt | None`
unfoldable pub optional_positive : Option ℕ → Bool
optional_positive none = true
optional_positive (some n) = ltb 0 n

-- A safe basename: not `.` or `..`, and without a slash or a backslash
unfoldable pub is_safe_basename : Text → Bool
is_safe_basename name =
    not (text_eq name (codes "."))
    && (not (text_eq name (codes "..")) && not (any (λ c. c == 47 || c == 92) name))

unfoldable pub optional_basename : Option Text → Bool
unfolding is_safe_basename
optional_basename none = true
optional_basename (some name) = is_safe_basename name

-- `(a is None) == (b is None)`
abbrev same_presence : Option Text → Option Text → Bool
same_presence none none = true
same_presence none (some _) = false
same_presence (some _) none = false
same_presence (some _) (some _) = true

-- The fields of `SafeReplayMetadata` and `validate_safe_pairs_and_filename`
unfoldable pub is_valid_replay : SafeReplayMetadata → Bool
unfolding optional_nonblank optional_basename
is_valid_replay m =
    (ltb 0 (length m.response_text) && leb (length m.response_text) 16384)
    && (optional_nonblank m.generated_quotation_id
        && (optional_nonblank m.document_filename
            && (optional_nonblank m.preview_fingerprint
                && (optional_nonblank m.preview_originating_turn_id
                    && (same_presence m.preview_fingerprint m.preview_originating_turn_id
                        && optional_basename m.document_filename)))))

unfoldable pub optional_replay : Option SafeReplayMetadata → Bool
optional_replay none = true
optional_replay (some m) = is_valid_replay m

-- The replay metadata name a generated quotation.
abbrev pub has_quotation : Option SafeReplayMetadata → Bool
has_quotation none = false
has_quotation (some m) = is_some m.generated_quotation_id

-- The constraints of the single fields of a record
unfoldable pub has_valid_fields : MessageProcessingRecord → Bool
unfolding optional_nonblank optional_positive
has_valid_fields r =
    not (is_blank r.message_id)
    && (optional_nonblank r.owner_token
        && (optional_positive r.lease_expires_at_ms
            && (optional_positive r.completed_at_ms
                && (optional_nonblank r.text_outbound_id
                    && (optional_nonblank r.document_media_id
                        && (optional_nonblank r.document_outbound_id
                            && optional_replay r.replay))))))

-- Ownership and completion: the first test of `validate_stage_invariants`
unfoldable pub ownership_fits : MessageProcessingRecord → Bool
ownership_fits r =
    if is_stage r.stage ProcessingStage.complete
    then is_none r.owner_token && (is_none r.lease_expires_at_ms && is_some r.completed_at_ms)
    else is_some r.owner_token && (is_some r.lease_expires_at_ms && is_none r.completed_at_ms)

-- The second test: the result is there exactly after the agent has run.
unfoldable pub replay_fits : MessageProcessingRecord → Bool
replay_fits r =
    if is_stage r.stage ProcessingStage.claimed then is_none r.replay else is_some r.replay

-- The tests of the provider's IDs
unfoldable pub ids_fit : MessageProcessingRecord → Bool
ids_fit r =
    (is_action r.text_delivery ExternalActionState.succeeded || is_none r.text_outbound_id)
    && ((if is_action r.document_upload ExternalActionState.succeeded
          then is_some r.document_media_id
          else is_none r.document_media_id)
        && (is_action r.document_delivery ExternalActionState.succeeded
            || is_none r.document_outbound_id))

-- The tests of the deliveries that a stage stands for
unfoldable pub deliveries_fit : MessageProcessingRecord → Bool
deliveries_fit r =
    (ltb (stage_rank r.stage) 2 || is_action r.text_delivery ExternalActionState.succeeded)
    && ((not (
            is_stage r.stage ProcessingStage.document_uploaded
            || is_stage r.stage ProcessingStage.document_sent)
          || is_action r.document_upload ExternalActionState.succeeded)
        && ((not (is_stage r.stage ProcessingStage.document_sent)
              || is_action r.document_delivery ExternalActionState.succeeded)
            && (not (is_stage r.stage ProcessingStage.complete && has_quotation r.replay)
                || (is_action r.document_upload ExternalActionState.succeeded
                    && is_action r.document_delivery ExternalActionState.succeeded))))

-- What `MessageProcessingRecord.model_validate` accepts
unfoldable pub is_valid_record : MessageProcessingRecord → Bool
unfolding ownership_fits replay_fits ids_fit deliveries_fit
is_valid_record r =
    has_valid_fields r && (ownership_fits r && (replay_fits r && (ids_fit r && deliveries_fit r)))

-- `MessageProcessingRecord.model_validate(values)`
unfoldable pub validated : MessageProcessingRecord → Result MessageProcessingRecord
validated r = if is_valid_record r then ok r else err Error.validation_error

-- `_deserialize_record`
unfoldable pub deserialize_record : MessageProcessingRecord → Text → Result MessageProcessingRecord
deserialize_record r expected =
    if is_valid_record r
    then (if text_eq r.message_id expected then ok r else err Error.message_processing)
    else err Error.message_processing

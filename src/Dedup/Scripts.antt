-- ===== src/Dedup/Scripts.antt =====
-- The three Lua scripts of app/services/message_deduplication_service.py. A script runs atomically
-- on the record under one key; `now_ms` is the server's time. A script returns what it answers and
-- the record that it leaves. Where Lua would compare a missing lease the server raises an error,
-- which the service turns into `MessageProcessingError`.
use global_detergent_sales_a.Prelude.{
  ℕ, ◌+◌, Text, option_text_eq, Bool, not, Option, none, some, leb, ◌==◌, if◌then◌else◌,
}
use global_detergent_sales_a.Errors.{Error}
use global_detergent_sales_a.Exec.{Result, ok, err}
use global_detergent_sales_a.Dedup.{
  ProcessingStage, ClaimDecision, MessageProcessingRecord, is_stage,
}

abbrev pub Cell : Type 0
Cell = Option MessageProcessingRecord

-- The statuses that the scripts for owners answer with
pub data Status : Type 0 where
  done : MessageProcessingRecord → Status
  missing complete not_owner expired changed : Status

-- `tonumber(record.lease_expires_at_ms) <= now_ms`
unfoldable pub lease_expired : MessageProcessingRecord → ℕ → Result Bool
lease_expired r now_ms = elim r.lease_expires_at_ms [
  | none ↦ err Error.message_processing
  | some t ↦ ok (leb t now_ms)
]

-- The record that a claim writes over an existing one
unfoldable pub taken_over : Text → ℕ → ℕ → MessageProcessingRecord → MessageProcessingRecord
taken_over owner lease_ms now_ms r = record r {
  owner_token = some owner;
  lease_expires_at_ms = some (now_ms + lease_ms);
  updated_at_ms = now_ms;
  revision = r.revision + 1;
}

-- The record that a claim creates
unfoldable pub first_claim : Text → ℕ → ℕ → MessageProcessingRecord → MessageProcessingRecord
first_claim owner lease_ms now_ms initial = record initial {
  owner_token = some owner;
  lease_expires_at_ms = some (now_ms + lease_ms);
  created_at_ms = now_ms;
  updated_at_ms = now_ms;
  revision = 1;
}

-- `_CLAIM_SCRIPT`
unfoldable pub claim_script :
    Text
    → ℕ
    → MessageProcessingRecord
    → ℕ
    → Cell
    → Result (ClaimDecision × MessageProcessingRecord) × Cell
unfolding taken_over first_claim lease_expired
claim_script owner lease_ms initial now_ms none =
    let created = first_claim owner lease_ms now_ms initial in
    (ok (ClaimDecision.acquired, created), some created)
claim_script owner lease_ms initial now_ms (some r) =
    let taken = taken_over owner lease_ms now_ms r in
    if is_stage r.stage ProcessingStage.complete
    then (ok (ClaimDecision.complete, r), some r)
    else if option_text_eq r.owner_token (some owner)
    then (ok (ClaimDecision.resumed, taken), some taken)
    else elim (lease_expired r now_ms) [
      | err e ↦ (err e, some r)
      | ok is_over ↦
          if is_over
          then (ok (ClaimDecision.acquired, taken), some taken)
          else (ok (ClaimDecision.busy, r), some r)
    ]

-- `_RENEW_SCRIPT`
unfoldable pub renew_script : Text → ℕ → ℕ → Cell → Result Status × Cell
unfolding taken_over lease_expired
renew_script owner lease_ms now_ms none = (ok Status.missing, none)
renew_script owner lease_ms now_ms (some r) =
    let renewed = taken_over owner lease_ms now_ms r in
    if is_stage r.stage ProcessingStage.complete
    then (ok Status.complete, some r)
    else if not (option_text_eq r.owner_token (some owner))
    then (ok Status.not_owner, some r)
    else elim (lease_expired r now_ms) [
      | err e ↦ (err e, some r)
      | ok is_over ↦
          if is_over then (ok Status.expired, some r) else (ok (Status.done renewed), some renewed)
    ]

-- The record that an update stores: the replacement, stamped by the server
unfoldable pub stamped :
    Text → ℕ → ℕ → MessageProcessingRecord → MessageProcessingRecord → MessageProcessingRecord
stamped owner lease_ms now_ms current replacement =
    let base = record replacement {
      created_at_ms = current.created_at_ms;
      updated_at_ms = now_ms;
      revision = current.revision + 1;
    } in
    if is_stage replacement.stage ProcessingStage.complete
    then record base {
      owner_token = none;
      lease_expires_at_ms = none;
      completed_at_ms = some now_ms;
    }
    else record base { owner_token = some owner; lease_expires_at_ms = some (now_ms + lease_ms) }

-- `_OWNED_UPDATE_SCRIPT`
unfoldable pub owned_update_script :
    Text → ℕ → ℕ → MessageProcessingRecord → ℕ → Cell → Result Status × Cell
unfolding stamped lease_expired
owned_update_script owner expected_revision lease_ms replacement now_ms none =
    (ok Status.missing, none)
owned_update_script owner expected_revision lease_ms replacement now_ms (some current) =
    let stored = stamped owner lease_ms now_ms current replacement in
    if is_stage current.stage ProcessingStage.complete
    then (ok Status.complete, some current)
    else if not (option_text_eq current.owner_token (some owner))
    then (ok Status.not_owner, some current)
    else elim (lease_expired current now_ms) [
      | err e ↦ (err e, some current)
      | ok is_over ↦
          if is_over
          then (ok Status.expired, some current)
          else if not (current.revision == expected_revision)
          then (ok Status.changed, some current)
          else (ok (Status.done stored), some stored)
    ]

-- ===== src/Dedup/Methods.antt =====
-- The methods of `MessageDeduplicationService`: each validates its arguments, computes a replacement
-- from the record that it read, and has a script store it. The methods come first with validated
-- identifiers, and at the end as they are called.
use global_detergent_sales_a.Prelude.{
  ℕ, Text, option_text_eq, Bool, Option, none, some, if◌then◌else◌,
}
use global_detergent_sales_a.Errors.{Error}
use global_detergent_sales_a.Exec.{Result, ok, err, bind}
use global_detergent_sales_a.Dedup.{
  ProcessingStage, ExternalActionState, MessageProcessingRecord, MessageClaim,
}
use global_detergent_sales_a.Dedup.Validation.{deserialize_record}
use global_detergent_sales_a.Dedup.Scripts.{
  Cell, Status, claim_script, renew_script, owned_update_script,
}
use global_detergent_sales_a.Dedup.Operations.{
  Operation, transition, validate_identifier, validate_arguments,
}

-- The settings of a service
pub record DedupSettings : Type 0 where
  pub lease_ms : ℕ
  pub incomplete_ttl_seconds : ℕ
  pub completed_ttl_seconds : ℕ

-- The record with which `claim_message` calls its script
abbrev pub initial_record : Text → Text → MessageProcessingRecord
initial_record message_id owner = record {
  message_id = message_id;
  stage = ProcessingStage.claimed;
  owner_token = some owner;
  lease_expires_at_ms = some 1;
  revision = 0;
  created_at_ms = 0;
  updated_at_ms = 0;
  completed_at_ms = none;
  replay = none;
  text_delivery = ExternalActionState.not_started;
  document_upload = ExternalActionState.not_started;
  document_delivery = ExternalActionState.not_started;
  text_outbound_id = none;
  document_media_id = none;
  document_outbound_id = none;
}

-- A replacement beside the record that it was computed from
abbrev pub with_current :
    MessageProcessingRecord
    → Result MessageProcessingRecord
    → Result (MessageProcessingRecord × MessageProcessingRecord)
with_current current (ok replacement) = ok (current, replacement)
with_current current (err e) = err e

-- A script's status that is not `ok` becomes `MessageOwnershipError`.
unfoldable pub read_status : Text → Result Status → Result MessageProcessingRecord
unfolding deserialize_record
read_status message_id (err e) = err e
read_status message_id (ok (Status.done r)) = deserialize_record r message_id
read_status message_id (ok Status.missing) = err Error.message_ownership
read_status message_id (ok Status.complete) = err Error.message_ownership
read_status message_id (ok Status.not_owner) = err Error.message_ownership
read_status message_id (ok Status.expired) = err Error.message_ownership
read_status message_id (ok Status.changed) = err Error.message_ownership

module _ (settings : DedupSettings) (message_id owner : Text) where
  -- `claim_message`, with validated identifiers
  unfoldable pub claim_message : ℕ → Cell → Result MessageClaim × Cell
  unfolding claim_script deserialize_record
  claim_message now_ms cell =
      let (answer, cell') =
        claim_script owner settings.lease_ms (initial_record message_id owner) now_ms cell in
      (
        bind answer λ a.
            bind (deserialize_record a.1 message_id)
              λ r. ok (record { decision = a.0; claimed_record = r }),
        cell',
      )

  -- `renew_claim`, with validated identifiers
  unfoldable pub renew_claim : ℕ → Cell → Result MessageProcessingRecord × Cell
  renew_claim now_ms cell =
      let (answer, cell') = renew_script owner settings.lease_ms now_ms cell in
      (read_status message_id answer, cell')

  -- `get_record`
  unfoldable pub get_record : Cell → Result (Option MessageProcessingRecord)
  unfolding deserialize_record
  get_record none = ok none
  get_record (some r) = bind (deserialize_record r message_id) λ v. ok (some v)

  -- The first half of `_mutate_owned`: the record that was read, and its replacement
  unfoldable pub plan :
      Operation
      → Option MessageProcessingRecord
      → Result (MessageProcessingRecord × MessageProcessingRecord)
  unfolding transition
  plan op none = err Error.message_ownership
  plan op (some current) =
      if option_text_eq current.owner_token (some owner)
      then with_current current (transition op current)
      else err Error.message_ownership

  -- The second half: the script stores the replacement if the revision is still the one read.
  unfoldable pub commit :
      MessageProcessingRecord × MessageProcessingRecord
      → ℕ
      → Cell
      → Result MessageProcessingRecord × Cell
  commit (current, replacement) now_ms cell =
      let (answer, cell') =
        owned_update_script owner current.revision settings.lease_ms replacement now_ms cell in
      (read_status message_id answer, cell')

  -- A plan that raised stores nothing.
  unfoldable pub commit_planned :
      Result (MessageProcessingRecord × MessageProcessingRecord)
      → ℕ
      → Cell
      → Result MessageProcessingRecord × Cell
  commit_planned (err e) now_ms cell = (err e, cell)
  commit_planned (ok planned) now_ms cell = commit planned now_ms cell

  -- `_mutate_owned`, from the cell that `get_record` saw and the cell on which the script runs
  unfoldable pub mutate_owned : Operation → Cell → ℕ → Cell → Result MessageProcessingRecord × Cell
  mutate_owned op seen now_ms cell = commit_planned (bind (get_record seen) (plan op)) now_ms cell

-- A check that raises leaves the record alone.
abbrev pub when_valid {ℓ κ} :
    {A : Type ℓ} {B : Type κ} → Result A → Cell → (A → Result B × Cell) → Result B × Cell
when_valid (err e) cell k = (err e, cell)
when_valid (ok a) cell k = k a

-- The methods with their checks. `is_printable` is `str.isprintable`.
module _ (is_printable : Text → Bool) (settings : DedupSettings) where
  -- `_validate_identity_pair`
  unfoldable pub validate_identity_pair : Text → Text → Result (Text × Text)
  unfolding validate_identifier
  validate_identity_pair message_id owner_token =
      bind (validate_identifier is_printable 512 message_id)
        λ id. bind (validate_identifier is_printable 128 owner_token) λ owner. ok (id, owner)

  -- `claim_message`, of an owner token that is given
  unfoldable pub run_claim : Text → Text → ℕ → Cell → Result MessageClaim × Cell
  unfolding validate_identity_pair claim_message
  run_claim message_id owner_token now_ms cell =
      when_valid (validate_identity_pair message_id owner_token) cell
        λ pair. claim_message settings pair.0 pair.1 now_ms cell

  -- `renew_claim`
  unfoldable pub run_renewal : Text → Text → ℕ → Cell → Result MessageProcessingRecord × Cell
  unfolding validate_identity_pair renew_claim
  run_renewal message_id owner_token now_ms cell =
      when_valid (validate_identity_pair message_id owner_token) cell
        λ pair. renew_claim settings pair.0 pair.1 now_ms cell

  -- `save_result`, `begin_text_send` and the other operations on an owned record
  unfoldable pub run_operation :
      Operation → Text → Text → Cell → ℕ → Cell → Result MessageProcessingRecord × Cell
  unfolding validate_identity_pair validate_arguments mutate_owned
  run_operation op message_id owner_token seen now_ms cell =
      when_valid (validate_arguments is_printable op) cell λ valid_op.
        when_valid (validate_identity_pair message_id owner_token) cell
          λ pair. mutate_owned settings pair.0 pair.1 valid_op seen now_ms cell

-- ===== src/Dedup/Availability.antt =====
-- Lemmas on allowed claims: `claim_message` of app/services/message_deduplication_service.py.
use global_detergent_sales_a.Prelude.{
  ℕ, ◌<◌, Text, text_eq_iff, option_text_eq_iff, is_blank, ◌≡◌, true, false, none, some, arith, inl,
  inr, option_text_eq, Bool-cases, ◌≢◌, refl,
}
use global_detergent_sales_a.Exec.{ok}
use global_detergent_sales_a.Dedup.{
  ProcessingStage, MessageProcessingRecord, MessageClaim, owns_processing, ClaimDecision,
}
use global_detergent_sales_a.Dedup.Validation.{
  is_valid_record, has_valid_fields, ownership_fits, replay_fits, ids_fit, deliveries_fit,
  optional_nonblank, optional_positive, optional_replay, deserialize_record,
}
use global_detergent_sales_a.Dedup.Scripts.{Cell, claim_script, first_claim, taken_over}
use global_detergent_sales_a.Dedup.Methods.{DedupSettings, claim_message, initial_record}
use global_detergent_sales_a.Dedup.Exclusion.{IsClaimable}

-- What is stored under the message's key is a valid record of that message.
abbrev pub IsValidCell : Text → Cell → Type 0
IsValidCell message_id none = Unit
IsValidCell message_id (some r) = (is_valid_record r ≡ true) × (r.message_id ≡ message_id)

first_claim_valid :
    (owner message_id : Text) (lease_ms now_ms : ℕ)
    → is_blank owner ≡ false
    → is_blank message_id ≡ false
    → 0 < now_ms
    → is_valid_record (first_claim owner lease_ms now_ms (initial_record message_id owner)) ≡ true
unfolding is_valid_record has_valid_fields ownership_fits replay_fits ids_fit deliveries_fit
    optional_nonblank optional_positive optional_replay first_claim
first_claim_valid owner message_id lease_ms now_ms named id started = ground arith

module _ (owner : Text) (lease_ms now_ms : ℕ) (r : MessageProcessingRecord) where
  taken_over_fields :
      is_blank owner ≡ false
      → 0 < now_ms
      → has_valid_fields r ≡ true
      → has_valid_fields (taken_over owner lease_ms now_ms r) ≡ true
  unfolding has_valid_fields optional_nonblank optional_positive taken_over
  taken_over_fields named started valid = ground arith

  taken_over_ownership :
      r.stage ≢ ProcessingStage.complete
      → ownership_fits r ≡ true
      → ownership_fits (taken_over owner lease_ms now_ms r) ≡ true
  unfolding ownership_fits taken_over
  taken_over_ownership open_ valid = ground arith

  taken_over_rest :
      (replay_fits (taken_over owner lease_ms now_ms r) ≡ replay_fits r)
      × (ids_fit (taken_over owner lease_ms now_ms r) ≡ ids_fit r)
      × (deliveries_fit (taken_over owner lease_ms now_ms r) ≡ deliveries_fit r)
  unfolding replay_fits ids_fit deliveries_fit taken_over
  taken_over_rest = (refl, refl, refl)

  -- A valid incomplete record is valid after a claim took it over.
  taken_over_valid :
      is_valid_record r ≡ true
      → r.stage ≢ ProcessingStage.complete
      → is_blank owner ≡ false
      → 0 < now_ms
      → is_valid_record (taken_over owner lease_ms now_ms r) ≡ true
  unfolding is_valid_record
  taken_over_valid valid open_ named started =
      let fields : has_valid_fields r ≡ true = ground arith in
      let ownership : ownership_fits r ≡ true = ground arith in
      let (a, b, c) = taken_over_rest in
      rw (taken_over_fields named started fields, taken_over_ownership open_ ownership, a, b, c)
        (ground arith)

module _ (settings : DedupSettings) (message_id owner : Text) (now_ms : ℕ) where
  -- A claim with validated identifiers that is allowed succeeds and gives ownership: when the store has no record of the
  -- message, or a valid incomplete one that the worker owns or whose lease is over.
  pub claim_message-acquires :
      (cell : Cell)
      → IsClaimable owner now_ms cell
      → IsValidCell message_id cell
      → is_blank owner ≡ false
      → is_blank message_id ≡ false
      → 0 < now_ms
      → (c : MessageClaim) × (cell' : Cell) × (claim_message settings message_id owner now_ms cell
          ≡ (ok c, cell'))
        × (owns_processing c ≡ true)
  unfolding claim_message claim_script owns_processing deserialize_record
  claim_message-acquires none may valid named id started =
      let created = first_claim owner settings.lease_ms now_ms (initial_record message_id owner) in
      (
        record { decision = ClaimDecision.acquired; claimed_record = created },
        some created,
        ground (
          arith,
          first_claim_valid owner message_id settings.lease_ms now_ms named id started,
          text_eq_iff created.message_id message_id,
        ),
        refl,
      )
  claim_message-acquires (some r) (open_, inl mine) (valid, same) named id started =
      let taken = taken_over owner settings.lease_ms now_ms r in
      (
        record { decision = ClaimDecision.resumed; claimed_record = taken },
        some taken,
        ground (
          arith,
          same,
          taken_over_valid owner settings.lease_ms now_ms r valid open_ named started,
          text_eq_iff taken.message_id message_id,
          option_text_eq_iff r.owner_token (some owner),
        ),
        refl,
      )
  claim_message-acquires (some r) (open_, inr (t, lease, over)) (valid, same) named id started =
      let taken = taken_over owner settings.lease_ms now_ms r in
      elim (Bool-cases (option_text_eq r.owner_token (some owner))) [
        | inl mine ↦ (
          record { decision = ClaimDecision.resumed; claimed_record = taken },
          some taken,
          ground (
            arith,
            same,
            taken_over_valid owner settings.lease_ms now_ms r valid open_ named started,
            text_eq_iff taken.message_id message_id,
            option_text_eq_iff r.owner_token (some owner),
          ),
          refl,
        )
        | inr other ↦ (
          record { decision = ClaimDecision.acquired; claimed_record = taken },
          some taken,
          ground (
            arith,
            same,
            taken_over_valid owner settings.lease_ms now_ms r valid open_ named started,
            text_eq_iff taken.message_id message_id,
            option_text_eq_iff r.owner_token (some owner),
          ),
          refl,
        )
      ]

-- ===== src/Dedup/Validated.antt =====
-- Lemmas on the methods of app/services/message_deduplication_service.py with their checks: calls that
-- succeed.
use global_detergent_sales_a.Prelude.{
  ℕ, ◌+◌, ◌<◌, ◌≡◌, ◌≢◌, ◌⊎◌, ◌∙◌, refl, inl, inr, Bool, true, Bool-cases, Text, strip, none, some,
  arith,
}
use global_detergent_sales_a.Exec.{ok}
use global_detergent_sales_a.Dedup.{
  ProcessingStage, MessageProcessingRecord, MessageClaim, is_stage, owns_processing,
}
use global_detergent_sales_a.Dedup.Validation.{is_valid_record}
use global_detergent_sales_a.Dedup.Scripts.{Cell, stamped}
use global_detergent_sales_a.Dedup.Operations.{Operation, transition}
use global_detergent_sales_a.Dedup.Methods.{DedupSettings, run_claim, run_operation}
use global_detergent_sales_a.Dedup.Exclusion.{IsClaimable, claim_message-owns}
use global_detergent_sales_a.Dedup.Refusals.{IsHeld}
use global_detergent_sales_a.Dedup.Availability.{IsValidCell, claim_message-acquires}
use global_detergent_sales_a.Dedup.Progress.{mutate_owned-stores}
use global_detergent_sales_a.Dedup.Identifiers.{
  IsIdentifier, HasIdentifiers, with_stripped, is_blank-strip, validate_identity_pair-accepts,
  validate_arguments-accepts,
}

-- What an operation has stored for a replacement `q` of the record `r`: the replacement, with the
-- creation of `r`, the time, the next revision, and the owner and the new lease as long as processing
-- is not complete, and then neither but the time of completion.
pub record IsStored (owner : Text) (lease_ms now_ms : ℕ) (r q stored : MessageProcessingRecord)
    : Type 0 where
  pub content : stored ≡ record q {
    created_at_ms = stored.created_at_ms;
    updated_at_ms = stored.updated_at_ms;
    revision = stored.revision;
    owner_token = stored.owner_token;
    lease_expires_at_ms = stored.lease_expires_at_ms;
    completed_at_ms = stored.completed_at_ms;
  }
  pub created : stored.created_at_ms ≡ r.created_at_ms
  pub updated : stored.updated_at_ms ≡ now_ms
  pub next_revision : stored.revision ≡ r.revision + 1
  pub ownership :
      ((q.stage ≢ ProcessingStage.complete)
        × (stored.owner_token ≡ some owner)
        × (stored.lease_expires_at_ms ≡ some (now_ms + lease_ms))
        × (stored.completed_at_ms ≡ q.completed_at_ms))
      ⊎ ((q.stage ≡ ProcessingStage.complete)
          × (stored.owner_token ≡ none)
          × (stored.lease_expires_at_ms ≡ none)
          × (stored.completed_at_ms ≡ some now_ms))

stamped-IsStored :
    (owner : Text) (lease_ms now_ms : ℕ) (r q : MessageProcessingRecord)
    → IsStored owner lease_ms now_ms r q (stamped owner lease_ms now_ms r q)
unfolding stamped
stamped-IsStored owner lease_ms now_ms r q =
    elim (Bool-cases (is_stage q.stage ProcessingStage.complete)) [
      | inl done ↦ rw done (record {
        content = refl;
        created = refl;
        updated = refl;
        next_revision = refl;
        ownership = inr (ground (arith, done), refl, refl, refl);
      })
      | inr open_ ↦ rw open_ (record {
        content = refl;
        created = refl;
        updated = refl;
        next_revision = refl;
        ownership = inl (λ e. ground (arith, open_, e), refl, refl, refl);
      })
    ]

module _ (is_printable : Text → Bool) (settings : DedupSettings) (message_id owner_token : Text)
    (now_ms : ℕ) where
  -- A claim by a message ID and an owner token that are identifiers (not blank, printable, and of at
  -- most 512 and 128 characters) succeeds at a positive time and stores a record that the worker owns under a new lease, when the
  -- store has no record of the message, or a valid incomplete one that the worker owns or whose lease
  -- is over.
  pub run_claim-acquires :
      (cell : Cell)
      → IsIdentifier is_printable 512 message_id
      → IsIdentifier is_printable 128 owner_token
      → IsClaimable (strip owner_token) now_ms cell
      → IsValidCell (strip message_id) cell
      → 0 < now_ms
      → (c : MessageClaim) × (run_claim is_printable settings message_id owner_token now_ms cell
          ≡ (ok c, some c.claimed_record))
        × (owns_processing c ≡ true)
        × (c.claimed_record.owner_token ≡ some (strip owner_token))
        × (c.claimed_record.lease_expires_at_ms ≡ some (now_ms + settings.lease_ms))
  unfolding run_claim
  run_claim-acquires cell id token may valid started =
      let (c, cell', answer, owns) =
        claim_message-acquires settings (strip message_id) (strip owner_token) now_ms cell may valid
          (is_blank-strip owner_token ∙ token.named) (is_blank-strip message_id ∙ id.named)
          started in
      let (_, stored, owned, leased) =
        claim_message-owns settings (strip message_id) (strip owner_token) now_ms cell cell' answer
          owns in
      (
        c,
        rw (validate_identity_pair-accepts is_printable settings message_id owner_token id token)
            (answer ∙ rw stored refl),
        owns,
        owned,
        leased,
      )

  -- An operation whose arguments, message ID and owner token are identifiers (not blank, printable,
  -- and of at most 512, 512 and 128 characters), and that the record's stage allows, is stored and returned at a positive time when the worker owns the valid record of
  -- its message under a running lease, and nothing came between its reading and its writing: the
  -- replacement, with the next revision and the lease extended, or ended by completion.
  pub run_operation-stores :
      (op : Operation) (r q : MessageProcessingRecord)
      → IsIdentifier is_printable 512 message_id
      → IsIdentifier is_printable 128 owner_token
      → HasIdentifiers is_printable op
      → is_valid_record r ≡ true
      → r.message_id ≡ strip message_id
      → IsHeld (strip owner_token) now_ms (some r)
      → transition (with_stripped op) r ≡ ok q
      → 0 < now_ms
      → (stored : MessageProcessingRecord) × (run_operation is_printable settings op message_id
            owner_token
            (some r)
            now_ms
            (some r)
          ≡ (ok stored, some stored))
        × IsStored (strip owner_token) settings.lease_ms now_ms r q stored
  unfolding run_operation
  run_operation-stores op r q id token arguments valid same held step started = (
    stamped (strip owner_token) settings.lease_ms now_ms r q,
    rw
        (
          validate_arguments-accepts is_printable op arguments,
          validate_identity_pair-accepts is_printable settings message_id owner_token id token,
        )
        (mutate_owned-stores settings (strip message_id) (strip owner_token) now_ms
          (with_stripped op) r q valid same held step (is_blank-strip owner_token ∙ token.named)
          started),
    stamped-IsStored (strip owner_token) settings.lease_ms now_ms r q,
  )

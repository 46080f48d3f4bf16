-- ===== src/Dedup/Exclusion.antt =====
-- Lemmas on who may claim a message: `claim_message` of
-- app/services/message_deduplication_service.py.
use global_detergent_sales_a.Prelude.{
  ℕ, ◌+◌, ◌≤◌, ◌<◌, Text, option_text_eq, option_text_eq_iff, ◌≡◌, ◌≢◌, ◌⊎◌, inl, inr, true, none,
  some, arith, Option-cases, text_eq_iff, Bool-cases,
}
use global_detergent_sales_a.Exec.{ok}
use global_detergent_sales_a.Dedup.{
  ProcessingStage, ClaimDecision, MessageProcessingRecord, MessageClaim, owns_processing,
}
use global_detergent_sales_a.Dedup.Validation.{is_valid_record}
use global_detergent_sales_a.Dedup.Scripts.{Cell}
use global_detergent_sales_a.Dedup.Methods.{DedupSettings, claim_message}

-- A worker may claim the record in the cell: there is none, it is its own, or its lease is over.
abbrev pub IsClaimable : Text → ℕ → Cell → Type 0
IsClaimable owner now_ms none = Unit
IsClaimable owner now_ms (some r) =
    (r.stage ≢ ProcessingStage.complete)
    × ((r.owner_token ≡ some owner) ⊎ ((t : ℕ) × (r.lease_expires_at_ms ≡ some t) × (t ≤ now_ms)))

module _ (settings : DedupSettings) (message_id owner : Text) (now_ms : ℕ) where
  -- A claim that gives ownership was allowed, and leaves in the store the record that it returns,
  -- owned by the claimant until the lease ends.
  pub claim_message-owns :
      (cell : Cell) {c : MessageClaim} (cell' : Cell)
      → claim_message settings message_id owner now_ms cell ≡ (ok c, cell')
      → owns_processing c ≡ true
      → IsClaimable owner now_ms cell
        × (cell' ≡ some c.claimed_record)
        × (c.claimed_record.owner_token ≡ some owner)
        × (c.claimed_record.lease_expires_at_ms ≡ some (now_ms + settings.lease_ms))
  unfolding claim_message owns_processing
  claim_message-owns none {c} cell' h own = (tt, ground arith, ground arith, ground arith)
  claim_message-owns (some r) {c} cell' h own =
      let owned = option_text_eq_iff r.owner_token (some owner) in
      elim (Option-cases r.lease_expires_at_ms) [
        | inl unleased ↦
            let mine : r.owner_token ≡ some owner = ground (arith, owned) in
            ((ground arith, inl mine), ground arith, ground arith, ground arith)
        | inr (t, lease) ↦ elim (Bool-cases (option_text_eq r.owner_token (some owner))) [
          | inl mine ↦
              ((ground arith, inl (owned.0 mine)), ground arith, ground arith, ground arith)
          | inr other ↦ (
            (ground arith, inr (t, lease, ground arith)),
            ground arith,
            ground arith,
            ground arith,
          )
        ]
      ]

  -- While another worker holds the lease, a claim is answered with `busy` and changes nothing.
  pub claim_message-busy :
      (r : MessageProcessingRecord) (t : ℕ)
      → is_valid_record r ≡ true
      → r.message_id ≡ message_id
      → r.stage ≢ ProcessingStage.complete
      → r.owner_token ≢ some owner
      → r.lease_expires_at_ms ≡ some t
      → now_ms < t
      → claim_message settings message_id owner now_ms (some r)
        ≡ (ok (record { decision = ClaimDecision.busy; claimed_record = r }), some r)
  unfolding claim_message
  claim_message-busy r t valid same open_ other lease live =
      ground
        (arith, option_text_eq_iff r.owner_token (some owner), text_eq_iff r.message_id message_id)

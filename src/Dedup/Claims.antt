-- ===== src/Dedup/Claims.antt =====
-- Lemmas on how `claim_message` of app/services/message_deduplication_service.py leaves the store.
use global_detergent_sales_a.Prelude.{
  ℕ, Text, option_text_eq, ◌≡◌, refl, inl, inr, none, some, arith, Bool-cases, leb, Option-cases,
}
use global_detergent_sales_a.Dedup.{ProcessingStage, MessageProcessingRecord, is_stage}
use global_detergent_sales_a.Dedup.Scripts.{Cell, claim_script, first_claim, taken_over}
use global_detergent_sales_a.Dedup.Methods.{DedupSettings, claim_message, initial_record}

module _ (settings : DedupSettings) (message_id owner : Text) (now_ms : ℕ) where
  pub data ClaimWrite (cell : Cell) : Type 0 where
    unchanged : (claim_message settings message_id owner now_ms cell).1 ≡ cell → ClaimWrite cell
    created :
        cell ≡ none
        → (claim_message settings message_id owner now_ms cell).1
          ≡ some (first_claim owner settings.lease_ms now_ms (initial_record message_id owner))
        → ClaimWrite cell
    taken :
        (r : MessageProcessingRecord)
        → cell ≡ some r
        → (claim_message settings message_id owner now_ms cell).1
          ≡ some (taken_over owner settings.lease_ms now_ms r)
        → ClaimWrite cell

  pub claim_message-write : (cell : Cell) → ClaimWrite cell
  unfolding claim_message
  claim_message-write none = ClaimWrite.created refl (unfold claim_script in refl)
  claim_message-write (some r) =
      unfold claim_script in
      elim (Bool-cases (is_stage r.stage ProcessingStage.complete)) [
        | inl done ↦ ClaimWrite.unchanged (ground arith)
        | inr open_ ↦ elim (Bool-cases (option_text_eq r.owner_token (some owner))) [
          | inl mine ↦ ClaimWrite.taken r refl (ground arith)
          | inr other ↦ elim (Option-cases r.lease_expires_at_ms) [
            | inl unleased ↦ ClaimWrite.unchanged (ground arith)
            | inr (t, lease) ↦ elim (Bool-cases (leb t now_ms)) [
              | inl over ↦ ClaimWrite.taken r refl (ground arith)
              | inr early ↦ ClaimWrite.unchanged (ground arith)
            ]
          ]
        ]
      ]

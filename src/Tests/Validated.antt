-- ===== src/Tests/Validated.antt =====
-- Calls of the deduplication service with their checks, on concrete data.
use global_detergent_sales_a.Prelude.{
  ◌+◌, Text, codes, strip, is_blank, ◌≡◌, refl, inr, Bool, true, some, arith,
}
use global_detergent_sales_a.Exec.{ok}
use global_detergent_sales_a.Dedup.{MessageProcessingRecord, MessageClaim, owns_processing}
use global_detergent_sales_a.Dedup.Operations.{Operation}
use global_detergent_sales_a.Dedup.Methods.{run_claim, run_operation}
use global_detergent_sales_a.Dedup.Availability.{IsValidCell}
use global_detergent_sales_a.Dedup.Exclusion.{IsClaimable}
use global_detergent_sales_a.Dedup.Identifiers.{IsIdentifier}
use global_detergent_sales_a.Dedup.Validated.{IsStored, run_claim-acquires, run_operation-stores}
use global_detergent_sales_a.Tests.Dedup.{
  settings, claimed_record, reply, saved, is_held, saves, is_valid_claimed,
}

abbrev all_printable : Text → Bool
all_printable s = true

-- The same message ID, with spaces around it
message : IsIdentifier all_printable 512 (codes " m ")
unfolding strip is_blank
message = record { named = refl; short = omega arith; printable = refl }

worker : IsIdentifier all_printable 128 (codes "w")
unfolding strip is_blank
worker = record { named = refl; short = omega arith; printable = refl }

other_worker : IsIdentifier all_printable 128 (codes "other")
unfolding strip is_blank
other_worker = record { named = refl; short = omega arith; printable = refl }

is_over : IsClaimable (strip (codes "other")) 1200 (some claimed_record)
is_over = (λ e. cc, inr (1100, refl, omega arith))

is_stored_valid : IsValidCell (strip (codes " m ")) (some claimed_record)
unfolding strip
is_stored_valid = (is_valid_claimed, refl)

run_claim-acquires_example :
    (c : MessageClaim) × (run_claim all_printable settings
        (codes " m ")
        (codes "other")
        1200
        (some claimed_record)
      ≡ (ok c, some c.claimed_record))
    × (owns_processing c ≡ true)
    × (c.claimed_record.owner_token ≡ some (strip (codes "other")))
    × (c.claimed_record.lease_expires_at_ms ≡ some (1200 + 100))
run_claim-acquires_example =
    run_claim-acquires all_printable settings (codes " m ") (codes "other") 1200
      (some claimed_record) message other_worker is_over is_stored_valid (omega arith)

run_operation-stores_example :
    (stored : MessageProcessingRecord) × (run_operation all_printable settings
        (Operation.save_result reply)
        (codes " m ")
        (codes "w")
        (some claimed_record)
        1050
        (some claimed_record)
      ≡ (ok stored, some stored))
    × IsStored (strip (codes "w")) 100 1050 claimed_record saved stored
run_operation-stores_example =
    run_operation-stores all_printable settings (codes " m ") (codes "w") 1050
      (Operation.save_result reply) claimed_record saved message worker tt is_valid_claimed
      (unfold strip in refl) (unfold strip in is_held) saves (omega arith)

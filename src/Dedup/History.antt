-- ===== src/Dedup/History.antt =====
-- Several workers on one message, as steps: the server's clock runs, workers claim and renew, read
-- the record, and later run an operation on a record that they have read, however old it is. When
-- the clock passes the time until which the key is kept, the record is gone.
pub mod Changes
pub mod Order
use global_detergent_sales_a.Prelude.{
  ℕ, ◌+◌, ◌≤◌, ◌<◌, Text, ◌≡◌, ◌⊎◌, inl, inr, Bool, true, Option, none, some, List, [], ◌∷◌, All,
  All-map, arith, refl, Bool-cases, ap, sym,
}
use global_detergent_sales_a.Exec.{Result, ok}
use global_detergent_sales_a.Dedup.{MessageProcessingRecord, ProcessingStage, is_stage}
use global_detergent_sales_a.Dedup.Validation.{is_valid_record}
use global_detergent_sales_a.Dedup.Scripts.{Cell, stamped, taken_over, first_claim}
use global_detergent_sales_a.Dedup.Operations.{Operation, transition}
use global_detergent_sales_a.Dedup.Methods.{DedupSettings, claim_message, renew_claim, mutate_owned}
use global_detergent_sales_a.Dedup.Expiry.{found, kept_until}
use global_detergent_sales_a.Dedup.Refusals.{IsHeld}
use global_detergent_sales_a.Dedup.Writes.{
  Renewal, Mutation, renew_claim-outcome, mutate_owned-outcome,
}
use global_detergent_sales_a.Dedup.Claims.{ClaimWrite, claim_message-write}
use global_detergent_sales_a.Dedup.Transitions.{
  Continues, Continues-refl, Continues-trans, transition-Continues,
}

-- The server's time, the stored record, until when its key is kept, how often a record has expired
-- there, and the records that workers have read so far.
pub record World : Type 0 where
  pub now_ms : ℕ
  pub cell : Cell
  pub expires_at_ms : ℕ
  pub expirations : ℕ
  pub seen : List MessageProcessingRecord

-- A worker has read the record.
abbrev pub WasRead : MessageProcessingRecord → List MessageProcessingRecord → Type 0
WasRead r [] = ⊥
WasRead r (x ∷ xs) = (r ≡ x) ⊎ WasRead r xs

pub All-WasRead :
    (P : MessageProcessingRecord → Type 0) (r : MessageProcessingRecord)
    (xs : List MessageProcessingRecord)
    → All P xs
    → WasRead r xs
    → P r
All-WasRead P r [] h m = absurd m
All-WasRead P r (x ∷ xs) h (inl e) = rw e h.0
All-WasRead P r (x ∷ xs) h (inr m) = All-WasRead P r xs h.1 m

-- The world at a later time
unfoldable pub at_time : ℕ → World → World
unfolding found
at_time now_ms w =
    let key =
      found now_ms
        (record { cell = w.cell; expires_at_ms = w.expires_at_ms; expirations = w.expirations }) in
    record w { now_ms = now_ms; cell = key.cell; expirations = key.expirations }

-- The world after a script
abbrev pub after_script : DedupSettings → World → Cell → World
after_script settings w cell' = record w {
  cell = cell';
  expires_at_ms = kept_until settings w.now_ms w.cell cell' w.expires_at_ms;
}

module _ (settings : DedupSettings) (message_id : Text) where
  pub data Step : World → World → Type 0 where
    tick : (w : World) (d : ℕ) → Step w (at_time (w.now_ms + d) w)
    claim :
        (w : World) (owner : Text)
        → Step w
            (after_script settings w (claim_message settings message_id owner w.now_ms w.cell).1)
    renew :
        (w : World) (owner : Text)
        → Step w (after_script settings w (renew_claim settings message_id owner w.now_ms w.cell).1)
    read :
        (w : World) (r : MessageProcessingRecord)
        → w.cell ≡ some r
        → Step w (record w { seen = r ∷ w.seen })
    mutate :
        (w : World) (owner : Text) (op : Operation) (r : MessageProcessingRecord)
        → WasRead r w.seen
        → Step w (
            after_script settings w
              (mutate_owned settings message_id owner op (some r) w.now_ms w.cell).1)

  pub data Reach (w : World) : World → Type 0 where
    here : Reach w w
    next : {u v : World} → Reach w u → Step u v → Reach w v

-- The record is the one in the cell, or of an earlier revision.
abbrev pub IsEarlier : Cell → MessageProcessingRecord → Type 0
IsEarlier none r = ⊥
IsEarlier (some c) r = (r ≡ c) ⊎ (r.revision < c.revision)

-- What the workers have read is the stored record or older.
abbrev pub IsConsistent : World → Type 0
IsConsistent w = All (IsEarlier w.cell) w.seen

-- The cell is continued by the next one: a record stays, with a stage as late and the same result.
abbrev pub CellContinues : Cell → Cell → Type 0
CellContinues none next_cell = Unit
CellContinues (some c) none = ⊥
CellContinues (some c) (some d) = Continues c d

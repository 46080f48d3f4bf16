-- ===== src/Dedup/History/Changes.antt =====
-- Lemmas on how the methods of app/services/message_deduplication_service.py change the stored record.
use global_detergent_sales_a.Prelude.{
  ℕ, ◌+◌, ◌<◌, Text, ◌≡◌, inl, inr, none, some, arith, refl, Bool-cases, ap, sym,
}
use global_detergent_sales_a.Dedup.{MessageProcessingRecord, ProcessingStage, is_stage}
use global_detergent_sales_a.Dedup.Scripts.{Cell, stamped, taken_over}
use global_detergent_sales_a.Dedup.Operations.{Operation}
use global_detergent_sales_a.Dedup.Methods.{DedupSettings, claim_message, renew_claim, mutate_owned}
use global_detergent_sales_a.Dedup.Writes.{
  Renewal, Mutation, renew_claim-outcome, mutate_owned-outcome,
}
use global_detergent_sales_a.Dedup.Claims.{ClaimWrite, claim_message-write}
use global_detergent_sales_a.Dedup.Transitions.{Continues, Continues-refl, transition-Continues}
use global_detergent_sales_a.Dedup.History.{IsEarlier, CellContinues}

-- A write that raises the revision and continues the record
pub record IsNewer (cell cell' : Cell) : Type 0 where
  pub current : MessageProcessingRecord
  pub at : cell ≡ some current
  pub written : MessageProcessingRecord
  pub at' : cell' ≡ some written
  pub newer : written.revision ≡ current.revision + 1
  pub continued : Continues current written

-- How a step changes the cell
pub data Change (cell cell' : Cell) : Type 0 where
  same : cell' ≡ cell → Change cell cell'
  first : cell ≡ none → Change cell cell'
  newer : IsNewer cell cell' → Change cell cell'

pub Change-IsEarlier :
    (cell cell' : Cell) (r : MessageProcessingRecord)
    → Change cell cell'
    → IsEarlier cell r
    → IsEarlier cell' r
Change-IsEarlier cell cell' r (Change.same e) h = rw e h
Change-IsEarlier none cell' r (Change.first e) h = absurd h
Change-IsEarlier (some c) cell' r (Change.first e) h = absurd (ground (arith, e))
Change-IsEarlier none cell' r (Change.newer n) h = absurd h
Change-IsEarlier (some c) cell' r (Change.newer n) h =
    let below : r.revision < n.written.revision = elim h [
      | inl e ↦ ground (arith, n.at, n.newer, e)
      | inr older ↦ ground (arith, n.at, n.newer)
    ] in
    rw n.at' (inr below)

pub Change-CellContinues : (cell cell' : Cell) → Change cell cell' → CellContinues cell cell'
Change-CellContinues none cell' change = tt
Change-CellContinues (some c) cell' (Change.same e) = rw e (Continues-refl c)
Change-CellContinues (some c) cell' (Change.first e) = absurd (ground (arith, e))
Change-CellContinues (some c) cell' (Change.newer n) =
    let e : c ≡ n.current = ground (arith, n.at) in rw n.at' (rw e n.continued)

pub earlier-current :
    (cell : Cell) (r c : MessageProcessingRecord)
    → IsEarlier cell r
    → cell ≡ some c
    → r.revision ≡ c.revision
    → r ≡ c
earlier-current none r c earlier at same_revision = absurd earlier
earlier-current (some d) r c (inl e) at same_revision = ground (arith, e, at)
earlier-current (some d) r c (inr older) at same_revision = absurd (ground (arith, older, at))

stamped-Continues :
    (owner : Text) (lease_ms now_ms : ℕ) (current replacement : MessageProcessingRecord)
    → Continues current replacement
    → (Continues current (stamped owner lease_ms now_ms current replacement))
      × ((stamped owner lease_ms now_ms current replacement).revision ≡ current.revision + 1)
unfolding stamped
stamped-Continues owner lease_ms now_ms current replacement c =
    elim (Bool-cases (is_stage replacement.stage ProcessingStage.complete)) [
      | inl done ↦ (
        record {
          forward = ground (arith, c.forward);
          identity = ground (arith, c.identity);
          kept = ground (arith, c.kept);
        },
        ground arith,
      )
      | inr open_ ↦ (
        record {
          forward = ground (arith, c.forward);
          identity = ground (arith, c.identity);
          kept = ground (arith, c.kept);
        },
        ground arith,
      )
    ]

taken_over-IsNewer :
    (owner : Text) (lease_ms now_ms : ℕ) (cell cell' : Cell) (r : MessageProcessingRecord)
    → cell ≡ some r
    → cell' ≡ some (taken_over owner lease_ms now_ms r)
    → IsNewer cell cell'
unfolding taken_over
taken_over-IsNewer owner lease_ms now_ms cell cell' r at at' = record {
  current = r;
  at = at;
  written = taken_over owner lease_ms now_ms r;
  at' = at';
  newer = refl;
  continued = record { forward = ground arith; identity = refl; kept = inr refl };
}

module _ (settings : DedupSettings) (message_id owner : Text) (now_ms : ℕ) (cell : Cell) where
  pub claim_message-Change : Change cell (claim_message settings message_id owner now_ms cell).1
  claim_message-Change = elim (claim_message-write settings message_id owner now_ms cell) [
    | ClaimWrite.unchanged e ↦ Change.same e
    | ClaimWrite.created e _ ↦ Change.first e
    | ClaimWrite.taken r at e ↦
        Change.newer (taken_over-IsNewer owner settings.lease_ms now_ms cell _ r at e)
  ]

  pub renew_claim-Change : Change cell (renew_claim settings message_id owner now_ms cell).1
  renew_claim-Change = elim (renew_claim-outcome settings message_id owner now_ms cell) [
    | Renewal.refused e _ ↦ Change.same e
    | Renewal.renewed held e ↦ Change.newer (
        taken_over-IsNewer owner settings.lease_ms now_ms cell _ held.current held.at
          (ap (λ p. p.1) e))
  ]

  -- A record that was read is the one that the update finds, if the update stores anything.
  pub mutate_owned-Change :
      (op : Operation) (r : MessageProcessingRecord)
      → IsEarlier cell r
      → Change cell (mutate_owned settings message_id owner op (some r) now_ms cell).1
  mutate_owned-Change op r earlier =
      elim (mutate_owned-outcome settings message_id owner now_ms op (some r) cell) [
        | Mutation.refused e _ ↦ Change.same e
        | Mutation.stored held q replacement at valid same_revision step e ↦
            let same_record : r ≡ q = ground (arith, at) in
            let current : q ≡ held.current =
              earlier-current cell q held.current (rw (sym same_record) earlier) held.at
                same_revision in
            let (continued, next_revision) =
              stamped-Continues owner settings.lease_ms now_ms held.current replacement
                (rw (sym current) (transition-Continues op q replacement valid step)) in
            Change.newer (record {
              current = held.current;
              at = held.at;
              written = stamped owner settings.lease_ms now_ms held.current replacement;
              at' = ap (λ p. p.1) e;
              newer = next_revision;
              continued = continued;
            })
      ]

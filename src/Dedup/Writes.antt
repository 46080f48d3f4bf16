-- ===== src/Dedup/Writes.antt =====
-- Lemmas on how `renew_claim` and `_mutate_owned` of
-- app/services/message_deduplication_service.py end.
use global_detergent_sales_a.Dedup.Validation.{deserialize_record, is_valid_record}
use global_detergent_sales_a.Dedup.Operations.{Operation, transition}
use global_detergent_sales_a.Dedup.Methods.{
  DedupSettings, renew_claim, mutate_owned, commit, plan, get_record, read_status, commit_planned,
}
use global_detergent_sales_a.Prelude.{
  ℕ, Text, ◌≡◌, ◌≢◌, inl, inr, none, some, arith, Bool-cases, refl, ◌==◌, ap, ◌∙◌, true,
}
use global_detergent_sales_a.Exec.{Result, ok, err, bind, Result-cases}
use global_detergent_sales_a.Dedup.{MessageProcessingRecord}
use global_detergent_sales_a.Dedup.Scripts.{
  Cell, Status, renew_script, taken_over, owned_update_script, stamped,
}
use global_detergent_sales_a.Dedup.Refusals.{
  IsHeld, IsRefused, held-cases, update_script-held, renew_script-refuses, update_script-refuses,
  renew_script-held, update_script-changed,
}

module _ (settings : DedupSettings) (message_id owner : Text) (now_ms : ℕ) where
  -- How a renewal ends.
  pub data Renewal (cell : Cell) : Type 0 where
    refused :
        (renew_claim settings message_id owner now_ms cell).1 ≡ cell
        → ((r : MessageProcessingRecord)
            → (renew_claim settings message_id owner now_ms cell).0 ≢ ok r)
        → Renewal cell
    renewed :
        (held : IsHeld owner now_ms cell)
        → renew_claim settings message_id owner now_ms cell ≡ (
          deserialize_record (taken_over owner settings.lease_ms now_ms held.current) message_id,
          some (taken_over owner settings.lease_ms now_ms held.current),
        )
        → Renewal cell

  read_status-refused :
      (answer : Result Status)
      → IsRefused answer
      → (r : MessageProcessingRecord) → read_status message_id answer ≢ ok r
  unfolding read_status
  read_status-refused (ok (Status.done q)) none_done r h = none_done q refl
  read_status-refused (ok Status.missing) none_done r h = ground arith
  read_status-refused (ok Status.complete) none_done r h = ground arith
  read_status-refused (ok Status.not_owner) none_done r h = ground arith
  read_status-refused (ok Status.expired) none_done r h = ground arith
  read_status-refused (ok Status.changed) none_done r h = ground arith
  read_status-refused (err e) none_done r h = ground arith

  pub renew_claim-outcome : (cell : Cell) → Renewal cell
  unfolding renew_claim
  renew_claim-outcome none =
      Renewal.refused (unfold renew_script in refl)
        (λ r h. unfold renew_script read_status in ground arith)
  renew_claim-outcome (some r) = elim (held-cases owner now_ms r) [
    | inr why ↦
        let (same, none_done) = renew_script-refuses owner settings.lease_ms now_ms r why in
        Renewal.refused same
          (read_status-refused (renew_script owner settings.lease_ms now_ms (some r)).0 none_done)
    | inl held ↦ Renewal.renewed held (
        rw (renew_script-held owner settings.lease_ms now_ms (some r) held)
          (unfold read_status in refl))
  ]

  -- How an owned update ends, when the script runs on `cell` and `seen` was read before.
  pub data Mutation (op : Operation) (seen cell : Cell) : Type 0 where
    refused :
        (mutate_owned settings message_id owner op seen now_ms cell).1 ≡ cell
        → ((r : MessageProcessingRecord)
            → (mutate_owned settings message_id owner op seen now_ms cell).0 ≢ ok r)
        → Mutation op seen cell
    stored :
        (held : IsHeld owner now_ms cell) (read replacement : MessageProcessingRecord)
        → seen ≡ some read
        → is_valid_record read ≡ true
        → read.revision ≡ held.current.revision
        → transition op read ≡ ok replacement
        → mutate_owned settings message_id owner op seen now_ms cell ≡ (
          deserialize_record
              (stamped owner settings.lease_ms now_ms held.current replacement)
              message_id,
          some (stamped owner settings.lease_ms now_ms held.current replacement),
        )
        → Mutation op seen cell

  -- A plan was made from the record that was read.
  plan-inv :
      (op : Operation) (seen : Cell) (read replacement : MessageProcessingRecord)
      → bind (get_record settings message_id owner seen) (plan settings message_id owner op)
        ≡ ok (read, replacement)
      → (seen ≡ some read) × (is_valid_record read ≡ true) × (transition op read ≡ ok replacement)
  unfolding get_record plan deserialize_record
  plan-inv op none read replacement h = absurd (ground arith)
  plan-inv op (some r) read replacement h = elim (Result-cases (transition op r)) [
    | inr (e, bad) ↦ absurd (ground (arith, bad))
    | inl (q, moved) ↦ (ground (arith, moved), ground (arith, moved), ground (arith, moved))
  ]

  commit-refuses :
      (read replacement r : MessageProcessingRecord)
      → ((owned_update_script owner read.revision settings.lease_ms replacement now_ms (some r)).1
          ≡ some r)
        × IsRefused
            (owned_update_script owner read.revision settings.lease_ms replacement now_ms
              (some r)).0
      → ((commit settings message_id owner (read, replacement) now_ms (some r)).1 ≡ some r)
        × ((q : MessageProcessingRecord)
            → (commit settings message_id owner (read, replacement) now_ms (some r)).0 ≢ ok q)
  unfolding commit
  commit-refuses read replacement r (same, none_done) = (
    same,
    read_status-refused
        (owned_update_script owner read.revision settings.lease_ms replacement now_ms (some r)).0
        none_done,
  )

  pub mutate_owned-planned :
      (op : Operation) (seen cell : Cell) (read replacement : MessageProcessingRecord)
      → bind (get_record settings message_id owner seen) (plan settings message_id owner op)
        ≡ ok (read, replacement)
      → mutate_owned settings message_id owner op seen now_ms cell
        ≡ commit settings message_id owner (read, replacement) now_ms cell
  unfolding mutate_owned commit_planned
  mutate_owned-planned op seen cell read replacement planned =
      ap (λ p. commit_planned settings message_id owner p now_ms cell) planned

  refused_by :
      (op : Operation) (seen cell : Cell) (read replacement : MessageProcessingRecord)
      → bind (get_record settings message_id owner seen) (plan settings message_id owner op)
        ≡ ok (read, replacement)
      → ((commit settings message_id owner (read, replacement) now_ms cell).1 ≡ cell)
        × ((q : MessageProcessingRecord)
            → (commit settings message_id owner (read, replacement) now_ms cell).0 ≢ ok q)
      → Mutation op seen cell
  refused_by op seen cell read replacement planned (same, none_done) =
      let e = mutate_owned-planned op seen cell read replacement planned in
      Mutation.refused (rw e same) (rw e none_done)

  pub commit-stored :
      (cell : Cell) (held : IsHeld owner now_ms cell) (read replacement : MessageProcessingRecord)
      → read.revision ≡ held.current.revision
      → commit settings message_id owner (read, replacement) now_ms cell ≡ (
        deserialize_record
            (stamped owner settings.lease_ms now_ms held.current replacement)
            message_id,
        some (stamped owner settings.lease_ms now_ms held.current replacement),
      )
  unfolding commit
  commit-stored cell held read replacement same = rw same (
      rw (update_script-held owner settings.lease_ms now_ms cell held replacement)
        (unfold read_status in refl))

  commit-outcome :
      (op : Operation) (seen : Cell) (read replacement : MessageProcessingRecord) (cell : Cell)
      → bind (get_record settings message_id owner seen) (plan settings message_id owner op)
        ≡ ok (read, replacement)
      → Mutation op seen cell
  commit-outcome op seen read replacement none planned =
      refused_by op seen none read replacement planned
        (unfold commit owned_update_script read_status in (refl, λ q h. ground arith))
  commit-outcome op seen read replacement (some r) planned = elim (held-cases owner now_ms r) [
    | inr why ↦ refused_by op seen (some r) read replacement planned (
        commit-refuses read replacement r
          (update_script-refuses owner settings.lease_ms now_ms read.revision replacement r why))
    | inl held ↦ elim (Bool-cases (r.revision == read.revision)) [
      | inr moved ↦ refused_by op seen (some r) read replacement planned (
          commit-refuses read replacement r (
            rw
              (update_script-changed owner settings.lease_ms now_ms read.revision replacement r held
                (ground arith))
              (refl, λ q h. ground arith)))
      | inl same ↦
          let (read_at, valid, step) = plan-inv op seen read replacement planned in
          let same_revision : read.revision ≡ held.current.revision = ground (arith, held.at) in
          Mutation.stored held read replacement read_at valid same_revision step (
            mutate_owned-planned op seen (some r) read replacement planned
            ∙ commit-stored (some r) held read replacement same_revision)
    ]
  ]

  pub mutate_owned-outcome : (op : Operation) (seen cell : Cell) → Mutation op seen cell
  unfolding mutate_owned commit_planned
  mutate_owned-outcome op seen cell =
      elim (Result-cases
        (bind (get_record settings message_id owner seen) (plan settings message_id owner op))) [
          | inr (e', failed) ↦
              let e : mutate_owned settings message_id owner op seen now_ms cell ≡ (err e', cell) =
                ap (λ p. commit_planned settings message_id owner p now_ms cell) failed in
              Mutation.refused (rw e) (λ r h. ground (arith, e))
          | inl ((read, replacement), planned) ↦
              commit-outcome op seen read replacement cell planned
        ]

-- ===== src/Dedup/Progress.antt =====
-- Lemmas on the owner of a message in app/services/message_deduplication_service.py: updates that
-- the stage allows.
use global_detergent_sales_a.Prelude.{
  ℕ, ◌<◌, Text, text_eq_iff, option_text_eq_iff, is_blank, ◌≡◌, refl, ◌∙◌, true, false, some, arith,
  Bool-cases, inl, inr, Bool, Option-cases,
}
use global_detergent_sales_a.Exec.{ok, bind}
use global_detergent_sales_a.Dedup.{ProcessingStage, MessageProcessingRecord, is_stage}
use global_detergent_sales_a.Dedup.Validation.{
  is_valid_record, has_valid_fields, ownership_fits, replay_fits, ids_fit, deliveries_fit,
  optional_nonblank, optional_positive, deserialize_record, validated,
}
use global_detergent_sales_a.Dedup.Scripts.{stamped}
use global_detergent_sales_a.Dedup.Operations.{Operation, transition, completion, when_allowed}
use global_detergent_sales_a.Dedup.Methods.{DedupSettings, get_record, plan, mutate_owned}
use global_detergent_sales_a.Dedup.Refusals.{IsHeld}
use global_detergent_sales_a.Dedup.Transitions.{transition-Continues}
use global_detergent_sales_a.Dedup.Writes.{mutate_owned-planned, commit-stored}

-- A valid replacement is valid after the server has stamped it.
stamped_valid :
    (owner : Text) (lease_ms now_ms : ℕ) (current q : MessageProcessingRecord)
    → is_valid_record q ≡ true
    → is_blank owner ≡ false
    → 0 < now_ms
    → is_valid_record (stamped owner lease_ms now_ms current q) ≡ true
unfolding stamped is_valid_record has_valid_fields ownership_fits replay_fits ids_fit deliveries_fit
    optional_nonblank optional_positive
stamped_valid owner lease_ms now_ms current q valid named started =
    elim (Bool-cases (is_stage q.stage ProcessingStage.complete)) [
      | inl done ↦ ground arith
      | inr open_ ↦ ground arith
    ]

when_allowed_valid :
    (test : Bool) (p q : MessageProcessingRecord)
    → when_allowed test p ≡ ok q
    → is_valid_record q ≡ true
unfolding validated
when_allowed_valid test p q h = ground arith

-- A transition that succeeds gives a valid record.
transition_valid :
    (op : Operation) (r q : MessageProcessingRecord)
    → transition op r ≡ ok q
    → is_valid_record q ≡ true
unfolding transition completion
transition_valid (Operation.save_result m) r q h = when_allowed_valid _ _ q h
transition_valid (Operation.begin_action f) r q h = when_allowed_valid _ _ q h
transition_valid (Operation.not_accepted f) r q h = when_allowed_valid _ _ q h
transition_valid (Operation.mark_text_sent i) r q h = when_allowed_valid _ _ q h
transition_valid (Operation.mark_document_uploaded i) r q h = when_allowed_valid _ _ q h
transition_valid (Operation.mark_document_sent i) r q h = when_allowed_valid _ _ q h
transition_valid Operation.mark_message_processed r q h = elim (Option-cases r.replay) [
  | inl missing ↦ absurd (ground (arith, missing))
  | inr (m, there) ↦ when_allowed_valid _ _ q (rw there at h)
]

stamped-message_id :
    (owner : Text) (lease_ms now_ms : ℕ) (current q : MessageProcessingRecord)
    → (stamped owner lease_ms now_ms current q).message_id ≡ q.message_id
unfolding stamped
stamped-message_id owner lease_ms now_ms current q =
    elim (Bool-cases (is_stage q.stage ProcessingStage.complete)) [
      | inl done ↦ ground arith
      | inr open_ ↦ ground arith
    ]

module _ (settings : DedupSettings) (message_id owner : Text) (now_ms : ℕ) where
  planned :
      (op : Operation) (r q : MessageProcessingRecord)
      → is_valid_record r ≡ true
      → r.message_id ≡ message_id
      → r.owner_token ≡ some owner
      → transition op r ≡ ok q
      → bind (get_record settings message_id owner (some r)) (plan settings message_id owner op)
        ≡ ok (r, q)
  unfolding get_record plan deserialize_record
  planned op r q valid same owned step =
      ground
        (arith, text_eq_iff r.message_id message_id, option_text_eq_iff r.owner_token (some owner))

  -- With validated arguments, an operation that the record's stage allows is stored and returned when the worker owns the
  -- valid record of its message under a running lease, and nothing came between its reading and
  -- its writing: the store then has the replacement, stamped with the next revision.
  pub mutate_owned-stores :
      (op : Operation) (r q : MessageProcessingRecord)
      → is_valid_record r ≡ true
      → r.message_id ≡ message_id
      → IsHeld owner now_ms (some r)
      → transition op r ≡ ok q
      → is_blank owner ≡ false
      → 0 < now_ms
      → mutate_owned settings message_id owner op (some r) now_ms (some r) ≡ (
        ok (stamped owner settings.lease_ms now_ms r q),
        some (stamped owner settings.lease_ms now_ms r q),
      )
  unfolding deserialize_record
  mutate_owned-stores op r q valid same held step named started =
      let current : held.current ≡ r = ground (arith, held.at) in
      let owned : r.owner_token ≡ some owner = ground (arith, held.at, held.owned) in
      let stored =
        commit-stored settings message_id owner now_ms (some r) held r q (rw current refl) in
      let good =
        stamped_valid owner settings.lease_ms now_ms r q (transition_valid op r q step) named
          started in
      let continued = transition-Continues op r q valid step in
      let id : (stamped owner settings.lease_ms now_ms r q).message_id ≡ message_id =
        stamped-message_id owner settings.lease_ms now_ms r q ∙ continued.identity ∙ same in
      mutate_owned-planned settings message_id owner now_ms op (some r) (some r) r q
        (planned op r q valid same owned step)
      ∙ rw current at stored
      ∙ rw (good, (text_eq_iff _ message_id).1 id) refl

-- ===== src/Dedup/Refusals.antt =====
-- Lemmas on the scripts for owners of app/services/message_deduplication_service.py: when they
-- refuse, and what they write.
use global_detergent_sales_a.Prelude.{
  ℕ, ◌<◌, Text, option_text_eq, ◌≡◌, ◌≢◌, ◌⊎◌, inl, inr, none, some, arith, false, ◌≤◌,
  Option-cases, Bool-cases, leb, option_text_eq_iff, leb→le, refl,
}
use global_detergent_sales_a.Exec.{Result, ok}
use global_detergent_sales_a.Dedup.{ProcessingStage, MessageProcessingRecord, is_stage}
use global_detergent_sales_a.Dedup.Scripts.{
  Cell, Status, renew_script, taken_over, owned_update_script, stamped,
}

-- The record in the cell is owned by the worker, whose lease is running.
pub record IsHeld (owner : Text) (now_ms : ℕ) (cell : Cell) : Type 0 where
  pub current : MessageProcessingRecord
  pub at : cell ≡ some current
  pub incomplete : current.stage ≢ ProcessingStage.complete
  pub owned : current.owner_token ≡ some owner
  pub lease : ℕ
  pub leased : current.lease_expires_at_ms ≡ some lease
  pub running : now_ms < lease

abbrev pub IsRefused : Result Status → Type 0
IsRefused answer = (r : MessageProcessingRecord) → answer ≢ ok (Status.done r)

-- Why a script refuses to write over a record.
pub data Refusal (owner : Text) (now_ms : ℕ) (r : MessageProcessingRecord) : Type 0 where
  is_complete : r.stage ≡ ProcessingStage.complete → Refusal owner now_ms r
  not_owned : option_text_eq r.owner_token (some owner) ≡ false → Refusal owner now_ms r
  unleased : r.lease_expires_at_ms ≡ none → Refusal owner now_ms r
  over : (t : ℕ) → r.lease_expires_at_ms ≡ some t → t ≤ now_ms → Refusal owner now_ms r

module _ (owner : Text) (now_ms : ℕ) where
  leased-cases :
      (r : MessageProcessingRecord)
      → r.stage ≢ ProcessingStage.complete
      → r.owner_token ≡ some owner
      → IsHeld owner now_ms (some r) ⊎ Refusal owner now_ms r
  leased-cases r incomplete owned = elim (Option-cases r.lease_expires_at_ms) [
    | inl none_there ↦ inr (Refusal.unleased none_there)
    | inr (t, lease) ↦ elim (Bool-cases (leb t now_ms)) [
      | inl late ↦ inr (Refusal.over t lease (leb→le t now_ms late))
      | inr early ↦ inl (record {
        current = r;
        at = refl;
        incomplete = incomplete;
        owned = owned;
        lease = t;
        leased = lease;
        running = ground arith;
      })
    ]
  ]

  -- A record is held by the worker, or there is a reason to refuse it.
  pub held-cases :
      (r : MessageProcessingRecord) → IsHeld owner now_ms (some r) ⊎ Refusal owner now_ms r
  held-cases r = elim (Bool-cases (is_stage r.stage ProcessingStage.complete)) [
    | inl done ↦ inr (Refusal.is_complete (ground arith))
    | inr open_ ↦ elim (Bool-cases (option_text_eq r.owner_token (some owner))) [
      | inl mine ↦
          leased-cases r (λ e. ground arith)
            ((option_text_eq_iff r.owner_token (some owner)).0 mine)
      | inr other ↦ inr (Refusal.not_owned other)
    ]
  ]

module _ (owner : Text) (lease_ms now_ms : ℕ) where
  pub renew_script-refuses :
      (r : MessageProcessingRecord)
      → Refusal owner now_ms r
      → ((renew_script owner lease_ms now_ms (some r)).1 ≡ some r)
        × IsRefused (renew_script owner lease_ms now_ms (some r)).0
  unfolding renew_script
  renew_script-refuses r (Refusal.is_complete done) = (ground arith, λ q h. ground arith)
  renew_script-refuses r (Refusal.not_owned other) = (ground arith, λ q h. ground arith)
  renew_script-refuses r (Refusal.unleased missing) = (ground arith, λ q h. ground arith)
  renew_script-refuses r (Refusal.over t lease late) = (ground arith, λ q h. ground arith)

  renew_script-renews :
      (r : MessageProcessingRecord) (t : ℕ)
      → r.stage ≢ ProcessingStage.complete
      → r.owner_token ≡ some owner
      → r.lease_expires_at_ms ≡ some t
      → now_ms < t
      → renew_script owner lease_ms now_ms (some r) ≡ (
        ok (Status.done (taken_over owner lease_ms now_ms r)),
        some (taken_over owner lease_ms now_ms r),
      )
  unfolding renew_script
  renew_script-renews r t incomplete owned leased running =
      ground (arith, option_text_eq_iff r.owner_token (some owner))

  module _ (expected : ℕ) (replacement : MessageProcessingRecord) where
    pub update_script-refuses :
        (r : MessageProcessingRecord)
        → Refusal owner now_ms r
        → ((owned_update_script owner expected lease_ms replacement now_ms (some r)).1 ≡ some r)
          × IsRefused (owned_update_script owner expected lease_ms replacement now_ms (some r)).0
    unfolding owned_update_script
    update_script-refuses r (Refusal.is_complete done) = (ground arith, λ q h. ground arith)
    update_script-refuses r (Refusal.not_owned other) = (ground arith, λ q h. ground arith)
    update_script-refuses r (Refusal.unleased missing) = (ground arith, λ q h. ground arith)
    update_script-refuses r (Refusal.over t lease late) = (ground arith, λ q h. ground arith)

    pub update_script-changed :
        (r : MessageProcessingRecord)
        → IsHeld owner now_ms (some r)
        → r.revision ≢ expected
        → owned_update_script owner expected lease_ms replacement now_ms (some r)
          ≡ (ok Status.changed, some r)
    unfolding owned_update_script
    update_script-changed r held ne = ground (
      arith,
      held.at,
      held.incomplete,
      held.owned,
      held.leased,
      held.running,
      option_text_eq_iff r.owner_token (some owner),
    )

    update_script-updates :
        (r : MessageProcessingRecord)
        → IsHeld owner now_ms (some r)
        → r.revision ≡ expected
        → owned_update_script owner expected lease_ms replacement now_ms (some r) ≡ (
          ok (Status.done (stamped owner lease_ms now_ms r replacement)),
          some (stamped owner lease_ms now_ms r replacement),
        )
    unfolding owned_update_script
    update_script-updates r held eq = ground (
      arith,
      held.at,
      held.incomplete,
      held.owned,
      held.leased,
      held.running,
      option_text_eq_iff r.owner_token (some owner),
    )

module _ (owner : Text) (lease_ms now_ms : ℕ) (cell : Cell) (held : IsHeld owner now_ms cell) where
  pub renew_script-held : renew_script owner lease_ms now_ms cell ≡ (
    ok (Status.done (taken_over owner lease_ms now_ms held.current)),
    some (taken_over owner lease_ms now_ms held.current),
  )
  renew_script-held = rw held.at (
      renew_script-renews owner lease_ms now_ms held.current held.lease held.incomplete held.owned
        held.leased held.running)

  abbrev held' : IsHeld owner now_ms (some held.current)
  held' = record {
    current = held.current;
    at = refl;
    incomplete = held.incomplete;
    owned = held.owned;
    lease = held.lease;
    leased = held.leased;
    running = held.running;
  }

  pub update_script-held :
      (replacement : MessageProcessingRecord)
      → owned_update_script owner held.current.revision lease_ms replacement now_ms cell ≡ (
        ok (Status.done (stamped owner lease_ms now_ms held.current replacement)),
        some (stamped owner lease_ms now_ms held.current replacement),
      )
  update_script-held replacement = rw held.at (
      update_script-updates owner lease_ms now_ms held.current.revision replacement held.current
        held' refl)

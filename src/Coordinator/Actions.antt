-- ===== src/Coordinator/Actions.antt =====
-- The calls of the store, the heartbeat and the external actions of
-- app/services/whatsapp_processing_coordinator.py.
use global_detergent_sales_a.Prelude.{
  ℕ, ◌+◌, ◌++◌, Text, Bool, true, false, List, [], ◌∷◌, if◌then◌else◌,
}
use global_detergent_sales_a.Errors.{Error}
use global_detergent_sales_a.Exec.{Result, ok, err, Exec, pure, raise, ◌>>=◌, ◌>>◌}
use global_detergent_sales_a.Dedup.{MessageProcessingRecord}
use global_detergent_sales_a.Dedup.Scripts.{Cell}
use global_detergent_sales_a.Dedup.Expiry.{Key, on_key}
use global_detergent_sales_a.Dedup.Operations.{ActionField, Operation}
use global_detergent_sales_a.Dedup.Methods.{run_renewal, run_operation}
use global_detergent_sales_a.Coordinator.{
  Answer, accepted, failed, rejected, broken, Collaborators, Event, Processing, is_definite,
  may_be_accepted,
}

-- A renewal that fails is the last one.
abbrev pub unless_lost : Result MessageProcessingRecord → Key → Bool × Key → Bool × Key
unless_lost (err e) key rest = (true, key)
unless_lost (ok r) key rest = rest

module _ (c : Collaborators) where
  -- A call of the store, at the server's time of the call, on the key if it has not expired
  abbrev pub store {ℓ} : {A : Type ℓ} → (ℕ → Cell → Result A × Cell) → Exec Processing A
  store f s =
      let (r, key') = on_key c.settings f (c.clock s.calls) s.key in
      (r, record s { key = key'; calls = s.calls + 1 })

  -- A call of another program, which is an event
  abbrev pub request {ℓ} : {A : Type ℓ} → (ℕ → A) → (A → Event) → Exec Processing A
  request ask event s =
      let a = ask s.calls in
      (ok a, record s { calls = s.calls + 1; trace = s.trace ++ (event a ∷ []) })

  module _ (message_id owner : Text) where
    unfoldable pub operate : Operation → Exec Processing MessageProcessingRecord
    operate op =
        store
          (λ now cell. run_operation c.is_printable c.settings op message_id owner cell now cell)

    -- `renew_claim` on the key
    abbrev pub renew_key : ℕ → Key → Result MessageProcessingRecord × Key
    renew_key = on_key c.settings (run_renewal c.is_printable c.settings message_id owner)

    -- The renewals of a heartbeat: the key after them, and whether one of them failed
    unfoldable pub renew_all : List ℕ → Key → Bool × Key
    renew_all [] key = (false, key)
    renew_all (now ∷ times) key =
        let (r, key') = renew_key now key in unless_lost r key' (renew_all times key')

    -- `async with self._claim_heartbeat(...)`: a renewal that fails ends the body by the error of a
    -- lost claim, whatever the body has come to.
    unfoldable pub under_heartbeat {ℓ} : {A : Type ℓ} → Exec Processing A → Exec Processing A
    unfolding renew_all
    under_heartbeat body s =
        let (r, s') = body s in
        let (lost, key') = renew_all (c.renewals s.calls) s'.key in
        (if lost then err Error.processing_retryable else r, record s' { key = key' })

    -- What the three deliveries do with the answer of the transport
    unfoldable pub settle {ℓ} : {A : Type ℓ} → ActionField → Answer A → Exec Processing A
    unfolding operate
    settle f (accepted a) = pure a
    settle f (failed uncertain parts) =
        if is_definite f uncertain parts
        then operate (Operation.not_accepted f) >> raise Error.processing_retryable
        else raise Error.processing_retryable
    settle f rejected = operate (Operation.not_accepted f) >> raise Error.processing_retryable
    settle f (broken e) = raise e

    -- An external action: its beginning is stored, the transport is called, and the answer settled.
    unfoldable pub perform {ℓ} :
        {A : Type ℓ} → ActionField → List Text → (ℕ → Answer A) → Exec Processing A
    unfolding operate under_heartbeat settle
    perform f arguments ask = do
      operate (Operation.begin_action f)
      answer ← under_heartbeat (request ask (λ a. Event.called f arguments (may_be_accepted f a)))
      settle f answer

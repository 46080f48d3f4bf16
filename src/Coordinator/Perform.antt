-- ===== src/Coordinator/Perform.antt =====
-- Lemmas on the external actions of app/services/whatsapp_processing_coordinator.py: one
-- action, from its beginning to the settling of its answer.
use mathlib.Core.Path.{subst}
use global_detergent_sales_a.Prelude.{
  ℕ, Text, ◌≡◌, ◌⊎◌, refl, inl, inr, true, false, List, [], ◌∷◌, arith, Bool-cases, sym, ap, ◌+◌,
}
use global_detergent_sales_a.Errors.{Error}
use global_detergent_sales_a.Exec.{ok, err, Exec, raise, ◌>>=◌, ◌>>◌, >>=-ok, >>=-err, Result-cases}
use global_detergent_sales_a.Dedup.Expiry.{Key, found, on_key}
use global_detergent_sales_a.Dedup.{MessageProcessingRecord}
use global_detergent_sales_a.Dedup.Operations.{ActionField, Operation}
use global_detergent_sales_a.Dedup.Methods.{run_renewal, run_operation}
use global_detergent_sales_a.Coordinator.{
  Answer, Collaborators, Event, Processing, may_be_accepted, is_definite,
}
use global_detergent_sales_a.Coordinator.Actions.{
  request, operate, renew_key, renew_all, under_heartbeat, settle, perform,
}
use global_detergent_sales_a.Coordinator.BegunRecord.{has_begun, same_field, resets}
use global_detergent_sales_a.Coordinator.Begun.{
  run_renewal-begun, run_operation-begun, run_operation-begins,
}
use global_detergent_sales_a.Coordinator.Calls.{
  AtMostOnce, Below, allowed, Grows, Grows-refl, Grows-trans, found-Grows, on_key-Grows, counts,
  on_key-expirations, unless_lost-Grows, Keeps, Keeps-bind, Keeps-if, Keeps-store, Keeps-request,
  bit, bit-le, same_field_refl, lost_or_not, raise-state, accepted_calls-append,
}

module _ (c : Collaborators) (f : ActionField) (message_id owner : Text) where
  pub Keeps-operate :
      (op : Operation) → resets f op ≡ false → Keeps f (operate c message_id owner op)
  unfolding operate
  Keeps-operate op k =
      Keeps-store c f
        (λ now cell. run_operation c.is_printable c.settings op message_id owner cell now cell)
        (λ now cell. run_operation-begun c.is_printable c.settings message_id owner now f op cell k)

  renew_key-Grows :
      (now_ms : ℕ) (key : Key) → Grows f key (renew_key c message_id owner now_ms key).1
  renew_key-Grows now_ms key =
      on_key-Grows f c.settings (run_renewal c.is_printable c.settings message_id owner) now_ms key
        (λ now cell b. run_renewal-begun c.is_printable c.settings message_id owner now f cell b)

  renew_all-Grows :
      (times : List ℕ) (key : Key) → Grows f key (renew_all c message_id owner times key).1
  unfolding renew_all
  renew_all-Grows [] key = Grows-refl f key
  renew_all-Grows (now ∷ times) key =
      let g = renew_key-Grows now key in
      let renewed = renew_key c message_id owner now key in
      unless_lost-Grows f renewed.0 key renewed.1 (renew_all c message_id owner times renewed.1) g
        (Grows-trans g (renew_all-Grows times renewed.1))

  pub Keeps-under_heartbeat {ℓ} :
      {A : Type ℓ} (body : Exec Processing A)
      → Keeps f body
      → Keeps f (under_heartbeat c message_id owner body)
  unfolding under_heartbeat
  Keeps-under_heartbeat body k s h =
      omega (arith, k s h, (renew_all-Grows (c.renewals s.calls) (body s).1.key).allows)

  reset_once {ℓ} :
      (B : Type ℓ) (s : Processing)
      → Below f s
      → AtMostOnce f
          ((operate c message_id owner (Operation.not_accepted f)
              >> raise {A = B} Error.processing_retryable)
            s).1
  unfolding operate
  reset_once B s n =
      let more =
        on_key-expirations f c.settings
          (λ now cell.
            run_operation c.is_printable c.settings (Operation.not_accepted f) message_id owner cell
              now cell)
          (c.clock s.calls) s.key in
      subst (AtMostOnce f)
        (sym (
          raise-state B (operate c message_id owner (Operation.not_accepted f))
            Error.processing_retryable s))
        (omega (arith, n, more))

  -- After an action has begun and while one more call of it is in order, it is called.
  under_heartbeat-begun {ℓ} :
      {A : Type ℓ} (arguments : List Text) (ask : ℕ → Answer A) (s : Processing)
      → Below f s
      → has_begun f s.key.cell ≡ true
      → let event = λ (a : Answer A). Event.called f arguments (may_be_accepted f a) in
        let out = under_heartbeat c message_id owner (request c ask event) s in
        AtMostOnce f out.1
        × (may_be_accepted f (ask s.calls) ≡ false → Below f out.1)
        × ((out.0 ≡ ok (ask s.calls)) ⊎ ((e : Error) × (out.0 ≡ err e)))
  unfolding under_heartbeat
  under_heartbeat-begun arguments ask s z b =
      let event = Event.called f arguments (may_be_accepted f (ask s.calls)) in
      let g = renew_all-Grows (c.renewals s.calls) s.key in
      let n = accepted_calls-append f s.trace event in
      let one = bit-le (counts f event) in
      let started : allowed f s.key ≡ s.key.expirations + 1 = rw b refl in
      (
        omega (arith, n, z, one, started, g.allows),
        λ refused.
            let uncounted : bit (counts f event) ≡ 0 = rw (same_field_refl f, refused) refl in
            omega (arith, n, z, uncounted, g.expires),
        lost_or_not (renew_all c message_id owner (c.renewals s.calls) s.key).0 (ask s.calls),
      )

  -- What is done with an answer keeps the invariant, after the one call that it answers.
  settle-once {ℓ} :
      {A : Type ℓ} (a : Answer A) (s : Processing)
      → AtMostOnce f s
      → (may_be_accepted f a ≡ false → Below f s)
      → AtMostOnce f (settle c message_id owner f a s).1
  unfolding settle
  settle-once (Answer.accepted a) s h n = h
  settle-once {A} (Answer.failed uncertain parts) s h n =
      elim (Bool-cases (is_definite f uncertain parts)) [
        | inl definite ↦ rw definite (reset_once A s (n (rw definite refl)))
        | inr open_ ↦ rw (open_) h
      ]
  settle-once {A} Answer.rejected s h n = reset_once A s (n refl)
  settle-once (Answer.broken e) s h n = h

  Keeps-settle {ℓ} :
      {A : Type ℓ} (g : ActionField) (a : Answer A)
      → same_field f g ≡ false
      → Keeps f (settle c message_id owner g a)
  unfolding settle
  Keeps-settle g (Answer.accepted a) k s h = h
  Keeps-settle {A} g (Answer.failed uncertain parts) k s h =
      Keeps-if f (is_definite g uncertain parts)
        (operate c message_id owner (Operation.not_accepted g)
          >> raise {A = A} Error.processing_retryable)
        (raise {A = A} Error.processing_retryable)
        (Keeps-bind f (operate c message_id owner (Operation.not_accepted g))
          (λ _. raise {A = A} Error.processing_retryable)
          (Keeps-operate (Operation.not_accepted g) k) (λ _ s h. h))
        (λ s h. h) s h
  Keeps-settle {A} g Answer.rejected k s h =
      Keeps-bind f (operate c message_id owner (Operation.not_accepted g))
        (λ _. raise {A = A} Error.processing_retryable) (Keeps-operate (Operation.not_accepted g) k)
        (λ _ s h. h) s h
  Keeps-settle g (Answer.broken e) k s h = h

  -- Another action leaves the calls of this one alone.
  pub Keeps-perform_other {ℓ} :
      {A : Type ℓ} (g : ActionField) (arguments : List Text) (ask : ℕ → Answer A)
      → same_field f g ≡ false
      → Keeps f (perform c message_id owner g arguments ask)
  unfolding perform
  Keeps-perform_other {A} g arguments ask k =
      let event = λ (a : Answer A). Event.called g arguments (may_be_accepted g a) in
      let body = under_heartbeat c message_id owner (request c ask event) in
      Keeps-bind f (operate c message_id owner (Operation.begin_action g))
        (λ _. body >>= settle c message_id owner g) (Keeps-operate (Operation.begin_action g) refl)
        (λ _.
          Keeps-bind f body (settle c message_id owner g)
            (Keeps-under_heartbeat (request c ask event)
              (Keeps-request c f ask event (λ a. rw k refl)))
            (λ a. Keeps-settle g a k))

  -- The call of an action that has begun, while one more call of it is in order
  Keeps-called {ℓ} :
      {A : Type ℓ} (arguments : List Text) (ask : ℕ → Answer A) (s : Processing)
      → Below f s
      → has_begun f s.key.cell ≡ true
      → let event = λ (a : Answer A). Event.called f arguments (may_be_accepted f a) in
        AtMostOnce f
          ((under_heartbeat c message_id owner (request c ask event)
              >>= settle c message_id owner f)
            s).1
  Keeps-called {A} arguments ask s z b =
      let event = λ (a : Answer A). Event.called f arguments (may_be_accepted f a) in
      let body = under_heartbeat c message_id owner (request c ask event) in
      let (h, n, ends) = under_heartbeat-begun arguments ask s z b in
      elim ends [
        | inl returned ↦
            subst (λ p. AtMostOnce f p.1)
              (sym
                (>>=-ok body (settle c message_id owner f) s (ap (λ r. (r, (body s).1)) returned)))
              (settle-once (ask s.calls) (body s).1 h n)
        | inr (e, raised) ↦
            subst (λ p. AtMostOnce f p.1)
              (sym
                (>>=-err body (settle c message_id owner f) s (ap (λ r. (r, (body s).1)) raised)))
              h
      ]

  -- An action that begins was not begun: one more call of it is in order, and it has begun.
  begins-Below :
      (s : Processing) (r : MessageProcessingRecord)
      → (operate c message_id owner (Operation.begin_action f) s).0 ≡ ok r
      → AtMostOnce f s
      → let s' = (operate c message_id owner (Operation.begin_action f) s).1 in
        Below f s' × (has_begun f s'.key.cell ≡ true)
  unfolding operate on_key
  begins-Below s r returned h =
      let now = c.clock s.calls in
      let (before, after) =
        run_operation-begins c.is_printable c.settings message_id owner now f (found now s.key).cell
          returned in
      let g = found-Grows f now s.key in
      let unbegun : allowed f (found now s.key) ≡ (found now s.key).expirations =
        rw before (omega arith) in
      (omega (arith, h, g.allows, unbegun), after)

  -- The action itself: it begins only where one more call is in order.
  pub Keeps-perform_self {ℓ} :
      {A : Type ℓ} (arguments : List Text) (ask : ℕ → Answer A)
      → Keeps f (perform c message_id owner f arguments ask)
  unfolding perform
  Keeps-perform_self {A} arguments ask s h =
      let begin = operate c message_id owner (Operation.begin_action f) in
      let event = λ (a : Answer A). Event.called f arguments (may_be_accepted f a) in
      let call =
        under_heartbeat c message_id owner (request c ask event) >>= settle c message_id owner f in
      elim (Result-cases (begin s).0) [
        | inr (e, raised) ↦
            subst (λ p. AtMostOnce f p.1)
              (sym (>>=-err begin (λ _. call) s (ap (λ r. (r, (begin s).1)) raised)))
              (Keeps-operate (Operation.begin_action f) refl s h)
        | inl (r, returned) ↦
            let (below, begun) = begins-Below s r returned h in
            subst (λ p. AtMostOnce f p.1)
              (sym (>>=-ok begin (λ _. call) s (ap (λ r. (r, (begin s).1)) returned)))
              (Keeps-called arguments ask (begin s).1 below begun)
      ]

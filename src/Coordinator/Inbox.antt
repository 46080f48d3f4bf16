-- ===== src/Coordinator/Inbox.antt =====
-- `process_webhook` of app/services/whatsapp_processing_coordinator.py: the records of all messages,
-- each with the events of its message.
use mathlib.Core.Path.{subst}
use global_detergent_sales_a.Prelude.{
  ℕ, Text, text_eq, inl, inr, Option, none, some, List, [], ◌∷◌, if◌then◌else◌, sym, Bool-cases,
}
use global_detergent_sales_a.Errors.{Error}
use global_detergent_sales_a.Exec.{Exec, pure, raise, outcome-cases, ◌>>=◌, >>=-ok, >>=-err}
use global_detergent_sales_a.Schemas.Whatsapp.{
  WebhookParseOutcome, IncomingMessage, is_message_kind,
}
use global_detergent_sales_a.Dedup.Expiry.{Key}
use global_detergent_sales_a.Dedup.Operations.{ActionField}
use global_detergent_sales_a.Coordinator.{Collaborators, Event, Processing, ProcessingDisposition}
use global_detergent_sales_a.Coordinator.Process.{process_outcome}
use global_detergent_sales_a.Coordinator.Calls.{AtMostOnce}
use global_detergent_sales_a.Coordinator.AtMostOnce.{process_outcome-AtMostOnce}

-- What is stored of each message, its events, and the number of calls made
pub record Inbox : Type 0 where
  pub keys : Text → Key
  pub traces : Text → List Event
  pub calls_made : ℕ

-- The state of one message
abbrev pub at_message_id : Text → Inbox → Processing
at_message_id message_id inbox = record {
  key = inbox.keys message_id;
  calls = inbox.calls_made;
  trace = inbox.traces message_id;
}

unfoldable pub with_processing : Text → Processing → Inbox → Inbox
unfolding text_eq
with_processing message_id s inbox = record {
  keys = λ other. if text_eq message_id other then s.key else inbox.keys other;
  traces = λ other. if text_eq message_id other then s.trace else inbox.traces other;
  calls_made = s.calls;
}

module _ (c : Collaborators) where
  -- The processing of a message that stands under its key
  abbrev pub process_at : Text → WebhookParseOutcome → Exec Inbox ProcessingDisposition
  process_at message_id outcome inbox =
      let (r, s) = process_outcome c outcome (at_message_id message_id inbox) in
      (r, with_processing message_id s inbox)

  abbrev pub process_message_of :
      WebhookParseOutcome → Option IncomingMessage → Exec Inbox ProcessingDisposition
  process_message_of outcome none = raise Error.type_error
  process_message_of outcome (some m) = process_at m.message_id outcome

  -- `process_webhook`
  unfoldable pub process_webhook :
      List WebhookParseOutcome → Exec Inbox (List ProcessingDisposition)
  unfolding process_outcome with_processing
  process_webhook [] = pure []
  process_webhook (outcome ∷ outcomes) =
      let rest = process_webhook outcomes in
      if is_message_kind outcome.kind
      then (do
        disposition ← process_message_of outcome outcome.message
        dispositions ← rest
        pure (disposition ∷ dispositions))
      else rest

-- The invariant of each message of the inbox
abbrev pub AllAtMostOnce : ActionField → Inbox → Type 0
AllAtMostOnce f inbox = (message_id : Text) → AtMostOnce f (at_message_id message_id inbox)

abbrev KeepsAll {ℓ} : {A : Type ℓ} → ActionField → Exec Inbox A → Type 0
KeepsAll f m = (inbox : Inbox) → AllAtMostOnce f inbox → AllAtMostOnce f (m inbox).1

KeepsAll-bind {ℓ κ} :
    {A : Type ℓ} {B : Type κ} (f : ActionField) (m : Exec Inbox A) (g : A → Exec Inbox B)
    → KeepsAll f m
    → ((a : A) → KeepsAll f (g a))
    → KeepsAll f (m >>= g)
KeepsAll-bind f m g km kg inbox h = elim (outcome-cases (m inbox)) [
  | inr (e, after, at) ↦
      subst (λ p. AllAtMostOnce f p.1) (sym (>>=-err m g inbox at))
        (subst (λ p. AllAtMostOnce f p.1) at (km inbox h))
  | inl (a, after, at) ↦
      subst (λ p. AllAtMostOnce f p.1) (sym (>>=-ok m g inbox at))
        (kg a after (subst (λ p. AllAtMostOnce f p.1) at (km inbox h)))
]

with_processing-AllAtMostOnce :
    (f : ActionField) (message_id : Text) (s : Processing) (inbox : Inbox)
    → AtMostOnce f s
    → AllAtMostOnce f inbox
    → AllAtMostOnce f (with_processing message_id s inbox)
unfolding with_processing
with_processing-AllAtMostOnce f message_id s inbox here h other =
    elim (Bool-cases (text_eq message_id other)) [
      | inl same ↦ rw same here
      | inr apart ↦ rw apart (h other)
    ]

module _ (c : Collaborators) (f : ActionField) where
  process_message_of-KeepsAll :
      (outcome : WebhookParseOutcome) (message : Option IncomingMessage)
      → KeepsAll f (process_message_of c outcome message)
  process_message_of-KeepsAll outcome none inbox h = h
  process_message_of-KeepsAll outcome (some m) inbox h =
      let s = at_message_id m.message_id inbox in
      with_processing-AllAtMostOnce f m.message_id (process_outcome c outcome s).1 inbox
        (process_outcome-AtMostOnce c f outcome s (h m.message_id)) h

  -- The processing of a webhook keeps, for every message of the store, the invariant that the
  -- provider may have accepted an external action at most once for each record that has expired, and
  -- once more only if the message's record says that it has begun, also when a message raises and the
  -- later ones are left.
  pub process_webhook-AllAtMostOnce :
      (outcomes : List WebhookParseOutcome) (inbox : Inbox)
      → AllAtMostOnce f inbox
      → AllAtMostOnce f (process_webhook c outcomes inbox).1
  unfolding process_webhook
  process_webhook-AllAtMostOnce [] inbox h = h
  process_webhook-AllAtMostOnce (outcome ∷ outcomes) inbox h =
      elim (Bool-cases (is_message_kind outcome.kind)) [
        | inr ignored ↦ rw ignored (process_webhook-AllAtMostOnce outcomes inbox h)
        | inl actionable ↦ rw actionable (
            KeepsAll-bind f (process_message_of c outcome outcome.message)
              (λ disposition.
                process_webhook c outcomes >>= λ dispositions. pure (disposition ∷ dispositions))
              (process_message_of-KeepsAll outcome outcome.message)
              (λ disposition.
                KeepsAll-bind f (process_webhook c outcomes)
                  (λ dispositions. pure (disposition ∷ dispositions))
                  (process_webhook-AllAtMostOnce outcomes) (λ dispositions inbox h. h))
              inbox h)
      ]

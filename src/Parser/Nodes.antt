-- ===== src/Parser/Nodes.antt =====
-- Lemmas on the outcomes of one node in app/services/whatsapp_parser.py.
use global_detergent_sales_a.Prelude.{
  ℕ, Text, ◌≡◌, refl, inl, inr, true, false, none, some, List, [], ◌∷◌, Bool-cases, All, ◌∙◌, ◌++◌,
  Option,
}
use global_detergent_sales_a.Exec.{Done}
use global_detergent_sales_a.Json.{Json, Items}
use global_detergent_sales_a.Schemas.Whatsapp.{
  WebhookOutcomeKind, WebhookIssueCode, WebhookParseOutcome, IncomingMessage, is_valid_message,
  is_message_kind, is_valid_outcome,
}
use global_detergent_sales_a.Parser.{Location, Parsed, passed, stopped, issue_outcome}
use global_detergent_sales_a.Parser.Message.{message_outcome, is_text_type}
use global_detergent_sales_a.Parser.Steps.{Meets}
use global_detergent_sales_a.Parser.Valid.{TextWithin, IsAccepted}
use global_detergent_sales_a.Parser.Event.{node_outcomes, array_outcomes, if_items, or_outcome}

-- A message, if there is one, that the schema accepts, with a text of at most the limit
abbrev pub IsGoodMessage : ℕ → Option IncomingMessage → Type 0
IsGoodMessage max none = Done
IsGoodMessage max (some m) = (is_valid_message m ≡ true) × TextWithin max m.text

-- An outcome that the schemas accept, whose text is at most as long as the limit
abbrev pub IsGoodOutcome : ℕ → WebhookParseOutcome → Type 0
IsGoodOutcome max o = (is_valid_outcome o ≡ true) × IsGoodMessage max o.message

pub All-append {ℓ κ} :
    {A : Type ℓ} (P : A → Type κ) (xs ys : List A) → All P xs → All P ys → All P (xs ++ ys)
All-append P [] ys h k = k
All-append P (x ∷ xs) ys h k = (h.0, All-append P xs ys h.1 k)

module _ (max : ℕ) where
  pub issue_outcome-IsGood :
      (kind : WebhookOutcomeKind) (code : WebhookIssueCode) (detail : Text) (location : Location)
      → is_message_kind kind ≡ false
      → IsGoodOutcome max (issue_outcome kind code detail location)
  unfolding is_valid_outcome
  issue_outcome-IsGood kind code detail location h = (rw h refl, tt)

  pub message_outcome-IsGood :
      (location : Location) (p : Parsed (Text × IncomingMessage))
      → Meets (IsAccepted max) p
      → IsGoodOutcome max (message_outcome location p)
  unfolding is_valid_outcome
  message_outcome-IsGood location (stopped kind code detail) h =
      issue_outcome-IsGood kind code detail location h
  message_outcome-IsGood location (passed (message_type, m)) (valid, same_type, short) = (
    elim (Bool-cases (is_text_type message_type)) [
      | inl is_text ↦ rw is_text (same_type ∙ is_text)
      | inr other ↦ rw other (rw (same_type ∙ other) refl)
    ],
    (valid, short),
  )

  pub node_outcomes-IsGood {ℓ} :
      {A : Type ℓ} (location : Location) (outcomes : A → List WebhookParseOutcome) (p : Parsed A)
      → Meets (λ _. Done) p
      → ((a : A) → All (IsGoodOutcome max) (outcomes a))
      → All (IsGoodOutcome max) (node_outcomes location outcomes p)
  node_outcomes-IsGood location outcomes (passed a) h k = k a
  node_outcomes-IsGood location outcomes (stopped kind code detail) h k =
      (issue_outcome-IsGood kind code detail location h, tt)

  pub array_outcomes-IsGood :
      (value : Json) (of_items : Items → List WebhookParseOutcome) (wrong : WebhookParseOutcome)
      → ((items : Items) → All (IsGoodOutcome max) (of_items items))
      → IsGoodOutcome max wrong
      → All (IsGoodOutcome max) (array_outcomes value of_items wrong)
  array_outcomes-IsGood Json.null of_items wrong h k = tt
  array_outcomes-IsGood (Json.array items) of_items wrong h k = h items
  array_outcomes-IsGood (Json.boolean b) of_items wrong h k = (k, tt)
  array_outcomes-IsGood (Json.integer i) of_items wrong h k = (k, tt)
  array_outcomes-IsGood (Json.number s) of_items wrong h k = (k, tt)
  array_outcomes-IsGood (Json.string s) of_items wrong h k = (k, tt)
  array_outcomes-IsGood (Json.object members) of_items wrong h k = (k, tt)

  pub if_items-IsGood :
      (o : WebhookParseOutcome) (items : Items)
      → IsGoodOutcome max o
      → All (IsGoodOutcome max) (if_items o items)
  if_items-IsGood o Items.no_more h = tt
  if_items-IsGood o (Items.add_value item items) h = (h, tt)

  pub or_outcome-IsGood :
      (outcomes : List WebhookParseOutcome) (o : WebhookParseOutcome)
      → All (IsGoodOutcome max) outcomes
      → IsGoodOutcome max o
      → All (IsGoodOutcome max) (or_outcome outcomes o)
  or_outcome-IsGood [] o h k = (k, tt)
  or_outcome-IsGood (x ∷ outcomes) o h k = h

-- ===== src/Parser/Valid.antt =====
-- Lemmas on the messages that app/services/whatsapp_parser.py reads.
use mathlib.Core.Path.{subst}
use global_detergent_sales_a.Prelude.{
  ℕ, pos, negsuc, Text, text_eq_iff, codes, strip, length, leb, ◌≤◌, ◌≡◌, refl, inl, inr, true,
  false, Option, none, some, arith, Bool-cases, sym, ◌∙◌,
}
use global_detergent_sales_a.Exec.{Done}
use global_detergent_sales_a.Json.{Json, Members, get}
use global_detergent_sales_a.Schemas.Whatsapp.{
  WebhookOutcomeKind, WebhookIssueCode, IncomingMessage, is_valid_message, text_fits,
}
use global_detergent_sales_a.Parser.{
  Builtins, passed, ◌>>=◌, check, mapping, string_that, is_nonblank_string, is_digit_string,
}
use global_detergent_sales_a.Parser.Message.{
  parse_timestamp, parse_text, new_message, read_message, is_text_type, last_second, digit_limit,
  decimal_value, bounded_body, container_body, message_fields, message_of,
}
use global_detergent_sales_a.Parser.Steps.{
  Meets, Meets-bind, Meets-check, Meets-mapping, Meets-mapping_then, Meets-string_then,
  Meets-string_that, Meets-if,
}

Meets-parse_timestamp :
    (py : Builtins) (value : Json) → Meets (λ _. Done) (parse_timestamp py value)
unfolding parse_timestamp
Meets-parse_timestamp py Json.null = tt
Meets-parse_timestamp py (Json.boolean b) = refl
Meets-parse_timestamp py (Json.integer (pos seconds)) =
    Meets-if (λ _. Done) (leb seconds last_second) _ _ (λ _. tt) (λ _. refl)
Meets-parse_timestamp py (Json.integer (negsuc n)) = refl
Meets-parse_timestamp py (Json.number s) = refl
Meets-parse_timestamp py (Json.string s) =
    Meets-if (λ _. Done) (is_digit_string s) _ _
      (λ _.
        Meets-if (λ _. Done) (leb (length s) digit_limit) _ _
          (λ _.
            Meets-if (λ _. Done) (leb (decimal_value 0 s) last_second) _ _ (λ _. tt) (λ _. refl))
          (λ _. refl))
      (λ _. refl)
Meets-parse_timestamp py (Json.array items) = refl
Meets-parse_timestamp py (Json.object members) = refl

-- The text that a message of a type may have
abbrev pub TextFor : ℕ → Text → Option Text → Type 0
TextFor max_text_length message_type none = is_text_type message_type ≡ false
TextFor max_text_length message_type (some body) =
    (message_type ≡ codes "text") × (length body ≤ max_text_length)

Meets-bounded_body :
    (max : ℕ) (message_type body : Text)
    → message_type ≡ codes "text"
    → Meets (TextFor max message_type) (bounded_body max body)
Meets-bounded_body max message_type body is_text =
    let short = leb (length body) max in
    Meets-bind (λ _. short ≡ true) (TextFor max message_type)
      (check short WebhookOutcomeKind.invalid WebhookIssueCode.oversized_text
        (codes "Text message exceeds the configured length limit"))
      (λ _. passed (some body))
      (Meets-check short WebhookOutcomeKind.invalid WebhookIssueCode.oversized_text
        (codes "Text message exceeds the configured length limit") refl)
      (λ _ fits. (is_text, ground (arith, fits)))

Meets-container_body :
    (max : ℕ) (message_type : Text) (container : Members)
    → message_type ≡ codes "text"
    → Meets (TextFor max message_type) (container_body max container)
Meets-container_body max message_type container is_text =
    Meets-bind (λ body. is_nonblank_string body ≡ true) (TextFor max message_type)
      (string_that is_nonblank_string (get container (codes "body"))
        WebhookIssueCode.invalid_message (codes "Text message body must be a nonblank string"))
      (bounded_body max)
      (Meets-string_that is_nonblank_string (get container (codes "body"))
        WebhookIssueCode.invalid_message (codes "Text message body must be a nonblank string"))
      (λ body _. Meets-bounded_body max message_type body is_text)

Meets-parse_text :
    (max : ℕ) (message_type : Text) (raw : Members)
    → Meets (TextFor max message_type) (parse_text max message_type raw)
unfolding parse_text
Meets-parse_text max message_type raw = elim (Bool-cases (is_text_type message_type)) [
  | inr other ↦ rw other other
  | inl is_text ↦ rw is_text (
      Meets-bind (λ _. Done) (TextFor max message_type)
        (mapping (get raw (codes "text")) WebhookIssueCode.invalid_message
          (codes "Text message requires a text object"))
        (container_body max)
        (Meets-mapping (get raw (codes "text")) WebhookIssueCode.invalid_message
          (codes "Text message requires a text object"))
        (λ container _.
          Meets-container_body max message_type container
            ((text_eq_iff message_type (codes "text")).0 is_text)))
]

-- A text, if there is one, of at most the limit
abbrev pub TextWithin : ℕ → Option Text → Type 0
TextWithin max_text_length none = Done
TextWithin max_text_length (some body) = length body ≤ max_text_length

-- A message that passes is one that the schema accepts, with a text of at most the limit.
abbrev pub IsAccepted : ℕ → Text × IncomingMessage → Type 0
IsAccepted max_text_length (message_type, m) =
    (is_valid_message m ≡ true)
    × (is_text_type m.message_type ≡ is_text_type message_type)
    × TextWithin max_text_length m.text

valid-text_fits : (m : IncomingMessage) → is_valid_message m ≡ true → text_fits m ≡ true
unfolding is_valid_message
valid-text_fits m h = ground (arith, h)

-- A message without a text has no type `text`, if it is valid.
none-not_text :
    (m : IncomingMessage) → m.text ≡ none → text_fits m ≡ true → is_text_type m.message_type ≡ false
unfolding text_fits
none-not_text m no_text h = elim (Bool-cases (is_text_type m.message_type)) [
  | inr other ↦ other
  | inl is_text ↦ absurd (ground (arith, rw (is_text, no_text) at h))
]

module _ (max : ℕ) (message_id sender_phone message_type : Text) (timestamp : Option ℕ) where
  fields-IsAccepted :
      (text : Option Text)
      → TextFor max message_type text
      → let m = message_fields message_id sender_phone message_type text timestamp in
        is_valid_message m ≡ true → IsAccepted max (message_type, m)
  unfolding message_fields
  fields-IsAccepted (some body) (is_text, short) valid =
      (valid, subst (λ t. is_text_type (strip t) ≡ is_text_type t) (sym is_text) refl, short)
  fields-IsAccepted none other valid = (
    valid,
    none-not_text (message_fields message_id sender_phone message_type none timestamp) refl
          (valid-text_fits _ valid)
        ∙ sym other,
    tt,
  )

  Meets-new_message :
      (text : Option Text)
      → TextFor max message_type text
      → Meets
          (λ m. IsAccepted max (message_type, m))
          (new_message message_id sender_phone message_type text timestamp)
  unfolding new_message
  Meets-new_message text fits =
      let m = message_fields message_id sender_phone message_type text timestamp in
      elim (Bool-cases (is_valid_message m)) [
        | inl valid ↦ rw valid (fields-IsAccepted text fits valid)
        | inr wrong ↦ rw wrong refl
      ]

module _ (py : Builtins) (max : ℕ) where
  Meets-message_of :
      (raw : Members) (message_id sender_phone message_type : Text)
      → Meets (IsAccepted max) (message_of py max raw message_id sender_phone message_type)
  Meets-message_of raw message_id sender_phone message_type =
      let made = λ (timestamp : Option ℕ) (text : Option Text).
        new_message message_id sender_phone message_type text timestamp in
      let paired = λ (m : IncomingMessage). passed (message_type, m) in
      Meets-bind (λ _. Done) (IsAccepted max) (parse_timestamp py (get raw (codes "timestamp")))
        (λ timestamp. parse_text max message_type raw >>= λ text. made timestamp text >>= paired)
        (Meets-parse_timestamp py (get raw (codes "timestamp")))
        (λ timestamp _.
          Meets-bind (TextFor max message_type) (IsAccepted max) (parse_text max message_type raw)
            (λ text. made timestamp text >>= paired) (Meets-parse_text max message_type raw)
            (λ text fits.
              Meets-bind (λ m. IsAccepted max (message_type, m)) (IsAccepted max)
                (made timestamp text) paired
                (Meets-new_message max message_id sender_phone message_type timestamp text fits)
                (λ m accepted. accepted)))

  pub Meets-read_message : (raw : Json) → Meets (IsAccepted max) (read_message py max raw)
  unfolding read_message
  Meets-read_message value =
      Meets-mapping_then (IsAccepted max) value WebhookIssueCode.invalid_message
        (codes "Message must be an object") _
        (λ raw.
          Meets-string_then (IsAccepted max) is_nonblank_string (get raw (codes "id"))
            WebhookIssueCode.invalid_message (codes "Message id is required") _
            (λ message_id.
              Meets-string_then (IsAccepted max) is_digit_string (get raw (codes "from"))
                WebhookIssueCode.invalid_message
                (codes "Message sender must be a numeric WhatsApp identifier") _
                (λ sender_phone.
                  Meets-string_then (IsAccepted max) is_nonblank_string (get raw (codes "type"))
                    WebhookIssueCode.invalid_message (codes "Message type is required")
                    (message_of py max raw message_id sender_phone)
                    (Meets-message_of raw message_id sender_phone))))

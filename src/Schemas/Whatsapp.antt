-- ===== src/Schemas/Whatsapp.antt =====
-- app/schemas/whatsapp.py: normalized inbound messages, and the outcomes of parsing a webhook.
-- A timestamp is a number of seconds since the epoch, in UTC.
use global_detergent_sales_a.Prelude.{
  ℕ, Text, text_eq, codes, is_blank, is_empty, all, leb, Bool, true, false, not, ◌&&◌, Option, none,
  some, is_none, is_some, List, [], ◌∷◌, if◌then◌else◌,
}

-- `IncomingMessage`
pub record IncomingMessage : Type 0 where
  pub message_id : Text
  pub sender_phone : Text
  pub message_type : Text
  pub text : Option Text
  pub timestamp : Option ℕ

-- `WebhookOutcomeKind`
pub data WebhookOutcomeKind : Type 0 where
  text_message unsupported_message ignored invalid : WebhookOutcomeKind

-- `WebhookIssueCode`
pub data WebhookIssueCode : Type 0 where
  invalid_envelope invalid_entry invalid_change invalid_metadata : WebhookIssueCode
  invalid_message invalid_timestamp oversized_text status_event non_message_event : WebhookIssueCode

-- `WebhookIssue`
pub record WebhookIssue : Type 0 where
  pub code : WebhookIssueCode
  pub detail : Text

-- `WebhookParseOutcome`
pub record WebhookParseOutcome : Type 0 where
  pub kind : WebhookOutcomeKind
  pub entry_index : Option ℕ
  pub change_index : Option ℕ
  pub message_index : Option ℕ
  pub message : Option IncomingMessage
  pub issue : Option WebhookIssue

-- The kinds that carry a message
abbrev pub is_message_kind : WebhookOutcomeKind → Bool
is_message_kind WebhookOutcomeKind.text_message = true
is_message_kind WebhookOutcomeKind.unsupported_message = true
is_message_kind WebhookOutcomeKind.ignored = false
is_message_kind WebhookOutcomeKind.invalid = false

-- A character of `^[0-9]+$`
abbrev pub is_digit : ℕ → Bool
is_digit c = leb b'0' c && leb c b'9'

-- `require_text_only_for_text_messages`
unfoldable pub text_fits : IncomingMessage → Bool
text_fits m =
    if text_eq m.message_type (codes "text")
    then elim m.text [ none ↦ false | some s ↦ not (is_blank s) ]
    else is_none m.text

-- What the validators of `IncomingMessage` accept
unfoldable pub is_valid_message : IncomingMessage → Bool
unfolding text_fits
is_valid_message m =
    not (is_blank m.message_id)
    && ((not (is_empty m.sender_phone) && all is_digit m.sender_phone)
        && (not (is_blank m.message_type) && text_fits m))

-- The kind of an outcome with a message of this type
abbrev kind_fits : WebhookOutcomeKind → IncomingMessage → Bool
kind_fits WebhookOutcomeKind.text_message m = text_eq m.message_type (codes "text")
kind_fits WebhookOutcomeKind.unsupported_message m = not (text_eq m.message_type (codes "text"))
kind_fits WebhookOutcomeKind.ignored m = false
kind_fits WebhookOutcomeKind.invalid m = false

-- `require_matching_payload`, of the parts
abbrev payload_fits : WebhookOutcomeKind → Option IncomingMessage → Option WebhookIssue → Bool
payload_fits kind none issue = not (is_message_kind kind) && is_some issue
payload_fits kind (some m) issue = is_none issue && kind_fits kind m

-- `require_matching_payload`
unfoldable pub is_valid_outcome : WebhookParseOutcome → Bool
is_valid_outcome o = payload_fits o.kind o.message o.issue

-- `WebhookParseResult.messages`
unfoldable pub messages : List WebhookParseOutcome → List IncomingMessage
messages [] = []
messages (o ∷ outcomes) = elim o.message [
  | none ↦ messages outcomes
  | some m ↦ m ∷ messages outcomes
]

-- `isinstance` of a kind that is reported as `has_invalid_events`
abbrev pub is_invalid_kind : WebhookOutcomeKind → Bool
is_invalid_kind WebhookOutcomeKind.invalid = true
is_invalid_kind WebhookOutcomeKind.text_message = false
is_invalid_kind WebhookOutcomeKind.unsupported_message = false
is_invalid_kind WebhookOutcomeKind.ignored = false

-- ===== src/Parser/Message.antt =====
-- `_parse_message` and `_parse_timestamp` of app/services/whatsapp_parser.py.
use global_detergent_sales_a.Prelude.{
  ℕ, ◌+◌, ◌-◌, ◌*◌, pos, negsuc, Text, text_eq, codes, strip, is_blank, length, leb, Bool, Option,
  none, some, [], ◌∷◌, if◌then◌else◌,
}
use global_detergent_sales_a.Json.{Json, Members, get}
use global_detergent_sales_a.Schemas.Whatsapp.{
  WebhookOutcomeKind, WebhookIssueCode, WebhookParseOutcome, IncomingMessage, is_valid_message,
}
use global_detergent_sales_a.Parser.{
  Builtins, Location, Parsed, passed, stopped, ◌>>=◌, ◌>>◌, check, mapping, string_that,
  is_nonblank_string, is_digit_string, issue_outcome,
}

abbrev refuse_timestamp {ℓ} : {A : Type ℓ} → Text → Parsed A
refuse_timestamp detail =
    stopped WebhookOutcomeKind.invalid WebhookIssueCode.invalid_timestamp detail

-- `int(...)` of a string of digits
unfoldable pub decimal_value : ℕ → Text → ℕ
decimal_value value [] = value
decimal_value value (digit ∷ digits) = decimal_value (value * 10 + (digit - b'0')) digits

-- The last second that `datetime.fromtimestamp` accepts, of the year 9999
abbrev pub last_second : ℕ
last_second = 253402300799

-- How many digits `int` reads in a string
abbrev pub digit_limit : ℕ
digit_limit = 4300

-- `datetime.fromtimestamp(seconds, tz=UTC)`
abbrev from_seconds : ℕ → Parsed (Option ℕ)
from_seconds seconds =
    if leb seconds last_second
    then passed (some seconds)
    else refuse_timestamp (codes "Message timestamp is outside the supported range")

-- `_parse_timestamp`
unfoldable pub parse_timestamp : Builtins → Json → Parsed (Option ℕ)
unfolding decimal_value
parse_timestamp py Json.null = passed none
parse_timestamp py (Json.boolean b) =
    refuse_timestamp (codes "Message timestamp must be Unix seconds")
parse_timestamp py (Json.integer (pos seconds)) = from_seconds seconds
parse_timestamp py (Json.integer (negsuc n)) =
    refuse_timestamp (codes "Message timestamp must be Unix seconds")
parse_timestamp py (Json.number s) =
    refuse_timestamp (codes "Message timestamp must be Unix seconds")
parse_timestamp py (Json.string s) =
    if is_digit_string s
    then (if leb (length s) digit_limit
        then from_seconds (decimal_value 0 s)
        else refuse_timestamp (py.digit_limit_error (length s)))
    else refuse_timestamp (codes "Message timestamp must be Unix seconds")
parse_timestamp py (Json.array items) =
    refuse_timestamp (codes "Message timestamp must be Unix seconds")
parse_timestamp py (Json.object members) =
    refuse_timestamp (codes "Message timestamp must be Unix seconds")

abbrev pub is_text_type : Text → Bool
is_text_type message_type = text_eq message_type (codes "text")

-- The body, unless it is too long
abbrev pub bounded_body : ℕ → Text → Parsed (Option Text)
bounded_body max_text_length body =
    check (leb (length body) max_text_length) WebhookOutcomeKind.invalid
      WebhookIssueCode.oversized_text (codes "Text message exceeds the configured length limit")
    >> passed (some body)

-- The body in the text object of a message
abbrev pub container_body : ℕ → Members → Parsed (Option Text)
container_body max_text_length container =
    string_that is_nonblank_string (get container (codes "body")) WebhookIssueCode.invalid_message
      (codes "Text message body must be a nonblank string")
    >>= bounded_body max_text_length

-- The body of a text message; other messages have no text.
unfoldable pub parse_text : ℕ → Text → Members → Parsed (Option Text)
unfolding is_blank get
parse_text max_text_length message_type raw =
    if is_text_type message_type
    then mapping (get raw (codes "text")) WebhookIssueCode.invalid_message
        (codes "Text message requires a text object")
      >>= container_body max_text_length
    else passed none

-- The fields of `IncomingMessage(...)`, whose validators strip the ID and the type
unfoldable pub message_fields : Text → Text → Text → Option Text → Option ℕ → IncomingMessage
unfolding strip
message_fields message_id sender_phone message_type text timestamp = record {
  message_id = strip message_id;
  sender_phone = sender_phone;
  message_type = strip message_type;
  text = text;
  timestamp = timestamp;
}

-- `IncomingMessage(...)`
unfoldable pub new_message : Text → Text → Text → Option Text → Option ℕ → Parsed IncomingMessage
unfolding is_valid_message message_fields
new_message message_id sender_phone message_type text timestamp =
    let m = message_fields message_id sender_phone message_type text timestamp in
    if is_valid_message m
    then passed m
    else stopped WebhookOutcomeKind.invalid WebhookIssueCode.invalid_message
        (codes "Message fields are invalid")

-- The message with the type that stands in the payload, from the members on
abbrev pub message_of :
    Builtins → ℕ → Members → Text → Text → Text → Parsed (Text × IncomingMessage)
message_of py max_text_length raw message_id sender_phone message_type = do
  timestamp ← parse_timestamp py (get raw (codes "timestamp"))
  text ← parse_text max_text_length message_type raw
  message ← new_message message_id sender_phone message_type text timestamp
  passed (message_type, message)

unfoldable pub read_message : Builtins → ℕ → Json → Parsed (Text × IncomingMessage)
unfolding parse_timestamp parse_text new_message get
read_message py max_text_length raw_message = do
  raw ← mapping raw_message WebhookIssueCode.invalid_message (codes "Message must be an object")
  message_id ←
      string_that is_nonblank_string (get raw (codes "id")) WebhookIssueCode.invalid_message
        (codes "Message id is required")
  sender_phone ←
      string_that is_digit_string (get raw (codes "from")) WebhookIssueCode.invalid_message
        (codes "Message sender must be a numeric WhatsApp identifier")
  message_type ←
      string_that is_nonblank_string (get raw (codes "type")) WebhookIssueCode.invalid_message
        (codes "Message type is required")
  message_of py max_text_length raw message_id sender_phone message_type

-- The outcome of a message that was read, or of the reason why it was not
abbrev pub message_outcome : Location → Parsed (Text × IncomingMessage) → WebhookParseOutcome
message_outcome location (stopped kind code detail) = issue_outcome kind code detail location
message_outcome location (passed (message_type, message)) = record {
  kind =
      if is_text_type message_type
      then WebhookOutcomeKind.text_message
      else WebhookOutcomeKind.unsupported_message;
  entry_index = location.entry_index;
  change_index = location.change_index;
  message_index = location.message_index;
  message = some message;
  issue = none;
}

-- `_parse_message`
unfoldable pub parse_message : Builtins → ℕ → Location → Json → WebhookParseOutcome
unfolding read_message
parse_message py max_text_length location raw_message =
    message_outcome location (read_message py max_text_length raw_message)

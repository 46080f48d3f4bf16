-- ===== src/Parser.antt =====
-- app/services/whatsapp_parser.py: a webhook's payload becomes one outcome for each message and for
-- each node that is ignored or invalid.
-- `repr` is Python's `repr` of a string, and `digit_limit_error` the message of the error of `int`
-- on a string of more digits than Python reads.
pub mod Message
pub mod Event
pub mod Steps
pub mod Valid
pub mod Nodes
pub mod Outcomes
pub mod Siblings
use global_detergent_sales_a.Prelude.{
  ℕ, Text, text_eq, codes, is_blank, is_empty, all, Bool, true, false, not, ◌&&◌, Option, none,
  some,
}
use global_detergent_sales_a.Schemas.Whatsapp.{
  WebhookOutcomeKind, WebhookIssueCode, WebhookParseOutcome, IncomingMessage, is_digit,
}
use global_detergent_sales_a.Json.{Json, Members}
use global_detergent_sales_a.Exec.{Done}

-- What Python's own functions do, as far as the parser uses them
pub record Builtins : Type 0 where
  pub repr : Text → Text
  pub digit_limit_error : ℕ → Text

-- The place of a node: the indices of its entry, its change and its message
pub record Location : Type 0 where
  pub entry_index : Option ℕ
  pub change_index : Option ℕ
  pub message_index : Option ℕ

-- A step of parsing that returns early has a kind, a code and a detail.
pub data Parsed {ℓ} (A : Type ℓ) : Type ℓ where
  passed : A → Parsed A
  stopped : WebhookOutcomeKind → WebhookIssueCode → Text → Parsed A

infixl 5 ◌>>=◌ ◌>>◌
abbrev pub ◌>>=◌ {ℓ κ} : {A : Type ℓ} {B : Type κ} → Parsed A → (A → Parsed B) → Parsed B
◌>>=◌ (passed a) f = f a
◌>>=◌ (stopped kind code detail) f = stopped kind code detail

abbrev pub ◌>>◌ {ℓ κ} : {A : Type ℓ} {B : Type κ} → Parsed A → Parsed B → Parsed B
p >> q = p >>= λ _. q

-- `if not test: return [...]`
abbrev pub check : Bool → WebhookOutcomeKind → WebhookIssueCode → Text → Parsed Done
check true kind code detail = passed tt
check false kind code detail = stopped kind code detail

-- `isinstance(value, Mapping)`
abbrev pub mapping : Json → WebhookIssueCode → Text → Parsed Members
mapping (Json.object members) code detail = passed members
mapping Json.null code detail = stopped WebhookOutcomeKind.invalid code detail
mapping (Json.boolean b) code detail = stopped WebhookOutcomeKind.invalid code detail
mapping (Json.integer i) code detail = stopped WebhookOutcomeKind.invalid code detail
mapping (Json.number s) code detail = stopped WebhookOutcomeKind.invalid code detail
mapping (Json.string s) code detail = stopped WebhookOutcomeKind.invalid code detail
mapping (Json.array items) code detail = stopped WebhookOutcomeKind.invalid code detail

-- A string for which a test holds
abbrev pub string_that : (Text → Bool) → Json → WebhookIssueCode → Text → Parsed Text
string_that p (Json.string s) code detail =
    check (p s) WebhookOutcomeKind.invalid code detail >> passed s
string_that p Json.null code detail = stopped WebhookOutcomeKind.invalid code detail
string_that p (Json.boolean b) code detail = stopped WebhookOutcomeKind.invalid code detail
string_that p (Json.integer i) code detail = stopped WebhookOutcomeKind.invalid code detail
string_that p (Json.number s) code detail = stopped WebhookOutcomeKind.invalid code detail
string_that p (Json.array items) code detail = stopped WebhookOutcomeKind.invalid code detail
string_that p (Json.object members) code detail = stopped WebhookOutcomeKind.invalid code detail

-- `_is_nonblank_string`
abbrev pub is_nonblank_string : Text → Bool
is_nonblank_string s = not (is_blank s)

-- `_is_digit_string`
abbrev pub is_digit_string : Text → Bool
is_digit_string s = not (is_empty s) && all is_digit s

-- `_invalid` and `_ignored`
abbrev pub issue_outcome :
    WebhookOutcomeKind → WebhookIssueCode → Text → Location → WebhookParseOutcome
issue_outcome kind code detail location = record {
  kind = kind;
  entry_index = location.entry_index;
  change_index = location.change_index;
  message_index = location.message_index;
  message = none;
  issue = some (record { code = code; detail = detail });
}

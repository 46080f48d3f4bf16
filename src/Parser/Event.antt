-- ===== src/Parser/Event.antt =====
-- `_parse_change`, `_parse_entry` and `parse_whatsapp_webhook` of app/services/whatsapp_parser.py.
use global_detergent_sales_a.Prelude.{
  ℕ, suc, ◌++◌, ◌==◌, Text, text_eq, codes, Bool, false, none, some, List, [], ◌∷◌, if◌then◌else◌,
}
use global_detergent_sales_a.Errors.{Error}
use global_detergent_sales_a.Exec.{Result, ok, err, Done}
use global_detergent_sales_a.Json.{Json, Items, Members, get}
use global_detergent_sales_a.Schemas.Whatsapp.{
  WebhookOutcomeKind, WebhookIssueCode, WebhookParseOutcome,
}
use global_detergent_sales_a.Parser.{
  Builtins, Location, Parsed, passed, stopped, ◌>>=◌, ◌>>◌, check, mapping, string_that,
  is_nonblank_string, issue_outcome,
}
use global_detergent_sales_a.Parser.Message.{parse_message}

abbrev pub at_change : ℕ → ℕ → Location
at_change entry_index change_index = record {
  entry_index = some entry_index;
  change_index = some change_index;
  message_index = none;
}

abbrev pub at_message : ℕ → ℕ → ℕ → Location
at_message entry_index change_index message_index = record {
  entry_index = some entry_index;
  change_index = some change_index;
  message_index = some message_index;
}

abbrev pub at_entry : ℕ → Location
at_entry entry_index = record {
  entry_index = some entry_index;
  change_index = none;
  message_index = none;
}

abbrev pub nowhere : Location
nowhere = record { entry_index = none; change_index = none; message_index = none }

-- `value == text`
abbrev pub is_string : Json → Text → Bool
is_string (Json.string s) text = text_eq s text
is_string Json.null text = false
is_string (Json.boolean b) text = false
is_string (Json.integer i) text = false
is_string (Json.number s) text = false
is_string (Json.array items) text = false
is_string (Json.object members) text = false

-- `_metadata_error`, where it is used
unfoldable pub check_metadata : Json → Parsed Done
unfolding get
check_metadata metadata = do
  members ←
      mapping metadata WebhookIssueCode.invalid_metadata
        (codes "Message metadata must be an object")
  string_that is_nonblank_string (get members (codes "display_phone_number"))
      WebhookIssueCode.invalid_metadata (codes "Message metadata display_phone_number is required")
  string_that is_nonblank_string (get members (codes "phone_number_id"))
      WebhookIssueCode.invalid_metadata (codes "Message metadata phone_number_id is required")
  passed tt

-- `_parse_change` up to the messages: the value of a change of messages
unfoldable pub change_value : Builtins → Json → Parsed Members
unfolding check_metadata
change_value py change = do
  members ← mapping change WebhookIssueCode.invalid_change (codes "Change must be an object")
  field ←
      string_that is_nonblank_string (get members (codes "field")) WebhookIssueCode.invalid_change
        (codes "Change field is required")
  check (text_eq field (codes "messages")) WebhookOutcomeKind.ignored
      WebhookIssueCode.non_message_event
      (codes "Webhook field " ++ (py.repr field ++ codes " is not a message event"))
  value ←
      mapping (get members (codes "value")) WebhookIssueCode.invalid_change
        (codes "Message change value must be an object")
  check (is_string (get value (codes "messaging_product")) (codes "whatsapp"))
      WebhookOutcomeKind.invalid WebhookIssueCode.invalid_metadata
      (codes "Message change requires messaging_product whatsapp")
  check_metadata (get value (codes "metadata"))
  passed value

-- The loop of `_parse_change` over the messages, from an index on
unfoldable pub parse_messages : Builtins → ℕ → ℕ → ℕ → ℕ → Items → List WebhookParseOutcome
unfolding parse_message
parse_messages py max_text_length entry change index Items.no_more = []
parse_messages py max_text_length entry change index (Items.add_value raw items) =
    parse_message py max_text_length (at_message entry change index) raw
    ∷ parse_messages py max_text_length entry change (suc index) items

-- An array that is there: what its items become, or the outcome of a value that is no array
abbrev pub array_outcomes :
    Json → (Items → List WebhookParseOutcome) → WebhookParseOutcome → List WebhookParseOutcome
array_outcomes Json.null of_items wrong = []
array_outcomes (Json.array items) of_items wrong = of_items items
array_outcomes (Json.boolean b) of_items wrong = wrong ∷ []
array_outcomes (Json.integer i) of_items wrong = wrong ∷ []
array_outcomes (Json.number s) of_items wrong = wrong ∷ []
array_outcomes (Json.string s) of_items wrong = wrong ∷ []
array_outcomes (Json.object members) of_items wrong = wrong ∷ []

abbrev pub if_items : WebhookParseOutcome → Items → List WebhookParseOutcome
if_items outcome Items.no_more = []
if_items outcome (Items.add_value item items) = outcome ∷ []

-- `if not outcomes: outcomes.append(...)`
abbrev pub or_outcome : List WebhookParseOutcome → WebhookParseOutcome → List WebhookParseOutcome
or_outcome [] outcome = outcome ∷ []
or_outcome (o ∷ outcomes) outcome = o ∷ outcomes

-- `_parse_change` from the messages on
unfoldable pub value_outcomes : Builtins → ℕ → ℕ → ℕ → Members → List WebhookParseOutcome
unfolding parse_messages
value_outcomes py max_text_length entry change value =
    let location = at_change entry change in
    or_outcome
      (array_outcomes (get value (codes "messages"))
          (parse_messages py max_text_length entry change 0)
          (issue_outcome WebhookOutcomeKind.invalid WebhookIssueCode.invalid_change
            (codes "Messages must be an array") location)
        ++ array_outcomes (get value (codes "statuses"))
            (if_items (
              issue_outcome WebhookOutcomeKind.ignored WebhookIssueCode.status_event
                (codes "Delivery status event does not require a reply") location))
            (issue_outcome WebhookOutcomeKind.invalid WebhookIssueCode.invalid_change
              (codes "Statuses must be an array") location))
      (issue_outcome WebhookOutcomeKind.ignored WebhookIssueCode.non_message_event
        (codes "Message change contains no incoming messages") location)

-- The outcomes of a node that was read, or the one of the reason why it was not
abbrev pub node_outcomes {ℓ} :
    {A : Type ℓ} → Location → (A → List WebhookParseOutcome) → Parsed A → List WebhookParseOutcome
node_outcomes location outcomes (passed a) = outcomes a
node_outcomes location outcomes (stopped kind code detail) =
    issue_outcome kind code detail location ∷ []

-- `_parse_change`
unfoldable pub parse_change : Builtins → ℕ → ℕ → ℕ → Json → List WebhookParseOutcome
unfolding change_value value_outcomes
parse_change py max_text_length entry index change =
    node_outcomes (at_change entry index) (value_outcomes py max_text_length entry index)
      (change_value py change)

-- The loop of `_parse_entry` over the changes, from an index on
unfoldable pub parse_changes : Builtins → ℕ → ℕ → ℕ → Items → List WebhookParseOutcome
unfolding parse_change
parse_changes py max_text_length entry index Items.no_more = []
parse_changes py max_text_length entry index (Items.add_value change changes) =
    parse_change py max_text_length entry index change
    ++ parse_changes py max_text_length entry (suc index) changes

-- `_is_list(value)` and that it is not empty
abbrev pub nonempty_array : Json → WebhookIssueCode → Text → Parsed Items
nonempty_array (Json.array (Items.add_value item items)) code detail =
    passed (Items.add_value item items)
nonempty_array (Json.array Items.no_more) code detail =
    stopped WebhookOutcomeKind.invalid code detail
nonempty_array Json.null code detail = stopped WebhookOutcomeKind.invalid code detail
nonempty_array (Json.boolean b) code detail = stopped WebhookOutcomeKind.invalid code detail
nonempty_array (Json.integer i) code detail = stopped WebhookOutcomeKind.invalid code detail
nonempty_array (Json.number s) code detail = stopped WebhookOutcomeKind.invalid code detail
nonempty_array (Json.string s) code detail = stopped WebhookOutcomeKind.invalid code detail
nonempty_array (Json.object members) code detail = stopped WebhookOutcomeKind.invalid code detail

unfoldable pub entry_changes : Json → Parsed Items
unfolding get
entry_changes entry = do
  members ← mapping entry WebhookIssueCode.invalid_entry (codes "Entry must be an object")
  string_that is_nonblank_string (get members (codes "id")) WebhookIssueCode.invalid_entry
      (codes "Entry id is required")
  nonempty_array (get members (codes "changes")) WebhookIssueCode.invalid_entry
      (codes "Entry changes must be a nonempty array")

-- `_parse_entry`
unfoldable pub parse_entry : Builtins → ℕ → ℕ → Json → List WebhookParseOutcome
unfolding entry_changes parse_changes
parse_entry py max_text_length index entry =
    node_outcomes (at_entry index) (parse_changes py max_text_length index 0) (entry_changes entry)

-- The loop of `parse_whatsapp_webhook` over the entries, from an index on
unfoldable pub parse_entries : Builtins → ℕ → ℕ → Items → List WebhookParseOutcome
unfolding parse_entry
parse_entries py max_text_length index Items.no_more = []
parse_entries py max_text_length index (Items.add_value entry entries) =
    parse_entry py max_text_length index entry
    ++ parse_entries py max_text_length (suc index) entries

unfoldable pub webhook_entries : Json → Parsed Items
unfolding get
webhook_entries payload = do
  members ←
      mapping payload WebhookIssueCode.invalid_envelope
        (codes "Webhook payload must be a JSON object")
  check (is_string (get members (codes "object")) (codes "whatsapp_business_account"))
      WebhookOutcomeKind.invalid WebhookIssueCode.invalid_envelope
      (codes "Webhook object must be whatsapp_business_account")
  nonempty_array (get members (codes "entry")) WebhookIssueCode.invalid_envelope
      (codes "Webhook entry must be a nonempty array")

-- `parse_whatsapp_webhook`
unfoldable pub parse_whatsapp_webhook : Builtins → Json → ℕ → Result (List WebhookParseOutcome)
unfolding webhook_entries parse_entries
parse_whatsapp_webhook py payload max_text_length =
    if max_text_length == 0
    then err Error.value_error
    else ok (node_outcomes nowhere (parse_entries py max_text_length 0) (webhook_entries payload))

-- ===== src/Parser/Outcomes.antt =====
-- Theorems on the outcomes of `parse_whatsapp_webhook` of app/services/whatsapp_parser.py.
use global_detergent_sales_a.Prelude.{
  ℕ, Text, text_eq, codes, ◌≤◌, ◌≡◌, refl, false, List, arith, All, suc, ◌==◌,
}
use global_detergent_sales_a.Exec.{Done, ok}
use global_detergent_sales_a.Json.{Json, Items, Members, get}
use global_detergent_sales_a.Schemas.Whatsapp.{
  WebhookOutcomeKind, WebhookIssueCode, WebhookParseOutcome,
}
use global_detergent_sales_a.Parser.{Builtins, passed, is_nonblank_string, issue_outcome}
use global_detergent_sales_a.Parser.Message.{read_message, parse_message}
use global_detergent_sales_a.Parser.Steps.{
  Meets, Meets-bind, Meets-mapping_then, Meets-check_then, Meets-string_then,
}
use global_detergent_sales_a.Parser.Valid.{Meets-read_message}
use global_detergent_sales_a.Parser.Event.{
  parse_messages, node_outcomes, at_message, value_outcomes, at_change, check_metadata,
  change_value, nonempty_array, entry_changes, webhook_entries, parse_change, parse_changes,
  parse_entry, parse_entries, parse_whatsapp_webhook, is_string, at_entry, nowhere,
}
use global_detergent_sales_a.Parser.Nodes.{
  IsGoodOutcome, All-append, issue_outcome-IsGood, message_outcome-IsGood, node_outcomes-IsGood,
  array_outcomes-IsGood, if_items-IsGood, or_outcome-IsGood,
}

module _ (py : Builtins) (max : ℕ) where
  parse_messages-IsGood :
      (entry change index : ℕ) (items : Items)
      → All (IsGoodOutcome max) (parse_messages py max entry change index items)
  unfolding parse_messages parse_message
  parse_messages-IsGood entry change index Items.no_more = tt
  parse_messages-IsGood entry change index (Items.add_value raw items) = (
    message_outcome-IsGood max (at_message entry change index) (read_message py max raw)
        (Meets-read_message py max raw),
    parse_messages-IsGood entry change (suc index) items,
  )

  value_outcomes-IsGood :
      (entry change : ℕ) (value : Members)
      → All (IsGoodOutcome max) (value_outcomes py max entry change value)
  unfolding value_outcomes
  value_outcomes-IsGood entry change value =
      let issue = λ (kind : WebhookOutcomeKind) (code : WebhookIssueCode) (detail : Text).
        issue_outcome kind code detail (at_change entry change) in
      or_outcome-IsGood max _ _
        (All-append (IsGoodOutcome max) _ _
          (array_outcomes-IsGood max (get value (codes "messages")) _ _
            (parse_messages-IsGood entry change 0) (issue_outcome-IsGood max _ _ _ _ refl))
          (array_outcomes-IsGood max (get value (codes "statuses")) _ _
            (λ items. if_items-IsGood max _ items (issue_outcome-IsGood max _ _ _ _ refl))
            (issue_outcome-IsGood max _ _ _ _ refl)))
        (issue_outcome-IsGood max _ _ _ _ refl)

  check_metadata-Meets : (metadata : Json) → Meets (λ _. Done) (check_metadata metadata)
  unfolding check_metadata
  check_metadata-Meets metadata =
      Meets-mapping_then (λ _. Done) metadata WebhookIssueCode.invalid_metadata
        (codes "Message metadata must be an object") _
        (λ members.
          Meets-string_then (λ _. Done) is_nonblank_string
            (get members (codes "display_phone_number")) WebhookIssueCode.invalid_metadata
            (codes "Message metadata display_phone_number is required") _
            (λ _.
              Meets-string_then (λ _. Done) is_nonblank_string
                (get members (codes "phone_number_id")) WebhookIssueCode.invalid_metadata
                (codes "Message metadata phone_number_id is required") (λ _. passed tt) (λ _. tt)))

  change_value-Meets : (change : Json) → Meets (λ _. Done) (change_value py change)
  unfolding change_value
  change_value-Meets change =
      Meets-mapping_then (λ _. Done) change WebhookIssueCode.invalid_change
        (codes "Change must be an object") _
        (λ members.
          Meets-string_then (λ _. Done) is_nonblank_string (get members (codes "field"))
            WebhookIssueCode.invalid_change (codes "Change field is required") _
            (λ field.
              Meets-check_then (λ _. Done) (text_eq field (codes "messages"))
                WebhookOutcomeKind.ignored WebhookIssueCode.non_message_event _ _ refl
                (Meets-mapping_then (λ _. Done) (get members (codes "value"))
                  WebhookIssueCode.invalid_change (codes "Message change value must be an object") _
                  (λ value.
                    Meets-check_then (λ _. Done)
                      (is_string (get value (codes "messaging_product")) (codes "whatsapp"))
                      WebhookOutcomeKind.invalid WebhookIssueCode.invalid_metadata _ _ refl
                      (Meets-bind (λ _. Done) (λ _. Done)
                        (check_metadata (get value (codes "metadata"))) (λ _. passed value)
                        (check_metadata-Meets (get value (codes "metadata"))) (λ _ _. tt))))))

  nonempty_array-Meets :
      (value : Json) (code : WebhookIssueCode) (detail : Text)
      → Meets (λ _. Done) (nonempty_array value code detail)
  nonempty_array-Meets (Json.array (Items.add_value item items)) code detail = tt
  nonempty_array-Meets (Json.array Items.no_more) code detail = refl
  nonempty_array-Meets Json.null code detail = refl
  nonempty_array-Meets (Json.boolean b) code detail = refl
  nonempty_array-Meets (Json.integer i) code detail = refl
  nonempty_array-Meets (Json.number s) code detail = refl
  nonempty_array-Meets (Json.string s) code detail = refl
  nonempty_array-Meets (Json.object members) code detail = refl

  entry_changes-Meets : (entry : Json) → Meets (λ _. Done) (entry_changes entry)
  unfolding entry_changes
  entry_changes-Meets entry =
      Meets-mapping_then (λ _. Done) entry WebhookIssueCode.invalid_entry
        (codes "Entry must be an object") _
        (λ members.
          Meets-string_then (λ _. Done) is_nonblank_string (get members (codes "id"))
            WebhookIssueCode.invalid_entry (codes "Entry id is required") _
            (λ _.
              nonempty_array-Meets (get members (codes "changes")) WebhookIssueCode.invalid_entry
                (codes "Entry changes must be a nonempty array")))

  webhook_entries-Meets : (payload : Json) → Meets (λ _. Done) (webhook_entries payload)
  unfolding webhook_entries
  webhook_entries-Meets payload =
      Meets-mapping_then (λ _. Done) payload WebhookIssueCode.invalid_envelope
        (codes "Webhook payload must be a JSON object") _
        (λ members.
          Meets-check_then (λ _. Done)
            (is_string (get members (codes "object")) (codes "whatsapp_business_account"))
            WebhookOutcomeKind.invalid WebhookIssueCode.invalid_envelope _ _ refl
            (nonempty_array-Meets (get members (codes "entry")) WebhookIssueCode.invalid_envelope
              (codes "Webhook entry must be a nonempty array")))

  parse_change-IsGood :
      (entry index : ℕ) (change : Json)
      → All (IsGoodOutcome max) (parse_change py max entry index change)
  unfolding parse_change
  parse_change-IsGood entry index change =
      node_outcomes-IsGood max (at_change entry index) (value_outcomes py max entry index)
        (change_value py change) (change_value-Meets change) (value_outcomes-IsGood entry index)

  parse_changes-IsGood :
      (entry index : ℕ) (changes : Items)
      → All (IsGoodOutcome max) (parse_changes py max entry index changes)
  unfolding parse_changes
  parse_changes-IsGood entry index Items.no_more = tt
  parse_changes-IsGood entry index (Items.add_value change changes) =
      All-append (IsGoodOutcome max) (parse_change py max entry index change) _
        (parse_change-IsGood entry index change) (parse_changes-IsGood entry (suc index) changes)

  parse_entry-IsGood :
      (index : ℕ) (entry : Json) → All (IsGoodOutcome max) (parse_entry py max index entry)
  unfolding parse_entry
  parse_entry-IsGood index entry =
      node_outcomes-IsGood max (at_entry index) (parse_changes py max index 0) (entry_changes entry)
        (entry_changes-Meets entry) (parse_changes-IsGood index 0)

  parse_entries-IsGood :
      (index : ℕ) (entries : Items) → All (IsGoodOutcome max) (parse_entries py max index entries)
  unfolding parse_entries
  parse_entries-IsGood index Items.no_more = tt
  parse_entries-IsGood index (Items.add_value entry entries) =
      All-append (IsGoodOutcome max) (parse_entry py max index entry) _
        (parse_entry-IsGood index entry) (parse_entries-IsGood (suc index) entries)

  -- For every payload, and a limit that is not 0, the parser returns outcomes, and all of them are
  -- accepted by the schemas: an outcome with a message is of the kind of the message's type and has
  -- no issue, the others have an issue, each message is valid, and no text is longer than the limit.
  pub parse_whatsapp_webhook-IsGood :
      (payload : Json)
      → 1 ≤ max
      → (outcomes : List WebhookParseOutcome) × (parse_whatsapp_webhook py payload max
          ≡ ok outcomes)
        × All (IsGoodOutcome max) outcomes
  unfolding parse_whatsapp_webhook
  parse_whatsapp_webhook-IsGood payload one =
      let positive : (max == 0) ≡ false = ground (arith, one) in
      (
        node_outcomes nowhere (parse_entries py max 0) (webhook_entries payload),
        rw positive refl,
        node_outcomes-IsGood max nowhere (parse_entries py max 0) (webhook_entries payload)
            (webhook_entries-Meets payload) (parse_entries-IsGood 0),
      )

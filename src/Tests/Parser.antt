-- ===== src/Tests/Parser.antt =====
-- A webhook on concrete data: two messages, the first of which is malformed.
use mathlib.Core.List.{Memᴰ}
use global_detergent_sales_a.Prelude.{is_blank, codes, ◌≡◌, refl, List, arith, All}
use global_detergent_sales_a.Exec.{ok}
use global_detergent_sales_a.Json.{Json, Items, Members}
use global_detergent_sales_a.Schemas.Whatsapp.{WebhookParseOutcome}
use global_detergent_sales_a.Parser.{Builtins}
use global_detergent_sales_a.Parser.Message.{parse_message}
use global_detergent_sales_a.Parser.Event.{
  at_message, parse_whatsapp_webhook, webhook_entries, entry_changes, change_value,
}
use global_detergent_sales_a.Parser.Nodes.{IsGoodOutcome}
use global_detergent_sales_a.Parser.Outcomes.{parse_whatsapp_webhook-IsGood}
use global_detergent_sales_a.Parser.Siblings.{StandsAt, parse_whatsapp_webhook-keeps_siblings}

abbrev python : Builtins
python = record { repr = λ s. s; digit_limit_error = λ n. codes "too many digits" }

abbrev text_message : Json
text_message = Json.object (
    Members.add_key (codes "id") (Json.string (codes "wamid.1")) (
      Members.add_key (codes "from") (Json.string (codes "123")) (
        Members.add_key (codes "type") (Json.string (codes "text")) (
          Members.add_key (codes "timestamp") (Json.string (codes "17")) (
            Members.add_key (codes "text")
              (Json.object
                (Members.add_key (codes "body") (Json.string (codes "hi")) Members.no_key))
              Members.no_key)))))

abbrev two_messages : Items
two_messages = Items.add_value Json.null (Items.add_value text_message Items.no_more)

abbrev metadata : Members
metadata =
    Members.add_key (codes "display_phone_number") (Json.string (codes "1"))
      (Members.add_key (codes "phone_number_id") (Json.string (codes "2")) Members.no_key)

abbrev event : Members
event = Members.add_key (codes "messaging_product") (Json.string (codes "whatsapp")) (
    Members.add_key (codes "metadata") (Json.object metadata)
      (Members.add_key (codes "messages") (Json.array two_messages) Members.no_key))

abbrev change : Json
change = Json.object (
    Members.add_key (codes "field") (Json.string (codes "messages"))
      (Members.add_key (codes "value") (Json.object event) Members.no_key))

abbrev entry : Json
entry = Json.object (
    Members.add_key (codes "id") (Json.string (codes "e")) (
      Members.add_key (codes "changes") (Json.array (Items.add_value change Items.no_more))
        Members.no_key))

-- The entry stands after one that is malformed.
abbrev payload : Json
payload = Json.object (
    Members.add_key (codes "object") (Json.string (codes "whatsapp_business_account")) (
      Members.add_key (codes "entry")
        (Json.array (Items.add_value Json.null (Items.add_value entry Items.no_more)))
        Members.no_key))

parse_whatsapp_webhook-IsGood_example :
    (outcomes : List WebhookParseOutcome) × (parse_whatsapp_webhook python payload 100
      ≡ ok outcomes)
    × All (IsGoodOutcome 100) outcomes
parse_whatsapp_webhook-IsGood_example =
    parse_whatsapp_webhook-IsGood python 100 payload (omega arith)

message-StandsAt : StandsAt python payload 1 0 1 text_message
unfolding webhook_entries entry_changes change_value is_blank
message-StandsAt = record {
  entries = Items.add_value Json.null (Items.add_value entry Items.no_more);
  entry = entry;
  changes = Items.add_value change Items.no_more;
  change = change;
  value = event;
  payload_passes = refl;
  entry_at = refl;
  entry_passes = refl;
  change_at = refl;
  change_passes = refl;
  message_at = refl;
}

parse_whatsapp_webhook-keeps_siblings_example :
    (outcomes : List WebhookParseOutcome) × (parse_whatsapp_webhook python payload 100
      ≡ ok outcomes)
    × Memᴰ (parse_message python 100 (at_message 1 0 1) text_message) outcomes
parse_whatsapp_webhook-keeps_siblings_example =
    parse_whatsapp_webhook-keeps_siblings python 100 payload 1 0 1 text_message (omega arith)
      message-StandsAt

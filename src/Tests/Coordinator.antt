-- ===== src/Tests/Coordinator.antt =====
-- Runs of the coordinator on concrete data: the first sending of the text ends in a timeout, and the
-- message is delivered to the coordinator again, at once and after the record has expired.
use global_detergent_sales_a.Prelude.{◌+◌, ◌≤◌, refl, codes, true, none, some, List, [], ◌∷◌}
use global_detergent_sales_a.Exec.{ok}
use global_detergent_sales_a.Schemas.Whatsapp.{WebhookOutcomeKind, WebhookParseOutcome}
use global_detergent_sales_a.Dedup.Operations.{ActionField}
use global_detergent_sales_a.Coordinator.{Answer, ConversationReply, Collaborators, Processing}
use global_detergent_sales_a.Coordinator.Calls.{accepted_calls}
use global_detergent_sales_a.Coordinator.AtMostOnce.{process_all, accepted_calls-at_most_once}

abbrev greeting : ConversationReply
greeting = record { response_text = codes "hi"; generated_quote = none; prepared_preview = none }

abbrev timed_out : Collaborators
timed_out = record {
  settings = record {
    lease_ms = 100;
    incomplete_ttl_seconds = 86400;
    completed_ttl_seconds = 604800;
  };
  is_printable = λ s. true;
  path_name = λ s. s;
  owner_token_factory = codes "w1";
  clock = λ n. 1000 + n;
  renewals = λ n. [];
  process_message = λ n sender text. ok greeting;
  acknowledge_successful_delivery = λ n sender fingerprint turn_id. ok tt;
  send_text = λ n sender text. Answer.failed true [];
  upload_document = λ n filename. Answer.rejected;
  send_document = λ n sender media_id filename. Answer.rejected;
}

-- The provider accepts, for another worker, at a later time.
abbrev accepting : Collaborators
accepting = record timed_out {
  owner_token_factory = codes "w2";
  clock = λ n. 2000 + n;
  send_text = λ n sender text. Answer.accepted (some (codes "wamid.2"));
}

abbrev inbound : WebhookParseOutcome
inbound = record {
  kind = WebhookOutcomeKind.text_message;
  entry_index = none;
  change_index = none;
  message_index = none;
  message = some (record {
    message_id = codes "wamid.1";
    sender_phone = codes "123";
    message_type = codes "text";
    text = some (codes "hello");
    timestamp = none;
  });
  issue = none;
}

abbrev unprocessed : Processing
unprocessed = record {
  key = record { cell = none; expires_at_ms = 0; expirations = 0 };
  calls = 0;
  trace = [];
}

-- More than a day later, when the record has expired
abbrev accepting_later : Collaborators
accepting_later = record accepting { clock = λ n. 90000000 + n }

abbrev three_runs : List (Collaborators × WebhookParseOutcome)
three_runs = (timed_out, inbound) ∷ (accepting, inbound) ∷ (accepting_later, inbound) ∷ []

accepted_calls-at_most_once_example :
    accepted_calls ActionField.text_delivery (process_all three_runs unprocessed).trace
    ≤ 1 + (process_all three_runs unprocessed).key.expirations
accepted_calls-at_most_once_example =
    accepted_calls-at_most_once ActionField.text_delivery three_runs unprocessed refl

-- ===== src/Client/Sending.antt =====
-- `send_text` of app/services/whatsapp_service.py.
-- `post` is the HTTP client: how it answers to the part of a number, to a destination, with a body.
use global_detergent_sales_a.Prelude.{
  ℕ, suc, ◌++◌, Text, text_eq, codes, strip, length, is_some, Bool, true, false, Option, none, some,
  List, [], ◌∷◌, if◌then◌else◌, map, ◌⊎◌, inl, inr,
}
use global_detergent_sales_a.Errors.{Error}
use global_detergent_sales_a.Exec.{Result, ok, err}
use global_detergent_sales_a.Json.{Json, Items, get}
use global_detergent_sales_a.Session.Identity.{
  normalize_customer_identity, after_prefix, or_whole, is_sender_id,
}
use global_detergent_sales_a.Client.Split.{split_text_message}
use global_detergent_sales_a.Coordinator.{Answer}

-- How a request ends: in a timeout, in an error of the network, or with a reply, that is a success
-- or not and whose body is JSON or not.
pub data HttpReply : Type 0 where
  timed_out request_error : HttpReply
  replied : Bool → Option Json → HttpReply

-- `TextPartDelivery`
pub record TextPartDelivery : Type 0 where
  pub part_number : ℕ
  pub part_count : ℕ
  pub character_count : ℕ
  pub outbound_message_id : Text

-- How a sending ends: `TextSendResult`, `WhatsAppTextSendError` with its ambiguity and the parts that
-- were delivered, or another error.
pub data Sending : Type 0 where
  sent : List TextPartDelivery → Sending
  send_error : Bool → List TextPartDelivery → Sending
  refused : Error → Sending

-- The ID of a message, as the provider gives it
abbrev provider_id : Json → Option Text
provider_id (Json.string s) =
    let id = strip s in if is_some (after_prefix (codes "wamid.") id) then some id else none
provider_id Json.null = none
provider_id (Json.boolean b) = none
provider_id (Json.integer i) = none
provider_id (Json.number s) = none
provider_id (Json.array items) = none
provider_id (Json.object members) = none

-- The ID in an array of exactly one message
abbrev sole_id : Json → Option Text
sole_id (Json.array (Items.add_value (Json.object message) Items.no_more)) =
    provider_id (get message (codes "id"))
sole_id _ = none

-- The value is the string.
abbrev is_string_value : Json → Text → Bool
is_string_value (Json.string s) text = text_eq s text
is_string_value _ text = false

-- `_outbound_message_id` and `_document_message_id`; `none` is a malformed success.
unfoldable pub success_message_id : Option Json → Option Text
unfolding get after_prefix strip text_eq
success_message_id (some (Json.object payload)) =
    if is_string_value (get payload (codes "messaging_product")) (codes "whatsapp")
    then sole_id (get payload (codes "messages"))
    else none
success_message_id _ = none

-- The destination of an identity, by what stands after `dev:`
abbrev destination_of : Text → Option Text → Result Text
destination_of identity (some id) = err Error.value_error
destination_of identity none =
    let destination = or_whole (after_prefix (codes "+") identity) identity in
    if is_sender_id destination then ok destination else err Error.value_error

-- `_meta_destination`
unfoldable pub meta_destination : Text → Result Text
unfolding normalize_customer_identity after_prefix
meta_destination identity = elim (normalize_customer_identity identity) [
  | err e ↦ err Error.value_error
  | ok normalized ↦ destination_of normalized (after_prefix (codes "dev:") normalized)
]

-- The ID in a success, or the ending of one that is malformed
abbrev pub or_malformed : Option Text → List TextPartDelivery → Sending ⊎ Text
or_malformed none delivered = inl (Sending.send_error true delivered)
or_malformed (some id) delivered = inr id

-- What the loop of `send_text` does with the reply to a part: it goes on with the ID, or ends.
abbrev pub part_reply : HttpReply → List TextPartDelivery → Sending ⊎ Text
part_reply HttpReply.timed_out delivered = inl (Sending.send_error true delivered)
part_reply HttpReply.request_error delivered = inl (Sending.send_error true delivered)
part_reply (HttpReply.replied false body) delivered = inl (Sending.send_error false delivered)
part_reply (HttpReply.replied true body) delivered =
    or_malformed (success_message_id body) delivered

abbrev pub after_reply : Text → Sending ⊎ Text → (Text → List Text × Sending) → List Text × Sending
after_reply part (inl ending) next = (part ∷ [], ending)
after_reply part (inr id) next = (part ∷ (next id).0, (next id).1)

-- The parts that the loop posts from a number on, and how it ends
module _ (post : ℕ → Text → Text → HttpReply) (destination : Text) (part_count : ℕ) where
  abbrev pub new_delivery : ℕ → Text → Text → TextPartDelivery
  new_delivery number part id = record {
    part_number = number;
    part_count = part_count;
    character_count = length part;
    outbound_message_id = id;
  }

  unfoldable pub send_parts : ℕ → List TextPartDelivery → List Text → List Text × Sending
  unfolding success_message_id
  send_parts number delivered [] = ([], Sending.sent delivered)
  send_parts number delivered (part ∷ parts) =
      after_reply part (part_reply (post number destination part) delivered)
        (λ id. send_parts (suc number) (delivered ++ (new_delivery number part id ∷ [])) parts)

-- The sending of a text that was split
abbrev pub send_split :
    (ℕ → Text → Text → HttpReply)
    → Text
    → Option (Result (List Text))
    → Option (List Text × Sending)
send_split post destination none = none
send_split post destination (some (err e)) = some ([], Sending.refused e)
send_split post destination (some (ok parts)) =
    some (send_parts post destination (length parts) 1 [] parts)

-- `META_TEXT_BODY_LIMIT`
abbrev pub meta_text_body_limit : ℕ
meta_text_body_limit = 4096

module _ (combining : ℕ → ℕ) (post : ℕ → Text → Text → HttpReply) where
  -- The sending to a destination, unless it is not valid
  unfoldable pub send_to : Text → Result Text → Option (List Text × Sending)
  unfolding split_text_message send_parts
  send_to text (err e) = some ([], Sending.refused e)
  send_to text (ok destination) =
      send_split post destination (split_text_message combining text meta_text_body_limit)

  -- `send_text`: the bodies that were posted, and how it ended; `none` is the splitting's loop
  -- without fuel.
  unfoldable pub send_text : Text → Text → Option (List Text × Sending)
  unfolding meta_destination send_to
  send_text to text = send_to text (meta_destination to)

-- `TextSendResult.outbound_message_id`
abbrev pub sole_message_id : List TextPartDelivery → Option Text
sole_message_id [] = none
sole_message_id (part ∷ []) = some part.outbound_message_id
sole_message_id (part ∷ other ∷ parts) = none

-- The ending as the coordinator sees it
abbrev pub text_answer : Sending → Answer (Option Text)
text_answer (Sending.sent parts) = Answer.accepted (sole_message_id parts)
text_answer (Sending.send_error uncertain delivered) =
    Answer.failed uncertain (map (λ p. p.outbound_message_id) delivered)
text_answer (Sending.refused Error.type_error) = Answer.rejected
text_answer (Sending.refused Error.value_error) = Answer.rejected
text_answer (Sending.refused e) = Answer.broken e

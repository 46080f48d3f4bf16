-- ===== src/Session/Identity.antt =====
-- `normalize_customer_identity` and `session_key` of app/services/session_service.py.
use global_detergent_sales_a.Prelude.{
  ℕ, ◌++◌, leb, ◌==◌, Text, codes, strip, length, is_empty, all, Bool, false, not, ◌&&◌, ◌||◌, [],
  ◌∷◌, if◌then◌else◌, Option, none, some,
}
use global_detergent_sales_a.Errors.{Error}
use global_detergent_sales_a.Exec.{Result, ok, err, bind}
use global_detergent_sales_a.Schemas.Whatsapp.{is_digit}

-- What stands after a prefix, if the text has it
unfoldable pub after_prefix : Text → Text → Option Text
after_prefix [] text = some text
after_prefix (p ∷ prefix) [] = none
after_prefix (p ∷ prefix) (c ∷ text) =
    let rest = after_prefix prefix text in if p == c then rest else none

-- A character of `[A-Za-z0-9]`
abbrev pub is_session_start : ℕ → Bool
is_session_start c = is_digit c || (leb b'A' c && leb c b'Z') || (leb b'a' c && leb c b'z')

-- A character of `[A-Za-z0-9._-]`
abbrev pub is_session_character : ℕ → Bool
is_session_character c = is_session_start c || c == b'.' || c == b'_' || c == b'-'

-- `_DEVELOPMENT_SESSION_ID`
unfoldable pub is_development_session_id : Text → Bool
is_development_session_id [] = false
is_development_session_id (c ∷ text) =
    is_session_start c && (all is_session_character text && leb (length text) 127)

-- `_WHATSAPP_SENDER_ID`
abbrev pub is_sender_id : Text → Bool
is_sender_id digits = not (is_empty digits) && all is_digit digits

-- `removeprefix`
abbrev pub or_whole : Option Text → Text → Text
or_whole none text = text
or_whole (some rest) text = rest

-- The identity of a stripped text, by what stands after the prefix of development identities
unfoldable pub stripped_identity : Text → Option Text → Result Text
unfolding after_prefix is_development_session_id
stripped_identity identity (some session_id) =
    if is_development_session_id session_id
    then ok (codes "dev:" ++ session_id)
    else err Error.value_error
stripped_identity identity none =
    let digits = or_whole (after_prefix (codes "+") identity) identity in
    if is_sender_id digits then ok (codes "+" ++ digits) else err Error.value_error

-- `normalize_customer_identity`
unfoldable pub normalize_customer_identity : Text → Result Text
unfolding strip after_prefix stripped_identity
normalize_customer_identity customer_phone =
    let identity = strip customer_phone in
    stripped_identity identity (after_prefix (codes "dev:") identity)

-- `session_key`
unfoldable pub session_key : Text → Result Text
unfolding normalize_customer_identity
session_key customer_phone =
    bind (normalize_customer_identity customer_phone)
      λ identity. ok (codes "gdf:session:" ++ identity)

-- ===== src/Webhook.antt =====
-- app/services/whatsapp_webhook_security.py: the checks at the boundary of the WhatsApp webhook.
-- A header and a secret are texts; the HMAC-SHA256 of a body, in hexadecimal, is a parameter.
pub mod Security
use global_detergent_sales_a.Prelude.{
  ℕ, ◌+◌, ◌++◌, Text, text_eq, codes, strip, is_blank, length, all, Bool, true, false, not, ◌||◌,
  ◌&&◌, Option, none, some, List, [], ◌∷◌, ltb, ◌==◌, if◌then◌else◌, option_text_eq,
}
use global_detergent_sales_a.Errors.{Error}
use global_detergent_sales_a.Exec.{Result, ok, err}

-- `hmac.compare_digest` of two texts, which must be ASCII
unfoldable pub compare_digest : Text → Text → Result Bool
compare_digest a b =
    if all (λ c. ltb c 128) a && all (λ c. ltb c 128) b
    then ok (text_eq a b)
    else err Error.type_error

-- `s.startswith("<")`
unfoldable pub opens_placeholder : Text → Bool
opens_placeholder [] = false
opens_placeholder (c ∷ s) = c == 60

-- `s.endswith(">")`
unfoldable pub closes_placeholder : Text → Bool
closes_placeholder [] = false
closes_placeholder (c ∷ []) = c == 62
closes_placeholder (c ∷ d ∷ s) = closes_placeholder (d ∷ s)

-- `_usable_secret`, of a value that is there
unfoldable pub is_usable : Text → Bool
unfolding opens_placeholder closes_placeholder
is_usable value =
    not (is_blank value)
    && not (opens_placeholder (strip value) && closes_placeholder (strip value))

-- `_usable_secret`
unfoldable pub usable_secret : Option Text → Bool
unfolding is_usable
usable_secret none = false
usable_secret (some value) = is_usable value

-- `not challenge`
abbrev pub is_missing : Option Text → Bool
is_missing none = true
is_missing (some []) = true
is_missing (some (_ ∷ _)) = false

-- The comparison of `verify_webhook_subscription`, after its first test
unfoldable pub compare_tokens : Option Text → Option Text → Result Bool
unfolding compare_digest
compare_tokens none configured_token = ok false
compare_tokens (some verify_token) none = ok false
compare_tokens (some verify_token) (some token) = compare_digest verify_token token

unfoldable pub verify_webhook_subscription :
    Option Text → Option Text → Option Text → Option Text → Result Bool
unfolding usable_secret compare_tokens
verify_webhook_subscription mode verify_token challenge configured_token =
    if not (option_text_eq mode (some (codes "subscribe")))
      || (is_missing challenge || not (usable_secret configured_token))
    then ok false
    else compare_tokens verify_token configured_token

module _ (hexdigest : Text → List ℕ → Text) where
  -- `META_SIGNATURE_PREFIX + hmac.new(...).hexdigest()`
  unfoldable pub expected_signature : Text → List ℕ → Text
  expected_signature app_secret raw_body = codes "sha256=" ++ hexdigest app_secret raw_body

  -- The comparison of `verify_webhook_signature`, with a header and a secret that are there
  unfoldable pub compare_signatures : List ℕ → Text → Text → Result Bool
  unfolding expected_signature compare_digest
  compare_signatures raw_body signature_header app_secret =
      if length signature_header == length (codes "sha256=") + 64
      then compare_digest (expected_signature app_secret raw_body) signature_header
      else ok false

  unfoldable pub verify_webhook_signature : List ℕ → Option Text → Option Text → Result Bool
  unfolding is_usable compare_signatures
  verify_webhook_signature raw_body none app_secret = ok false
  verify_webhook_signature raw_body (some signature_header) none = ok false
  verify_webhook_signature raw_body (some signature_header) (some app_secret) =
      if is_usable app_secret
      then compare_signatures raw_body signature_header app_secret
      else ok false

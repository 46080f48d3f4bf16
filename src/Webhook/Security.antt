-- ===== src/Webhook/Security.antt =====
-- Lemmas on the checks of app/services/whatsapp_webhook_security.py.
use global_detergent_sales_a.Prelude.{
  ℕ, ◌++◌, Text, text_eq_iff, option_text_eq_iff, codes, ◌≡◌, refl, true, false, Option, none, some,
  List, arith, ap, sym,
}
use global_detergent_sales_a.Exec.{ok}
use global_detergent_sales_a.Webhook.{
  compare_digest, is_usable, usable_secret, is_missing, verify_webhook_subscription,
  verify_webhook_signature, compare_tokens, compare_signatures, expected_signature,
}

compare_digest-equal : (a b : Text) → compare_digest a b ≡ ok true → a ≡ b
unfolding compare_digest
compare_digest-equal a b h = ground (arith, text_eq_iff a b)

-- A payload is accepted only with a usable app secret and a header that is exactly the prefix and
-- the digest of that very payload under that secret.
pub verify_webhook_signature-authentic :
    (hexdigest : Text → List ℕ → Text) (raw_body : List ℕ)
    (signature_header app_secret : Option Text)
    → verify_webhook_signature hexdigest raw_body signature_header app_secret ≡ ok true
    → (secret : Text) × (app_secret ≡ some secret)
      × (is_usable secret ≡ true)
      × (signature_header ≡ some (codes "sha256=" ++ hexdigest secret raw_body))
unfolding verify_webhook_signature compare_signatures expected_signature
verify_webhook_signature-authentic hexdigest raw_body none secret h = absurd (ground arith)
verify_webhook_signature-authentic hexdigest raw_body (some header) none h = absurd (ground arith)
verify_webhook_signature-authentic hexdigest raw_body (some header) (some secret) h =
    let same =
      compare_digest-equal (codes "sha256=" ++ hexdigest secret raw_body) header (ground arith) in
    (secret, refl, ground arith, ap some (sym same))

-- A subscription is accepted only in the mode "subscribe", with a challenge that is not empty, and
-- with a token that equals the configured one, which is usable.
pub verify_webhook_subscription-authentic :
    (mode verify_token challenge configured_token : Option Text)
    → verify_webhook_subscription mode verify_token challenge configured_token ≡ ok true
    → (token : Text) × (configured_token ≡ some token)
      × (is_usable token ≡ true)
      × (verify_token ≡ some token)
      × (mode ≡ some (codes "subscribe"))
      × (is_missing challenge ≡ false)
unfolding verify_webhook_subscription compare_tokens usable_secret
verify_webhook_subscription-authentic mode none challenge configured h = absurd (ground arith)
verify_webhook_subscription-authentic mode (some given) challenge none h = absurd (ground arith)
verify_webhook_subscription-authentic mode (some given) challenge (some token) h =
    let same = compare_digest-equal given token (ground arith) in
    (
      token,
      refl,
      ground arith,
      ap some same,
      ground (arith, option_text_eq_iff mode (some (codes "subscribe"))),
      ground arith,
    )

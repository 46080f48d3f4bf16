-- ===== src/Tests/Webhook.antt =====
-- The checks of the webhook on concrete requests.
use global_detergent_sales_a.Prelude.{
  ℕ, ◌++◌, Text, text_eq, option_text_eq, strip, is_blank, codes, ◌≡◌, refl, true, false, some,
  List, [], ◌∷◌,
}
use global_detergent_sales_a.Exec.{ok}
use global_detergent_sales_a.Webhook.{
  compare_digest, is_usable, usable_secret, is_missing, verify_webhook_subscription,
  verify_webhook_signature, compare_tokens, compare_signatures, expected_signature,
  opens_placeholder, closes_placeholder,
}
use global_detergent_sales_a.Webhook.Security.{
  verify_webhook_signature-authentic, verify_webhook_subscription-authentic,
}

-- A digest of 64 characters, whatever is digested
abbrev digest : Text → List ℕ → Text
digest secret body = codes "0123456789abcdef0123456789abcdef0123456789abcdef0123456789abcdef"

signed :
    verify_webhook_signature digest
      (1 ∷ [])
      (some (codes "sha256=0123456789abcdef0123456789abcdef0123456789abcdef0123456789abcdef"))
      (some (codes "k"))
    ≡ ok true
unfolding verify_webhook_signature compare_signatures expected_signature compare_digest is_usable
    opens_placeholder closes_placeholder strip is_blank text_eq
signed = refl

verify_webhook_signature-authentic_example :
    (secret : Text) × (some (codes "k") ≡ some secret)
    × (is_usable secret ≡ true)
    × (some (codes "sha256=0123456789abcdef0123456789abcdef0123456789abcdef0123456789abcdef")
        ≡ some (codes "sha256=" ++ digest secret (1 ∷ [])))
verify_webhook_signature-authentic_example =
    verify_webhook_signature-authentic digest (1 ∷ [])
      (some (codes "sha256=0123456789abcdef0123456789abcdef0123456789abcdef0123456789abcdef"))
      (some (codes "k")) signed

subscribed :
    verify_webhook_subscription
      (some (codes "subscribe"))
      (some (codes "t"))
      (some (codes "c"))
      (some (codes "t"))
    ≡ ok true
unfolding verify_webhook_subscription compare_tokens usable_secret compare_digest is_usable
    opens_placeholder closes_placeholder strip is_blank text_eq option_text_eq
subscribed = refl

verify_webhook_subscription-authentic_example :
    (token : Text) × (some (codes "t") ≡ some token)
    × (is_usable token ≡ true)
    × (some (codes "t") ≡ some token)
    × (some (codes "subscribe") ≡ some (codes "subscribe"))
    × (is_missing (some (codes "c")) ≡ false)
verify_webhook_subscription-authentic_example =
    verify_webhook_subscription-authentic (some (codes "subscribe")) (some (codes "t"))
      (some (codes "c")) (some (codes "t")) subscribed

-- ===== src/Parser/Steps.antt =====
-- What the steps of app/services/whatsapp_parser.py pass on, and the kind of the outcome where one
-- stops.
use global_detergent_sales_a.Prelude.{Text, ◌≡◌, refl, Bool, true, false, if◌then◌else◌}
use global_detergent_sales_a.Exec.{Done}
use global_detergent_sales_a.Json.{Json, Members}
use global_detergent_sales_a.Schemas.Whatsapp.{
  WebhookOutcomeKind, WebhookIssueCode, is_message_kind,
}
use global_detergent_sales_a.Parser.{
  ◌>>◌, Parsed, passed, stopped, ◌>>=◌, check, mapping, string_that,
}

-- A step that passes has a value that meets the condition; one that stops has an outcome without a
-- message.
abbrev pub Meets {ℓ} : {A : Type ℓ} → (A → Type 0) → Parsed A → Type 0
Meets P (passed a) = P a
Meets P (stopped kind code detail) = is_message_kind kind ≡ false

pub Meets-bind {ℓ κ} :
    {A : Type ℓ} {B : Type κ} (P : A → Type 0) (Q : B → Type 0) (p : Parsed A) (f : A → Parsed B)
    → Meets P p
    → ((a : A) → P a → Meets Q (f a))
    → Meets Q (p >>= f)
Meets-bind P Q (passed a) f h k = k a h
Meets-bind P Q (stopped kind code detail) f h k = h

pub Meets-check :
    (b : Bool) (kind : WebhookOutcomeKind) (code : WebhookIssueCode) (detail : Text)
    → is_message_kind kind ≡ false
    → Meets (λ _. b ≡ true) (check b kind code detail)
Meets-check true kind code detail h = refl
Meets-check false kind code detail h = h

pub Meets-mapping :
    (value : Json) (code : WebhookIssueCode) (detail : Text)
    → Meets (λ _. Done) (mapping value code detail)
Meets-mapping (Json.object members) code detail = tt
Meets-mapping Json.null code detail = refl
Meets-mapping (Json.boolean b) code detail = refl
Meets-mapping (Json.integer i) code detail = refl
Meets-mapping (Json.number s) code detail = refl
Meets-mapping (Json.string s) code detail = refl
Meets-mapping (Json.array items) code detail = refl

pub Meets-string_that :
    (p : Text → Bool) (value : Json) (code : WebhookIssueCode) (detail : Text)
    → Meets (λ s. p s ≡ true) (string_that p value code detail)
Meets-string_that p (Json.string s) code detail =
    Meets-bind (λ _. p s ≡ true) (λ s. p s ≡ true)
      (check (p s) WebhookOutcomeKind.invalid code detail) (λ _. passed s)
      (Meets-check (p s) WebhookOutcomeKind.invalid code detail refl) (λ _ h. h)
Meets-string_that p Json.null code detail = refl
Meets-string_that p (Json.boolean b) code detail = refl
Meets-string_that p (Json.integer i) code detail = refl
Meets-string_that p (Json.number s) code detail = refl
Meets-string_that p (Json.array items) code detail = refl
Meets-string_that p (Json.object members) code detail = refl

pub Meets-mapping_then {ℓ} :
    {B : Type ℓ} (Q : B → Type 0) (value : Json) (code : WebhookIssueCode) (detail : Text)
    (f : Members → Parsed B)
    → ((raw : Members) → Meets Q (f raw))
    → Meets Q (mapping value code detail >>= f)
Meets-mapping_then Q value code detail f k =
    Meets-bind (λ _. Done) Q (mapping value code detail) f (Meets-mapping value code detail)
      (λ raw _. k raw)

pub Meets-string_then {ℓ} :
    {B : Type ℓ} (Q : B → Type 0) (p : Text → Bool) (value : Json) (code : WebhookIssueCode)
    (detail : Text) (f : Text → Parsed B)
    → ((s : Text) → Meets Q (f s))
    → Meets Q (string_that p value code detail >>= f)
Meets-string_then Q p value code detail f k =
    Meets-bind (λ s. p s ≡ true) Q (string_that p value code detail) f
      (Meets-string_that p value code detail) (λ s _. k s)

pub Meets-if {ℓ} :
    {A : Type ℓ} (P : A → Type 0) (b : Bool) (p q : Parsed A)
    → (b ≡ true → Meets P p)
    → (b ≡ false → Meets P q)
    → Meets P (if b then p else q)
Meets-if P true p q h k = h refl
Meets-if P false p q h k = k refl

pub Meets-check_then {ℓ} :
    {B : Type ℓ} (Q : B → Type 0) (b : Bool) (kind : WebhookOutcomeKind) (code : WebhookIssueCode)
    (detail : Text) (p : Parsed B)
    → is_message_kind kind ≡ false
    → Meets Q p
    → Meets Q (check b kind code detail >> p)
Meets-check_then Q true kind code detail p h k = k
Meets-check_then Q false kind code detail p h k = h

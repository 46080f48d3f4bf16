-- ===== src/Session/Canonical.antt =====
-- Theorems on the identities of app/services/session_service.py.
use mathlib.Core.Path.{subst}
use mathlib.Core.List.{reverse, reverse_aux, reverse-reverse}
use global_detergent_sales_a.Prelude.{
  ℕ, ◌++◌, Text, codes, strip, lstrip, is_space, all, ◌≡◌, ◌⊎◌, refl, inl, inr, Bool, true, not, [],
  ◌∷◌, arith, Bool-cases, Option, none, some, sym,
}
use global_detergent_sales_a.Exec.{ok}
use global_detergent_sales_a.Schemas.Whatsapp.{is_digit}
use global_detergent_sales_a.Session.Identity.{
  after_prefix, is_session_start, is_session_character, is_development_session_id, is_sender_id,
  or_whole, stripped_identity, normalize_customer_identity,
}

-- An identity of the development, or of a phone
abbrev pub IsCanonical : Text → Type 0
IsCanonical identity =
    ((id : Text) × (is_development_session_id id ≡ true) × (identity ≡ codes "dev:" ++ id))
    ⊎ ((digits : Text) × (is_sender_id digits ≡ true) × (identity ≡ codes "+" ++ digits))

abbrev is_visible : ℕ → Bool
is_visible c = not (is_space c)

all-reverse_aux :
    (p : ℕ → Bool) (xs acc : Text)
    → all p xs ≡ true
    → all p acc ≡ true
    → all p (reverse_aux xs acc) ≡ true
all-reverse_aux p [] acc h k = k
all-reverse_aux p (x ∷ xs) acc h k =
    all-reverse_aux p xs (x ∷ acc) (ground (arith, h)) (ground (arith, h, k))

lstrip-visible : (s : Text) → all is_visible s ≡ true → lstrip s ≡ s
unfolding lstrip
lstrip-visible [] h = refl
lstrip-visible (c ∷ s) h = elim (Bool-cases (is_space c)) [
  | inl space ↦ absurd (ground (arith, space, h))
  | inr visible ↦ rw visible refl
]

strip-visible : (s : Text) → all is_visible s ≡ true → strip s ≡ s
unfolding strip
strip-visible s h =
    rw (lstrip-visible s h, lstrip-visible (reverse s) (all-reverse_aux is_visible s [] h refl))
      (reverse-reverse s)

all-implies :
    (p q : ℕ → Bool) (s : Text)
    → ((c : ℕ) → p c ≡ true → q c ≡ true)
    → all p s ≡ true
    → all q s ≡ true
all-implies p q [] k h = refl
all-implies p q (c ∷ s) k h =
    let first : p c ≡ true = ground (arith, h) in
    let others : all p s ≡ true = ground (arith, h) in
    rw (k c first, all-implies p q s k others) refl

digit-visible : (c : ℕ) → is_digit c ≡ true → is_visible c ≡ true
unfolding is_space
digit-visible c h = ground (arith, h)

session_character-visible : (c : ℕ) → is_session_character c ≡ true → is_visible c ≡ true
unfolding is_space
session_character-visible c h = ground (arith, h)

development-visible :
    (id : Text) → is_development_session_id id ≡ true → all is_visible (codes "dev:" ++ id) ≡ true
unfolding is_development_session_id is_space
development-visible [] h = absurd (ground (arith, h))
development-visible (c ∷ id) h =
    let first : is_session_start c ≡ true = ground (arith, h) in
    let character : is_session_character c ≡ true = rw first refl in
    let others : all is_session_character id ≡ true = ground (arith, h) in
    rw
      (
        session_character-visible c character,
        all-implies is_session_character is_visible id session_character-visible others,
      )
      refl

sender-visible :
    (digits : Text) → is_sender_id digits ≡ true → all is_visible (codes "+" ++ digits) ≡ true
unfolding is_space
sender-visible digits h =
    let every : all is_digit digits ≡ true = ground (arith, h) in
    rw (all-implies is_digit is_visible digits digit-visible every) refl

IsCanonical-normalize :
    (identity : Text) → IsCanonical identity → normalize_customer_identity identity ≡ ok identity
unfolding normalize_customer_identity after_prefix stripped_identity
IsCanonical-normalize identity (inl (id, valid, same)) =
    subst (λ t. normalize_customer_identity t ≡ ok t) (sym same)
      (rw (strip-visible (codes "dev:" ++ id) (development-visible id valid)) (rw valid refl))
IsCanonical-normalize identity (inr (digits, valid, same)) =
    subst (λ t. normalize_customer_identity t ≡ ok t) (sym same)
      (rw (strip-visible (codes "+" ++ digits) (sender-visible digits valid)) (rw valid refl))

stripped_identity-IsCanonical :
    (text : Text) (rest : Option Text) {identity : Text}
    → stripped_identity text rest ≡ ok identity
    → IsCanonical identity
unfolding stripped_identity
stripped_identity-IsCanonical text (some id) h = elim (Bool-cases (is_development_session_id id)) [
  | inl valid ↦ inl (id, valid, ground (arith, rw valid at h))
  | inr wrong ↦ absurd (ground (arith, rw wrong at h))
]
stripped_identity-IsCanonical text none h =
    let digits = or_whole (after_prefix (codes "+") text) text in
    elim (Bool-cases (is_sender_id digits)) [
      | inl valid ↦ inr (digits, valid, ground (arith, rw valid at h))
      | inr wrong ↦ absurd (ground (arith, rw wrong at h))
    ]

-- An identity that `normalize_customer_identity` returns is `dev:` with a valid ID of a session or
-- `+` with digits, and normalizing it again gives it back.
pub normalize_customer_identity-IsCanonical :
    (customer_phone : Text) {identity : Text}
    → normalize_customer_identity customer_phone ≡ ok identity
    → IsCanonical identity × (normalize_customer_identity identity ≡ ok identity)
unfolding normalize_customer_identity
normalize_customer_identity-IsCanonical customer_phone {identity} h =
    let canonical =
      stripped_identity-IsCanonical (strip customer_phone)
        (after_prefix (codes "dev:") (strip customer_phone)) h in
    (canonical, IsCanonical-normalize identity canonical)

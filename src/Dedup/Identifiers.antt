-- ===== src/Dedup/Identifiers.antt =====
-- Lemmas on the identifiers and the arguments that the methods of
-- app/services/message_deduplication_service.py validate.
use mathlib.Core.List.{reverse, reverse_aux}
use global_detergent_sales_a.Prelude.{
  ℕ, ◌≤◌, ◌≡◌, ◌∙◌, refl, sym, inl, inr, Bool, true, false, ◌&&◌, Bool-cases, Text, strip, lstrip,
  is_space, is_blank, is_empty, length, all, Option, none, some, [], ◌∷◌, arith,
}
use global_detergent_sales_a.Exec.{ok}
use global_detergent_sales_a.Dedup.Operations.{
  Operation, validate_identifier, optional_identifier, validate_arguments,
}
use global_detergent_sales_a.Dedup.Methods.{DedupSettings, validate_identity_pair}

lstrip-all : (s : Text) → all is_space (lstrip s) ≡ all is_space s
unfolding lstrip
lstrip-all [] = refl
lstrip-all (x ∷ s) = elim (Bool-cases (is_space x)) [
  | inl space ↦ rw space (lstrip-all s)
  | inr visible ↦ rw visible (rw visible refl)
]

is_empty-lstrip : (s : Text) → is_empty (lstrip s) ≡ all is_space s
unfolding lstrip
is_empty-lstrip [] = refl
is_empty-lstrip (x ∷ s) = elim (Bool-cases (is_space x)) [
  | inl space ↦ rw space (is_empty-lstrip s)
  | inr visible ↦ rw visible refl
]

and_swap : (a b d : Bool) → (b && (a && d)) ≡ ((a && b) && d)
and_swap true true d = refl
and_swap true false d = refl
and_swap false true d = refl
and_swap false false d = refl

all-reverse_onto :
    (xs acc : Text) → all is_space (reverse_aux xs acc) ≡ (all is_space xs && all is_space acc)
all-reverse_onto [] acc = refl
all-reverse_onto (x ∷ xs) acc =
    all-reverse_onto xs (x ∷ acc) ∙ and_swap (is_space x) (all is_space xs) (all is_space acc)

and_true : (a : Bool) → (a && true) ≡ a
and_true true = refl
and_true false = refl

all-reverse : (s : Text) → all is_space (reverse s) ≡ all is_space s
all-reverse s = all-reverse_onto s [] ∙ and_true (all is_space s)

is_empty-reverse_onto :
    (xs : Text) (y : ℕ) (acc : Text) → is_empty (reverse_aux xs (y ∷ acc)) ≡ false
is_empty-reverse_onto [] y acc = refl
is_empty-reverse_onto (x ∷ xs) y acc = is_empty-reverse_onto xs x (y ∷ acc)

is_empty-reverse : (s : Text) → is_empty (reverse s) ≡ is_empty s
is_empty-reverse [] = refl
is_empty-reverse (x ∷ s) = is_empty-reverse_onto s x []

is_blank-all : (s : Text) → is_blank s ≡ all is_space s
unfolding is_blank strip
is_blank-all s =
    is_empty-reverse (lstrip (reverse (lstrip s)))
    ∙ is_empty-lstrip (reverse (lstrip s))
    ∙ all-reverse (lstrip s)
    ∙ lstrip-all s

strip-all : (s : Text) → all is_space (strip s) ≡ all is_space s
unfolding strip
strip-all s =
    all-reverse (lstrip (reverse (lstrip s)))
    ∙ lstrip-all (reverse (lstrip s))
    ∙ all-reverse (lstrip s)
    ∙ lstrip-all s

pub is_blank-strip : (s : Text) → is_blank (strip s) ≡ is_blank s
is_blank-strip s = is_blank-all (strip s) ∙ strip-all s ∙ sym (is_blank-all s)

abbrev strip_optional : Option Text → Option Text
strip_optional none = none
strip_optional (some value) = some (strip value)

-- An operation with its identifiers stripped
abbrev pub with_stripped : Operation → Operation
with_stripped (Operation.save_result m) = Operation.save_result m
with_stripped (Operation.begin_action f) = Operation.begin_action f
with_stripped (Operation.not_accepted f) = Operation.not_accepted f
with_stripped (Operation.mark_text_sent i) = Operation.mark_text_sent (strip_optional i)
with_stripped (Operation.mark_document_uploaded i) = Operation.mark_document_uploaded (strip i)
with_stripped (Operation.mark_document_sent i) = Operation.mark_document_sent (strip_optional i)
with_stripped Operation.mark_message_processed = Operation.mark_message_processed

module _ (is_printable : Text → Bool) where
  -- A text that is not blank, and is printable and not too long when stripped
  pub record IsIdentifier (maximum : ℕ) (value : Text) : Type 0 where
    pub named : is_blank value ≡ false
    pub short : length (strip value) ≤ maximum
    pub printable : is_printable (strip value) ≡ true

  -- An identifier that may be missing
  abbrev pub IsOptionalIdentifier : Option Text → Type 0
  IsOptionalIdentifier none = Unit
  IsOptionalIdentifier (some value) = IsIdentifier 512 value

  -- The identifiers among an operation's arguments are identifiers.
  abbrev pub HasIdentifiers : Operation → Type 0
  HasIdentifiers (Operation.save_result m) = Unit
  HasIdentifiers (Operation.begin_action f) = Unit
  HasIdentifiers (Operation.not_accepted f) = Unit
  HasIdentifiers (Operation.mark_text_sent i) = IsOptionalIdentifier i
  HasIdentifiers (Operation.mark_document_uploaded i) = IsIdentifier 512 i
  HasIdentifiers (Operation.mark_document_sent i) = IsOptionalIdentifier i
  HasIdentifiers Operation.mark_message_processed = Unit

  pub validate_identifier-accepts :
      (maximum : ℕ) (value : Text)
      → IsIdentifier maximum value
      → validate_identifier is_printable maximum value ≡ ok (strip value)
  unfolding validate_identifier
  validate_identifier-accepts maximum value h = ground (arith, h.named, h.short, h.printable)

  optional_identifier-accepts :
      (value : Option Text)
      → IsOptionalIdentifier value
      → optional_identifier is_printable value ≡ ok (strip_optional value)
  unfolding optional_identifier
  optional_identifier-accepts none h = refl
  optional_identifier-accepts (some value) h = rw (validate_identifier-accepts 512 value h) refl

  pub validate_identity_pair-accepts :
      (settings : DedupSettings) (message_id owner_token : Text)
      → IsIdentifier 512 message_id
      → IsIdentifier 128 owner_token
      → validate_identity_pair is_printable settings message_id owner_token
        ≡ ok (strip message_id, strip owner_token)
  unfolding validate_identity_pair
  validate_identity_pair-accepts settings message_id owner_token h k =
      rw
        (
          validate_identifier-accepts 512 message_id h,
          validate_identifier-accepts 128 owner_token k,
        )
        refl

  pub validate_arguments-accepts :
      (op : Operation)
      → HasIdentifiers op
      → validate_arguments is_printable op ≡ ok (with_stripped op)
  unfolding validate_arguments
  validate_arguments-accepts (Operation.save_result m) h = refl
  validate_arguments-accepts (Operation.begin_action f) h = refl
  validate_arguments-accepts (Operation.not_accepted f) h = refl
  validate_arguments-accepts (Operation.mark_text_sent i) h =
      rw (optional_identifier-accepts i h) refl
  validate_arguments-accepts (Operation.mark_document_uploaded i) h =
      rw (validate_identifier-accepts 512 i h) refl
  validate_arguments-accepts (Operation.mark_document_sent i) h =
      rw (optional_identifier-accepts i h) refl
  validate_arguments-accepts Operation.mark_message_processed h = refl

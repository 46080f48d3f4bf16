-- ===== src/Tests/Client.antt =====
-- The splitting and the sending of texts on concrete data.
use global_detergent_sales_a.Prelude.{
  ℕ, zero, suc, ◌-◌, ◌≤◌, ◌<◌, ◌≡◌, ◌⊎◌, refl, Text, codes, length, All, true, false, Option, none,
  some, List, [], ◌∷◌, arith, is_blank, if◌then◌else◌, ◌==◌,
}
use global_detergent_sales_a.Exec.{ok}
use global_detergent_sales_a.Json.{Json}
use global_detergent_sales_a.Client.Split.{split_text_message, is_unicode_boundary}
use global_detergent_sales_a.Client.Boundary.{IsCut}
use global_detergent_sales_a.Client.Rounds.{concat, ends}
use global_detergent_sales_a.Client.Parts.{split_text_message-parts, split_text_message-Succeeds}
use global_detergent_sales_a.Client.Sending.{HttpReply, Sending, send_text}
use global_detergent_sales_a.Client.Delivery.{send_text-may_be_accepted}

-- The combining acute accent is the only combining character here.
abbrev accents : ℕ → ℕ
accents c = if c == 769 then 230 else 0

-- Two words, the second of which ends with an accent
abbrev words : Text
words = b'a' ∷ b'b' ∷ 32 ∷ b'c' ∷ b'd' ∷ 769 ∷ []

abbrev word_parts : List Text
word_parts = (b'a' ∷ b'b' ∷ 32 ∷ []) ∷ (b'c' ∷ b'd' ∷ 769 ∷ []) ∷ []

words-split : split_text_message accents words 4 ≡ some (ok word_parts)
unfolding split_text_message
words-split = refl

split_text_message-parts_example :
    (concat word_parts ≡ words)
    × All (λ part. (1 ≤ length part) × (length part ≤ 4)) word_parts
    × All (λ at. is_unicode_boundary accents words at ≡ true) (ends 0 word_parts)
split_text_message-parts_example = split_text_message-parts accents words 4 words-split

-- Every range of four characters within the words has a boundary.
words-cuttable : (start : ℕ) → 4 < length words - start → (at : ℕ) × IsCut accents words start 4 at
unfolding is_unicode_boundary
words-cuttable zero h = (1, (omega arith, omega arith, refl))
words-cuttable (suc zero) h = (2, (omega arith, omega arith, refl))
words-cuttable (suc (suc n)) h = absurd (omega (arith, h))

split_text_message-Succeeds_example :
    (parts : List Text) × (split_text_message accents words 4 ≡ some (ok parts))
unfolding is_blank
split_text_message-Succeeds_example =
    split_text_message-Succeeds accents words 4 refl (omega arith) words-cuttable

-- The provider refuses the first part.
abbrev refusing : ℕ → Text → Text → HttpReply
refusing number destination body = HttpReply.replied false none

refused-sent :
    send_text accents refusing (codes "+12") (codes "hi")
    ≡ some (codes "hi" ∷ [], Sending.send_error false [])
unfolding send_text
refused-sent = refl

send_text-may_be_accepted_example :
    (codes "hi" ∷ [] ≡ [])
    ⊎ ((destination part : Text) × (body : Option Json) × (codes "hi" ∷ [] ≡ part ∷ [])
        × (refusing 1 destination part ≡ HttpReply.replied false body))
send_text-may_be_accepted_example =
    send_text-may_be_accepted accents refusing (codes "+12") (codes "hi") refused-sent refl

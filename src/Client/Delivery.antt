-- ===== src/Client/Delivery.antt =====
-- Theorems on `send_text` of app/services/whatsapp_service.py: what was posted, by how it ended.
use mathlib.Core.Path.{subst}
use global_detergent_sales_a.Prelude.{
  ℕ, ◌≤◌, ◌≡◌, ◌⊎◌, refl, inl, inr, Text, length, true, false, Option, none, some, List, [], ◌∷◌,
  arith, All, ap, sym, ◌∙◌,
}
use global_detergent_sales_a.Errors.{Error}
use global_detergent_sales_a.Exec.{Result, ok, err}
use global_detergent_sales_a.Json.{Json}
use global_detergent_sales_a.Dedup.Operations.{ActionField}
use global_detergent_sales_a.Coordinator.{may_be_accepted}
use global_detergent_sales_a.Client.Split.{split_text_message}
use global_detergent_sales_a.Client.Rounds.{concat}
use global_detergent_sales_a.Client.Parts.{split_text_message-parts}
use global_detergent_sales_a.Client.Sending.{
  HttpReply, TextPartDelivery, Sending, meta_destination, send_split, meta_text_body_limit,
  send_text, text_answer, send_to,
}
use global_detergent_sales_a.Client.Loop.{
  Loop, send_parts-Loop, Loop-sent, Loop-not_refused, Loop-definite,
}

-- An option's value, if it has one
out_of : Option (List Text × Sending) → List Text × Sending → List Text × Sending
out_of none other = other
out_of (some out) other = out

-- A sending that ended before anything was posted, or in the loop over the parts
abbrev Ended :
    (ℕ → Text → Text → HttpReply) → Option (Result (List Text)) → List Text × Sending → Type 0
Ended post split out =
    ((e : Error) × (out ≡ ([], Sending.refused e)))
    ⊎ ((destination : Text) × (parts : List Text) × (split ≡ some (ok parts))
        × Loop post destination 1 [] parts out)

send_split-Ended :
    (post : ℕ → Text → Text → HttpReply) (destination : Text) (split : Option (Result (List Text)))
    {out : List Text × Sending}
    → send_split post destination split ≡ some out
    → Ended post split out
unfolding out_of
send_split-Ended post destination none h = absurd (ground (arith, h))
send_split-Ended post destination (some (err e)) {out} h = inl (e, sym (ap (λ o. out_of o out) h))
send_split-Ended post destination (some (ok parts)) {out} h = inr (
  destination,
  parts,
  refl,
  subst (Loop post destination 1 [] parts) (ap (λ o. out_of o out) h)
      (send_parts-Loop post destination (length parts) 1 [] parts),
)

all_posted :
    (ending : Sending)
    → may_be_accepted ActionField.text_delivery (text_answer ending) ≡ false
    → ((e : Error) × (ending ≡ Sending.refused e)) ⊎ (ending ≡ Sending.send_error false [])
all_posted (Sending.sent parts) h = absurd (ground (arith, h))
all_posted (Sending.refused e) h = inl (e, refl)
all_posted (Sending.send_error true ds) h = absurd (ground (arith, h))
all_posted (Sending.send_error false []) h = inr refl
all_posted (Sending.send_error false (d ∷ ds)) h = absurd (ground (arith, h))

module _ (combining : ℕ → ℕ) (post : ℕ → Text → Text → HttpReply) (to text : Text) where
  send_to-Ended :
      (destination : Result Text) {out : List Text × Sending}
      → send_to combining post text destination ≡ some out
      → Ended post (split_text_message combining text meta_text_body_limit) out
  unfolding send_to out_of
  send_to-Ended (err e) {out} h = inl (e, sym (ap (λ o. out_of o out) h))
  send_to-Ended (ok destination) h =
      send_split-Ended post destination (split_text_message combining text meta_text_body_limit) h

  send_text-Ended :
      {out : List Text × Sending}
      → send_text combining post to text ≡ some out
      → Ended post (split_text_message combining text meta_text_body_limit) out
  unfolding send_text
  send_text-Ended h = send_to-Ended (meta_destination to) h

  -- When the sending of a text succeeds, the bodies that were posted make the text together, none is
  -- empty or longer than the provider's limit, and as many parts are reported as were posted.
  pub send_text-concat :
      {posted : List Text} {delivered : List TextPartDelivery}
      → send_text combining post to text ≡ some (posted, Sending.sent delivered)
      → (concat posted ≡ text)
        × All (λ body. (1 ≤ length body) × (length body ≤ meta_text_body_limit)) posted
        × (length delivered ≡ length posted)
  send_text-concat {posted} {delivered} h = elim (send_text-Ended h) [
    | inl (e, same) ↦ absurd (ground (arith, ap (λ p. p.1) same))
    | inr (destination, parts, split, loop) ↦
        let (every, counted) = Loop-sent post destination loop refl in
        (
          ap concat every ∙ (split_text_message-parts combining text meta_text_body_limit split).0,
          subst (All (λ body. (1 ≤ length body) × (length body ≤ meta_text_body_limit))) (sym every)
              (split_text_message-parts combining text meta_text_body_limit split).1,
          omega (arith, counted, ap length every),
        )
  ]

  -- When the ending of a sending tells the coordinator that the provider has not accepted it,
  -- nothing was posted, or one part was, to which the provider replied without success.
  pub send_text-may_be_accepted :
      {posted : List Text} {ending : Sending}
      → send_text combining post to text ≡ some (posted, ending)
      → may_be_accepted ActionField.text_delivery (text_answer ending) ≡ false
      → (posted ≡ [])
        ⊎ ((destination part : Text) × (body : Option Json) × (posted ≡ part ∷ [])
            × (post 1 destination part ≡ HttpReply.replied false body))
  send_text-may_be_accepted {posted} {ending} h definite = elim (send_text-Ended h) [
    | inl (e, same) ↦ inl (ap (λ p. p.0) same)
    | inr (destination, parts, split, loop) ↦ elim (all_posted ending definite) [
      | inl (e, ended) ↦ absurd (Loop-not_refused post destination loop ended)
      | inr failed ↦
          let (part, body, one, replied) = Loop-definite post destination loop failed in
          inr (destination, part, body, one, replied)
    ]
  ]

-- ===== src/Client/Loop.antt =====
-- Lemmas on the loop of `send_text` of app/services/whatsapp_service.py over the parts of a text.
use mathlib.Core.Path.{subst}
use global_detergent_sales_a.Prelude.{
  ℕ, suc, ◌+◌, ◌++◌, ◌≤◌, ◌≡◌, ◌⊎◌, refl, inl, inr, Text, length, length-append, Bool, true, false,
  Option, List, [], ◌∷◌, arith, ap, sym, Option-cases,
}
use global_detergent_sales_a.Errors.{Error}
use global_detergent_sales_a.Json.{Json}
use global_detergent_sales_a.Client.Sending.{
  HttpReply, TextPartDelivery, Sending, part_reply, send_parts, success_message_id, or_malformed,
  new_delivery, after_reply,
}

-- A reply goes on with an ID, or it ends the loop with the parts delivered so far.
part_reply-cases :
    (reply : HttpReply) (delivered : List TextPartDelivery)
    → ((id : Text) × (part_reply reply delivered ≡ inr id))
      ⊎ ((uncertain : Bool) × (part_reply reply delivered
            ≡ inl (Sending.send_error uncertain delivered))
          × (uncertain ≡ false → (body : Option Json) × (reply ≡ HttpReply.replied false body)))
part_reply-cases HttpReply.timed_out delivered = inr (true, refl, λ h. absurd (ground (arith, h)))
part_reply-cases HttpReply.request_error delivered =
    inr (true, refl, λ h. absurd (ground (arith, h)))
part_reply-cases (HttpReply.replied false body) delivered = inr (false, refl, λ _. (body, refl))
part_reply-cases (HttpReply.replied true body) delivered =
    elim (Option-cases (success_message_id body)) [
      | inl missing ↦
          inr (true, ap (λ o. or_malformed o delivered) missing, λ h. absurd (ground (arith, h)))
      | inr (id, found) ↦ inl (id, ap (λ o. or_malformed o delivered) found)
    ]

-- The parts that a sending delivered
abbrev delivered_of : Sending → List TextPartDelivery
delivered_of (Sending.sent delivered) = delivered
delivered_of (Sending.send_error uncertain delivered) = delivered
delivered_of (Sending.refused e) = []

-- What the loop posted and how it ended
pub data Loop (post : ℕ → Text → Text → HttpReply) (destination : Text)
    : ℕ → List TextPartDelivery → List Text → List Text × Sending → Type 0 where
  finished :
      {number : ℕ} {delivered : List TextPartDelivery}
      → Loop post destination number delivered [] ([], Sending.sent delivered)
  stopped :
      {number : ℕ} {delivered : List TextPartDelivery} (part : Text) (parts : List Text)
      (uncertain : Bool)
      → (uncertain ≡ false
          → (body : Option Json) × (post number destination part ≡ HttpReply.replied false body))
      → Loop post destination number delivered
          (part ∷ parts)
          (part ∷ [], Sending.send_error uncertain delivered)
  went_on :
      {number : ℕ} {delivered : List TextPartDelivery} (delivery : TextPartDelivery) (part : Text)
      (parts : List Text) {out : List Text × Sending}
      → Loop post destination (suc number) (delivered ++ (delivery ∷ [])) parts out
      → Loop post destination number delivered (part ∷ parts) (part ∷ out.0, out.1)

module _ (post : ℕ → Text → Text → HttpReply) (destination : Text) where
  pub send_parts-Loop :
      (part_count number : ℕ) (delivered : List TextPartDelivery) (parts : List Text)
      → Loop post destination number delivered parts
          (send_parts post destination part_count number delivered parts)
  unfolding send_parts
  send_parts-Loop part_count number delivered [] = Loop.finished
  send_parts-Loop part_count number delivered (part ∷ parts) =
      let next = λ (id : Text).
        send_parts post destination part_count (suc number)
          (delivered ++ (new_delivery post destination part_count number part id ∷ [])) parts in
      let Ends = λ (r : Sending ⊎ Text).
        Loop post destination number delivered (part ∷ parts) (after_reply part r next) in
      elim (part_reply-cases (post number destination part) delivered) [
        | inr (uncertain, at, definite) ↦
            subst Ends (sym at) (Loop.stopped part parts uncertain definite)
        | inl (id, at) ↦
            let delivery = new_delivery post destination part_count number part id in
            subst Ends (sym at) (
              Loop.went_on delivery part parts
                (send_parts-Loop part_count (suc number) (delivered ++ (delivery ∷ [])) parts))
      ]

  pub Loop-sent :
      {number : ℕ} {delivered : List TextPartDelivery} {parts : List Text}
      {out : List Text × Sending} {ds : List TextPartDelivery}
      → Loop post destination number delivered parts out
      → out.1 ≡ Sending.sent ds
      → (out.0 ≡ parts) × (length ds ≡ length delivered + length parts)
  Loop-sent {delivered = delivered} Loop.finished h =
      (refl, omega (arith, ap (λ x. length (delivered_of x)) h))
  Loop-sent (Loop.stopped part parts uncertain definite) h = absurd (ground (arith, h))
  Loop-sent {delivered = delivered} (Loop.went_on delivery part parts rest) h =
      let (posted, counted) = Loop-sent rest h in
      (ap (λ ps. part ∷ ps) posted, omega (arith, counted, length-append delivered (delivery ∷ [])))

  -- A sending that failed keeps the parts that were delivered before.
  Loop-failed :
      {number : ℕ} {delivered : List TextPartDelivery} {parts : List Text}
      {out : List Text × Sending} {uncertain : Bool} {ds : List TextPartDelivery}
      → Loop post destination number delivered parts out
      → out.1 ≡ Sending.send_error uncertain ds
      → length delivered ≤ length ds
  Loop-failed Loop.finished h = absurd (ground (arith, h))
  Loop-failed (Loop.stopped part parts uncertain definite) h =
      omega (arith, ap (λ x. length (delivered_of x)) h)
  Loop-failed {delivered = delivered} (Loop.went_on delivery part parts rest) h =
      omega (arith, Loop-failed rest h, length-append delivered (delivery ∷ []))

  pub Loop-not_refused :
      {number : ℕ} {delivered : List TextPartDelivery} {parts : List Text}
      {out : List Text × Sending} {e : Error}
      → Loop post destination number delivered parts out
      → out.1 ≡ Sending.refused e
      → ⊥
  Loop-not_refused Loop.finished h = ground (arith, h)
  Loop-not_refused (Loop.stopped part parts uncertain definite) h = ground (arith, h)
  Loop-not_refused (Loop.went_on delivery part parts rest) h = Loop-not_refused rest h

  -- A definite failure without delivered parts is a reply without success to the one part posted.
  pub Loop-definite :
      {number : ℕ} {delivered : List TextPartDelivery} {parts : List Text}
      {out : List Text × Sending}
      → Loop post destination number delivered parts out
      → out.1 ≡ Sending.send_error false []
      → (part : Text) × (body : Option Json) × (out.0 ≡ part ∷ [])
        × (post number destination part ≡ HttpReply.replied false body)
  Loop-definite Loop.finished h = absurd (ground (arith, h))
  Loop-definite (Loop.stopped part parts uncertain definite) h =
      let (body, replied) = definite (ground (arith, h)) in (part, body, refl, replied)
  Loop-definite {delivered = delivered} (Loop.went_on delivery part parts rest) h =
      absurd (omega (arith, Loop-failed rest h, length-append delivered (delivery ∷ [])))

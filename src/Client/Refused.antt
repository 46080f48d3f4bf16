-- ===== src/Client/Refused.antt =====
-- Lemmas on the documents of app/services/whatsapp_service.py whose call the coordinator takes as not
-- accepted.
use mathlib.Core.Path.{subst}
use global_detergent_sales_a.Prelude.{
  Text, ◌≡◌, ◌⊎◌, refl, inl, inr, true, false, Option, none, some, [], ◌∷◌, arith, Bool-cases,
  Option-cases,
}
use global_detergent_sales_a.Exec.{Result-cases}
use global_detergent_sales_a.Json.{Json}
use global_detergent_sales_a.Dedup.Operations.{ActionField}
use global_detergent_sales_a.Coordinator.{Answer, may_be_accepted}
use global_detergent_sales_a.Client.Sending.{HttpReply, success_message_id}
use global_detergent_sales_a.Client.Documents.{
  is_quotation_filename, document_answer, or_ambiguous, Storage, upload_stored, Document,
  document_fields, send_document_message,
}

ambiguous {ℓ} :
    (A : Type ℓ) (f : ActionField) → may_be_accepted {A = A} f (Answer.failed true []) ≡ true
ambiguous A ActionField.text_delivery = refl
ambiguous A ActionField.document_upload = refl
ambiguous A ActionField.document_delivery = refl

-- An answer that is not ambiguous comes from a reply without success.
document_answer-refused {ℓ} :
    {A : Type ℓ} (f : ActionField) (reply : HttpReply) (success : Option Json → Option A)
    → may_be_accepted f (document_answer reply success) ≡ false
    → (body : Option Json) × (reply ≡ HttpReply.replied false body)
document_answer-refused {A} f HttpReply.timed_out success h =
    absurd (ground (arith, h, ambiguous A f))
document_answer-refused {A} f HttpReply.request_error success h =
    absurd (ground (arith, h, ambiguous A f))
document_answer-refused f (HttpReply.replied false body) success h = (body, refl)
document_answer-refused {A} f (HttpReply.replied true body) success h =
    elim (Option-cases (success body)) [
      | inl missing ↦ absurd (
          ground (
            arith,
            subst (λ o. may_be_accepted f (or_ambiguous o) ≡ false) missing h,
            ambiguous A f,
          ))
      | inr (a, found) ↦
          absurd (ground (arith, subst (λ o. may_be_accepted f (or_ambiguous o) ≡ false) found h))
    ]

-- When the answer to an upload tells the coordinator that the provider has not accepted it, nothing
-- was posted, or the provider replied without success.
pub upload_stored-may_be_accepted :
    (path_name : Text → Text) (storage : Option Storage) (post : Text → Text → HttpReply)
    (path : Text)
    → may_be_accepted ActionField.document_upload (upload_stored path_name storage post path).1
      ≡ false
    → ((upload_stored path_name storage post path).0 ≡ [])
      ⊎ ((filename content : Text) × (body : Option Json) × ((upload_stored path_name storage post
              path).0
            ≡ (filename, content) ∷ [])
          × (post filename content ≡ HttpReply.replied false body))
unfolding upload_stored
upload_stored-may_be_accepted path_name none post path h = inl refl
upload_stored-may_be_accepted path_name (some storage) post path h =
    elim (Bool-cases (is_quotation_filename (path_name path))) [
      | inr wrong ↦ inl (rw wrong refl)
      | inl valid ↦ elim (Option-cases (storage path)) [
        | inl missing ↦ inl (rw (valid, missing) refl)
        | inr (content, found) ↦
            let (body, replied) =
              document_answer-refused ActionField.document_upload (post (path_name path) content) _
                (rw (valid, found) at h) in
            inr (path_name path, content, body, rw (valid, found) refl, replied)
      ]
    ]

-- When the answer to a document message tells the coordinator that the provider has not accepted it,
-- nothing was posted, or the provider replied without success.
pub send_document_message-may_be_accepted :
    (post : Document → HttpReply) (to media_id filename : Text) (caption : Option Text)
    → let out = send_document_message post to media_id filename caption in
      may_be_accepted ActionField.document_delivery out.1 ≡ false
      → (out.0 ≡ [])
        ⊎ ((document : Document) × (body : Option Json) × (out.0 ≡ document ∷ [])
            × (post document ≡ HttpReply.replied false body))
unfolding send_document_message
send_document_message-may_be_accepted post to media_id filename caption h =
    elim (Result-cases (document_fields to media_id filename caption)) [
      | inr (e, at) ↦ inl (rw at refl)
      | inl (document, at) ↦
          let (body, replied) =
            document_answer-refused ActionField.document_delivery (post document) success_message_id
              (rw at at h) in
          inr (document, body, rw at refl, replied)
    ]

-- ===== src/Client/Documents.antt =====
-- `upload_document` and `send_document` of app/services/whatsapp_service.py.
-- A call gives what was posted and its answer, as the coordinator sees it. The storage and the HTTP
-- client are arguments, and `path_name` is `Path(...).name`.
use global_detergent_sales_a.Prelude.{
  ℕ, ◌-◌, leb, ltb, ◌==◌, Text, codes, strip, is_space, is_blank, is_empty, length, take, drop, any,
  all, Bool, true, false, ◌&&◌, ◌||◌, Option, none, some, List, [], ◌∷◌, if◌then◌else◌,
}
use global_detergent_sales_a.Errors.{Error}
use global_detergent_sales_a.Exec.{Result, ok, err, bind}
use global_detergent_sales_a.Json.{Json, get}
use global_detergent_sales_a.Schemas.Whatsapp.{is_digit}
use global_detergent_sales_a.Session.Identity.{is_session_start}
use global_detergent_sales_a.Coordinator.{Answer, DocumentUploadResult}
use global_detergent_sales_a.Client.Sending.{HttpReply, meta_destination, success_message_id}

-- A character of `[A-Za-z0-9_-]`
abbrev is_prefix_character : ℕ → Bool
is_prefix_character c = is_session_start c || c == b'_' || c == b'-'

-- The text is empty, or its last character passes the test.
unfoldable pub ends_with : (ℕ → Bool) → Text → Bool
ends_with p [] = true
ends_with p (c ∷ []) = p c
ends_with p (c ∷ d ∷ text) = ends_with p (d ∷ text)

-- `[A-Za-z0-9](?:[A-Za-z0-9_-]{0,62}[A-Za-z0-9])?`
unfoldable pub is_filename_prefix : Text → Bool
unfolding ends_with
is_filename_prefix [] = false
is_filename_prefix (c ∷ text) =
    is_session_start c
    && (ends_with is_session_start text && (all is_prefix_character text && leb (length text) 63))

-- A character of `[0-9A-F]`
abbrev is_hex : ℕ → Bool
is_hex c = is_digit c || (leb b'A' c && leb c b'F')

-- The characters pass the tests, one each.
unfoldable pub passes_each : List (ℕ → Bool) → Text → Bool
passes_each [] [] = true
passes_each [] (c ∷ text) = false
passes_each (p ∷ ps) [] = false
passes_each (p ∷ ps) (c ∷ text) = p c && passes_each ps text

-- `-[0-9]{8}-[0-9A-F]{4}\.pdf`
abbrev filename_suffix : List (ℕ → Bool)
filename_suffix =
    (λ c. c == b'-')
    ∷ is_digit
    ∷ is_digit
    ∷ is_digit
    ∷ is_digit
    ∷ is_digit
    ∷ is_digit
    ∷ is_digit
    ∷ is_digit
    ∷ (λ c. c == b'-')
    ∷ is_hex
    ∷ is_hex
    ∷ is_hex
    ∷ is_hex
    ∷ (λ c. c == b'.')
    ∷ (λ c. c == b'p')
    ∷ (λ c. c == b'd')
    ∷ (λ c. c == b'f')
    ∷ []

-- `_QUOTATION_PDF_FILENAME_PATTERN`, whose suffix has 18 characters
unfoldable pub is_quotation_filename : Text → Bool
unfolding is_filename_prefix passes_each
is_quotation_filename filename =
    let n = length filename - 18 in
    is_filename_prefix (take n filename) && passes_each filename_suffix (drop n filename)

-- `_document_caption`
abbrev pub document_caption : Option Text → Result (Option Text)
document_caption none = ok none
document_caption (some caption) =
    if is_blank caption || ltb 1024 (length caption)
    then err Error.value_error
    else ok (some caption)

-- `_provider_identifier`
unfoldable pub provider_identifier : Text → Option Text
unfolding strip is_space
provider_identifier value =
    let normalized = strip value in
    if is_empty normalized
      || (ltb 512 (length normalized) || any (λ c. is_space c || ltb c 32) normalized)
    then none
    else some normalized

-- The ID of an upload in the member of a reply
abbrev media_id_of : Json → Option Text
media_id_of (Json.string s) = provider_identifier s
media_id_of _ = none

-- `_uploaded_media_id`; `none` is a malformed success.
unfoldable pub uploaded_media_id : Option Json → Option Text
unfolding provider_identifier get
uploaded_media_id (some (Json.object payload)) = media_id_of (get payload (codes "id"))
uploaded_media_id _ = none

-- A success that is malformed is ambiguous.
abbrev pub or_ambiguous {ℓ} : {A : Type ℓ} → Option A → Answer A
or_ambiguous none = Answer.failed true []
or_ambiguous (some a) = Answer.accepted a

-- What both calls do with the reply and with what they read of its success
abbrev pub document_answer {ℓ} : {A : Type ℓ} → HttpReply → (Option Json → Option A) → Answer A
document_answer HttpReply.timed_out success = Answer.failed true []
document_answer HttpReply.request_error success = Answer.failed true []
document_answer (HttpReply.replied false body) success = Answer.failed false []
document_answer (HttpReply.replied true body) success = or_ambiguous (success body)

-- `QuotationArtifactStorage`: the content of an artifact that exists and is valid
abbrev pub Storage : Type 0
Storage = Text → Option Text

abbrev pub uploaded_as : Text → Option Text → Option DocumentUploadResult
uploaded_as filename none = none
uploaded_as filename (some media_id) = some (record { media_id = media_id; filename = filename })

-- The upload of a content, unless the storage does not have it
abbrev pub upload_content :
    (Text → Text → HttpReply)
    → Text
    → Option Text
    → List (Text × Text) × Answer DocumentUploadResult
upload_content post filename none = ([], Answer.rejected)
upload_content post filename (some content) = (
  (filename, content) ∷ [],
  document_answer (post filename content) (λ body. uploaded_as filename (uploaded_media_id body)),
)

-- `upload_document`
unfoldable pub upload_stored :
    (Text → Text)
    → Option Storage
    → (Text → Text → HttpReply)
    → Text
    → List (Text × Text) × Answer DocumentUploadResult
unfolding is_quotation_filename uploaded_media_id
upload_stored path_name none post path = ([], Answer.broken Error.runtime_error)
upload_stored path_name (some storage) post path =
    if is_quotation_filename (path_name path)
    then upload_content post (path_name path) (storage path)
    else ([], Answer.rejected)

-- The fields of a document message: the destination, the ID, the filename and the caption
abbrev pub Document : Type 0
Document = Text × Text × Text × Option Text

abbrev pub require_some : Option Text → Result Text
require_some none = err Error.value_error
require_some (some value) = ok value

-- The checks of `send_document`
unfoldable pub document_fields : Text → Text → Text → Option Text → Result Document
unfolding meta_destination provider_identifier is_quotation_filename is_blank
document_fields to media_id filename caption = bind (meta_destination to) λ destination.
    bind (require_some (provider_identifier media_id)) λ id.
      bind (if is_quotation_filename filename then ok filename else err Error.value_error)
        λ name. bind (document_caption caption) λ text. ok (destination, id, name, text)

abbrev pub send_fields : (Document → HttpReply) → Result Document → List Document × Answer Text
send_fields post (err e) = ([], Answer.rejected)
send_fields post (ok document) = (document ∷ [], document_answer (post document) success_message_id)

-- `send_document`
unfoldable pub send_document_message :
    (Document → HttpReply) → Text → Text → Text → Option Text → List Document × Answer Text
unfolding document_fields success_message_id
send_document_message post to media_id filename caption =
    send_fields post (document_fields to media_id filename caption)

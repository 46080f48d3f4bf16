-- ===== src/Session/Service.antt =====
-- `SessionService` of app/services/session_service.py.
-- The store is what each key holds; the time to live of a key is not modelled, and a session that
-- has expired is one that is absent. The models' own reading and writing of JSON are arguments.
use global_detergent_sales_a.Prelude.{
  ℕ, ◌++◌, ◌-◌, ◌==◌, Text, text_eq, codes, length, drop, Bool, ◌&&◌, Option, none, some, List,
  if◌then◌else◌,
}
use global_detergent_sales_a.Errors.{Error}
use global_detergent_sales_a.Exec.{Result, ok, err, Done, Exec, pure, reads, ◌>>=◌, ◌>>◌}
use global_detergent_sales_a.Schemas.Session.{ConversationSession, new_session}
use global_detergent_sales_a.Session.Identity.{normalize_customer_identity}

abbrev pub Store : Type 0
Store = Text → Option Text

-- How a call of the store ends: it is done; it is done but for a write, which is not acknowledged
-- and not made; the store is unavailable.
pub data Reply : Type 0 where
  done unacknowledged unavailable : Reply

-- `ConversationSession.model_validate`, `model_dump_json` and `model_validate_json`
pub record Codec : Type 0 where
  pub validate : ConversationSession → Option ConversationSession
  pub dump : ConversationSession → Text
  pub load : Text → Option ConversationSession

abbrev pub key_of : Text → Text
key_of identity = codes "gdf:session:" ++ identity

-- `redis.get(key)`
abbrev pub redis_get : Reply → Text → Exec Store (Option Text)
redis_get Reply.done key s = (ok (s key), s)
redis_get Reply.unacknowledged key s = (ok (s key), s)
redis_get Reply.unavailable key s = (err Error.session_storage_unavailable, s)

-- What the keys hold after a write of one of them
unfoldable pub with_key : Text → Option Text → Store → Store
unfolding text_eq
with_key key value s other = if text_eq key other then value else s other

-- `redis.set(key, value, ex=...)` with the check that the write was acknowledged
abbrev pub redis_set : Reply → Text → Text → Exec Store Done
redis_set Reply.done key value s = (ok tt, with_key key (some value) s)
redis_set Reply.unacknowledged key value s = (err Error.session_storage_unavailable, s)
redis_set Reply.unavailable key value s = (err Error.session_storage_unavailable, s)

-- `redis.delete(key)`
abbrev pub redis_delete : Reply → Text → Exec Store Done
redis_delete Reply.done key s = (ok tt, with_key key none s)
redis_delete Reply.unacknowledged key s = (ok tt, with_key key none s)
redis_delete Reply.unavailable key s = (err Error.session_storage_unavailable, s)

-- The session is bound to the identity.
abbrev pub is_bound : Text → ConversationSession → Bool
is_bound identity s = text_eq s.customer_phone identity && text_eq s.customer.phone identity

-- `items[-limit:]`
abbrev pub last_items {ℓ} : {A : Type ℓ} → ℕ → List A → List A
last_items limit items = if limit == 0 then items else drop (length items - limit) items

module _ (codec : Codec) where
  abbrev pub bound_session : Text → Option ConversationSession → Result ConversationSession
  bound_session identity none = err Error.session_storage_unavailable
  bound_session identity (some s) =
      if is_bound identity s then ok s else err Error.session_storage_unavailable

  -- `_deserialize_session`
  unfoldable pub deserialize_session : Text → Text → Result ConversationSession
  unfolding text_eq
  deserialize_session stored identity = bound_session identity (codec.load stored)

  -- The session of a key, or a new one
  abbrev pub opened : Text → ℕ → Text → Option Text → Result ConversationSession
  opened fresh_id now identity none = ok (new_session fresh_id identity now)
  opened fresh_id now identity (some stored) = deserialize_session stored identity

  -- `SessionService.get_session`
  unfoldable pub get_session : Reply → Text → ℕ → Text → Exec Store ConversationSession
  unfolding normalize_customer_identity deserialize_session
  get_session reply fresh_id now customer_phone = do
    identity ← reads (λ s. normalize_customer_identity customer_phone)
    stored ← redis_get reply (key_of identity)
    reads (λ s. opened fresh_id now identity stored)

  -- The fields that `save_session` validates
  abbrev pub candidate_fields : ℕ → ℕ → Text → ConversationSession → ConversationSession
  candidate_fields recent_message_limit now identity session = record session {
    customer_phone = identity;
    customer = record session.customer { phone = identity };
    recent_messages = last_items recent_message_limit session.recent_messages;
    updated_at = now;
  }

  -- What was written must be read again.
  abbrev pub if_read : ConversationSession → Option ConversationSession → Result ConversationSession
  if_read candidate none = err Error.session_storage_unavailable
  if_read candidate (some s) = ok candidate

  -- The candidate that `save_session` writes
  abbrev pub checked_candidate : Option ConversationSession → Result ConversationSession
  checked_candidate none = err Error.session_storage_unavailable
  checked_candidate (some candidate) = if_read candidate (codec.load (codec.dump candidate))

  -- The check that the key holds no session of another ID
  unfoldable pub check_existing : Text → Text → Option Text → Result Done
  unfolding deserialize_session text_eq
  check_existing identity session_id none = ok tt
  check_existing identity session_id (some stored) = elim (deserialize_session stored identity) [
    | err e ↦ err e
    | ok existing ↦
        if text_eq existing.session_id session_id
        then ok tt
        else err Error.session_storage_unavailable
  ]

  -- `save_session`, from the candidate on
  unfoldable pub write_candidate :
      Reply → Reply → Text → ConversationSession → Exec Store ConversationSession
  unfolding check_existing with_key
  write_candidate read write identity candidate = do
    stored ← redis_get read (key_of identity)
    reads (λ s. check_existing identity candidate.session_id stored)
    redis_set write (key_of identity) (codec.dump candidate)
    pure candidate

  -- `SessionService.save_session`, which returns what the caller's session becomes
  unfoldable pub save_session :
      Reply → Reply → ℕ → ℕ → ConversationSession → Exec Store ConversationSession
  unfolding normalize_customer_identity write_candidate
  save_session read write recent_message_limit now session = do
    identity ← reads (λ s. normalize_customer_identity session.customer_phone)
    candidate ← reads (λ s.
        checked_candidate
          (codec.validate (candidate_fields recent_message_limit now identity session)))
    write_candidate read write identity candidate

-- `SessionService.delete_session`
unfoldable pub delete_session : Reply → Text → Exec Store Done
unfolding normalize_customer_identity
delete_session reply customer_phone = do
  identity ← reads (λ s. normalize_customer_identity customer_phone)
  redis_delete reply (key_of identity)

-- `SessionService.reset_session`
unfoldable pub reset_session : Reply → Text → ℕ → Text → Exec Store ConversationSession
unfolding delete_session normalize_customer_identity
reset_session reply fresh_id now customer_phone = do
  identity ← reads (λ s. normalize_customer_identity customer_phone)
  delete_session reply identity
  pure (new_session fresh_id identity now)

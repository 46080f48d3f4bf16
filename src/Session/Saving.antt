-- ===== src/Session/Saving.antt =====
-- Lemmas on the ways in which `save_session` of app/services/session_service.py ends.
use global_detergent_sales_a.Prelude.{ℕ, Text, ◌≡◌, inl, inr, some}
use global_detergent_sales_a.Errors.{Error}
use global_detergent_sales_a.Exec.{Result, ok, err, Done, Result-cases, reads, ◌>>◌, pure}
use global_detergent_sales_a.Schemas.Session.{ConversationSession}
use global_detergent_sales_a.Session.Identity.{normalize_customer_identity}
use global_detergent_sales_a.Session.Service.{
  Store, Reply, Codec, key_of, with_key, candidate_fields, checked_candidate, check_existing,
  save_session, write_candidate, redis_set,
}

-- A valid session is read as it was written.
abbrev pub IsFaithful : Codec → Type 0
IsFaithful codec =
    (s c : ConversationSession) → codec.validate s ≡ some c → codec.load (codec.dump c) ≡ some c

-- Validation keeps the phone and the customer's phone.
abbrev pub KeepsPhones : Codec → Type 0
KeepsPhones codec =
    (s c : ConversationSession)
    → codec.validate s ≡ some c
    → (c.customer_phone ≡ s.customer_phone) × (c.customer.phone ≡ s.customer.phone)

-- The two ways in which a candidate is written
data Writing (codec : Codec) (identity : Text) (c : ConversationSession) (store : Store)
    : Result ConversationSession × Store → Type 0 where
  refused : (e : Error) → Writing codec identity c store (err e, store)
  written :
      Writing codec identity c store (ok c, with_key (key_of identity) (some (codec.dump c)) store)

module _ (codec : Codec) (identity : Text) (c : ConversationSession) (store : Store) where
  -- After the check of what the key holds
  checked-Writing :
      (write : Reply) (checked : Result Done)
      → Writing codec identity c store (
          (reads (λ s. checked) >> (redis_set write (key_of identity) (codec.dump c) >> pure c))
            store)
  checked-Writing write (err e) = refused e
  checked-Writing Reply.done (ok d) = written
  checked-Writing Reply.unacknowledged (ok d) = refused Error.session_storage_unavailable
  checked-Writing Reply.unavailable (ok d) = refused Error.session_storage_unavailable

  write_candidate-Writing :
      (read write : Reply)
      → Writing codec identity c store (write_candidate codec read write identity c store)
  unfolding write_candidate
  write_candidate-Writing Reply.done write =
      checked-Writing write (check_existing codec identity c.session_id (store (key_of identity)))
  write_candidate-Writing Reply.unacknowledged write =
      checked-Writing write (check_existing codec identity c.session_id (store (key_of identity)))
  write_candidate-Writing Reply.unavailable write = refused Error.session_storage_unavailable

-- The two ways in which a session is saved
pub data Saving (codec : Codec) (limit now : ℕ) (session : ConversationSession) (store : Store)
    : Result ConversationSession × Store → Type 0 where
  refused : (e : Error) → Saving codec limit now session store (err e, store)
  written :
      (identity : Text) (c : ConversationSession)
      → normalize_customer_identity session.customer_phone ≡ ok identity
      → checked_candidate codec (codec.validate (candidate_fields codec limit now identity session))
        ≡ ok c
      → Saving codec limit now session store
          (ok c, with_key (key_of identity) (some (codec.dump c)) store)

module _ (codec : Codec) (limit now : ℕ) (session : ConversationSession) (store : Store) where
  Writing-Saving :
      (identity : Text) (c : ConversationSession) {out : Result ConversationSession × Store}
      → normalize_customer_identity session.customer_phone ≡ ok identity
      → checked_candidate codec (codec.validate (candidate_fields codec limit now identity session))
        ≡ ok c
      → Writing codec identity c store out
      → Saving codec limit now session store out
  Writing-Saving identity c n v (Writing.refused e) = Saving.refused e
  Writing-Saving identity c n v Writing.written = Saving.written identity c n v

  pub save_session-Saving :
      (read write : Reply)
      → Saving codec limit now session store (save_session codec read write limit now session store)
  unfolding save_session
  save_session-Saving read write =
      elim (Result-cases (normalize_customer_identity session.customer_phone)) [
        | inr (e, n) ↦ rw n (Saving.refused e)
        | inl (identity, n) ↦
            let fields = candidate_fields codec limit now identity session in
            elim (Result-cases (checked_candidate codec (codec.validate fields))) [
              | inr (e, v) ↦ rw (n, v) (Saving.refused e)
              | inl (c, v) ↦
                  rw (n, v)
                    (Writing-Saving identity c n v
                      (write_candidate-Writing codec identity c store read write))
            ]
      ]

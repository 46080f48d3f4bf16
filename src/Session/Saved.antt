-- ===== src/Session/Saved.antt =====
-- Theorems on `save_session` and `get_session` of app/services/session_service.py.
use global_detergent_sales_a.Prelude.{
  ℕ, Text, text_eq, text_eq_iff, text_eq_refl, ◌≡◌, ◌≢◌, refl, inl, inr, false, Option, none, some,
  arith, Bool-cases, Option-cases, sym, ap, ◌∙◌, drop,
}
use global_detergent_sales_a.Exec.{Result, ok}
use global_detergent_sales_a.Schemas.Session.{ConversationSession}
use global_detergent_sales_a.Session.Identity.{normalize_customer_identity}
use global_detergent_sales_a.Session.Service.{
  Store, Reply, Codec, key_of, with_key, deserialize_session, opened, get_session, candidate_fields,
  checked_candidate, save_session,
}
use global_detergent_sales_a.Session.Saving.{IsFaithful, KeepsPhones, Saving, save_session-Saving}

checked_candidate-valid :
    (codec : Codec) (o : Option ConversationSession) {c : ConversationSession}
    → checked_candidate codec o ≡ ok c
    → o ≡ some c
checked_candidate-valid codec none h = absurd (ground arith)
checked_candidate-valid codec (some s) {c} h = elim (Option-cases (codec.load (codec.dump s))) [
  | inl missing ↦ absurd (ground (arith, rw missing at h))
  | inr (x, found) ↦ ground (arith, rw found at h)
]

key_of-differs : (a b : Text) → a ≢ b → text_eq (key_of a) (key_of b) ≡ false
key_of-differs a b different = elim (Bool-cases (text_eq (key_of a) (key_of b))) [
  | inr other ↦ other
  | inl same ↦ absurd (different (ap (drop 12) ((text_eq_iff (key_of a) (key_of b)).0 same)))
]

-- What `get_session` finds, where the store answers
get_session-finds :
    (codec : Codec) (fresh_id : Text) (now : ℕ) (phone identity : Text) (store : Store)
    → normalize_customer_identity phone ≡ ok identity
    → get_session codec Reply.done fresh_id now phone store
      ≡ (opened codec fresh_id now identity (store (key_of identity)), store)
unfolding get_session
get_session-finds codec fresh_id now phone identity store n = rw n refl

with_key-here :
    (key : Text) (value : Option Text) (store : Store) → with_key key value store key ≡ value
unfolding with_key
with_key-here key value store = rw (text_eq_refl key) refl

with_key-elsewhere :
    (key other : Text) (value : Option Text) (store : Store)
    → text_eq key other ≡ false
    → with_key key value store other ≡ store other
unfolding with_key
with_key-elsewhere key other value store h = rw h refl

module _ (codec : Codec) (limit now : ℕ) (session : ConversationSession) (store : Store) where
  -- A candidate that was written is read as a session of its identity.
  candidate-opened :
      (fresh_id : Text) (later : ℕ) (identity : Text) (c : ConversationSession)
      → IsFaithful codec
      → KeepsPhones codec
      → checked_candidate codec (codec.validate (candidate_fields codec limit now identity session))
        ≡ ok c
      → opened codec fresh_id later identity (some (codec.dump c)) ≡ ok c
  unfolding deserialize_session
  candidate-opened fresh_id later identity c faithful keeps v =
      let fields = candidate_fields codec limit now identity session in
      let valid = checked_candidate-valid codec (codec.validate fields) v in
      let (phone, customer_phone) = keeps fields c valid in
      rw (faithful fields c valid, phone, customer_phone, text_eq_refl identity) refl

  saved-get_session :
      {out : Result ConversationSession × Store} (phone fresh_id : Text) (later : ℕ)
      {c : ConversationSession}
      → IsFaithful codec
      → KeepsPhones codec
      → Saving codec limit now session store out
      → out.0 ≡ ok c
      → normalize_customer_identity phone ≡ normalize_customer_identity session.customer_phone
      → get_session codec Reply.done fresh_id later phone out.1 ≡ (ok c, out.1)
  saved-get_session phone fresh_id later faithful keeps (Saving.refused e) h same =
      absurd (ground (arith, h))
  saved-get_session phone fresh_id later faithful keeps (Saving.written identity c n v) h same =
      let value = some (codec.dump c) in
      let after = with_key (key_of identity) value store in
      get_session-finds codec fresh_id later phone identity after (same ∙ n)
      ∙ ap (λ o. (opened codec fresh_id later identity o, after))
          (with_key-here (key_of identity) value store)
      ∙ ap (λ r. (r, after)) (candidate-opened fresh_id later identity c faithful keeps v ∙ h)

  saved-elsewhere :
      {out : Result ConversationSession × Store} (phone fresh_id other : Text) (later : ℕ)
      → Saving codec limit now session store out
      → normalize_customer_identity phone ≡ ok other
      → normalize_customer_identity phone ≢ normalize_customer_identity session.customer_phone
      → (get_session codec Reply.done fresh_id later phone out.1).0
        ≡ (get_session codec Reply.done fresh_id later phone store).0
  saved-elsewhere phone fresh_id other later (Saving.refused e) n different = refl
  saved-elsewhere phone fresh_id other later (Saving.written identity c n' v) n different =
      let value = some (codec.dump c) in
      let apart : text_eq (key_of identity) (key_of other) ≡ false =
        key_of-differs identity other (λ same. different (n ∙ ap ok (sym same) ∙ sym n')) in
      ap (λ p. p.0)
        (get_session-finds codec fresh_id later phone other (with_key (key_of identity) value store)
          n)
      ∙ ap (opened codec fresh_id later other)
          (with_key-elsewhere (key_of identity) (key_of other) value store apart)
      ∙ sym (ap (λ p. p.0) (get_session-finds codec fresh_id later phone other store n))

  -- What the caller's session becomes when it is saved is what `get_session` returns next, for
  -- every spelling of the session's identity, where the store answers, the models' reading gives
  -- back what their writing wrote, and validating a session keeps its phones.
  pub save_session-get_session :
      (read write : Reply) (phone fresh_id : Text) (later : ℕ) {c : ConversationSession}
      → IsFaithful codec
      → KeepsPhones codec
      → (save_session codec read write limit now session store).0 ≡ ok c
      → normalize_customer_identity phone ≡ normalize_customer_identity session.customer_phone
      → let store' = (save_session codec read write limit now session store).1 in
        get_session codec Reply.done fresh_id later phone store' ≡ (ok c, store')
  save_session-get_session read write phone fresh_id later faithful keeps saved same =
      saved-get_session phone fresh_id later faithful keeps
        (save_session-Saving codec limit now session store read write) saved same

  -- Saving a session, whether it succeeds or raises, leaves what every other identity finds.
  pub save_session-others :
      (read write : Reply) (phone fresh_id other : Text) (later : ℕ)
      → normalize_customer_identity phone ≡ ok other
      → normalize_customer_identity phone ≢ normalize_customer_identity session.customer_phone
      → (get_session codec Reply.done fresh_id later phone
          (save_session codec read write limit now session store).1).0
        ≡ (get_session codec Reply.done fresh_id later phone store).0
  save_session-others read write phone fresh_id other later n different =
      saved-elsewhere phone fresh_id other later
        (save_session-Saving codec limit now session store read write) n different

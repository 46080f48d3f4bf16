-- ===== src/Tests/Session.antt =====
-- Identities and sessions on concrete data.
use global_detergent_sales_a.Prelude.{
  ◌∙◌, codes, ◌≡◌, refl, none, some, if◌then◌else◌, Bool-cases, inl, inr, arith, text_eq, true, ap,
  sym, text_eq_iff,
}
use global_detergent_sales_a.Exec.{ok}
use global_detergent_sales_a.Schemas.Session.{ConversationSession, new_session}
use global_detergent_sales_a.Session.Identity.{normalize_customer_identity}
use global_detergent_sales_a.Session.Canonical.{
  IsCanonical, normalize_customer_identity-IsCanonical,
}
use global_detergent_sales_a.Session.Service.{
  Store, Codec, Reply, get_session, save_session, is_bound,
}
use global_detergent_sales_a.Session.Saving.{IsFaithful, KeepsPhones}
use global_detergent_sales_a.Session.Saved.{save_session-get_session}

spaced_phone : normalize_customer_identity (codes " 123 ") ≡ ok (codes "+123")
unfolding normalize_customer_identity
spaced_phone = refl

normalize_customer_identity-IsCanonical_example :
    IsCanonical (codes "+123") × (normalize_customer_identity (codes "+123") ≡ ok (codes "+123"))
normalize_customer_identity-IsCanonical_example =
    normalize_customer_identity-IsCanonical (codes " 123 ") spaced_phone

abbrev fresh : ConversationSession
fresh = new_session (codes "s") (codes "+123") 7

abbrev bound_fresh : ConversationSession
bound_fresh = record fresh { updated_at = 9 }

-- Reading and writing of one session, which is the only one that is valid
abbrev one_session : Codec
one_session = record {
  validate = λ s. if is_bound (codes "+123") s then some bound_fresh else none;
  dump = λ s. codes "{}";
  load = λ text. some bound_fresh;
}

abbrev empty_store : Store
empty_store key = none

one_session-IsFaithful : IsFaithful one_session
one_session-IsFaithful s c h = elim (Bool-cases (is_bound (codes "+123") s)) [
  | inl bound ↦ rw bound at h
  | inr other ↦ absurd (ground (arith, rw other at h))
]

one_session-KeepsPhones : KeepsPhones one_session
unfolding new_session
one_session-KeepsPhones s c h = elim (Bool-cases (is_bound (codes "+123") s)) [
  | inr other ↦ absurd (ground (arith, rw other at h))
  | inl bound ↦
      let same : some bound_fresh ≡ some c = rw bound at h in
      let phone : text_eq s.customer_phone (codes "+123") ≡ true = ground (arith, bound) in
      let customer_phone : text_eq s.customer.phone (codes "+123") ≡ true = ground (arith, bound) in
      let got : bound_fresh ≡ c = ap (λ o. elim o [ none ↦ fresh | some x ↦ x ]) same in
      (
        ap (λ x. x.customer_phone) (sym got)
            ∙ sym ((text_eq_iff s.customer_phone (codes "+123")).0 phone),
        ap (λ x. x.customer.phone) (sym got)
            ∙ sym ((text_eq_iff s.customer.phone (codes "+123")).0 customer_phone),
      )
]

fresh-saved :
    (save_session one_session Reply.done Reply.done 20 9 fresh empty_store).0 ≡ ok bound_fresh
unfolding save_session new_session
fresh-saved = refl

same_identity :
    normalize_customer_identity (codes " 123 ") ≡ normalize_customer_identity fresh.customer_phone
unfolding normalize_customer_identity new_session
same_identity = refl

save_session-get_session_example :
    let store = (save_session one_session Reply.done Reply.done 20 9 fresh empty_store).1 in
    get_session one_session Reply.done (codes "t") 10 (codes " 123 ") store
    ≡ (ok bound_fresh, store)
save_session-get_session_example =
    save_session-get_session one_session 20 9 fresh empty_store Reply.done Reply.done
      (codes " 123 ") (codes "t") 10 one_session-IsFaithful one_session-KeepsPhones fresh-saved
      same_identity

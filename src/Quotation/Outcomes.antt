-- ===== src/Quotation/Outcomes.antt =====
-- Lemmas on what each operation of the life cycle in app/services/quotation_service.py has found out
-- when it succeeds, and what it leaves behind.
use global_detergent_sales_a.Quotation.Confirm.{
  validate_current_delivered_preview, confirm, validate_generation_authorization,
  validate_current_turn_context, is_premature, is_explicit, record_confirmation, CurrentTurnContext,
}
use global_detergent_sales_a.Prelude.{
  Text, strip, is_blank, text_eq, text_eq_iff, ◌≡◌, ◌≢◌, refl, ◌⊎◌, inl, inr, Bool-cases, true,
  false, Option, none, some, List, [], ◌∷◌, any, arith, option_text_eq_iff,
}
use global_detergent_sales_a.Exec.{ok, Result-cases, outcome-cases}
use global_detergent_sales_a.Schemas.Quotation.{QuotePreview}
use global_detergent_sales_a.Schemas.Session.{ConversationState, ConversationSession}
use global_detergent_sales_a.Quotation.{
  Services, validate_customer_information, validate_binding_value, customer_information_is_ready,
  is_nonblank, ConfirmationInterpretation,
}
use global_detergent_sales_a.Quotation.Preview.{
  calculate_preview, current_quote_fingerprint, prepare_quotation, bind_preview,
  mark_ready_for_confirmation, record_delivery,
}

-- A text is one of a list.
abbrev pub IsIn : Text → List Text → Type 0
IsIn x [] = ⊥
IsIn x (y ∷ ys) = (x ≡ y) ⊎ IsIn x ys

-- A failed operation leaves the session as it was, but for the state CUSTOMER_DETAILS that the
-- check of the customer's details may set.
abbrev pub Unchanged : ConversationSession → ConversationSession → Type 0
Unchanged s s' = (s' ≡ s) ⊎ (s' ≡ record s { state = ConversationState.customer_details })

any-IsIn : (x : Text) (ys : List Text) → any (text_eq x) ys ≡ true → IsIn x ys
any-IsIn x [] h = absurd (ground arith)
any-IsIn x (y ∷ ys) h = elim (Bool-cases (text_eq x y)) [
  | inl same ↦ inl ((text_eq_iff x y).0 same)
  | inr other ↦ inr (any-IsIn x ys (ground arith))
]

turn_context-inv :
    (s : ConversationSession) (context : CurrentTurnContext) (t : Text)
    → validate_current_turn_context s context ≡ ok t
    → (context.session_id ≡ s.session_id)
      × (is_blank context.turn_id ≡ false)
      × (t ≡ strip context.turn_id)
      × (is_blank context.customer_message ≡ false)
unfolding validate_current_turn_context validate_binding_value
turn_context-inv s context t h =
    let of_session = text_eq_iff context.session_id s.session_id in
    (ground (arith, of_session), ground arith, ground arith, ground arith)

is_premature-inv :
    (preview : Option Text) (t : Text) (preceding : List Text)
    → is_premature preview t preceding ≡ false
    → (p : Text) × (preview ≡ some p) × (t ≢ p) × IsIn p preceding
unfolding is_premature
is_premature-inv none t preceding h = absurd (ground arith)
is_premature-inv (some p) t preceding h =
    let same = text_eq_iff t p in
    (p, refl, λ e. ground (arith, same), any-IsIn p preceding (ground arith))

is_explicit-inv :
    (x : ConfirmationInterpretation)
    → is_explicit x ≡ true
    → x ≡ ConfirmationInterpretation.explicit
is_explicit-inv ConfirmationInterpretation.explicit h = refl
is_explicit-inv ConfirmationInterpretation.ambiguous h = absurd (ground arith)

module _ (services : Services) where
  -- `prepare_quotation` binds the current fingerprint to the turn, or leaves the session alone.
  pub prepare_quotation-inv :
      (turn_id : Text) (s s' : ConversationSession) {preview : QuotePreview}
      → prepare_quotation services turn_id s ≡ (ok preview, s')
      → (f : Text) × (t : Text) × (calculate_preview services s ≡ ok preview)
        × (current_quote_fingerprint services s ≡ ok f)
        × (validate_binding_value turn_id ≡ ok t)
        × (s' ≡ bind_preview f t s)
  unfolding prepare_quotation validate_customer_information
  prepare_quotation-inv turn_id s s' {preview} h =
      elim (Result-cases (validate_binding_value turn_id)) [
        | inr (e, bad) ↦ absurd (ground arith)
        | inl (t, turn) ↦ elim (Result-cases (current_quote_fingerprint services s)) [
          | inr (e, bad) ↦ absurd (ground arith)
          | inl (f, current) ↦ (f, t, ground arith, current, turn, ground arith)
        ]
      ]

  -- A delivery is recorded only for the fingerprint and the turn that were prepared, while the
  -- quotation's inputs still have that fingerprint.
  pub mark_ready-inv :
      (preview_fingerprint turn_id : Text) (s s' : ConversationSession)
      → mark_ready_for_confirmation services preview_fingerprint turn_id s ≡ (ok tt, s')
      → (f : Text) × (t : Text) × (validate_binding_value preview_fingerprint ≡ ok f)
        × (validate_binding_value turn_id ≡ ok t)
        × (s.prepared_preview_fingerprint ≡ some f)
        × (s.preview_originating_turn_id ≡ some t)
        × (current_quote_fingerprint services s ≡ ok f)
        × (s.state ≡ ConversationState.quote_review)
        × (s' ≡ record_delivery s)
  unfolding mark_ready_for_confirmation
  mark_ready-inv preview_fingerprint turn_id s s' h =
      elim (Result-cases (validate_binding_value preview_fingerprint)) [
        | inr (e, bad) ↦ absurd (ground arith)
        | inl (f, supplied) ↦ elim (Result-cases (validate_binding_value turn_id)) [
          | inr (e, bad) ↦ absurd (ground arith)
          | inl (t, turn) ↦ elim (Result-cases (current_quote_fingerprint services s)) [
            | inr (e, bad) ↦ absurd (ground arith)
            | inl (g, current) ↦
                let same_f = option_text_eq_iff s.prepared_preview_fingerprint (some f) in
                let same_t = option_text_eq_iff s.preview_originating_turn_id (some t) in
                let same_g = option_text_eq_iff s.prepared_preview_fingerprint (some g) in
                (
                  f,
                  t,
                  supplied,
                  turn,
                  ground (arith, same_f),
                  ground (arith, same_t),
                  ground (arith, same_f, same_g),
                  ground arith,
                  ground arith,
                )
          ]
        ]
      ]

  -- The facts that confirmation and generation share.
  pub record IsDelivered (s : ConversationSession) : Type 0 where
    pub preview : QuotePreview
    pub preview_at : calculate_preview services s ≡ ok preview
    pub ready : customer_information_is_ready s ≡ true
    pub awaiting : s.state ≡ ConversationState.awaiting_confirmation
    pub delivered : s.preview_delivered ≡ true
    pub fingerprint : Text
    pub current : current_quote_fingerprint services s ≡ ok fingerprint
    pub prepared : s.prepared_preview_fingerprint ≡ some fingerprint

  pub delivered-inv :
      (s s' : ConversationSession)
      → validate_current_delivered_preview services s ≡ (ok tt, s')
      → IsDelivered s × (s' ≡ s)
  unfolding validate_current_delivered_preview validate_customer_information
  delivered-inv s s' h = elim (Result-cases (calculate_preview services s)) [
    | inr (e, bad) ↦ absurd (ground arith)
    | inl (p, calculated) ↦ elim (Result-cases (current_quote_fingerprint services s)) [
      | inr (e, bad) ↦ absurd (ground arith)
      | inl (f, current) ↦
          let same = option_text_eq_iff s.prepared_preview_fingerprint (some f) in
          (
            record {
              preview = p;
              preview_at = calculated;
              ready = ground arith;
              awaiting = ground arith;
              delivered = ground arith;
              fingerprint = f;
              current = current;
              prepared = ground (arith, same);
            },
            ground arith,
          )
    ]
  ]

  -- A confirmation is recorded only for a delivered current preview, from a nonblank turn of this
  -- session that is not the preview's turn and that the preview's turn precedes, whose nonblank
  -- message the interpreter takes for an explicit confirmation; the session then has that turn and
  -- that message, and is otherwise the same.
  pub confirm-inv :
      (context : CurrentTurnContext) (s s' : ConversationSession)
      → confirm services context s ≡ (ok tt, s')
      → (preview_turn_id : Text) × (IsDelivered s)
        × (context.session_id ≡ s.session_id)
        × (is_blank context.turn_id ≡ false)
        × (s.preview_originating_turn_id ≡ some preview_turn_id)
        × (strip context.turn_id ≢ preview_turn_id)
        × IsIn preview_turn_id context.preceding_turn_ids
        × (is_blank context.customer_message ≡ false)
        × (services.confirmation_interpreter context.customer_message
            ≡ ConfirmationInterpretation.explicit)
        × (s' ≡ record s {
          quote_confirmed = true;
          confirmation_turn_id = some (strip context.turn_id);
          confirmation_message = some context.customer_message;
        })
  unfolding confirm record_confirmation
  confirm-inv context s s' h = elim (Result-cases (validate_current_turn_context s context)) [
    | inr (e, bad) ↦ absurd (ground arith)
    | inl (t, turn) ↦ elim (outcome-cases (validate_current_delivered_preview services s)) [
      | inr (e, r, bad) ↦ absurd (ground arith)
      | inl (done, r, checked) ↦
          let (facts, same) = delivered-inv s r checked in
          let (of_session, named, stripped, said) = turn_context-inv s context t turn in
          let (preview_turn_id, bound, other, preceded) =
            is_premature-inv s.preview_originating_turn_id t context.preceding_turn_ids
              (ground arith) in
          (
            preview_turn_id,
            facts,
            of_session,
            named,
            bound,
            rw stripped at other,
            preceded,
            said,
            is_explicit-inv _ (ground arith),
            ground (arith, stripped),
          )
    ]
  ]

  -- What a session must hold for a new quotation to be generated from it.
  pub record IsAuthorized (s : ConversationSession) : Type 0 where
    pub delivered : IsDelivered s
    pub confirmed : s.quote_confirmed ≡ true
    pub turn : is_nonblank s.confirmation_turn_id ≡ true
    pub message : is_nonblank s.confirmation_message ≡ true

  pub authorization-inv :
      (s s' : ConversationSession)
      → validate_generation_authorization services s ≡ (ok tt, s')
      → IsAuthorized s × (s' ≡ s)
  unfolding validate_generation_authorization
  authorization-inv s s' h = elim (outcome-cases (validate_current_delivered_preview services s)) [
    | inr (e, r, bad) ↦ absurd (ground arith)
    | inl (done, r, checked) ↦
        let (facts, same) = delivered-inv s r checked in
        (
          record {
            delivered = facts;
            confirmed = ground arith;
            turn = ground arith;
            message = ground arith;
          },
          ground arith,
        )
  ]

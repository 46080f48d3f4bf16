-- ===== src/Quotation/Replay.antt =====
-- Lemmas on `generate` of app/services/quotation_service.py, the first time and again.
use global_detergent_sales_a.Prelude.{
  ℕ, Text, ◌≡◌, refl, true, false, Option, none, some, arith, text_eq_refl, inl, inr, Option-cases,
  option_text_eq, ◌∙◌, sym, ap,
}
use global_detergent_sales_a.Exec.{Result, ok, Result-cases, outcome-cases}
use global_detergent_sales_a.Schemas.Quotation.{QuotePreview, GeneratedQuotation}
use global_detergent_sales_a.Schemas.Session.{ConversationSession, GeneratedQuoteReplayMetadata}
use global_detergent_sales_a.Quotation.{
  Services, validate_customer_information, customer_information_is_ready,
}
use global_detergent_sales_a.Quotation.Preview.{
  calculate_preview, current_quote_fingerprint, current_prices,
}
use global_detergent_sales_a.Quotation.Confirm.{validate_generation_authorization}
use global_detergent_sales_a.Quotation.Generate.{
  generate, generate_new, replay_metadata, is_stale_replay, record_generation,
  build_generated_quotation,
}
use global_detergent_sales_a.Quotation.Outcomes.{IsAuthorized, authorization-inv}

-- A generation that took place: what it needed, what it called, and what it left behind.
pub record Generated (services : Services) (s s' : ConversationSession) (g : GeneratedQuotation)
    : Type 0 where
  pub authorized : IsAuthorized services s
  pub metadata : GeneratedQuoteReplayMetadata
  pub issued : services.clock ≡ some metadata.generated_at
  pub identified :
      services.quotation_id_factory services.rules.quotation_prefix metadata.generated_at
      ≡ ok metadata.quotation_id
  pub stored :
      services.generate_quotation_pdf (
        build_generated_quotation authorized.delivered.preview metadata.quotation_id
          metadata.generated_at none)
      ≡ ok metadata.pdf_path
  pub turn : s.confirmation_turn_id ≡ some metadata.confirmation_turn_id
  pub fingerprint : metadata.quote_fingerprint ≡ authorized.delivered.fingerprint
  pub result :
      g
      ≡ build_generated_quotation authorized.delivered.preview metadata.quotation_id
          metadata.generated_at
          (some metadata.pdf_path)
  pub after : s' ≡ record_generation metadata s

module _ (services : Services) where
  -- The part of `generate_new` behind the authorization.
  issue-inv :
      (s s' : ConversationSession) {g : GeneratedQuotation} (auth : IsAuthorized services s)
      → validate_generation_authorization services s ≡ (ok tt, s)
      → generate_new services s ≡ (ok g, s')
      → Generated services s s' g
  unfolding generate_new
  issue-inv s s' {g} auth checked h =
      let preview_at = auth.delivered.preview_at in
      let current = auth.delivered.current in
      elim (Option-cases services.clock) [
        | inl naive ↦ absurd (ground arith)
        | inr (at, issued) ↦
            elim (Result-cases (services.quotation_id_factory services.rules.quotation_prefix at)) [
              | inr (e, bad) ↦ absurd (ground arith)
              | inl (id, identified) ↦
                  elim (Result-cases (
                    services.generate_quotation_pdf
                      (build_generated_quotation auth.delivered.preview id at none))) [
                        | inr (e, bad) ↦ absurd (ground arith)
                        | inl (path, stored) ↦ elim (Option-cases s.confirmation_turn_id) [
                          | inl missing ↦ absurd (ground arith)
                          | inr (t, turn) ↦ record {
                            authorized = auth;
                            metadata = record {
                              quotation_id = id;
                              quote_fingerprint = auth.delivered.fingerprint;
                              confirmation_turn_id = t;
                              pdf_path = path;
                              generated_at = at;
                            };
                            issued = issued;
                            identified = identified;
                            stored = stored;
                            turn = turn;
                            fingerprint = refl;
                            result = ground arith;
                            after = ground arith;
                          }
                        ]
                      ]
            ]
      ]

  generate_new-inv :
      (s s' : ConversationSession) {g : GeneratedQuotation}
      → generate_new services s ≡ (ok g, s')
      → Generated services s s' g
  generate_new-inv s s' {g} h =
      elim (outcome-cases (validate_generation_authorization services s)) [
        | inr (e, r, bad) ↦ absurd (unfold generate_new in ground arith)
        | inl (done, r, checked) ↦
            let (auth, same) = authorization-inv services s r checked in
            issue-inv s s' auth (ground arith) h
      ]

  -- Where no quotation was generated yet, `generate` returns one only if the session holds an
  -- explicit confirmation of a delivered preview whose fingerprint is the current one. The PDF
  -- service was then called with that very preview, and the session keeps the metadata of the
  -- quotation that was returned.
  pub generate-authorized :
      (s s' : ConversationSession) (g : GeneratedQuotation)
      → s.last_generated_quote ≡ none
      → generate services s ≡ (ok g, s')
      → Generated services s s' g
  unfolding generate
  generate-authorized s s' g new h = generate_new-inv s s' (ground arith)

-- The same service whose clock, ID factory and PDF service answer otherwise.
abbrev pub with_outside :
    Services → Option ℕ → (Text → ℕ → Result Text) → (GeneratedQuotation → Result Text) → Services
with_outside services clock factory pdf = record services {
  clock = clock;
  quotation_id_factory = factory;
  generate_quotation_pdf = pdf;
}

-- Metadata that are those of the session are replayed.
replay_metadata-current :
    (services : Services) (s : ConversationSession) (m : GeneratedQuoteReplayMetadata)
    (preview : QuotePreview)
    → calculate_preview services s ≡ ok preview
    → customer_information_is_ready s ≡ true
    → current_quote_fingerprint services s ≡ ok m.quote_fingerprint
    → is_stale_replay m m.quote_fingerprint s ≡ false
    → replay_metadata services m s
      ≡ (ok (build_generated_quotation preview m.quotation_id m.generated_at (some m.pdf_path)), s)
unfolding replay_metadata validate_customer_information
replay_metadata-current services s m preview calculated ready current fresh = ground arith

record_generation-fresh :
    (s : ConversationSession) (m : GeneratedQuoteReplayMetadata)
    → s.prepared_preview_fingerprint ≡ some m.quote_fingerprint
    → s.confirmation_turn_id ≡ some m.confirmation_turn_id
    → s.quote_confirmed ≡ true
    → is_stale_replay m m.quote_fingerprint (record_generation m s) ≡ false
unfolding is_stale_replay record_generation option_text_eq
record_generation-fresh s m prepared turn confirmed = simp (prepared, turn, confirmed, text_eq_refl)

generate-recorded :
    (services : Services) (s : ConversationSession) (m : GeneratedQuoteReplayMetadata)
    (clock : Option ℕ) (factory : Text → ℕ → Result Text) (pdf : GeneratedQuotation → Result Text)
    (auth : IsAuthorized services s)
    → m.quote_fingerprint ≡ auth.delivered.fingerprint
    → s.confirmation_turn_id ≡ some m.confirmation_turn_id
    → generate (with_outside services clock factory pdf) (record_generation m s) ≡ (
      ok (
          build_generated_quotation auth.delivered.preview m.quotation_id m.generated_at
            (some m.pdf_path)),
      record_generation m s,
    )
unfolding generate record_generation calculate_preview current_quote_fingerprint current_prices
    customer_information_is_ready
generate-recorded services s m clock factory pdf auth same turn =
    let d = auth.delivered in
    replay_metadata-current (with_outside services clock factory pdf) (record_generation m s) m
      d.preview d.preview_at d.ready (d.current ∙ ap ok (sym same))
      (record_generation-fresh s m (d.prepared ∙ ap some (sym same)) turn auth.confirmed)

-- After a quotation was generated, `generate` on the session that it left returns the very same
-- quotation (ID, time, path and contents) and changes nothing, whatever the clock, the ID factory
-- and the PDF service would now answer.
pub generate-idempotent :
    (services : Services) (s s' : ConversationSession) (g : GeneratedQuotation) (clock : Option ℕ)
    (factory : Text → ℕ → Result Text) (pdf : GeneratedQuotation → Result Text)
    → s.last_generated_quote ≡ none
    → generate services s ≡ (ok g, s')
    → generate (with_outside services clock factory pdf) s' ≡ (ok g, s')
generate-idempotent services s s' g clock factory pdf new h =
    let made = generate-authorized services s s' g new h in
    let again =
      generate-recorded services s made.metadata clock factory pdf made.authorized made.fingerprint
        made.turn in
    cc (
      made.after,
      made.result,
      again,
      ap (generate (with_outside services clock factory pdf)) made.after,
    )

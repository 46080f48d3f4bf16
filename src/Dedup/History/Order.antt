-- ===== src/Dedup/History/Order.antt =====
-- Lemmas on several workers on one message of app/services/message_deduplication_service.py.
use global_detergent_sales_a.Prelude.{
  ◌≤◌, ◌⊎◌, inr, Bool-cases, ◌+◌, ℕ, ◌<◌, Text, ◌≡◌, inl, none, some, All-map, arith, refl, ap,
}
use global_detergent_sales_a.Exec.{ok}
use global_detergent_sales_a.Dedup.{MessageProcessingRecord}
use global_detergent_sales_a.Dedup.Scripts.{Cell}
use global_detergent_sales_a.Dedup.Operations.{Operation}
use global_detergent_sales_a.Dedup.Methods.{DedupSettings, mutate_owned}
use global_detergent_sales_a.Dedup.Writes.{Mutation, mutate_owned-outcome}
use global_detergent_sales_a.Dedup.Transitions.{Continues-refl, Continues-trans}
use global_detergent_sales_a.Dedup.Expiry.{Key, found, has_expired}
use global_detergent_sales_a.Dedup.History.{
  at_time, after_script, World, WasRead, Step, Reach, IsEarlier, IsConsistent, CellContinues,
  All-WasRead,
}
use global_detergent_sales_a.Dedup.History.Changes.{
  Change, earlier-current, Change-IsEarlier, Change-CellContinues, claim_message-Change,
  renew_claim-Change, mutate_owned-Change,
}

module _ (settings : DedupSettings) (message_id : Text) where
  keeps :
      (w : World) (cell' : Cell)
      → Change w.cell cell'
      → IsConsistent w
      → IsConsistent (after_script settings w cell')
  keeps w cell' change h = All-map w.seen (λ r e. Change-IsEarlier w.cell cell' r change e) h

  at_time-expirations :
      (now_ms : ℕ) (w : World)
      → (w.expirations < (at_time now_ms w).expirations)
        ⊎ (((at_time now_ms w).expirations ≡ w.expirations) × ((at_time now_ms w).cell ≡ w.cell))
  unfolding at_time found
  at_time-expirations now_ms w =
      let key : Key = record {
        cell = w.cell;
        expires_at_ms = w.expires_at_ms;
        expirations = w.expirations;
      } in
      elim (Bool-cases (has_expired now_ms key)) [
        | inl gone ↦ inl (rw gone (omega arith))
        | inr there ↦ inr (rw there (refl, refl))
      ]

  -- Records expire, and expired records do not come back.
  Step-expirations : {w v : World} → Step settings message_id w v → w.expirations ≤ v.expirations
  Step-expirations (Step.tick w d) = elim (at_time-expirations (w.now_ms + d) w) [
    | inl more ↦ omega (arith, more)
    | inr (same, _) ↦ omega (arith, same)
  ]
  Step-expirations (Step.claim w owner) = omega arith
  Step-expirations (Step.renew w owner) = omega arith
  Step-expirations (Step.read w r at) = omega arith
  Step-expirations (Step.mutate w owner op r m) = omega arith

  Reach-expirations : {w v : World} → Reach settings message_id w v → w.expirations ≤ v.expirations
  Reach-expirations Reach.here = omega arith
  Reach-expirations (Reach.next path step) =
      omega (arith, Reach-expirations path, Step-expirations step)

  Step-Change :
      {w v : World}
      → Step settings message_id w v
      → v.expirations ≡ w.expirations
      → IsConsistent w
      → Change w.cell v.cell
  Step-Change (Step.tick w d) k h = elim (at_time-expirations (w.now_ms + d) w) [
    | inl more ↦ absurd (omega (arith, more, k))
    | inr (_, same) ↦ Change.same same
  ]
  Step-Change (Step.claim w owner) k h =
      claim_message-Change settings message_id owner w.now_ms w.cell
  Step-Change (Step.renew w owner) k h =
      renew_claim-Change settings message_id owner w.now_ms w.cell
  Step-Change (Step.read w r at) k h = Change.same refl
  Step-Change (Step.mutate w owner op r m) k h =
      mutate_owned-Change settings message_id owner w.now_ms w.cell op r
        (All-WasRead (IsEarlier w.cell) r w.seen h m)

  at_time-seen : (now_ms : ℕ) (w : World) → (at_time now_ms w).seen ≡ w.seen
  unfolding at_time
  at_time-seen now_ms w = refl

  Step-IsConsistent :
      {w v : World}
      → Step settings message_id w v
      → v.expirations ≡ w.expirations
      → IsConsistent w
      → IsConsistent v
  Step-IsConsistent (Step.tick w d) k h = elim (at_time-expirations (w.now_ms + d) w) [
    | inl more ↦ absurd (omega (arith, more, k))
    | inr (_, same) ↦ rw (at_time-seen (w.now_ms + d) w, same) h
  ]
  Step-IsConsistent (Step.claim w owner) k h = keeps w _ (Step-Change (Step.claim w owner) k h) h
  Step-IsConsistent (Step.renew w owner) k h = keeps w _ (Step-Change (Step.renew w owner) k h) h
  Step-IsConsistent (Step.read w r at) k h = (rw at (inl refl), h)
  Step-IsConsistent (Step.mutate w owner op r m) k h =
      keeps w _ (Step-Change (Step.mutate w owner op r m) k h) h

  -- On a path on which nothing expires, nothing expires before its last step or in it.
  split_expirations :
      {w u v : World}
      → Reach settings message_id w u
      → Step settings message_id u v
      → v.expirations ≡ w.expirations
      → (u.expirations ≡ w.expirations) × (v.expirations ≡ u.expirations)
  split_expirations path step k =
      let a = Reach-expirations path in
      let b = Step-expirations step in (omega (arith, a, b, k), omega (arith, a, b, k))

  -- As long as the record does not expire, what the workers have read is the stored record or an
  -- older revision of it.
  pub Reach-IsConsistent :
      {w v : World}
      → Reach settings message_id w v
      → v.expirations ≡ w.expirations
      → IsConsistent w
      → IsConsistent v
  Reach-IsConsistent Reach.here k h = h
  Reach-IsConsistent (Reach.next path step) k h =
      let (before, last) = split_expirations path step k in
      Step-IsConsistent step last (Reach-IsConsistent path before h)

  CellContinues-trans : (a b c : Cell) → CellContinues a b → CellContinues b c → CellContinues a c
  CellContinues-trans none b c f g = tt
  CellContinues-trans (some x) none c f g = absurd f
  CellContinues-trans (some x) (some y) none f g = absurd g
  CellContinues-trans (some x) (some y) (some z) f g = Continues-trans f g

  CellContinues-refl : (a : Cell) → CellContinues a a
  CellContinues-refl none = tt
  CellContinues-refl (some x) = Continues-refl x

  -- Whatever the workers do from a consistent world, if no record expires on the way, the stored
  -- record stays, of the same message, its stage never goes back, and a saved agent result is never
  -- replaced.
  pub Reach-continues :
      {w v : World}
      → IsConsistent w
      → Reach settings message_id w v
      → v.expirations ≡ w.expirations
      → CellContinues w.cell v.cell
  Reach-continues {w} h Reach.here k = CellContinues-refl w.cell
  Reach-continues {w} {v} h (Reach.next {u} path step) k =
      let (before, last) = split_expirations path step k in
      CellContinues-trans w.cell u.cell v.cell (Reach-continues h path before) (
        Change-CellContinues u.cell v.cell
          (Step-Change step last (Reach-IsConsistent path before h)))

  -- In a consistent world, an update whose record was read before stores something only if that
  -- record is still the stored one, the worker owns it, and its lease is running.
  pub mutate_owned-current :
      (w : World) (owner : Text) (op : Operation) (r q : MessageProcessingRecord) (cell' : Cell)
      → IsConsistent w
      → WasRead r w.seen
      → mutate_owned settings message_id owner op (some r) w.now_ms w.cell ≡ (ok q, cell')
      → (w.cell ≡ some r)
        × (r.owner_token ≡ some owner)
        × ((t : ℕ) × (r.lease_expires_at_ms ≡ some t) × (w.now_ms < t))
  mutate_owned-current w owner op r q cell' h m answer =
      elim (mutate_owned-outcome settings message_id owner w.now_ms op (some r) w.cell) [
        | Mutation.refused _ none_done ↦ absurd (none_done q (ap (λ p. p.0) answer))
        | Mutation.stored held s replacement at valid same_revision step e ↦
            let earlier = All-WasRead (IsEarlier w.cell) r w.seen h m in
            let current : r ≡ held.current =
              earlier-current w.cell r held.current earlier held.at
                (ground (arith, at, same_revision)) in
            rw current (held.at, held.owned, (held.lease, held.leased, held.running))
      ]

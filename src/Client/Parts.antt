-- ===== src/Client/Parts.antt =====
-- Theorems on the parts that `split_text_message` of app/services/whatsapp_service.py returns.
use global_detergent_sales_a.Prelude.{
  ℕ, ◌-◌, ◌≤◌, ◌<◌, ◌≡◌, ◌≢◌, inl, inr, Text, true, false, none, some, List, arith, Bool-cases,
  ◌==◌, is_blank, length, All,
}
use global_detergent_sales_a.Exec.{ok}
use global_detergent_sales_a.Client.Split.{is_unicode_boundary, split_text_message}
use global_detergent_sales_a.Client.Boundary.{IsCut}
use global_detergent_sales_a.Client.Rounds.{
  concat, ends, IsSplit, is_blank-length, split_from-IsSplit, split_from-returns,
  split_from-Succeeds, IsSplit-concat, IsSplit-lengths, IsSplit-ends,
}

module _ (combining : ℕ → ℕ) (text : Text) (limit : ℕ) where
  split_text_message-IsSplit :
      {parts : List Text}
      → split_text_message combining text limit ≡ some (ok parts)
      → IsSplit combining text limit 0 parts × (0 < length text)
  unfolding split_text_message
  split_text_message-IsSplit {parts} h = elim (Bool-cases (is_blank text)) [
    | inl blank ↦ absurd (ground (arith, rw blank at h))
    | inr full ↦ elim (Bool-cases (limit == 0)) [
      | inl nothing ↦ absurd (ground (arith, rw (full, nothing) at h))
      | inr positive ↦ (
        split_from-IsSplit combining text limit (length text) 0 (rw (full, positive) at h),
        is_blank-length text full,
      )
    ]
  ]

  -- The parts of a text that is split, one after the other, are the text; no part is empty or longer
  -- than the limit, and each part ends where a character and its marks end.
  pub split_text_message-parts :
      {parts : List Text}
      → split_text_message combining text limit ≡ some (ok parts)
      → (concat parts ≡ text)
        × All (λ part. (1 ≤ length part) × (length part ≤ limit)) parts
        × All (λ at. is_unicode_boundary combining text at ≡ true) (ends 0 parts)
  split_text_message-parts h =
      let (split, full) = split_text_message-IsSplit h in
      (
        IsSplit-concat combining text limit split,
        IsSplit-lengths combining text limit split full,
        IsSplit-ends combining text limit split full,
      )

  -- The loop of the splitting ends: the fuel of one round for each character is enough.
  pub split_text_message-returns : split_text_message combining text limit ≢ none
  unfolding split_text_message
  split_text_message-returns out = elim (Bool-cases (is_blank text)) [
    | inl blank ↦ ground (arith, rw blank at out)
    | inr full ↦ elim (Bool-cases (limit == 0)) [
      | inl nothing ↦ ground (arith, rw (full, nothing) at out)
      | inr positive ↦
          split_from-returns combining text limit (length text) 0 (omega arith)
            (omega (arith, is_blank-length text full)) (ground (arith, positive))
            (rw (full, positive) at out)
    ]
  ]

  -- A text that is not blank is split, if the limit is positive and every range of as many
  -- characters as the limit that ends before the text does has a boundary after its start.
  pub split_text_message-Succeeds :
      is_blank text ≡ false
      → 1 ≤ limit
      → ((start : ℕ) → limit < length text - start → (at : ℕ) × IsCut combining text start limit at)
      → (parts : List Text) × (split_text_message combining text limit ≡ some (ok parts))
  unfolding split_text_message
  split_text_message-Succeeds full one cuttable =
      let positive : (limit == 0) ≡ false = ground (arith, one) in
      let (parts, split) =
        split_from-Succeeds combining text limit (length text) 0 (omega arith)
          (omega (arith, is_blank-length text full)) one cuttable in
      (parts, rw (full, positive) split)

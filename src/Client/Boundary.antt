-- ===== src/Client/Boundary.antt =====
-- Lemmas on the boundaries that `split_text_message` of app/services/whatsapp_service.py looks for.
use global_detergent_sales_a.Prelude.{
  ℕ, zero, suc, ◌+◌, ◌≤◌, ◌<◌, ◌≡◌, ◌⊎◌, refl, inl, inr, Text, true, false, some, arith, Bool-cases,
  Option-cases, leb, is_space, ◌==◌, ◌&&◌,
}
use global_detergent_sales_a.Client.Split.{
  char_at, last_newline, is_unicode_boundary, last_space_boundary, preferred_boundary,
  unicode_safe_boundary, next_cut,
}

-- An index after `start`, at most `n` characters on, that is a boundary
abbrev pub IsCut : (ℕ → ℕ) → Text → ℕ → ℕ → ℕ → Type 0
IsCut combining text start n cut =
    (start < cut) × (cut ≤ start + n) × (is_unicode_boundary combining text cut ≡ true)

last_newline-range :
    (text : Text) (start n : ℕ) {i : ℕ}
    → last_newline text start n ≡ some i
    → (start ≤ i) × (i < start + n)
unfolding last_newline
last_newline-range text start zero h = absurd (ground arith)
last_newline-range text start (suc n) {i} h = elim (Bool-cases (char_at text (start + n) == 10)) [
  | inl found ↦ (ground (arith, found), ground (arith, found))
  | inr other ↦
      let (low, high) = last_newline-range text start n {i = i} (rw other at h) in
      (low, omega (arith, high))
]

module _ (combining : ℕ → ℕ) (text : Text) where
  last_space_boundary-IsCut :
      (start n : ℕ) {cut : ℕ}
      → last_space_boundary combining text start n ≡ some cut
      → IsCut combining text start n cut
  unfolding last_space_boundary
  last_space_boundary-IsCut start zero h = absurd (ground arith)
  last_space_boundary-IsCut start (suc n) {cut} h =
      elim (Bool-cases (
        is_space (char_at text (start + n))
        && is_unicode_boundary combining text (suc (start + n)))) [
          | inl found ↦ ground (arith, found, h)
          | inr other ↦
              let (low, high, boundary) =
                last_space_boundary-IsCut start n {cut = cut} (rw other at h) in
              (low, omega (arith, high), boundary)
        ]

  preferred_boundary-IsCut :
      (start n : ℕ) {cut : ℕ}
      → preferred_boundary combining text start n ≡ some cut
      → IsCut combining text start n cut
  unfolding preferred_boundary
  preferred_boundary-IsCut start n {cut} h = elim (Option-cases (last_newline text start n)) [
    | inl missing ↦ last_space_boundary-IsCut start n (rw missing at h)
    | inr (i, found) ↦
        let (low, high) = last_newline-range text start n found in
        elim (Bool-cases (is_unicode_boundary combining text (suc i))) [
          | inl boundary ↦ ground (arith, found, boundary, low, high, h)
          | inr inside ↦ last_space_boundary-IsCut start n (rw (found, inside) at h)
        ]
  ]

  -- The search from the end stops at a boundary, or at the start.
  unicode_safe_boundary-IsCut :
      (start n : ℕ)
      → (unicode_safe_boundary combining text start n ≡ start)
        ⊎ IsCut combining text start n (unicode_safe_boundary combining text start n)
  unfolding unicode_safe_boundary
  unicode_safe_boundary-IsCut start zero = inl refl
  unicode_safe_boundary-IsCut start (suc n) =
      elim (Bool-cases (is_unicode_boundary combining text (start + suc n))) [
        | inl found ↦ inr (rw found (omega arith, omega arith, found))
        | inr other ↦ elim (unicode_safe_boundary-IsCut start n) [
          | inl at_start ↦ inl (rw other at_start)
          | inr (low, high, boundary) ↦ inr (rw other (low, omega (arith, high), boundary))
        ]
      ]

  -- It finds a boundary where there is one.
  unicode_safe_boundary-finds :
      (start n : ℕ) {cut : ℕ}
      → IsCut combining text start n cut
      → start < unicode_safe_boundary combining text start n
  unfolding unicode_safe_boundary
  unicode_safe_boundary-finds start zero (low, high, boundary) = absurd (omega (arith, low, high))
  unicode_safe_boundary-finds start (suc n) {cut} (low, high, boundary) =
      elim (Bool-cases (is_unicode_boundary combining text (start + suc n))) [
        | inl found ↦ rw found (omega arith)
        | inr other ↦
            rw other (unicode_safe_boundary-finds start n {cut = cut} (low, lower other, boundary))
      ]
    where
      lower : is_unicode_boundary combining text (start + suc n) ≡ false → cut ≤ start + n
      lower other = elim (Bool-cases (leb cut (start + n))) [
        | inl fits ↦ ground (arith, fits)
        | inr over ↦
            let same : cut ≡ start + suc n = ground (arith, over, high) in
            absurd (ground (arith, rw same at boundary, other))
      ]

  -- The next cut is a boundary of the range, unless the range has none.
  pub next_cut-IsCut :
      (offset limit : ℕ)
      → (next_cut combining text offset limit ≡ offset)
        ⊎ IsCut combining text offset limit (next_cut combining text offset limit)
  unfolding next_cut
  next_cut-IsCut offset limit =
      elim (Option-cases (preferred_boundary combining text offset limit)) [
        | inl missing ↦ rw missing (unicode_safe_boundary-IsCut offset limit)
        | inr (cut, found) ↦ inr (rw found (preferred_boundary-IsCut offset limit found))
      ]

  pub next_cut-finds :
      (offset limit : ℕ) {cut : ℕ}
      → IsCut combining text offset limit cut
      → offset < next_cut combining text offset limit
  unfolding next_cut
  next_cut-finds offset limit within =
      elim (Option-cases (preferred_boundary combining text offset limit)) [
        | inl missing ↦ rw missing (unicode_safe_boundary-finds offset limit within)
        | inr (cut, found) ↦ rw found (preferred_boundary-IsCut offset limit found).0
      ]

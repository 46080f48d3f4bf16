-- ===== src/Client/Rounds.antt =====
-- Lemmas on the rounds of `split_text_message` of app/services/whatsapp_service.py.
use mathlib.Core.Path.{subst}
use mathlib.Core.List.{append-nil}
use global_detergent_sales_a.Prelude.{
  ℕ, zero, suc, ◌+◌, ◌-◌, ◌++◌, ◌≤◌, ◌<◌, ◌≡◌, ◌≢◌, refl, inl, inr, Text, true, false, Option, none,
  some, List, [], ◌∷◌, arith, Bool-cases, leb, ltb, is_blank, take, drop, length, All, sym, ap, ◌∙◌,
  strip, le→leb, lstrip,
}
use global_detergent_sales_a.Exec.{Result, ok, err}
use global_detergent_sales_a.Client.Split.{is_unicode_boundary, next_cut, add_part, split_from}
use global_detergent_sales_a.Client.Boundary.{IsCut, next_cut-IsCut, next_cut-finds}

-- The text that parts make together
unfoldable pub concat : List Text → Text
concat [] = []
concat (part ∷ parts) = part ++ concat parts

-- The positions at which parts end that begin at an offset
unfoldable pub ends : ℕ → List Text → List ℕ
ends offset [] = []
ends offset (part ∷ parts) = (offset + length part) ∷ ends (offset + length part) parts

take-append-drop {ℓ} : {A : Type ℓ} (n : ℕ) (xs : List A) → take n xs ++ drop n xs ≡ xs
take-append-drop zero xs = refl
take-append-drop (suc n) [] = refl
take-append-drop (suc n) (x ∷ xs) = ap (λ ys. x ∷ ys) (take-append-drop n xs)

drop-nil {ℓ} : (A : Type ℓ) (n : ℕ) → drop {A = A} n [] ≡ []
drop-nil A zero = refl
drop-nil A (suc n) = refl

drop-drop {ℓ} : {A : Type ℓ} (m n : ℕ) (xs : List A) → drop m (drop n xs) ≡ drop (n + m) xs
drop-drop m zero xs = ap (λ k. drop k xs) (omega arith)
drop-drop {A} m (suc n) [] = drop-nil A m ∙ sym (drop-nil A (suc n + m))
drop-drop m (suc n) (x ∷ xs) =
    let sum : suc (n + m) ≡ suc n + m = omega arith in
    drop-drop m n xs ∙ ap (λ k. drop k (x ∷ xs)) sum

length-drop {ℓ} : {A : Type ℓ} (n : ℕ) (xs : List A) → length (drop n xs) ≡ length xs - n
length-drop zero xs = omega arith
length-drop (suc n) [] = omega arith
length-drop (suc n) (x ∷ xs) = omega (arith, length-drop n xs)

length-take {ℓ} : {A : Type ℓ} (n : ℕ) (xs : List A) → n ≤ length xs → length (take n xs) ≡ n
length-take zero xs h = refl
length-take (suc n) [] h = absurd (omega (arith, h))
length-take (suc n) (x ∷ xs) h = omega (arith, length-take n xs (omega (arith, h)))

pub is_blank-length : (text : Text) → is_blank text ≡ false → 0 < length text
unfolding is_blank strip lstrip
is_blank-length [] full = absurd (ground arith)
is_blank-length (c ∷ text) full = omega arith

module _ (combining : ℕ → ℕ) (text : Text) (limit : ℕ) where
  -- The parts of the text from an offset on, cut at boundaries
  pub data IsSplit : ℕ → List Text → Type 0 where
    last : {offset : ℕ} → length text - offset ≤ limit → IsSplit offset (drop offset text ∷ [])
    cut :
        {offset at : ℕ} {parts : List Text}
        → limit < length text - offset
        → IsCut combining text offset limit at
        → IsSplit at parts
        → IsSplit offset (take (at - offset) (drop offset text) ∷ parts)

  add_part-some :
      (part : Text) (rest : Option (Result (List Text))) {parts : List Text}
      → add_part combining part rest ≡ some (ok parts)
      → (others : List Text) × (rest ≡ some (ok others)) × (part ∷ others ≡ parts)
  add_part-some part none h = absurd (ground arith)
  add_part-some part (some (err e)) h = absurd (ground arith)
  add_part-some part (some (ok others)) h = (others, refl, ground arith)

  add_part-none :
      (part : Text) (rest : Option (Result (List Text)))
      → add_part combining part rest ≡ none
      → rest ≡ none
  add_part-none part none h = refl
  add_part-none part (some (err e)) h = absurd (ground arith)
  add_part-none part (some (ok others)) h = absurd (ground arith)

  pub split_from-IsSplit :
      (fuel offset : ℕ) {parts : List Text}
      → split_from combining text limit fuel offset ≡ some (ok parts)
      → IsSplit offset parts
  unfolding split_from
  split_from-IsSplit zero offset h = absurd (ground arith)
  split_from-IsSplit (suc fuel) offset {parts} h =
      let at = next_cut combining text offset limit in
      elim (Bool-cases (ltb limit (length text - offset))) [
        | inr fits ↦
            let same : drop offset text ∷ [] ≡ parts = ground (arith, rw fits at h) in
            subst (IsSplit offset) same (last (ground (arith, fits)))
        | inl over ↦ elim (next_cut-IsCut combining text offset limit) [
          | inl stuck ↦ absurd (ground (arith, stuck, rw (over, stuck) at h))
          | inr (low, high, boundary) ↦
              let later : leb at offset ≡ false = ground (arith, low) in
              let (others, rest, same) = add_part-some _ _ (rw (over, later) at h) in
              subst (IsSplit offset) same
                (cut (ground (arith, over)) (low, high, boundary) (split_from-IsSplit fuel at rest))
        ]
      ]

  -- With as much fuel as there is text left, the loop returns.
  pub split_from-returns :
      (fuel offset : ℕ)
      → length text - offset ≤ fuel
      → 1 ≤ fuel
      → 1 ≤ limit
      → split_from combining text limit fuel offset ≢ none
  unfolding split_from
  split_from-returns zero offset h one positive out = absurd (omega (arith, one))
  split_from-returns (suc fuel) offset h one positive out =
      let at = next_cut combining text offset limit in
      elim (Bool-cases (ltb limit (length text - offset))) [
        | inr fits ↦ ground (arith, rw fits at out)
        | inl over ↦ elim (Bool-cases (leb at offset)) [
          | inl stuck ↦ ground (arith, rw (over, stuck) at out)
          | inr later ↦
              split_from-returns fuel at (ground (arith, h, over, later))
                (ground (arith, h, over, positive)) positive
                (add_part-none _ _ (rw (over, later) at out))
        ]
      ]

  pub split_from-Succeeds :
      (fuel offset : ℕ)
      → length text - offset ≤ fuel
      → 1 ≤ fuel
      → 1 ≤ limit
      → ((start : ℕ) → limit < length text - start → (at : ℕ) × IsCut combining text start limit at)
      → (parts : List Text) × (split_from combining text limit fuel offset ≡ some (ok parts))
  unfolding split_from
  split_from-Succeeds zero offset h one positive cuttable = absurd (omega (arith, one))
  split_from-Succeeds (suc fuel) offset h one positive cuttable =
      let at = next_cut combining text offset limit in
      elim (Bool-cases (ltb limit (length text - offset))) [
        | inr fits ↦ (drop offset text ∷ [], rw fits refl)
        | inl over ↦
            let (_, within) = cuttable offset (ground (arith, over)) in
            let low = next_cut-finds combining text offset limit within in
            let later : leb at offset ≡ false = ground (arith, low) in
            let (parts, rest) =
              split_from-Succeeds fuel at (ground (arith, h, over, low))
                (ground (arith, h, over, positive)) positive cuttable in
            (take (at - offset) (drop offset text) ∷ parts, rw (over, later, rest) refl)
      ]

  pub IsSplit-concat :
      {offset : ℕ} {parts : List Text} → IsSplit offset parts → concat parts ≡ drop offset text
  unfolding concat
  IsSplit-concat (last fits) = append-nil _
  IsSplit-concat {offset} (cut {at = at} over (low, high, boundary) rest) =
      ap (λ t. take (at - offset) (drop offset text) ++ t) (IsSplit-concat rest ∙ rejoin low)
      ∙ take-append-drop (at - offset) (drop offset text)
    where
      rejoin : offset < at → drop at text ≡ drop (at - offset) (drop offset text)
      rejoin low =
          let sum : at ≡ offset + (at - offset) = omega (arith, low) in
          ap (λ k. drop k text) sum ∙ sym (drop-drop (at - offset) offset text)

  piece-length :
      {offset at : ℕ}
      → offset < at
      → at ≤ length text
      → length (take (at - offset) (drop offset text)) ≡ at - offset
  piece-length {offset} {at} low high =
      length-take (at - offset) (drop offset text)
        (rw (length-drop offset text) (omega (arith, low, high)))

  pub IsSplit-lengths :
      {offset : ℕ} {parts : List Text}
      → IsSplit offset parts
      → offset < length text
      → All (λ part. (1 ≤ length part) × (length part ≤ limit)) parts
  IsSplit-lengths {offset} (last fits) inside =
      (rw (length-drop offset text) (omega (arith, inside), fits), tt)
  IsSplit-lengths {offset} (cut {at = at} over (low, high, boundary) rest) inside =
      let within : at < length text = omega (arith, over, low, high) in
      (
        rw (piece-length low (omega (arith, within))) (omega (arith, low), omega (arith, high)),
        IsSplit-lengths rest within,
      )

  is_unicode_boundary-past : (i : ℕ) → length text ≤ i → is_unicode_boundary combining text i ≡ true
  unfolding is_unicode_boundary
  is_unicode_boundary-past zero h = refl
  is_unicode_boundary-past (suc i) h = rw (le→leb (length text) (suc i) h) refl

  pub IsSplit-ends :
      {offset : ℕ} {parts : List Text}
      → IsSplit offset parts
      → offset < length text
      → All (λ at. is_unicode_boundary combining text at ≡ true) (ends offset parts)
  unfolding ends
  IsSplit-ends {offset} (last fits) inside =
      let sum : offset + length (drop offset text) ≡ length text =
        omega (arith, length-drop offset text, inside) in
      (rw sum (is_unicode_boundary-past (length text) (omega arith)), tt)
  IsSplit-ends {offset} (cut {at = at} over (low, high, boundary) rest) inside =
      let within : at < length text = omega (arith, over, low, high) in
      let sum : offset + length (take (at - offset) (drop offset text)) ≡ at =
        omega (arith, piece-length low (omega (arith, within)), low) in
      (rw sum boundary, rw sum (IsSplit-ends rest within))

-- ===== src/Client/Split.antt =====
-- `split_text_message` of app/services/whatsapp_service.py and the boundaries it looks for.
-- A text is its code points. `combining` is the canonical combining class of a character, which
-- `unicodedata` knows. A range from `start` up to `maximum` is given by its length `n`, as
-- `maximum = start + n`.
use global_detergent_sales_a.Prelude.{
  ℕ, zero, suc, ◌+◌, ◌-◌, ◌%◌, ltb, leb, ◌==◌, Text, is_space, is_blank, length, take, drop, Bool,
  true, false, not, ◌&&◌, ◌||◌, Option, none, some, List, [], ◌∷◌, if◌then◌else◌,
}
use global_detergent_sales_a.Errors.{Error}
use global_detergent_sales_a.Exec.{Result, ok, err}

-- `text[index]`; every index that is read is below the length.
unfoldable pub char_at : Text → ℕ → ℕ
char_at [] i = 0
char_at (c ∷ text) zero = c
char_at (c ∷ text) (suc i) = char_at text i

-- `_is_variation_or_modifier`
abbrev pub is_variation_or_modifier : ℕ → Bool
is_variation_or_modifier c = (leb 65024 c && leb c 65039) || (leb 127995 c && leb c 127999)

-- `_is_regional_indicator`
abbrev pub is_regional_indicator : ℕ → Bool
is_regional_indicator c = leb 127462 c && leb c 127487

-- The regional indicators that stand directly before an index
unfoldable pub regional_run : Text → ℕ → ℕ
unfolding char_at
regional_run text zero = 0
regional_run text (suc i) =
    let run = regional_run text i in if is_regional_indicator (char_at text i) then suc run else 0

-- The greatest index of the range whose character is a newline: `text.rfind("\n", start, maximum)`
unfoldable pub last_newline : Text → ℕ → ℕ → Option ℕ
unfolding char_at
last_newline text start zero = none
last_newline text start (suc n) =
    let rest = last_newline text start n in
    if char_at text (start + n) == 10 then some (start + n) else rest

module _ (combining : ℕ → ℕ) where
  -- `_is_unicode_boundary` between a character, the one that follows, and the regional indicators
  -- up to the first of them
  abbrev pub is_boundary_between : ℕ → ℕ → ℕ → Bool
  is_boundary_between previous following run_length =
      if previous == 13 && following == 10
      then false
      else if previous == 8205 || following == 8205
      then false
      else if not (combining following == 0) || is_variation_or_modifier following
      then false
      else if is_regional_indicator previous && is_regional_indicator following
      then run_length % 2 == 0
      else true

  -- `_is_unicode_boundary`
  unfoldable pub is_unicode_boundary : Text → ℕ → Bool
  unfolding char_at regional_run
  is_unicode_boundary text zero = true
  is_unicode_boundary text (suc i) =
      if leb (length text) (suc i)
      then true
      else is_boundary_between (char_at text i) (char_at text (suc i)) (regional_run text (suc i))

  -- The loop of `_preferred_boundary` over the whitespace of the range, from its end
  unfoldable pub last_space_boundary : Text → ℕ → ℕ → Option ℕ
  unfolding char_at is_unicode_boundary is_space
  last_space_boundary text start zero = none
  last_space_boundary text start (suc n) =
      let rest = last_space_boundary text start n in
      if is_space (char_at text (start + n)) && is_unicode_boundary text (suc (start + n))
      then some (suc (start + n))
      else rest

  -- `_preferred_boundary`, after the newline
  abbrev pub boundary_after : Text → Option ℕ → Option ℕ → Option ℕ
  boundary_after text none otherwise = otherwise
  boundary_after text (some newline) otherwise =
      if is_unicode_boundary text (suc newline) then some (suc newline) else otherwise

  -- `_preferred_boundary`
  unfoldable pub preferred_boundary : Text → ℕ → ℕ → Option ℕ
  unfolding last_newline last_space_boundary
  preferred_boundary text start n =
      boundary_after text (last_newline text start n) (last_space_boundary text start n)

  -- `_unicode_safe_boundary`
  unfoldable pub unicode_safe_boundary : Text → ℕ → ℕ → ℕ
  unfolding is_unicode_boundary
  unicode_safe_boundary text start zero = start
  unicode_safe_boundary text start (suc n) =
      let rest = unicode_safe_boundary text start n in
      if is_unicode_boundary text (start + suc n) then start + suc n else rest

  -- Where the loop of `split_text_message` cuts next
  abbrev pub or_safe : Option ℕ → ℕ → ℕ
  or_safe none safe = safe
  or_safe (some preferred) safe = preferred

  unfoldable pub next_cut : Text → ℕ → ℕ → ℕ
  unfolding preferred_boundary unicode_safe_boundary
  next_cut text offset limit =
      or_safe (preferred_boundary text offset limit) (unicode_safe_boundary text offset limit)

  abbrev pub add_part : Text → Option (Result (List Text)) → Option (Result (List Text))
  add_part part none = none
  add_part part (some (err e)) = some (err e)
  add_part part (some (ok parts)) = some (ok (part ∷ parts))

  -- The loop of `split_text_message`; `none` is a loop that has run out of fuel.
  unfoldable pub split_from : Text → ℕ → ℕ → ℕ → Option (Result (List Text))
  unfolding next_cut
  split_from text limit zero offset = none
  split_from text limit (suc fuel) offset =
      let split_at = next_cut text offset limit in
      let rest = split_from text limit fuel split_at in
      if ltb limit (length text - offset)
      then (if leb split_at offset
          then some (err Error.value_error)
          else add_part (take (split_at - offset) (drop offset text)) rest)
      else some (ok (drop offset text ∷ []))

  -- `split_text_message`
  unfoldable pub split_text_message : Text → ℕ → Option (Result (List Text))
  unfolding split_from is_blank
  split_text_message text limit =
      if is_blank text
      then some (err Error.value_error)
      else if limit == 0
      then some (err Error.value_error)
      else split_from text limit (length text) 0

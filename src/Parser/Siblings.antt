-- ===== src/Parser/Siblings.antt =====
-- Theorems on the messages of a webhook in app/services/whatsapp_parser.py, each beside its siblings.
use mathlib.Core.List.{Memᴰ}
use mathlib.Core.List.Memᴰ
use mathlib.Core.Path.{subst}
use global_detergent_sales_a.Prelude.{
  ℕ, zero, suc, ◌+◌, ◌==◌, ◌≤◌, ◌≡◌, refl, codes, Option, none, some, List, [], ◌∷◌, arith, ap, sym,
  ◌∙◌, false,
}
use global_detergent_sales_a.Exec.{ok}
use global_detergent_sales_a.Json.{Json, Items, Members, get}
use global_detergent_sales_a.Schemas.Whatsapp.{WebhookParseOutcome}
use global_detergent_sales_a.Parser.{Builtins, Location, Parsed, passed, stopped}
use global_detergent_sales_a.Parser.Message.{parse_message}
use global_detergent_sales_a.Parser.Event.{
  at_message, parse_messages, value_outcomes, change_value, parse_change, parse_changes,
  entry_changes, parse_entry, parse_entries, webhook_entries, parse_whatsapp_webhook, or_outcome,
  array_outcomes, node_outcomes, nowhere, at_entry, at_change,
}

-- The item of an array at an index
abbrev pub item_at : Items → ℕ → Option Json
item_at Items.no_more i = none
item_at (Items.add_value item items) zero = some item
item_at (Items.add_value item items) (suc i) = item_at items i

-- The items of a value, if it is an array
abbrev pub items_of : Json → Items
items_of (Json.array items) = items
items_of Json.null = Items.no_more
items_of (Json.boolean b) = Items.no_more
items_of (Json.integer i) = Items.no_more
items_of (Json.number s) = Items.no_more
items_of (Json.string s) = Items.no_more
items_of (Json.object members) = Items.no_more

-- What a step passes on
abbrev pub value_of {ℓ} : {A : Type ℓ} → Parsed A → Option A
value_of (passed a) = some a
value_of (stopped kind code detail) = none

-- The message stands in the payload at the indices of an entry, a change and a message, and the
-- entry and the change are well formed.
pub record StandsAt (py : Builtins) (payload : Json) (i j k : ℕ) (raw : Json) : Type 0 where
  pub entries : Items
  pub entry : Json
  pub changes : Items
  pub change : Json
  pub value : Members
  pub payload_passes : webhook_entries payload ≡ passed entries
  pub entry_at : item_at entries i ≡ some entry
  pub entry_passes : entry_changes entry ≡ passed changes
  pub change_at : item_at changes j ≡ some change
  pub change_passes : change_value py change ≡ passed value
  pub message_at : item_at (items_of (get value (codes "messages"))) k ≡ some raw

or_outcome-mem :
    {o : WebhookParseOutcome} (outcomes : List WebhookParseOutcome) (other : WebhookParseOutcome)
    → Memᴰ o outcomes
    → Memᴰ o (or_outcome outcomes other)
or_outcome-mem [] other h = absurd (Memᴰ.not-nil h)
or_outcome-mem (x ∷ outcomes) other h = h

array_outcomes-mem :
    {o : WebhookParseOutcome} (value : Json) (of_items : Items → List WebhookParseOutcome)
    (wrong : WebhookParseOutcome) {k : ℕ} {raw : Json}
    → item_at (items_of value) k ≡ some raw
    → ((items : Items) → item_at items k ≡ some raw → Memᴰ o (of_items items))
    → Memᴰ o (array_outcomes value of_items wrong)
array_outcomes-mem (Json.array items) of_items wrong at h = h items at
array_outcomes-mem Json.null of_items wrong at h = absurd (ground (arith, at))
array_outcomes-mem (Json.boolean b) of_items wrong at h = absurd (ground (arith, at))
array_outcomes-mem (Json.integer i) of_items wrong at h = absurd (ground (arith, at))
array_outcomes-mem (Json.number s) of_items wrong at h = absurd (ground (arith, at))
array_outcomes-mem (Json.string s) of_items wrong at h = absurd (ground (arith, at))
array_outcomes-mem (Json.object members) of_items wrong at h = absurd (ground (arith, at))

node_outcomes-mem {ℓ} :
    {A : Type ℓ} {o : WebhookParseOutcome} (location : Location)
    (outcomes : A → List WebhookParseOutcome) (p : Parsed A) {a : A}
    → p ≡ passed a
    → Memᴰ o (outcomes a)
    → Memᴰ o (node_outcomes location outcomes p)
node_outcomes-mem {o} location outcomes p at h =
    subst (λ q. Memᴰ o (node_outcomes location outcomes q)) (sym at) h

some_injective {ℓ} : {A : Type ℓ} {a b : A} → some a ≡ some b → a ≡ b
some_injective {a} h = ap (λ o. elim o [ none ↦ a | some x ↦ x ]) h

module _ (py : Builtins) (max : ℕ) where
  parse_messages-mem :
      (entry change index k : ℕ) (items : Items) {raw : Json}
      → item_at items k ≡ some raw
      → Memᴰ
          (parse_message py max (at_message entry change (index + k)) raw)
          (parse_messages py max entry change index items)
  unfolding parse_messages
  parse_messages-mem entry change index k Items.no_more h = absurd (ground (arith, h))
  parse_messages-mem entry change index zero (Items.add_value item items) {raw} h =
      let sum : index + 0 ≡ index = omega arith in
      Memᴰ.head (
        ap (λ n. parse_message py max (at_message entry change n) raw) sum
        ∙ ap (parse_message py max (at_message entry change index)) (sym (some_injective h)))
  parse_messages-mem entry change index (suc k) (Items.add_value item items) {raw} h =
      let sum : suc index + k ≡ index + suc k = omega arith in
      Memᴰ.tail (
        subst
          (λ n.
            Memᴰ (parse_message py max (at_message entry change n) raw)
              (parse_messages py max entry change (suc index) items))
          sum (parse_messages-mem entry change (suc index) k items h))

  -- A member of what a change becomes is one of what the changes become.
  parse_changes-mem :
      (entry index j : ℕ) (changes : Items) {change : Json} {o : WebhookParseOutcome}
      → item_at changes j ≡ some change
      → Memᴰ o (parse_change py max entry (index + j) change)
      → Memᴰ o (parse_changes py max entry index changes)
  unfolding parse_changes
  parse_changes-mem entry index j Items.no_more h m = absurd (ground (arith, h))
  parse_changes-mem entry index zero (Items.add_value item items) {o = o} h m =
      let sum : index + 0 ≡ index = omega arith in
      Memᴰ.append_left _ (
        subst (λ c. Memᴰ o (parse_change py max entry index c)) (sym (some_injective h))
          (rw sum at m))
  parse_changes-mem entry index (suc j) (Items.add_value item items) {change} {o} h m =
      let sum : index + suc j ≡ suc index + j = omega arith in
      Memᴰ.append_right (parse_change py max entry index item) (
        parse_changes-mem entry (suc index) j items h
          (subst (λ n. Memᴰ o (parse_change py max entry n change)) sum m))

  parse_entries-mem :
      (index i : ℕ) (entries : Items) {entry : Json} {o : WebhookParseOutcome}
      → item_at entries i ≡ some entry
      → Memᴰ o (parse_entry py max (index + i) entry)
      → Memᴰ o (parse_entries py max index entries)
  unfolding parse_entries
  parse_entries-mem index i Items.no_more h m = absurd (ground (arith, h))
  parse_entries-mem index zero (Items.add_value item items) {o = o} h m =
      let sum : index + 0 ≡ index = omega arith in
      Memᴰ.append_left _
        (subst (λ e. Memᴰ o (parse_entry py max index e)) (sym (some_injective h)) (rw sum at m))
  parse_entries-mem index (suc i) (Items.add_value item items) {entry} {o} h m =
      let sum : index + suc i ≡ suc index + i = omega arith in
      Memᴰ.append_right (parse_entry py max index item) (
        parse_entries-mem (suc index) i items h
          (subst (λ n. Memᴰ o (parse_entry py max n entry)) sum m))

  value_outcomes-mem :
      (i j k : ℕ) (value : Members) {raw : Json}
      → item_at (items_of (get value (codes "messages"))) k ≡ some raw
      → Memᴰ (parse_message py max (at_message i j k) raw) (value_outcomes py max i j value)
  unfolding value_outcomes
  value_outcomes-mem i j k value {raw} h =
      let sum : 0 + k ≡ k = omega arith in
      or_outcome-mem _ _ (
        Memᴰ.append_left _ (
          array_outcomes-mem (get value (codes "messages")) (parse_messages py max i j 0) _ h
            (λ items at.
              subst
                (λ n.
                  Memᴰ (parse_message py max (at_message i j n) raw)
                    (parse_messages py max i j 0 items))
                sum (parse_messages-mem i j 0 k items at))))

  -- Each message of a payload that stands in a well-formed change of a well-formed entry has its
  -- own outcome, that of parsing it alone at its indices, whatever its siblings are: no malformed
  -- entry, change or message makes the parser lose another one.
  pub parse_whatsapp_webhook-keeps_siblings :
      (payload : Json) (i j k : ℕ) (raw : Json)
      → 1 ≤ max
      → StandsAt py payload i j k raw
      → (outcomes : List WebhookParseOutcome) × (parse_whatsapp_webhook py payload max
          ≡ ok outcomes)
        × Memᴰ (parse_message py max (at_message i j k) raw) outcomes
  unfolding parse_whatsapp_webhook parse_change parse_entry
  parse_whatsapp_webhook-keeps_siblings payload i j k raw one s =
      let positive : (max == 0) ≡ false = ground (arith, one) in
      let zero_i : 0 + i ≡ i = omega arith in
      let zero_j : 0 + j ≡ j = omega arith in
      (
        node_outcomes nowhere (parse_entries py max 0) (webhook_entries payload),
        rw positive refl,
        node_outcomes-mem nowhere (parse_entries py max 0) (webhook_entries payload)
            s.payload_passes
            (parse_entries-mem 0 i s.entries s.entry_at (
              rw zero_i (
                node_outcomes-mem (at_entry i) (parse_changes py max i 0) (entry_changes s.entry)
                  s.entry_passes
                  (parse_changes-mem i 0 j s.changes s.change_at (
                    rw zero_j (
                      node_outcomes-mem (at_change i j) (value_outcomes py max i j)
                        (change_value py s.change) s.change_passes
                        (value_outcomes-mem i j k s.value s.message_at))))))),
      )

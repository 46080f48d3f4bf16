-- ===== src/Coordinator/Calls.antt =====
-- Lemmas on the external actions of app/services/whatsapp_processing_coordinator.py: the calls that a
-- provider may have accepted, and the methods that keep them few.
use mathlib.Core.Path.{subst}
use global_detergent_sales_a.Prelude.{
  Bool-cases, ℕ, ◌+◌, ◌++◌, ◌≤◌, ◌≡◌, ◌⊎◌, refl, inl, inr, Bool, true, false, ◌&&◌, List, [], ◌∷◌,
  arith, if◌then◌else◌, sym, ap, ◌∙◌,
}
use global_detergent_sales_a.Errors.{Error}
use global_detergent_sales_a.Exec.{
  Result, ok, err, Exec, raise, outcome-cases, ◌>>=◌, ◌>>◌, >>=-ok, >>=-err,
}
use global_detergent_sales_a.Dedup.{MessageProcessingRecord}
use global_detergent_sales_a.Dedup.Scripts.{Cell}
use global_detergent_sales_a.Dedup.Methods.{DedupSettings}
use global_detergent_sales_a.Dedup.Expiry.{Key, found, has_expired, on_key}
use global_detergent_sales_a.Dedup.Operations.{ActionField}
use global_detergent_sales_a.Coordinator.{Collaborators, Event, Processing}
use global_detergent_sales_a.Coordinator.Actions.{store, request, unless_lost}
use global_detergent_sales_a.Coordinator.BegunRecord.{has_begun, same_field}

abbrev pub bit : Bool → ℕ
bit true = 1
bit false = 0

abbrev pub counts : ActionField → Event → Bool
counts f (Event.called g arguments maybe) = same_field f g && maybe
counts f (Event.agent_run sender text) = false
counts f (Event.acknowledged fingerprint turn_id) = false

-- How many calls of an action the provider may have accepted
unfoldable pub accepted_calls : ActionField → List Event → ℕ
accepted_calls f [] = 0
accepted_calls f (e ∷ trace) = bit (counts f e) + accepted_calls f trace

-- One call for each record that has expired, and one if the stored record says that the action has
-- begun
abbrev pub allowed : ActionField → Key → ℕ
allowed f key = key.expirations + bit (has_begun f key.cell)

-- At most one call of the action may have been accepted for each record that has expired, and one
-- more only if the stored record says that the action has begun.
abbrev pub AtMostOnce : ActionField → Processing → Type 0
AtMostOnce f s = accepted_calls f s.trace ≤ allowed f s.key

-- One more call of the action is in order.
abbrev pub Below : ActionField → Processing → Type 0
Below f s = accepted_calls f s.trace ≤ s.key.expirations

pub accepted_calls-none : (f : ActionField) (key : Key) → accepted_calls f [] ≤ allowed f key
unfolding accepted_calls
accepted_calls-none f key = omega arith

pub accepted_calls-append :
    (f : ActionField) (trace : List Event) (e : Event)
    → accepted_calls f (trace ++ (e ∷ [])) ≡ accepted_calls f trace + bit (counts f e)
unfolding accepted_calls
accepted_calls-append f [] e = omega arith
accepted_calls-append f (x ∷ trace) e = omega (arith, accepted_calls-append f trace e)

-- A method keeps the invariant, also when it raises.
abbrev pub Keeps {ℓ} : {A : Type ℓ} → ActionField → Exec Processing A → Type 0
Keeps f m = (s : Processing) → AtMostOnce f s → AtMostOnce f (m s).1

pub Keeps-bind {ℓ κ} :
    {A : Type ℓ} {B : Type κ} (f : ActionField) (m : Exec Processing A) (g : A → Exec Processing B)
    → Keeps f m
    → ((a : A) → Keeps f (g a))
    → Keeps f (m >>= g)
Keeps-bind f m g km kg s h = elim (outcome-cases (m s)) [
  | inr (e, s', at) ↦
      subst (λ p. AtMostOnce f p.1) (sym (>>=-err m g s at))
        (subst (λ p. AtMostOnce f p.1) at (km s h))
  | inl (a, s', at) ↦
      subst (λ p. AtMostOnce f p.1) (sym (>>=-ok m g s at))
        (kg a s' (subst (λ p. AtMostOnce f p.1) at (km s h)))
]

pub Keeps-if {ℓ} :
    {A : Type ℓ} (f : ActionField) (b : Bool) (m n : Exec Processing A)
    → Keeps f m
    → Keeps f n
    → Keeps f (if b then m else n)
Keeps-if f true m n km kn = km
Keeps-if f false m n km kn = kn

pub bit-le : (b : Bool) → bit b ≤ 1
bit-le true = omega arith
bit-le false = omega arith

bit_grows : (b b' : Bool) → (b ≡ true → b' ≡ true) → bit b ≤ bit b'
bit_grows true b' k = ground (arith, k refl)
bit_grows false b' k = omega arith

-- A key that allows as many calls as another, and of which as many records have expired
pub record Grows (f : ActionField) (key key' : Key) : Type 0 where
  pub allows : allowed f key ≤ allowed f key'
  pub expires : key.expirations ≤ key'.expirations

pub Grows-refl : (f : ActionField) (key : Key) → Grows f key key
Grows-refl f key = record { allows = omega arith; expires = omega arith }

pub Grows-trans : {f : ActionField} {a b d : Key} → Grows f a b → Grows f b d → Grows f a d
Grows-trans g h = record {
  allows = omega (arith, g.allows, h.allows);
  expires = omega (arith, g.expires, h.expires);
}

-- A record that expires turns the call that it allowed into one for an expired record.
pub found-Grows : (f : ActionField) (now_ms : ℕ) (key : Key) → Grows f key (found now_ms key)
unfolding found
found-Grows f now_ms key = elim (Bool-cases (has_expired now_ms key)) [
  | inl gone ↦
      rw gone
        (record { allows = omega (arith, bit-le (has_begun f key.cell)); expires = omega arith })
  | inr there ↦ rw there (Grows-refl f key)
]

-- The methods that keep what has begun
abbrev pub KeepsBegun {ℓ} : {A : Type ℓ} → ActionField → (ℕ → Cell → Result A × Cell) → Type 0
KeepsBegun f method =
    (now_ms : ℕ) (cell : Cell) → has_begun f cell ≡ true → has_begun f (method now_ms cell).1 ≡ true

pub on_key-Grows {ℓ} :
    {A : Type ℓ} (f : ActionField) (settings : DedupSettings) (method : ℕ → Cell → Result A × Cell)
    (now_ms : ℕ) (key : Key)
    → KeepsBegun f method
    → Grows f key (on_key settings method now_ms key).1
unfolding on_key
on_key-Grows f settings method now_ms key k =
    let before = found now_ms key in
    let g = found-Grows f now_ms key in
    let more =
      bit_grows (has_begun f before.cell) (has_begun f (method now_ms before.cell).1)
        (k now_ms before.cell) in
    record { allows = omega (arith, g.allows, more); expires = g.expires }

pub on_key-expirations {ℓ} :
    {A : Type ℓ} (f : ActionField) (settings : DedupSettings) (method : ℕ → Cell → Result A × Cell)
    (now_ms : ℕ) (key : Key)
    → key.expirations ≤ (on_key settings method now_ms key).1.expirations
unfolding on_key
on_key-expirations f settings method now_ms key = (found-Grows f now_ms key).expires

pub unless_lost-Grows :
    (f : ActionField) (r : Result MessageProcessingRecord) (start key : Key) (rest : Bool × Key)
    → Grows f start key
    → Grows f start rest.1
    → Grows f start (unless_lost r key rest).1
unless_lost-Grows f (err e) start key rest b k = b
unless_lost-Grows f (ok r) start key rest b k = k

pub same_field_refl : (f : ActionField) → same_field f f ≡ true
same_field_refl ActionField.text_delivery = refl
same_field_refl ActionField.document_upload = refl
same_field_refl ActionField.document_delivery = refl

pub lost_or_not {ℓ} :
    {A : Type ℓ} (lost : Bool) (a : A)
    → ((if lost then err Error.processing_retryable else ok a) ≡ ok a)
      ⊎ ((e : Error) × ((if lost then err Error.processing_retryable else ok a) ≡ err e))
lost_or_not true a = inr (Error.processing_retryable, refl)
lost_or_not false a = inl refl

-- Raising after a method leaves what the method left.
pub raise-state {ℓ κ} :
    {S A : Type ℓ} (B : Type κ) (m : Exec S A) (e : Error) (s : S)
    → ((m >> raise {A = B} e) s).1 ≡ (m s).1
raise-state B m e s = elim (outcome-cases (m s)) [
  | inr (x, s', at) ↦ ap (λ p. p.1) (>>=-err m (λ _. raise e) s at) ∙ ap (λ p. p.1) (sym at)
  | inl (a, s', at) ↦ ap (λ p. p.1) (>>=-ok m (λ _. raise e) s at) ∙ ap (λ p. p.1) (sym at)
]

module _ (c : Collaborators) (f : ActionField) where
  pub Keeps-store {ℓ} :
      {A : Type ℓ} (F : ℕ → Cell → Result A × Cell) → KeepsBegun f F → Keeps f (store c F)
  Keeps-store F k s h =
      omega (arith, h, (on_key-Grows f c.settings F (c.clock s.calls) s.key k).allows)

  pub Keeps-request {ℓ} :
      {A : Type ℓ} (ask : ℕ → A) (event : A → Event)
      → ((a : A) → counts f (event a) ≡ false)
      → Keeps f (request c ask event)
  Keeps-request ask event k s h =
      rw (accepted_calls-append f s.trace (event (ask s.calls)), k (ask s.calls)) (omega (arith, h))

-- ===== src/Exec.antt =====
-- Python functions that may raise, and methods that change an object and may raise.
-- `Result A` is the outcome of a function without side effects. `Exec S A` is a method over the
-- object `S`: what it wrote before it raised stays written, so the object comes back with an error.
use global_detergent_sales_a.Prelude.{
  ◌≡◌, refl, Bool, true, false, Option, none, some, ◌⊎◌, inl, inr, if◌then◌else◌, ap,
}
use global_detergent_sales_a.Errors.{Error}

-- What a function without a `return` value returns.
abbrev pub Done : Type 0
Done = Unit

pub data Result {ℓ} (A : Type ℓ) : Type ℓ where
  ok : A → Result A
  err : Error → Result A

abbrev pub bind {ℓ κ} : {A : Type ℓ} {B : Type κ} → Result A → (A → Result B) → Result B
bind (ok a) f = f a
bind (err e) f = err e

-- `if not test: raise e`
abbrev pub require : Bool → Error → Result (Done)
require true e = ok tt
require false e = err e

abbrev pub or_error {ℓ} : {A : Type ℓ} → Option A → Error → Result A
or_error none e = err e
or_error (some a) e = ok a

-- Inversion of a chain that succeeded.
pub bind-eq-ok {ℓ κ} :
    {A : Type ℓ} {B : Type κ} (r : Result A) (f : A → Result B) {b : B}
    → bind r f ≡ ok b
    → (a : A) × (r ≡ ok a) × (f a ≡ ok b)
bind-eq-ok (ok a) f h = (a, refl, h)
bind-eq-ok (err e) f h = cc

pub Result-cases {ℓ} :
    {A : Type ℓ} (r : Result A) → ((a : A) × (r ≡ ok a)) ⊎ ((e : Error) × (r ≡ err e))
Result-cases (ok a) = inl (a, refl)
Result-cases (err e) = inr (e, refl)

abbrev pub Exec {ℓ κ} : Type ℓ → Type κ → Type (ℓ ⊔ κ)
Exec S A = S → Result A × S

module _ {ℓ κ} {S : Type ℓ} {A : Type κ} where
  abbrev pub pure : A → Exec S A
  pure a s = (ok a, s)

  abbrev pub raise : Error → Exec S A
  raise e s = (err e, s)

  -- A computation over the object that changes nothing.
  abbrev pub reads : (S → Result A) → Exec S A
  reads f s = (f s, s)

-- `if test: raise e`
abbrev pub raise_if {ℓ} : {S : Type ℓ} → Bool → Error → Exec S (Done)
raise_if c e s = (if c then err e else ok tt, s)

abbrev pub modify {ℓ} : {S : Type ℓ} → (S → S) → Exec S (Done)
modify f s = (ok tt, f s)

infixl 5 ◌>>=◌ ◌>>◌
abbrev pub ◌>>=◌ {ℓ κ μ} :
    {S : Type ℓ} {A : Type κ} {B : Type μ} → Exec S A → (A → Exec S B) → Exec S B
◌>>=◌ m f s = let (r, s') = m s in elim r [ ok a ↦ f a s' | err e ↦ (err e, s') ]

abbrev pub ◌>>◌ {ℓ κ μ} : {S : Type ℓ} {A : Type κ} {B : Type μ} → Exec S A → Exec S B → Exec S B
m >> k = m >>= λ _. k

-- The two ways in which a method ends.
pub outcome-cases {ℓ κ} :
    {S : Type ℓ} {A : Type κ} (r : Result A × S)
    → ((a : A) × (s : S) × (r ≡ (ok a, s))) ⊎ ((e : Error) × (s : S) × (r ≡ (err e, s)))
outcome-cases (ok a, s) = inl (a, s, refl)
outcome-cases (err e, s) = inr (e, s, refl)

-- A sequence whose first part is known to return, or to raise
module _ {ℓ κ μ} {S : Type ℓ} {A : Type κ} {B : Type μ} (m : Exec S A) (k : A → Exec S B)
    (s : S) where
  pub >>=-ok : {a : A} {s' : S} → m s ≡ (ok a, s') → (m >>= k) s ≡ k a s'
  >>=-ok h =
      ap
        (λ (p : Result A × S). elim p.0 as (λ _. Result B × S) [
          | ok a ↦ k a p.1
          | err e ↦ (err e, p.1)
        ])
        h

  pub >>=-err : {e : Error} {s' : S} → m s ≡ (err e, s') → (m >>= k) s ≡ (err e, s')
  >>=-err h =
      ap
        (λ (p : Result A × S). elim p.0 as (λ _. Result B × S) [
          | ok a ↦ k a p.1
          | err e ↦ (err e, p.1)
        ])
        h

-- ===== src/Base/Panics.antt =====
-- Go's nil dereference: a computation returns, or it panics. Errors that Go code returns as values
-- are `Message`s; a message is kept as its format and the arguments that fill its verbs.
use Prim.Native.String.{String}
use mathlib.Core.Path.{◌≡◌, refl, ap}
use mathlib.Core.Logic.{◌⊎◌, inl, inr}
use mathlib.Core.Option.{Option, none, some}
use grpc_test_infra.Base.Int.{ℤ}

pub data Outcome {ℓ} (A : Type ℓ) : Type ℓ where
  returns : A → Outcome A
  panics : Outcome A

infixl 5 ◌>>=◌
abbrev pub ◌>>=◌ {ℓ κ} : {A : Type ℓ} {B : Type κ} → Outcome A → (A → Outcome B) → Outcome B
returns a >>= f = f a
panics >>= f = panics

-- `*p`
abbrev pub deref {ℓ} : {A : Type ℓ} → Option A → Outcome A
deref none = panics
deref (some a) = returns a

pub >>=-eq-returns {ℓ κ} :
    {A : Type ℓ} {B : Type κ} (m : Outcome A) (f : A → Outcome B) {b : B}
    → (m >>= f) ≡ returns b
    → (a : A) × (m ≡ returns a) × (f a ≡ returns b)
>>=-eq-returns (returns a) f h = (a, refl, h)
>>=-eq-returns panics f h = cc

abbrev result {ℓ} : {A : Type ℓ} → A → Outcome A → A
result d (returns a) = a
result d panics = d

pub returns-injective {ℓ} : {A : Type ℓ} {a b : A} → returns a ≡ returns b → a ≡ b
returns-injective {a = a} h = ap (result a) h

pub deref-returns {ℓ} : {A : Type ℓ} (o : Option A) {a : A} → deref o ≡ returns a → o ≡ some a
deref-returns none h = cc
deref-returns (some b) h = ap some (returns-injective h)

pub data Message : Type 0 where
  plain : String → Message
  fill_text : Message → String → Message
  fill_number : Message → ℤ → Message
  fill_error : Message → Message → Message
  wrap : Message → Message → Message

-- `(value, error)`
pub data Result {ℓ} (A : Type ℓ) : Type ℓ where
  ok : A → Result A
  err : Message → Result A

abbrev value {ℓ} : {A : Type ℓ} → A → Outcome (Result A) → A
value d (returns (ok a)) = a
value d (returns (err e)) = d
value d panics = d

pub returns_ok-injective {ℓ} : {A : Type ℓ} {a b : A} → returns (ok a) ≡ returns (ok b) → a ≡ b
returns_ok-injective {a = a} h = ap (value a) h

abbrev ok_or {ℓ} : {A : Type ℓ} → A → Result A → A
ok_or d (ok a) = a
ok_or d (err e) = d

pub ok-injective {ℓ} : {A : Type ℓ} {a b : A} → ok a ≡ ok b → a ≡ b
ok-injective {a = a} h = ap (ok_or a) h

pub Result-cases {ℓ} :
    {A : Type ℓ} (r : Result A) → ((e : Message) × (r ≡ err e)) ⊎ ((a : A) × (r ≡ ok a))
Result-cases (ok a) = inr (a, refl)
Result-cases (err e) = inl (e, refl)

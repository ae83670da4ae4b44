-- ===== src/Shared/Results.antt =====
-- Python exceptions as values: a call returns a value or raises, and a method that raises keeps
-- what it wrote to its object before the raise.
use Prim.Native.String.{String}
use mathlib.Core.Path.{◌≡◌, refl}
use mathlib.Core.Logic.{◌⊎◌, inl, inr}

-- The exception classes that the modelled code raises, with the message.
pub data Error : Type 0 where
  value_error : String → Error
  lifecycle_error : String → Error
  protocol_error : String → Error
  buffer_error : String → Error
  os_error : String → Error
  runtime_error : String → Error
  assertion_error : Error
  launch_denied : String → Error

pub data Result {ℓ} (A : Type ℓ) : Type ℓ where
  ok : A → Result A
  raised : Error → Result A

-- An action on an object with the state `S`.
abbrev pub Exec {ℓ} : Type ℓ → Type ℓ → Type ℓ
Exec S A = S → Result A × S

module _ {ℓ} {S A : Type ℓ} where
  abbrev pub pure : A → Exec S A
  pure a s = (ok a, s)

  abbrev pub raise : Error → Exec S A
  raise e s = (raised e, s)

  abbrev pub lift : Result A → Exec S A
  lift r s = (r, s)

module _ {ℓ} {S A B : Type ℓ} where
  abbrev pub continue : Result A → S → (A → Exec S B) → Result B × S
  continue (ok a) s f = f a s
  continue (raised e) s f = (raised e, s)

  infixl 5 ◌>>=◌ ◌>>◌
  abbrev pub ◌>>=◌ : Exec S A → (A → Exec S B) → Exec S B
  ◌>>=◌ m f s = let (r, s') = m s in continue r s' f

  abbrev pub ◌>>◌ : Exec S A → Exec S B → Exec S B
  ◌>>◌ m k s = let (r, s') = m s in continue r s' (λ _. k)

-- `str(error)`
abbrev pub message : Error → String
message (value_error text) = text
message (lifecycle_error text) = text
message (protocol_error text) = text
message (buffer_error text) = text
message (os_error text) = text
message (runtime_error text) = text
message assertion_error = ""
message (launch_denied text) = text

pub Result-cases {ℓ} :
    {A : Type ℓ} (r : Result A) → ((a : A) × (r ≡ ok a)) ⊎ ((e : Error) × (r ≡ raised e))
Result-cases (ok a) = inl (a, refl)
Result-cases (raised e) = inr (e, refl)

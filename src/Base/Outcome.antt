-- ===== src/Base/Outcome.antt =====
-- What a Go call comes back with: a value, an error, or a panic of the runtime.
use Prim.Native.String.{String, ◌++◌ as ◌<>◌}
use mathlib.Core.Path.{◌≡◌, refl}
use mathlib.Core.Logic.{◌⊎◌, inl, inr}
use mathlib.Core.Bool.{Bool, true, false}
use mathlib.Core.Option.{Option, none, some}

-- The class of an API error, as far as the program tells classes apart.
pub data Reason : Type 0 where
  other not_found conflict : Reason

-- A Go `error`: its text, and the class that `errors.As` finds in its chain.
pub record Error : Type 0 where
  pub text : String
  pub reason : Reason

abbrev pub is_not_found : Error → Bool
is_not_found e = elim (e.reason) [ not_found ↦ true | _ ↦ false ]

abbrev pub is_conflict : Error → Bool
is_conflict e = elim (e.reason) [ conflict ↦ true | _ ↦ false ]

-- `fmt.Errorf` without `%w`.
abbrev pub errorf : String → Error
errorf s = record { text = s; reason = other }

-- `fmt.Errorf("prefix: %w", err)`.
abbrev pub wrap : String → Error → Error
wrap s e = record e { text = s <> e.text }

pub data Result {ℓ} (A : Type ℓ) : Type ℓ where
  ok : A → Result A
  err : Error → Result A
  panic : Result A

infixl 5 ◌>>=◌ ◌>>◌
abbrev pub ◌>>=◌ {ℓ κ} : {A : Type ℓ} {B : Type κ} → Result A → (A → Result B) → Result B
ok a >>= f = f a
err e >>= f = err e
panic >>= f = panic

abbrev pub ◌>>◌ {ℓ κ} : {A : Type ℓ} {B : Type κ} → Result A → Result B → Result B
m >> k = m >>= λ _. k

-- Another text in front of the error of a call.
abbrev pub wrapping {ℓ} : {A : Type ℓ} → String → Result A → Result A
wrapping s (ok a) = ok a
wrapping s (err e) = err (wrap s e)
wrapping s panic = panic

-- `if err := ...; err != nil` over a call that returns only an error.
abbrev pub failing : Option Error → Result (Unit {0})
failing none = ok tt
failing (some e) = err e

-- An error of a call that is logged only. A panic goes on.
abbrev pub logged {ℓ} : {A : Type ℓ} → Result A → Result (Unit {0})
logged panic = panic
logged (ok a) = ok tt
logged (err e) = ok tt

-- The error of a call as a value. A panic goes on.
abbrev pub error_of {ℓ} : {A : Type ℓ} → Result A → Result (Option Error)
error_of (ok a) = ok none
error_of (err e) = ok (some e)
error_of panic = panic

pub Result-cases {ℓ} :
    {A : Type ℓ} (r : Result A)
    → ((a : A) × (r ≡ ok a)) ⊎ (((e : Error) × (r ≡ err e)) ⊎ (r ≡ panic))
Result-cases (ok a) = inl (a, refl)
Result-cases (err e) = inr (inl (e, refl))
Result-cases panic = inr (inr refl)

pub ok_injective {ℓ} : {A : Type ℓ} {a b : A} → ok a ≡ ok b → a ≡ b
ok_injective h = cc

-- ===== src/Base/Effect.antt =====
-- Calls that read and change a state: what comes back, and the state left behind. An error or a
-- panic stops a chain and keeps the state that was reached.
use Prim.Native.String.{String}
use mathlib.Core.Path.{◌≡◌, refl}
use mathlib.Core.Bool.{Bool, true, false}
use mathlib.Core.Option.{Option}
use flux_operator.Base.Outcome.{Error, Result, ok, err, panic, wrapping, failing, logged, error_of}

abbrev pub M : Type 0 → Type 0 → Type 0
M S A = S → Result A × S

abbrev pub after : {S A B : Type 0} → Result A × S → (A → M S B) → Result B × S
after (ok a, s) f = f a s
after (err e, s) f = (err e, s)
after (panic, s) f = (panic, s)

infixl 5 ◌>>=◌ ◌>>◌
abbrev pub ◌>>=◌ : {S A B : Type 0} → M S A → (A → M S B) → M S B
◌>>=◌ m f s = after (m s) f

abbrev pub ◌>>◌ : {S A B : Type 0} → M S A → M S B → M S B
◌>>◌ m k s = after (m s) (λ _. k)

abbrev pub return : {S A : Type 0} → A → M S A
return a s = (ok a, s)

-- A call that touches no state.
abbrev pub lift : {S A : Type 0} → Result A → M S A
lift r s = (r, s)

abbrev pub fail : {S A : Type 0} → Error → M S A
fail e s = (err e, s)

abbrev pub get : {S : Type 0} → M S S
get s = (ok s, s)

-- A call that returns a Go `error`.
abbrev pub act : {S : Type 0} → (S → Option Error × S) → M S (Unit {0})
act op s = let (e, s') = op s in (failing e, s')

-- The error of a call, with a text in front.
abbrev pub prefixed : {S A : Type 0} → String → M S A → M S A
prefixed p m s = let (r, s') = m s in (wrapping p r, s')

-- A call whose error is logged only, and one whose error is looked at.
abbrev pub log_only : {S A : Type 0} → M S A → M S (Unit {0})
log_only m s = let (r, s') = m s in (logged r, s')

abbrev pub caught : {S A : Type 0} → M S A → M S (Option Error)
caught m s = let (r, s') = m s in (error_of r, s')

abbrev pub when : {S : Type 0} → Bool → M S (Unit {0}) → M S (Unit {0})
when true m = m
when false m = return tt

-- What a chain that succeeded began with.
pub after-ok :
    {S A B : Type 0} (m : Result A × S) (f : A → M S B) {b : B}
    → (after m f).0 ≡ ok b
    → (a : A) × ((s : S) × (m ≡ (ok a, s)) × ((f a s).0 ≡ ok b))
after-ok (ok a, s) f h = (a, (s, refl, h))
after-ok (err e, s) f h = absurd (cc)
after-ok (panic, s) f h = absurd (cc)

-- The same, with the state that it left.
pub after_done :
    {S A B : Type 0} (m : Result A × S) (f : A → M S B) {b : B} {t : S}
    → after m f ≡ (ok b, t)
    → (a : A) × ((s : S) × (m ≡ (ok a, s)) × (f a s ≡ (ok b, t)))
after_done (ok a, s) f h = (a, (s, refl, h))
after_done (err e, s) f h = absurd (cc)
after_done (panic, s) f h = absurd (cc)

-- ===== src/Entitlement/Reconcile/Spec.antt =====
-- The specification of the entitlement: whether there is a secret, and which token it has.
use flux_operator.Base.{
  String, ◌≡◌, refl, ap, ◌∙◌, Bool, true, false, Option, none, some, Result, ok, err, panic, inl,
  inr, Bool-cases, if◌then◌else◌, ◌==◌,
}
use flux_operator.Base.Int.{ℤ, pos}
use flux_operator.Instance.Status.{Requeue}
use flux_operator.Entitlement.Secret.{Secret}
use flux_operator.Entitlement.Reconcile.{token_of}

-- The specification: no secret, a secret without a token, or a token.
pub data Entitlement : Type 0 where
  absent unissued : Entitlement
  issued : String → Entitlement

abbrev pub of_token : String → Entitlement
of_token t = if t == "" then unissued else issued t

abbrev pub view : Option Secret → Entitlement
view none = absent
view (some s) = of_token (token_of s)

-- When the next reconciliation is due: at once, after a failure, or after that many nanoseconds.
pub data Due : Type 0 where
  at_once after_failure : Due
  after_time : ℤ → Due

-- Thirty minutes, in nanoseconds.
abbrev pub half_an_hour : ℤ
half_an_hour = pos 1800000000000

abbrev pub due : Result Requeue → Due
due (ok q) = if q.requeue then at_once else after_time q.requeue_after
due (err e) = after_failure
due panic = after_failure

-- One reconciliation: a missing token is issued, a good one is kept, a bad one is dropped with the
-- secret.
abbrev pub step : String → (String → Bool) → Entitlement → Entitlement × Due
step fresh good absent = (of_token fresh, at_once)
step fresh good unissued = (of_token fresh, at_once)
step fresh good (issued t) =
    if good t then (issued t, after_time half_an_hour) else (absent, after_failure)

-- What a state of the cluster and a result amount to.
abbrev pub seen : {W : Type 0} → (W → Option Secret) → Result Requeue × W → Entitlement × Due
seen holds (r, w) = (view (holds w), due r)

-- The states of the specification, and the third reconciliation.
abbrev pub next : String → (String → Bool) → Entitlement → Entitlement
next fresh good e = (step fresh good e).0

pub step_thrice :
    (fresh : String) (good : String → Bool)
    → (fresh == "") ≡ false
    → good fresh ≡ true
    → (e : Entitlement)
    → (t : String) × (step fresh good (next fresh good (next fresh good e))
        ≡ (issued t, after_time half_an_hour))
      × (good t ≡ true)
step_thrice fresh good f g e = from e
  where
    keep :
        (t : String)
        → good t ≡ true
        → step fresh good (issued t) ≡ (issued t, after_time half_an_hour)
    keep t h = rw h refl

    -- Once issued, it stays.
    after_one :
        (e : Entitlement) (t : String)
        → next fresh good e ≡ issued t
        → good t ≡ true
        → step fresh good (next fresh good (next fresh good e))
          ≡ (issued t, after_time half_an_hour)
    after_one e t n h =
        ap (λ x. step fresh good (next fresh good x)) n
        ∙ (ap (λ x. step fresh good (x.0)) (keep t h) ∙ keep t h)

    from :
        (e : Entitlement)
        → (t : String) × (step fresh good (next fresh good (next fresh good e))
            ≡ (issued t, after_time half_an_hour))
          × (good t ≡ true)
    from absent = (fresh, after_one absent fresh (rw f refl) g, g)
    from unissued = (fresh, after_one unissued fresh (rw f refl) g, g)
    from (issued t) = elim (Bool-cases (good t)) [
      | inl h ↦ (t, after_one (issued t) t (ap (λ x. x.0) (keep t h)) h, h)
      | inr h ↦
          let n : next fresh good (issued t) ≡ absent = rw (next, h) refl in
          let m : next fresh good absent ≡ issued fresh = rw f refl in
          (
            fresh,
            ap (λ x. step fresh good (next fresh good x)) n
                ∙ (ap (step fresh good) m ∙ keep fresh g),
            g,
          )
    ]

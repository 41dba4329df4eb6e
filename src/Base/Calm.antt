-- ===== src/Base/Calm.antt =====
-- Chains of calls that do not panic, and those that come back with a value.
use flux_operator.Base.{
  ◌≡◌, refl, Bool, true, false, Option, none, some, Error, ok, panic, inl, inr, Option-cases,
  Result-cases, ◌≢◌,
}
use flux_operator.Base.Effect.{M, ◌>>=◌, act, caught, log_only, return, when}

-- A call that always comes back, with a value or an error, and one that does with a value.
pub record Calm {S A : Type 0} (m : M S A) : Type 0 where
  pub calm : (s : S) → (m s).0 ≢ panic

pub record Sure {S A : Type 0} (m : M S A) : Type 0 where
  pub sure : (s : S) → (a : A) × ((m s).0 ≡ ok a)

module _ {S : Type 0} where
  pub return-Sure : {A : Type 0} (a : A) → Sure {S = S} (return a)
  return-Sure a = record { sure = λ s. (a, refl) }

  pub Sure-Calm : {A : Type 0} (m : M S A) → Sure m → Calm m
  Sure-Calm m h = record { calm = λ s. let (a, p) = h.sure s in rw p (λ q. cc) }

  pub then-Sure :
      {A B : Type 0} (m : M S A) (f : A → M S B) → Sure m → ((a : A) → Sure (f a)) → Sure (m >>= f)
  then-Sure m f h g = record { sure = λ s. let (a, p) = h.sure s in rw p ((g a).sure _) }

  pub then-Calm :
      {A B : Type 0} (m : M S A) (f : A → M S B) → Calm m → ((a : A) → Calm (f a)) → Calm (m >>= f)
  then-Calm m f h g = record {
    calm = λ s. elim (Result-cases (m s).0) [
      | inl (a, p) ↦ rw p ((g a).calm _)
      | inr (inl (e, p)) ↦ rw p (λ q. cc)
      | inr (inr p) ↦ absurd (h.calm s p)
    ];
  }

  pub log_only-Sure : {A : Type 0} (m : M S A) → Calm m → Sure (log_only m)
  log_only-Sure m h = record {
    sure = λ s. elim (Result-cases (m s).0) [
      | inl (a, p) ↦ (tt, rw p refl)
      | inr (inl (e, p)) ↦ (tt, rw p refl)
      | inr (inr p) ↦ absurd (h.calm s p)
    ];
  }

  pub caught-Sure : {A : Type 0} (m : M S A) → Calm m → Sure (caught m)
  caught-Sure m h = record {
    sure = λ s. elim (Result-cases (m s).0) [
      | inl (a, p) ↦ (none, rw p refl)
      | inr (inl (e, p)) ↦ (some e, rw p refl)
      | inr (inr p) ↦ absurd (h.calm s p)
    ];
  }

  pub act-Calm : (op : S → Option Error × S) → Calm (act op)
  act-Calm op = record {
    calm =
        λ s. elim (Option-cases (op s).0) [ inl p ↦ rw p (λ q. cc) | inr (e, p) ↦ rw p (λ q. cc) ];
  }

  pub when-Sure : (b : Bool) (m : M S (Unit {0})) → Sure m → Sure (when b m)
  when-Sure true m h = h
  when-Sure false m h = record { sure = λ s. (tt, refl) }

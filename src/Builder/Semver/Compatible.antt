-- ===== src/Builder/Semver/Compatible.antt =====
-- Which upgrades `IsCompatibleVersion` accepts.
use flux_operator.Base.{
  String, ◌<>◌, ◌≡◌, refl, ◌≤◌, ◌<◌, ◌↔◌, ok, err, arith, has_char, before, before-append,
  before_self, Bool-cases, inl, inr, Result-cases, sym, ap, ◌∙◌,
}
use text.Mathlib.TextLemmas.{nil-append, cons-append}
use flux_operator.Builder.Semver.{Semver, downgrade, without_digest, is_compatible_version}

-- The upgrade that the code allows: both revisions are versions, and neither number goes down.
pub record Allows (sv : Semver) (from_ver to_ver : String) : Type 0 where
  pub from : sv.Version
  pub to : sv.Version
  pub from_parses : sv.parse (without_digest from_ver) ≡ ok from
  pub to_parses : sv.parse (without_digest to_ver) ≡ ok to
  pub major_kept : sv.major from ≤ sv.major to
  pub minor_kept : sv.minor from ≤ sv.minor to

without_digest-eq-before : (s : String) → without_digest s ≡ before b'@' s
unfolding without_digest
without_digest-eq-before s = elim (Bool-cases (has_char b'@' s)) [
  | inl h ↦ rw h
  | inr h ↦ rw h (sym (before_self b'@' s h))
]

at-append : (d : String) → ("@" <> d) ≡ String.◌∷◌ "@" d
at-append d = cons-append "@" "" d ∙ ap (λ s. String.◌∷◌ "@" s) (nil-append d)

without_digest-append : (s d : String) → without_digest (s <> ("@" <> d)) ≡ without_digest s
without_digest-append s d =
    rw (without_digest-eq-before, at-append, without_digest-eq-before s)
      (before-append b'@' "@" s d refl)

module _ (sv : Semver) where
  accepts : (f t : String) → Allows sv f t → is_compatible_version sv f t ≡ ok tt
  unfolding is_compatible_version
  accepts f t a = ground arith

  accepted : (f t : String) → is_compatible_version sv f t ≡ ok tt → Allows sv f t
  unfolding is_compatible_version
  accepted f t h = elim (Result-cases (sv.parse (without_digest f))) [
    | inl (a, ea) ↦ elim (Result-cases (sv.parse (without_digest t))) [
      | inl (b, eb) ↦ record {
        from = a;
        to = b;
        from_parses = ea;
        to_parses = eb;
        major_kept = ground arith;
        minor_kept = ground arith;
      }
      | inr (inl (e, eb)) ↦ absurd (ground arith)
      | inr (inr eb) ↦ absurd (ground arith)
    ]
    | inr (inl (e, ea)) ↦ absurd (ground arith)
    | inr (inr ea) ↦ absurd (ground arith)
  ]

  -- An upgrade is accepted exactly when both revisions parse, once their digests are cut off, and
  -- neither the major nor the minor number of the target is below that of the source.
  pub is_compatible_version_iff :
      (f t : String) → (is_compatible_version sv f t ≡ ok tt) ↔ Allows sv f t
  is_compatible_version_iff f t = (accepted f t, accepts f t)

  -- Accepted upgrades compose: if one leads from `a` to `b` and one from `b` to `c`, then the one
  -- from `a` to `c` is accepted.
  is_compatible_version_trans :
      (a b c : String)
      → is_compatible_version sv a b ≡ ok tt
      → is_compatible_version sv b c ≡ ok tt
      → is_compatible_version sv a c ≡ ok tt
  is_compatible_version_trans a b c p q =
      let x = accepted a b p in
      let y = accepted b c q in
      accepts a c (record {
        from = x.from;
        to = y.to;
        from_parses = x.from_parses;
        to_parses = y.to_parses;
        major_kept = ground arith;
        minor_kept = ground arith;
      })

  -- An upgrade to a higher major version is refused as a downgrade if the minor number falls.
  pub is_compatible_version_next_major :
      (f t : String) {a b : sv.Version}
      → sv.parse (without_digest f) ≡ ok a
      → sv.parse (without_digest t) ≡ ok b
      → sv.major a < sv.major b
      → sv.minor b < sv.minor a
      → is_compatible_version sv f t ≡ err (downgrade (without_digest f) (without_digest t))
  unfolding is_compatible_version
  is_compatible_version_next_major f t p q h k = ground arith

  -- The digest behind the version of either revision has no influence on the answer.
  is_compatible_version_digest :
      (f t d e : String)
      → is_compatible_version sv (f <> ("@" <> d)) (t <> ("@" <> e)) ≡ is_compatible_version sv f t
  unfolding is_compatible_version
  is_compatible_version_digest f t d e = rw (without_digest-append f d, without_digest-append t e)

-- ===== src/Instance/Watch/Laws.antt =====
-- The updates that wake the two controllers of an object.
use flux_operator.Base.{
  ◌≡◌, refl, String, Bool, true, false, not, ◌&&◌, Option, Bool-cases, inl, inr, arith, ap,
  if◌then◌else◌,
}
use flux_operator.Base.Int.{ℤ, pos, negsuc, eq_ℤ}
use flux_operator.Api.Instance.{
  FluxInstance, FluxInstanceStatus, is_disabled, disabled_by, get_artifact_interval,
}
use flux_operator.Instance.Artifact.{artifact_update}
use flux_operator.Instance.Watch.{Predicates, instance_update}

-- What is documented of the two predicates. The generation of an object does not change with its
-- status.
pub record PredicatesLaws (p : Predicates) : Type 0 where
  pub same_annotations :
      (a b : FluxInstance) → p.annotation_changed a b ≡ false → a.annotations ≡ b.annotations
  pub annotations_kept :
      (a : FluxInstance) (status : FluxInstanceStatus)
      → p.annotation_changed a (record a { status = status }) ≡ false
  pub generation_kept :
      (a : FluxInstance) (status : FluxInstanceStatus)
      → p.generation_changed a (record a { status = status }) ≡ false

eq_ℤ_refl : (z : ℤ) → eq_ℤ z z ≡ true
eq_ℤ_refl (pos n) = ground arith
eq_ℤ_refl (negsuc n) = ground arith

unchanged :
    (b c : Bool) (x y : ℤ) → b ≡ c → x ≡ y → (if b && not c then true else not (eq_ℤ x y)) ≡ false
unchanged true c x y p q = rw (← p, ← q, eq_ℤ_refl x)
unchanged false c x y p q = rw (← q, eq_ℤ_refl x)

-- Only the annotations matter to the artifact controller.
artifact_update_kept :
    (parse : String → Option ℤ) (a b : FluxInstance)
    → a.annotations ≡ b.annotations
    → artifact_update parse a b ≡ false
unfolding artifact_update get_artifact_interval is_disabled
artifact_update_kept parse a b h =
    unchanged _ _ _ _ (ap disabled_by h)
      (ap (λ entries. get_artifact_interval parse (record b { annotations = entries })) h)

-- Where the predicates of the library do what is documented, an update that wakes the artifact
-- controller wakes the controller of the instance too, and a change of the status behind it, such
-- as their own reports, wakes neither.
pub artifact_update-instance_update :
    (parse : String → Option ℤ) (p : Predicates) (laws : PredicatesLaws p) (a b : FluxInstance)
    (status : FluxInstanceStatus)
    → artifact_update parse a b ≡ true
    → (instance_update p a b ≡ true)
      × (instance_update p b (record b { status = status }) ≡ false)
      × (artifact_update parse b (record b { status = status }) ≡ false)
unfolding instance_update
artifact_update-instance_update parse p laws a b status h = (
  elim (Bool-cases (p.annotation_changed a b)) [
    | inl c ↦ ground (arith, c)
    | inr c ↦ let k = artifact_update_kept parse a b (laws.same_annotations a b c) in absurd (cc)
  ],
  rw (laws.generation_kept b status, laws.annotations_kept b status),
  artifact_update_kept parse b (record b { status = status }) refl,
)

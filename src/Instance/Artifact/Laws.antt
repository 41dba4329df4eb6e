-- ===== src/Instance/Artifact/Laws.antt =====
-- When a change of the artifact requests a reconciliation.
use flux_operator.Base.{
  String, ◌≡◌, refl, Bool, true, false, not, ◌||◌, List, Result, ok, err, panic, ◌⊎◌, inl, inr,
  Bool-cases, ◌==◌, insert,
}
use flux_operator.Base.Effect.{after}
use flux_operator.Api.Conditions.{Condition}
use flux_operator.Api.Instance.{is_disabled}
use flux_operator.Builder.Pull.{get_artifact_digest}
use flux_operator.Instance.Env.{Env, State, on_rest}
use flux_operator.Instance.Status.{requested_at, patch}
use flux_operator.Instance.Artifact.{
  handle_artifact, reconcile_artifact, compare_digest, requeue_artifact_after,
}

-- A chain that ends by reading the state leaves the state that it reads.
after_kept :
    {S A B : Type 0} (x : Result A × S) (f : S → B) → (after x (λ _. λ t. (ok (f t), t))).1 ≡ x.1
after_kept (ok a, t) f = refl
after_kept (err e, t) f = refl
after_kept (panic, t) f = refl

module _ (env : Env) (is_ready : List Condition → Bool) (now : env.World → String) where
  open env use {World, registry, parse_duration}

  -- Where an object is enabled, ready, not being deleted and has an artifact on record, and the
  -- digest that the registry gives now is the one on record, the object, the events and all but
  -- what the registry's call changed stay as they were, and the object comes back after its
  -- artifact interval. Where the digest is another one, the object that is patched has the
  -- annotation that requests a reconciliation, with the time, and is otherwise as it was.
  pub handle_artifact-digest :
      (s : State World) (digest : String) (w : World)
      → (s.obj.under_deletion || is_disabled s.obj) ≡ false
      → (s.obj.status.last_artifact_revision == "" || not (is_ready s.obj.status.conditions))
        ≡ false
      → get_artifact_digest registry s.obj.spec.distribution.artifact s.rest.world ≡ (ok digest, w)
      → (((digest == s.obj.status.last_artifact_revision) ≡ true)
          × (handle_artifact env is_ready now s ≡ (
            ok (requeue_artifact_after parse_duration s.obj),
            record s { rest = record (s.rest) { world = w } },
          )))
        ⊎ (((digest == s.obj.status.last_artifact_revision) ≡ false)
            × ((handle_artifact env is_ready now s).1 ≡ (
                let obj = record (s.obj) {
                  annotations = insert requested_at (now w) s.obj.annotations;
                } in
                record { obj = obj; rest = (patch env obj (record (s.rest) { world = w })).1 })))
  unfolding handle_artifact reconcile_artifact compare_digest
  handle_artifact-digest s digest w d r g =
      elim (Bool-cases (digest == s.obj.status.last_artifact_revision)) [
        | inl e ↦ inl (e, rw d (rw r (rw g (rw e refl))))
        | inr e ↦ inr (
          e,
          rw d (
              rw r (
                rw g (
                  rw e (
                    after_kept (on_rest (patch env) _)
                      (λ t. requeue_artifact_after parse_duration t.obj))))),
        )
      ]

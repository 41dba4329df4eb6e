-- ===== src/Instance/Reconcile/Branches.antt =====
-- What each branch of `reconcile` leaves in the status.
use text.Mathlib.TextEquality.{eq_iff}
use flux_operator.Base.{
  String, ◌<>◌, ◌≡◌, refl, List, Result, ok, err, panic, Error, inl, inr, ap, Bool-cases, ◌==◌,
}
use flux_operator.Api.Conditions.{ConditionReason, ready, stalled, artifact_failed, build_failed}
use flux_operator.Api.Instance.{FluxInstance}
use flux_operator.Builder.Options.{BuildResult}
use flux_operator.Instance.Env.{Env, EventType, State, Rest}
use flux_operator.Instance.Status.{Requeue, no_requeue, requeue_after, notify, patch}
use flux_operator.Instance.Status
use flux_operator.Instance.Build.{fetch, build_instance}
use flux_operator.Instance.Apply.{apply, send, record_applied}
use flux_operator.Instance.Reconcile.{
  reconcile_in, build_and_apply, attempt, fetch_failed, build_failed_with,
}

module _ (env : Env) where
  open env use {World, objects, conditions}

  -- A notification always returns, and what follows it sees the same object.
  pub notify-ok :
      (r : ConditionReason) (ty : EventType) (m : String) (obj : FluxInstance) (t : Rest World)
      → (notify env r ty m obj t).0 ≡ ok tt
  unfolding notify
  notify-ok r ty m obj t =
      elim (Bool-cases (env.recorder_fails (Status.notification_address env obj))) [
        | inl e ↦ rw e refl
        | inr e ↦ rw e refl
      ]

  -- Where the distribution cannot be fetched, its error comes back, so that it is tried again, and
  -- of the object's status only the ready condition has changed: to false, with that error.
  reconcile_in-fetch :
      (dir : String) (s : State World) (e : Error) (t : Rest World)
      → fetch env dir s.obj s.rest ≡ (err e, t)
      → ((reconcile_in env dir s).0 ≡ err e)
        × ((reconcile_in env dir s).1.obj.status ≡ record (s.obj.status) {
          conditions =
              conditions.mark_false s.obj.status.conditions ready artifact_failed
                ("fetch failed: " <> e.text);
        })
  unfolding reconcile_in fetch_failed
  reconcile_in-fetch dir s e t h = (rw h (rw notify-ok refl), rw h (rw notify-ok refl))

  -- Where the build fails, reconciliation ends without an error and without a time to come back,
  -- and of the object's status only the conditions have changed: ready is marked false and stalled
  -- true, with that error.
  build_and_apply-build :
      (dir digest : String) (s : State World) (e : Error) (t : Rest World)
      → build_instance env dir s.obj s.rest ≡ (err e, t)
      → ((build_and_apply env (dir, digest) s).0 ≡ ok no_requeue)
        × ((build_and_apply env (dir, digest) s).1.obj.status ≡ record (s.obj.status) {
          conditions =
              conditions.mark_true
                (conditions.mark_false s.obj.status.conditions ready build_failed
                  ("build failed: " <> e.text))
                stalled
                build_failed
                ("build failed: " <> e.text);
        })
  unfolding build_and_apply build_failed_with
  build_and_apply-build dir digest s e t h = (rw h (rw notify-ok refl), rw h (rw notify-ok refl))

  -- What `attempt` leaves: it always returns, and changes the latest attempted revision only.
  pub attempt-status :
      (revision : String) (s : State World)
      → ((attempt env revision s).0 ≡ ok tt)
        × ((attempt env revision s).1.obj ≡ record (s.obj) {
          status = record (s.obj.status) { last_attempted_revision = revision };
        })
  unfolding attempt
  attempt-status revision s = elim (Bool-cases (s.obj.status.last_attempted_revision == revision)) [
    | inl e ↦ (
      rw e refl,
      rw e (
          ap
            (λ r. record (s.obj) { status = record (s.obj.status) { last_attempted_revision = r } })
            ((eq_iff _ revision).0 e)),
    )
    | inr e ↦ (rw e refl, rw e refl)
  ]

  -- `apply` changes nothing of the object but the inventory and the images of its status.
  pub apply-kept :
      (b : BuildResult objects.Object) (s : State World)
      → (apply env b s).1.obj ≡ record (s.obj) {
        status = record (s.obj.status) {
          inventory = (apply env b s).1.obj.status.inventory;
          components = (apply env b s).1.obj.status.components;
        };
      }
  unfolding apply record_applied
  apply-kept b s = go (send env b.objects s.obj s.rest) refl
    where
      go :
          (x : Result (List _) × Rest World)
          → send env b.objects s.obj s.rest ≡ x
          → (apply env b s).1.obj ≡ record (s.obj) {
            status = record (s.obj.status) {
              inventory = (apply env b s).1.obj.status.inventory;
              components = (apply env b s).1.obj.status.components;
            };
          }
      go (ok ch, t) h = rw h refl
      go (err e, t) h = rw h refl
      go (panic, t) h = rw h refl

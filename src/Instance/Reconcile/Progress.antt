-- ===== src/Instance/Reconcile/Progress.antt =====
-- What `roll_out` leaves in the status where `apply` fails and where it succeeds.
use mathlib.Core.Path.{subst}
use flux_operator.Base.{String, ◌<>◌, ◌≡◌, refl, Result, ok, err, Error, ◌∙◌, ap}
use flux_operator.Api.Conditions.{ready, reconciliation_failed, reconciliation_succeeded}
use flux_operator.Api.Instance.{FluxInstance, get_interval, is_disabled}
use flux_operator.Builder.Options.{BuildResult}
use flux_operator.Instance.Env.{Env, State, Rest}
use flux_operator.Instance.Status.{requeue_after, patch}
use flux_operator.Instance.Apply.{apply}
use flux_operator.Instance.Reconcile.{either_way, roll_out, attempt, applied, apply_failed}
use flux_operator.Instance.Reconcile.Branches.{notify-ok, attempt-status, apply-kept}

module _ (env : Env) where
  open env use {World, objects, conditions}

  -- The state in which `apply` starts, given what the patch leaves.
  abbrev pub started : String → State World → Rest World → State World
  started revision s t = record { obj = (attempt env revision s).1.obj; rest = t }

  -- `roll_out` from the patch of the status on.
  pub roll_out-patch :
      (digest : String) (b : BuildResult objects.Object) (s : State World) (t : Rest World)
      → patch env (attempt env b.revision s).1.obj (attempt env b.revision s).1.rest ≡ (ok tt, t)
      → roll_out env digest b s
        ≡ either_way
            (apply env b (started b.revision s t))
            (apply_failed env)
            (λ _. applied env digest)
  unfolding roll_out
  roll_out-patch digest b s t p =
      let e : attempt env b.revision s ≡ (ok tt, (attempt env b.revision s).1) =
        ap (λ r. (r, (attempt env b.revision s).1)) ((attempt-status env b.revision s).0) in
      rw e (rw p refl)

  -- The object that `apply` leaves after `attempt`.
  pub apply-started :
      (b : BuildResult objects.Object) (s : State World) (t : Rest World) {r : Result (Unit {0})}
      {v : State World}
      → apply env b (started b.revision s t) ≡ (r, v)
      → v.obj ≡ record (s.obj) {
        status = record (s.obj.status) {
          last_attempted_revision = b.revision;
          inventory = v.obj.status.inventory;
          components = v.obj.status.components;
        };
      }
  apply-started b s t {r} {v} a =
      subst
        (λ x. x.1.obj ≡ record (s.obj) {
          status = record (s.obj.status) {
            last_attempted_revision = b.revision;
            inventory = x.1.obj.status.inventory;
            components = x.1.obj.status.components;
          };
        })
        a
        (apply-kept env b (started b.revision s t)
          ∙ ap {A = FluxInstance} {B = FluxInstance}
              (λ o. record o {
                status = record (o.status) {
                  inventory = (apply env b (started b.revision s t)).1.obj.status.inventory;
                  components = (apply env b (started b.revision s t)).1.obj.status.components;
                };
              })
              ((attempt-status env b.revision s).1))

  -- Where the status could be patched and `apply` fails, its error comes back, the latest attempted
  -- revision is that of the build, the latest applied revision is as before, and the ready
  -- condition is marked false with that error.
  pub roll_out-apply :
      (digest : String) (b : BuildResult objects.Object) (s : State World) (t : Rest World)
      (e : Error) (v : State World)
      → patch env (attempt env b.revision s).1.obj (attempt env b.revision s).1.rest ≡ (ok tt, t)
      → apply env b (started b.revision s t) ≡ (err e, v)
      → ((roll_out env digest b s).0 ≡ err e)
        × ((roll_out env digest b s).1.obj.status.last_attempted_revision ≡ b.revision)
        × ((roll_out env digest b s).1.obj.status.last_applied_revision
            ≡ s.obj.status.last_applied_revision)
        × ((roll_out env digest b s).1.obj.status.conditions
            ≡ conditions.mark_false s.obj.status.conditions ready reconciliation_failed
                ("reconciliation failed: " <> e.text))
  unfolding apply_failed
  roll_out-apply digest b s t e v p a =
      let e0 = apply-started b s t a in
      (
        rw (roll_out-patch digest b s t p, a) (rw (notify-ok env) refl),
        rw (roll_out-patch digest b s t p, a)
            (rw (notify-ok env) (ap (λ o. o.status.last_attempted_revision) e0)),
        rw (roll_out-patch digest b s t p, a)
            (rw (notify-ok env) (ap (λ o. o.status.last_applied_revision) e0)),
        rw (roll_out-patch digest b s t p, a)
            (rw (notify-ok env) (
              ap
                (λ o.
                  conditions.mark_false o.status.conditions ready reconciliation_failed
                    ("reconciliation failed: " <> e.text))
                e0)),
      )

  -- Where the status could be patched and `apply` succeeds, reconciliation returns the time of the
  -- object's interval; the latest attempted and the latest applied revision are that of the build,
  -- the latest artifact is the one fetched, and the ready condition is marked true.
  pub roll_out-applied :
      (digest : String) (b : BuildResult objects.Object) (s : State World) (t : Rest World)
      (v : State World)
      → patch env (attempt env b.revision s).1.obj (attempt env b.revision s).1.rest ≡ (ok tt, t)
      → apply env b (started b.revision s t) ≡ (ok tt, v)
      → ((roll_out env digest b s).0 ≡ ok (requeue_after env.parse_duration s.obj))
        × ((roll_out env digest b s).1.obj.status.last_attempted_revision ≡ b.revision)
        × ((roll_out env digest b s).1.obj.status.last_applied_revision ≡ b.revision)
        × ((roll_out env digest b s).1.obj.status.last_artifact_revision ≡ digest)
        × ((roll_out env digest b s).1.obj.status.conditions
            ≡ conditions.mark_true s.obj.status.conditions ready reconciliation_succeeded
                ("Reconciliation finished in " <> env.elapsed v.rest.world))
  unfolding applied requeue_after get_interval is_disabled
  roll_out-applied digest b s t v p a =
      let e0 = apply-started b s t a in
      (
        rw (roll_out-patch digest b s t p, a)
            (ap (λ o. ok (requeue_after env.parse_duration o)) e0),
        rw (roll_out-patch digest b s t p, a) (ap (λ o. o.status.last_attempted_revision) e0),
        rw (roll_out-patch digest b s t p, a) (ap (λ o. o.status.last_attempted_revision) e0),
        rw (roll_out-patch digest b s t p, a) refl,
        rw (roll_out-patch digest b s t p, a)
            (ap
              (λ o.
                conditions.mark_true o.status.conditions ready reconciliation_succeeded
                  ("Reconciliation finished in " <> env.elapsed v.rest.world))
              e0),
      )

-- ===== src/Instance/Reconcile.antt =====
-- `reconcile` of fluxinstance_controller.go, and what `Reconcile` does with an object before it.
pub mod Branches
pub mod Guards
pub mod Progress
pub mod Advance
use flux_operator.Base.{
  String, ◌<>◌, Bool, true, false, not, Option, none, some, List, [], ◌∷◌, ◌++◌, Error, Result, ok,
  err, panic, is_not_found, ◌==◌, if◌then◌else◌,
}
use flux_operator.Base.Effect.{M, ◌>>=◌, ◌>>◌, act, fail, get, lift, prefixed, return, when}
use flux_operator.Api.Conditions.{
  ready, stalled, artifact_failed, build_failed, reconciliation_failed, reconciliation_succeeded,
  progressing,
}
use flux_operator.Api.Instance.{
  FluxInstance, finalizer, is_disabled, revision_annotation, default_instance_name,
}
use flux_operator.Builder.Options.{BuildResult, contain_element_string}
use flux_operator.Builder.Pull.{mkdir_temp_abs}
use flux_operator.Reporter.Metrics.{record_metrics, reset_metrics}
use flux_operator.Reporter.Request.{request_report_update}
use flux_operator.Instance.Env.{
  Env, State, Event, on_rest, EventType, EventReason, on_world, set_obj, set_status, set_conditions,
  emit,
}
use flux_operator.Instance.Status.{
  Requeue, no_requeue, requeue_after, mark_progressing, finalize_status, notify, patch,
}
use flux_operator.Instance.Build.{fetch, build_instance}
use flux_operator.Instance.Apply.{apply}
use flux_operator.Instance.Uninstall.{uninstall}

-- A call whose error is handled, and what follows it otherwise.
abbrev pub either_way :
    {S A B : Type 0} → Result A × S → (Error → M S B) → (A → M S B) → Result B × S
either_way (ok a, s) failed go = go a s
either_way (err e, s) failed go = failed e s
either_way (panic, s) failed go = (panic, s)

abbrev pub trying : {S A B : Type 0} → M S A → (Error → M S B) → (A → M S B) → M S B
trying m failed go s = either_way (m s) failed go

module _ (env : Env) where
  open env use {World, objects, conditions}
  open conditions use {mark_true, mark_false}

  unfoldable pub fetch_failed : Error → M (State World) Requeue
  fetch_failed e = do
    let msg = "fetch failed: " <> e.text
    set_conditions (λ cs. mark_false cs ready artifact_failed msg)
    on_rest (notify env artifact_failed EventType.warning msg)
    fail e

  -- A failed build is reported and not returned, so it is not tried again.
  unfoldable pub build_failed_with : Error → M (State World) Requeue
  build_failed_with e = do
    let msg = "build failed: " <> e.text
    set_conditions (λ cs. mark_true (mark_false cs ready build_failed msg) stalled build_failed msg)
    on_rest (notify env build_failed EventType.warning msg)
    return no_requeue

  unfoldable pub apply_failed : Error → M (State World) Requeue
  apply_failed e = do
    let msg = "reconciliation failed: " <> e.text
    set_conditions (λ cs. mark_false cs ready reconciliation_failed msg)
    on_rest (notify env reconciliation_failed EventType.warning msg)
    fail e

  -- The latest attempted revision, with its event.
  unfoldable pub attempt : String → M (State World) (Unit {0})
  attempt revision = do
    s ← get
    when (not (s.obj.status.last_attempted_revision == revision)) (do
      on_rest (λ _. emit (record {
        address = "";
        annotations = List.[];
        type = EventType.normal;
        reason = EventReason.because progressing;
        message =
            (if s.obj.status.last_attempted_revision == ""
              then "Installing revision "
              else "Upgrading to revision ")
            <> revision;
      }))
      set_status (λ t. record t { last_attempted_revision = revision }))

  unfoldable pub applied : String → M (State World) Requeue
  applied artifact_digest = do
    set_status (λ t. record t {
      last_applied_revision = t.last_attempted_revision;
      last_artifact_revision = artifact_digest;
    })
    s ← get
    let msg = "Reconciliation finished in " <> env.elapsed s.rest.world
    set_conditions (λ cs. mark_true cs ready reconciliation_succeeded msg)
    t ← get
    on_rest (λ _. emit (record {
      address = "";
      annotations = (revision_annotation, t.obj.status.last_applied_revision) ∷ [];
      type = EventType.normal;
      reason = EventReason.because reconciliation_succeeded;
      message = msg;
    }))
    return (requeue_after env.parse_duration t.obj)

  -- What follows a successful build.
  unfoldable pub roll_out : String → BuildResult objects.Object → M (State World) Requeue
  unfolding attempt applied apply_failed
  roll_out artifact_digest build_result = do
    attempt build_result.revision
    prefixed "failed to update status: " (on_rest (patch env))
    trying (apply env build_result) apply_failed (λ _. applied artifact_digest)

  -- What follows a successful fetch.
  unfoldable pub build_and_apply : String × String → M (State World) Requeue
  unfolding roll_out build_failed_with
  build_and_apply (manifests_dir, artifact_digest) =
      trying (on_rest (build_instance env manifests_dir)) build_failed_with
        (roll_out artifact_digest)

  unfoldable pub reconcile_in : String → M (State World) Requeue
  unfolding build_and_apply fetch_failed
  reconcile_in tmp_dir = trying (on_rest (fetch env tmp_dir)) fetch_failed build_and_apply

  -- The temporary directory is removed whatever happened.
  unfoldable pub removing_after : String → M (State World) Requeue → M (State World) Requeue
  removing_after dir body s =
      let (r, t) = body s in (r, (on_rest (λ _. on_world (λ w. (ok tt, env.remove_all dir w))) t).1)

  unfoldable pub reconcile : M (State World) Requeue
  unfolding reconcile_in mark_progressing removing_after
  reconcile = do
    set_conditions (mark_progressing conditions "Reconciliation in progress")
    prefixed "failed to update status: " (on_rest (patch env))
    tmp_dir ←
        prefixed "failed to create tmp dir: "
          (on_rest (λ _. on_world (mkdir_temp_abs env.registry)))
    removing_after tmp_dir (reconcile_in tmp_dir)

  unfoldable pub add_finalizer : M (State World) Requeue
  unfolding mark_progressing
  add_finalizer = do
    set_obj (λ obj. record obj { finalizers = obj.finalizers ++ finalizer ∷ [] })
    set_conditions (mark_progressing conditions "Reconciliation in progress")
    return (record no_requeue { requeue = true })

  unfoldable pub skip_disabled : M (State World) Requeue
  skip_disabled = do
    on_rest (λ _. emit (record {
      address = "";
      annotations = List.[];
      type = EventType.warning;
      reason = EventReason.reconciliation_disabled;
      message = "Reconciliation in disabled";
    }))
    return no_requeue

  -- The body of `Reconcile` behind the deferred report.
  unfoldable pub handle : M (State World) Requeue
  unfolding add_finalizer skip_disabled
  handle = do
    s ← get
    if s.obj.under_deletion
        then (uninstall env >> return no_requeue)
        else if contain_element_string s.obj.finalizers finalizer
        then (if is_disabled s.obj then skip_disabled else reconcile)
        else add_finalizer

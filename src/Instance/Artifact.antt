-- ===== src/Instance/Artifact.antt =====
-- fluxinstance_artifact_controller.go and the predicate of fluxinstance_artifact_manager.go: a
-- change of the artifact's digest requests a reconciliation.
pub mod Laws
use flux_operator.Base.{
  String, ◌<>◌, Bool, true, false, not, ◌&&◌, ◌||◌, Option, none, some, List, [], ◌∷◌, Error,
  Result, ok, err, panic, is_not_found, ◌==◌, insert, if◌then◌else◌,
}
use flux_operator.Base.Int.{ℤ, is_positive, eq_ℤ}
use flux_operator.Base.Effect.{M, ◌>>=◌, ◌>>◌, get, fail, return}
use flux_operator.Api.Conditions.{Condition, artifact_failed}
use flux_operator.Api.Instance.{FluxInstance, is_disabled, get_artifact_interval}
use flux_operator.Builder.Pull.{get_artifact_digest}
use flux_operator.Instance.Env.{
  Env, State, Event, EventType, EventReason, on_rest, on_world, emit, set_obj,
}
use flux_operator.Instance.Status.{Requeue, no_requeue, requested_at, patch}
use flux_operator.Instance.Reconcile.{either_way, trying}

unfoldable pub requeue_artifact_after : (String → Option ℤ) → FluxInstance → Requeue
requeue_artifact_after parse_duration obj =
    if is_positive (get_artifact_interval parse_duration obj)
    then record { requeue = false; requeue_after = get_artifact_interval parse_duration obj }
    else no_requeue

-- `is_ready` is `conditions.IsReady`, `now` the time in the format RFC 3339.
module _ (env : Env) (is_ready : List Condition → Bool) (now : env.World → String) where
  open env use {World, registry, parse_duration}

  unfoldable pub digest_failed : Error → M (State World) Requeue
  digest_failed e = do
    on_rest (λ _. emit (record {
      address = "";
      annotations = List.[];
      type = EventType.warning;
      reason = EventReason.because artifact_failed;
      message = "fetch failed: " <> e.text;
    }))
    fail e

  unfoldable pub compare_digest : String → M (State World) Requeue
  compare_digest digest = do
    s ← get
    if digest == s.obj.status.last_artifact_revision
        then return (requeue_artifact_after parse_duration s.obj)
        else do
          set_obj (λ obj. record obj {
            annotations = insert requested_at (now s.rest.world) obj.annotations;
          })
          on_rest (patch env)
          t ← get
          return (requeue_artifact_after parse_duration t.obj)

  unfoldable pub reconcile_artifact : M (State World) Requeue
  unfolding digest_failed compare_digest
  reconcile_artifact s =
      trying
        (on_rest (λ obj. on_world (get_artifact_digest registry obj.spec.distribution.artifact)))
        digest_failed compare_digest s

  -- The body of `Reconcile` behind the read of the object.
  unfoldable pub handle_artifact : M (State World) Requeue
  unfolding reconcile_artifact
  handle_artifact = do
    s ← get
    if s.obj.under_deletion || is_disabled s.obj
        then return no_requeue
        else if s.obj.status.last_artifact_revision == "" || not (is_ready s.obj.status.conditions)
        then return (requeue_artifact_after parse_duration s.obj)
        else reconcile_artifact

  -- `Reconcile`.
  unfoldable pub reconcile_artifact_request : M World Requeue
  unfolding handle_artifact
  reconcile_artifact_request w =
      let (r, v) = env.kube.get_instance w in
      elim r [
        | ok obj ↦
            let (q, s) =
              handle_artifact
                (record { obj = obj; rest = record { events = List.[]; world = v } }) in
            (q, s.rest.world)
        | err e ↦ (if is_not_found e then ok no_requeue else err e, v)
        | panic ↦ (panic, v)
      ]

-- `Update` of the predicate, where both objects are there.
unfoldable pub artifact_update : (String → Option ℤ) → FluxInstance → FluxInstance → Bool
artifact_update parse_duration old_obj new_obj =
    if is_disabled old_obj && not (is_disabled new_obj)
    then true
    else not (
        eq_ℤ (get_artifact_interval parse_duration old_obj)
          (get_artifact_interval parse_duration new_obj))

-- ===== src/Instance/Status.antt =====
-- The status of a FluxInstance: `patch`, `finalizeStatus`, `notify` and the small helpers of
-- fluxinstance_controller.go.
pub mod Laws
use flux_operator.Base.{
  String, ◌<>◌, Bool, true, false, Option, none, some, List, [], ◌∷◌, ◌++◌, ◌||◌, ◌&&◌, Error,
  failing, Dict, lookup, ◌==◌, not, if◌then◌else◌,
}
use flux_operator.Base.Int.{ℤ, pos, is_positive}
use flux_operator.Base.Effect.{M, ◌>>=◌, ◌>>◌, act, return, when, get}
use flux_operator.Api.Conditions.{
  Condition, ConditionSet, ConditionReason, progressing, progressing_with_retry, ready, reconciling,
  stalled, is_true, is_false, in_state, is_some,
}
use flux_operator.Api.Instance.{
  FluxInstance, FluxInstanceStatus, get_interval, get_components, get_cluster, revision_annotation,
}
use flux_operator.Builder.Options.{make_default_options, contain_element_string}
use flux_operator.Inventory.{Action, created, configured, unchanged, deleted, skipped, unknown}
use flux_operator.Instance.Env.{
  Env, State, Rest, Event, EventType, on_rest, EventReason, Kube, set_status, set_conditions, emit,
}

-- `ctrl.Result`: whether to come back at once, and after which time if not.
pub record Requeue : Type 0 where
  pub requeue : Bool
  pub requeue_after : ℤ

abbrev pub no_requeue : Requeue
no_requeue = record { requeue = false; requeue_after = pos 0 }

unfoldable pub has_changed : Action → Bool
has_changed skipped = false
has_changed unchanged = false
has_changed _ = true

unfoldable pub requeue_after : (String → Option ℤ) → FluxInstance → Requeue
requeue_after parse_duration obj =
    if is_positive (get_interval parse_duration obj)
    then record { requeue = false; requeue_after = get_interval parse_duration obj }
    else no_requeue

-- The three steps of `finalizeStatus` before the patch. The annotation is that of fluxcd/pkg.
abbrev pub requested_at : String
requested_at = "reconcile.fluxcd.io/requestedAt"

unfoldable pub handle_request : Dict String → FluxInstanceStatus → FluxInstanceStatus
handle_request annotations status = elim (lookup requested_at annotations) [
  | none ↦ status
  | some v ↦ record status { last_handled_reconcile_at = v }
]

module _ (cs : ConditionSet) where
  open cs use {get as get_condition, set, delete, mark_unknown, mark_reconciling}

  -- The marks of a reconciliation that begins.
  unfoldable pub mark_progressing : String → List Condition → List Condition
  mark_progressing msg conditions =
      mark_reconciling (mark_unknown conditions ready progressing msg) progressing msg

  -- The reason of the reconciling condition after a failure.
  unfoldable pub mark_retrying : List Condition → List Condition
  mark_retrying conditions = elim (get_condition conditions reconciling) [
    | none ↦ conditions
    | some rc ↦
        if in_state is_false (get_condition conditions ready)
        then set conditions (record rc { reason = progressing_with_retry })
        else conditions
  ]

  -- The reconciling condition goes when the object is ready or stalled.
  unfoldable pub drop_reconciling : List Condition → List Condition
  drop_reconciling conditions =
      if in_state is_true (get_condition conditions ready)
        || in_state is_true (get_condition conditions stalled)
      then delete conditions reconciling
      else conditions

  unfoldable pub finalize_conditions : List Condition → List Condition
  finalize_conditions conditions = drop_reconciling (mark_retrying conditions)

module _ (env : Env) where
  open env use {World, kube, conditions, recorder_fails, notifications_disabled}

  -- An error of the patch, with a missing object left out while the object is being deleted.
  unfoldable pub patch_error : Bool → Option Error → Option Error
  patch_error under_deletion none = none
  patch_error under_deletion (some e) =
      if under_deletion then env.filter_out_not_found e else some e

  unfoldable pub patch : FluxInstance → M (Rest World) (Unit {0})
  unfolding patch_error
  patch obj s =
      let (e, w) = kube.patch_instance obj s.world in
      (failing (patch_error obj.under_deletion e), record s { world = w })

  unfoldable pub finalize_status : M (State World) (Unit {0})
  unfolding handle_request finalize_conditions
  finalize_status = do
    s ← get
    set_status (handle_request s.obj.annotations)
    set_conditions (finalize_conditions conditions)
    on_rest patch

  -- The address of the notification controller, empty if it is not to be told.
  unfoldable pub notification_address : FluxInstance → String
  unfolding make_default_options
  notification_address obj =
      if notifications_disabled == ""
        && contain_element_string (get_components obj) make_default_options.notification_controller
      then "http://"
        <> (make_default_options.notification_controller
            <> ("." <> (obj.namespace <> (".svc." <> ((get_cluster obj).domain <> "/")))))
      else ""

  unfoldable pub revision_annotations : FluxInstance → Dict String
  revision_annotations obj =
      if obj.status.last_attempted_revision == ""
      then []
      else (revision_annotation, obj.status.last_attempted_revision) ∷ []

  -- A recorder that cannot be made is logged, and the event is lost.
  unfoldable pub notify :
      ConditionReason → EventType → String → FluxInstance → M (Rest World) (Unit {0})
  unfolding notification_address revision_annotations
  notify reason type msg obj = when (not (recorder_fails (notification_address obj))) (
      emit (record {
        address = notification_address obj;
        annotations = revision_annotations obj;
        type = type;
        reason = EventReason.because reason;
        message = msg;
      }))

-- ===== src/Report.antt =====
-- The FluxReport controller: fluxreport_controller.go.
pub mod Laws
use flux_operator.Base.{
  String, ◌<>◌, Bool, true, false, Option, none, some, List, [], Error, Result, ok, err, panic,
  wrap, is_not_found, is_conflict, failing, wrapping, if◌then◌else◌,
}
use flux_operator.Base.Int.{ℤ}
use flux_operator.Base.Effect.{M, ◌>>=◌, ◌>>◌, act, after, prefixed, return}
use flux_operator.Api.Conditions.{ConditionSet, ready, succeeded}
use flux_operator.Api.Instance.{default_instance_name}
use flux_operator.Api.Report.{FluxReport, FluxReportSpec, is_disabled, get_interval}
use flux_operator.Instance.Status.{Requeue, no_requeue}
use flux_operator.Reporter.Items.{Items}
use flux_operator.Reporter.Cluster.{Cluster, new_flux_status_reporter}
use flux_operator.Reporter.Compute.{Draft, compute, empty_spec}

-- What the reconciler is given. `get_report` reads the object of the request, `apply_report` is
-- the server-side apply, `patch_report` the patch of the object against the one that was read.
-- `reporting_interval` is the value of REPORTING_INTERVAL, `elapsed` the time since the start.
pub record Env (items : Items) (World : Type 0) : Type 1 where
  pub cluster : Cluster items World
  pub get_report : M World FluxReport
  pub apply_report : FluxReport → World → Option Error × World
  pub patch_report : FluxReport → FluxReport → World → Option Error × World
  pub conditions : ConditionSet
  pub parse_duration : String → Option ℤ
  pub reporting_interval : String
  pub elapsed : World → String
  pub status_manager : String
  pub watch_namespace : String

-- The report that is applied where there is none.
unfoldable pub new_report : String → String → FluxReport
new_report name namespace = record {
  name = name;
  namespace = namespace;
  annotations = [];
  spec = record (empty_spec) {
    distribution = record {
      entitlement = "Unknown";
      status = "Unknown";
      version = "";
      managed_by = "";
    };
  };
  conditions = [];
}

-- An error that is a conflict is none.
abbrev pub ignore_conflict : Option Error → Option Error
ignore_conflict none = none
ignore_conflict (some e) = if is_conflict e then none else some e

module _ {items : Items} {W : Type 0} (env : Env items W) where
  open env use {
    cluster, get_report, apply_report, patch_report, conditions, parse_duration, reporting_interval,
    elapsed,
  }

  unfoldable pub init_report : String → String → W → Option Error × W
  unfolding new_report
  init_report name namespace w =
      let (e, v) = apply_report (new_report name namespace) w in (ignore_conflict e, v)

  -- The object with the report and the time that it took.
  unfoldable pub with_report : FluxReportSpec → String → FluxReport → FluxReport
  with_report spec time obj = record obj {
    spec = spec;
    conditions =
        conditions.mark_true obj.conditions ready succeeded ("Reporting finished in " <> time);
  }

  unfoldable pub requeue_of : FluxReport → Requeue
  requeue_of obj = record no_requeue {
    requeue_after = get_interval parse_duration reporting_interval obj;
  }

  -- The report was computed: what there is of it is kept, with or without an error.
  unfoldable pub store : FluxReport → Result (Unit {0}) × Draft W → Result Requeue × W
  unfolding with_report requeue_of
  store obj (panic, d) = (panic, d.world)
  store obj (ok _, d) =
      let new = with_report d.spec (elapsed d.world) obj in
      after (act (patch_report obj new) d.world) (λ _. return (requeue_of new))
  store obj (err _, d) =
      let new = with_report d.spec (elapsed d.world) obj in
      after (act (patch_report obj new) d.world) (λ _. return (requeue_of new))

  unfoldable pub report_on : FluxReport → M W Requeue
  unfolding store
  report_on obj w =
      if is_disabled obj
      then (ok no_requeue, w)
      else store obj (
          compute cluster
            (new_flux_status_reporter default_instance_name env.status_manager obj.namespace) w)

  -- What follows the call of Get.
  unfoldable pub reconcile_with : Result FluxReport × W → Result Requeue × W
  unfolding report_on init_report
  reconcile_with (ok obj, w) = report_on obj w
  reconcile_with (panic, w) = (panic, w)
  reconcile_with (err e, w) =
      if is_not_found e
      then after
          (prefixed "failed to initialize FluxReport: "
            (act (init_report default_instance_name env.watch_namespace)) w)
          (λ _. return (record no_requeue { requeue = true }))
      else (err e, w)

  unfoldable pub reconcile_report : M W Requeue
  unfolding reconcile_with
  reconcile_report w = reconcile_with (get_report w)

  -- `register` is what the builder of the manager does.
  unfoldable pub setup_with_manager : M W (Unit {0}) → M W (Unit {0})
  unfolding init_report
  setup_with_manager register = do
    prefixed "failed to initialize FluxReport: "
        (act (init_report default_instance_name env.watch_namespace))
    register

-- ===== src/Instance/Request.antt =====
-- `Reconcile` of fluxinstance_controller.go with its deferred function: the status is finalized, the
-- metrics are recorded and a report is requested.
use flux_operator.Base.{List, Result, ok, err, panic, is_not_found, if◌then◌else◌}
use flux_operator.Base.Effect.{M}
use flux_operator.Api.Instance.{FluxInstance, default_instance_name}
use flux_operator.Reporter.Metrics.{record_metrics, reset_metrics}
use flux_operator.Reporter.Request.{request_report_update}
use flux_operator.Instance.Env.{Env, State, on_rest, on_world}
use flux_operator.Instance.Status.{Requeue, no_requeue, finalize_status}
use flux_operator.Instance.Reconcile.{handle}

module _ (env : Env) where
  open env use {World}

  -- `recordMetrics`. Its error is logged only.
  unfoldable pub record_instance_metrics : FluxInstance → M World (Unit {0})
  unfolding reset_metrics
  record_instance_metrics obj w =
      if obj.under_deletion
      then (ok tt, env.set_gauges (reset_metrics "FluxInstance" (env.get_gauges w)) w)
      else elim (env.to_unstructured obj) [
        | err e ↦ (err e, w)
        | panic ↦ (panic, w)
        | ok item ↦ elim (record_metrics env.items item (env.get_gauges w)) [
          | ok gauges ↦ (ok tt, env.set_gauges gauges w)
          | err e ↦ (err e, w)
          | panic ↦ (panic, w)
        ]
      ]

  -- The result of `Reconcile` and the error of `finalizeStatus` together.
  unfoldable pub aggregated : {A : Type 0} → Result A → Result (Unit {0}) → Result A
  aggregated r (ok _) = r
  aggregated (ok a) (err e) = err e
  aggregated (err x) (err e) = err (env.aggregate x e)
  aggregated panic (err e) = panic
  aggregated r panic = panic

  -- The metrics, and the request for a report unless they panic.
  unfoldable pub publish : FluxInstance → M World (Unit {0})
  publish obj w =
      let (m, v) = record_instance_metrics obj w in
      elim m [
        | panic ↦ (panic, v)
        | _ ↦ (
          ok tt,
          (request_report_update env.reports default_instance_name env.status_manager obj.namespace
              v).1,
        )
      ]

  abbrev published : Result (Unit {0}) → Result Requeue → Result Requeue
  published panic r = panic
  published (ok _) r = r
  published (err _) r = r

  -- The deferred function of `Reconcile`.
  unfoldable pub report : Result Requeue × State World → Result Requeue × State World
  unfolding aggregated publish
  report (r, s) =
      let (e, t) = finalize_status env s in
      let (p, u) = on_rest (λ obj. on_world (publish obj)) t in (published p (aggregated r e), u)

  -- `Reconcile`. The state behind it is that of the object, if there is one.
  unfoldable pub reconcile_object : FluxInstance → World → Result Requeue × State World
  unfolding handle report
  reconcile_object obj w =
      report (handle env (record { obj = obj; rest = record { events = List.[]; world = w } }))

  unfoldable pub reconcile_request : M World Requeue
  unfolding reconcile_object
  reconcile_request w =
      let (r, v) = env.kube.get_instance w in
      elim r [
        | ok obj ↦ (let (q, s) = reconcile_object obj v in (q, s.rest.world))
        | err e ↦ (if is_not_found e then ok no_requeue else err e, v)
        | panic ↦ (panic, v)
      ]

-- ===== src/Report/Laws.antt =====
-- What a reconciliation of the report stores, and when it is due again.
use flux_operator.Base.{
  ◌≡◌, ◌≢◌, refl, true, false, Option, none, some, Error, Result, ok, err, panic, wrap,
  is_not_found, is_conflict, Bool-cases, inl, inr, ◌⊎◌,
}
use flux_operator.Api.Instance.{default_instance_name}
use flux_operator.Api.Report.{FluxReport, is_disabled, get_interval}
use flux_operator.Instance.Status.{Requeue, no_requeue}
use flux_operator.Reporter.Items.{Items}
use flux_operator.Reporter.Cluster.{new_flux_status_reporter}
use flux_operator.Reporter.Compute.{Draft, compute}
use flux_operator.Report.{
  Env, new_report, ignore_conflict, init_report, with_report, requeue_of, store, report_on,
  reconcile_report,
}

module _ {items : Items} {W : Type 0} (env : Env items W) where
  -- The answer to a patch.
  abbrev pub answer : FluxReport → Option Error → Result Requeue
  answer obj none = ok (record no_requeue {
    requeue_after = get_interval env.parse_duration env.reporting_interval obj;
  })
  answer obj (some e) = err e

  store_lem :
      (obj : FluxReport) (x : Result (Unit {0})) (d : Draft W) {e : Option Error} {v : W}
      → x ≢ panic
      → env.patch_report obj (with_report env d.spec (env.elapsed d.world) obj) d.world ≡ (e, v)
      → store env obj (x, d) ≡ (answer obj e, v)
  unfolding store requeue_of with_report get_interval is_disabled
  store_lem obj (ok a) d {e = none} n p = rw p refl
  store_lem obj (ok a) d {e = some e} n p = rw p refl
  store_lem obj (err y) d {e = none} n p = rw p refl
  store_lem obj (err y) d {e = some e} n p = rw p refl
  store_lem obj panic d n p = absurd (n refl)

  -- An enabled report that was read is patched with what there is of the computed spec, whether or
  -- not the computation ended with an error, unless it panics; the reconciliation fails only if
  -- the patch does, and is due again after the interval of the report as it was read.
  pub reconcile_report-patch :
      (w0 w : W) (obj : FluxReport) {x : Result (Unit {0})} {d : Draft W} {e : Option Error} {v : W}
      → env.get_report w0 ≡ (ok obj, w)
      → is_disabled obj ≡ false
      → compute env.cluster
          (new_flux_status_reporter default_instance_name env.status_manager obj.namespace)
          w
        ≡ (x, d)
      → x ≢ panic
      → env.patch_report obj (with_report env d.spec (env.elapsed d.world) obj) d.world ≡ (e, v)
      → reconcile_report env w0 ≡ (answer obj e, v)
  unfolding reconcile_report report_on
  reconcile_report-patch w0 w obj {x} {d} g on c n p = rw g (rw on (rw c (store_lem obj x d n p)))

  -- Where there is no report, the one that is applied knows nothing yet. The reconciliation comes
  -- again at once if it was applied or the apply is a conflict, and fails with its error otherwise.
  reconcile_report-missing :
      (w0 w : W) {e : Error} {x : Option Error} {v : W}
      → env.get_report w0 ≡ (err e, w)
      → is_not_found e ≡ true
      → env.apply_report (new_report default_instance_name env.watch_namespace) w ≡ (x, v)
      → ((ignore_conflict x ≡ none)
          × (reconcile_report env w0 ≡ (ok (record no_requeue { requeue = true }), v)))
        ⊎ ((y : Error) × (x ≡ some y)
            × (is_conflict y ≡ false)
            × (reconcile_report env w0 ≡ (err (wrap "failed to initialize FluxReport: " y), v)))
  unfolding reconcile_report init_report
  reconcile_report-missing w0 w {e} {x = none} g m a = inl (refl, rw g (rw m (rw a refl)))
  reconcile_report-missing w0 w {e} {x = some y} g m a = elim (Bool-cases (is_conflict y)) [
    | inl c ↦ inl (rw c refl, rw g (rw m (rw a (rw c refl))))
    | inr c ↦ inr (y, refl, c, rw g (rw m (rw a (rw c refl))))
  ]

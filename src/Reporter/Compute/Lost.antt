-- ===== src/Reporter/Compute/Lost.antt =====
-- What is lost of a report if one kind cannot be listed.
use flux_operator.Base.{
  ◌≡◌, ◌≢◌, refl, ap, Option, none, some, List, [], ◌∷◌, ◌++◌, Error, Result, ok, err, panic,
}
use flux_operator.Base.Effect.{after-ok, ◌>>=◌}
use flux_operator.Api.Report.{FluxReconcilerStatus, FluxDistributionStatus, FluxComponentStatus}
use flux_operator.Reporter.Items.{Items}
use flux_operator.Reporter.Metrics.{reset_metrics}
use flux_operator.Reporter.Cluster.{Cluster, GroupVersionKind, FluxStatusReporter}
use flux_operator.Reporter.Crds.{api_version, list_crds}
use flux_operator.Reporter.Components.{get_components_status}
use flux_operator.Reporter.Distribution.{get_distribution_status}
use flux_operator.Reporter.Stats.{get_reconcilers_status, stats_of}
use flux_operator.Reporter.Stats.Rows.{get_reconcilers_status_lost}
use flux_operator.Reporter.Compute.{
  Draft, compute, compute_from, compute_reconcilers, without_error, empty_spec,
}

module _ {items : Items} {W : Type 0} (cluster : Cluster items W) (r : FluxStatusReporter) where
  -- No statistics come out of a run in which one kind could not be listed.
  statistics_lost :
      (before : List GroupVersionKind) (gvk : GroupVersionKind) (crds : List GroupVersionKind)
      (w : W) {done : List FluxReconcilerStatus} {f : Option Error} {v : W} {y : Error} {u : W}
      {stats : List FluxReconcilerStatus}
      → stats_of cluster before none
          (cluster.set_gauges (reset_metrics "FluxResource" (cluster.get_gauges w)) w)
        ≡ (ok (done, f), v)
      → cluster.list_items (api_version gvk) gvk.kind "" [] v ≡ (err y, u)
      → ¬ ((get_reconcilers_status cluster (before ++ gvk ∷ crds) >>= without_error) w).0 ≡ ok stats
  unfolding get_reconcilers_status without_error
  statistics_lost before gvk crds w {stats} d l h =
      let ((rows, x), (v, p, k)) =
        after-ok (get_reconcilers_status cluster (before ++ gvk ∷ crds) w) without_error h in
      by_error x rows v k
        (get_reconcilers_status_lost cluster before gvk crds w d l (ap (λ z. z.0) p))
    where
      by_error :
          (x : Option Error) (rows : List FluxReconcilerStatus) (v : W)
          → (without_error (rows, x) v).0 ≡ ok stats
          → x ≢ none
          → ⊥
      by_error none rows v k c = c refl
      by_error (some e) rows v k c = cc

  -- The statistics and the sync of a draft are left as they were.
  compute_reconcilers_lost :
      (before : List GroupVersionKind) (gvk : GroupVersionKind) (crds : List GroupVersionKind)
      (d : Draft W) {done : List FluxReconcilerStatus} {f : Option Error} {v : W} {y : Error}
      {u : W}
      → stats_of cluster before none
          (cluster.set_gauges (reset_metrics "FluxResource" (cluster.get_gauges d.world)) d.world)
        ≡ (ok (done, f), v)
      → cluster.list_items (api_version gvk) gvk.kind "" [] v ≡ (err y, u)
      → ((compute_reconcilers cluster r (before ++ gvk ∷ crds) d).0 ≢ ok tt)
        × ((compute_reconcilers cluster r (before ++ gvk ∷ crds) d).1.spec ≡ d.spec)
  unfolding compute_reconcilers
  compute_reconcilers_lost before gvk crds d n l =
      by_result ((get_reconcilers_status cluster (before ++ gvk ∷ crds) >>= without_error) d.world)
        refl
    where
      by_result :
          (x : Result (List FluxReconcilerStatus) × W)
          → (get_reconcilers_status cluster (before ++ gvk ∷ crds) >>= without_error) d.world ≡ x
          → ((compute_reconcilers cluster r (before ++ gvk ∷ crds) d).0 ≢ ok tt)
            × ((compute_reconcilers cluster r (before ++ gvk ∷ crds) d).1.spec ≡ d.spec)
      by_result (ok stats, v) e =
          absurd (statistics_lost before gvk crds d.world n l (ap (λ z. z.0) e))
      by_result (err x, v) e = (rw e (λ k. cc), rw e refl)
      by_result (panic, v) e = (rw e (λ k. cc), rw e refl)

  -- Where the distribution, the definitions of the kinds and the components were read and the
  -- statistics of some of the kinds were gone through, and the next kind cannot be listed, the
  -- report that is left has the distribution and the components, but the statistics of no kind and
  -- no status of the sync, and it comes with an error or a panic.
  pub compute_lost :
      (before : List GroupVersionKind) (gvk : GroupVersionKind) (crds : List GroupVersionKind)
      (w w1 w2 w3 : W) {dist : FluxDistributionStatus} {comps : List FluxComponentStatus}
      {done : List FluxReconcilerStatus} {f : Option Error} {v : W} {y : Error} {u : W}
      → get_distribution_status cluster r w ≡ (ok dist, w1)
      → list_crds cluster r w1 ≡ (ok (before ++ gvk ∷ crds), w2)
      → get_components_status cluster r w2 ≡ (ok comps, w3)
      → stats_of cluster before none
          (cluster.set_gauges (reset_metrics "FluxResource" (cluster.get_gauges w3)) w3)
        ≡ (ok (done, f), v)
      → cluster.list_items (api_version gvk) gvk.kind "" [] v ≡ (err y, u)
      → ((compute cluster r w).0 ≢ ok tt)
        × ((compute cluster r w).1.spec
            ≡ record empty_spec { distribution = dist; components_status = comps })
  unfolding compute compute_from
  compute_lost before gvk crds w w1 w2 w3 p1 p2 p3 n l =
      rw p1 (rw p2 (rw p3 (compute_reconcilers_lost before gvk crds _ n l)))

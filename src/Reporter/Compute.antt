-- ===== src/Reporter/Compute.antt =====
-- `Compute` of internal/reporter/reporter.go.
pub mod Laws
pub mod Lost
use flux_operator.Base.{
  String, ◌<>◌, Option, none, some, List, [], Error, Result, ok, err, panic, wrap,
}
use flux_operator.Base.Effect.{M, ◌>>=◌, ◌>>◌, fail, prefixed, return}
use flux_operator.Api.Report.{FluxReportSpec, FluxReconcilerStatus}
use flux_operator.Reporter.Items.{Items}
use flux_operator.Reporter.Cluster.{Cluster, GroupVersionKind, FluxStatusReporter}
use flux_operator.Reporter.Distribution.{get_distribution_status, unknown_distribution}
use flux_operator.Reporter.Crds.{list_crds}
use flux_operator.Reporter.Components.{get_components_status}
use flux_operator.Reporter.Stats.{get_reconcilers_status}
use flux_operator.Reporter.Sync.{get_sync_status}

-- The report as far as it is filled in, and the rest. An error leaves it as it is.
pub record Draft (World : Type 0) : Type 0 where
  pub spec : FluxReportSpec
  pub world : World

abbrev pub empty_spec : FluxReportSpec
empty_spec = record {
  distribution = record { entitlement = ""; status = ""; version = ""; managed_by = "" };
  components_status = [];
  reconcilers_status = [];
  sync_status = none;
}

-- A call on the cluster.
abbrev pub call : {W A : Type 0} → M W A → M (Draft W) A
call m d = let (r, w) = m d.world in (r, record d { world = w })

abbrev pub fill : {W : Type 0} → (FluxReportSpec → FluxReportSpec) → M (Draft W) (Unit {0})
fill f d = (ok tt, record d { spec = f d.spec })

-- The statistics that come with an error are not used.
unfoldable pub without_error :
    {W : Type 0} → List FluxReconcilerStatus × Option Error → M W (List FluxReconcilerStatus)
without_error (stats, none) = return stats
without_error (stats, some e) = fail e

module _ {items : Items} {W : Type 0} (cluster : Cluster items W) (r : FluxStatusReporter) where
  -- The statistics, and what is left to do after the components.
  unfoldable pub compute_reconcilers : List GroupVersionKind → M (Draft W) (Unit {0})
  unfolding without_error
  compute_reconcilers crds = do
    stats ←
        prefixed "failed to compute reconcilers status: "
          (call (get_reconcilers_status cluster crds >>= without_error))
    fill (λ s. record s { reconcilers_status = stats })
    sync ← prefixed "failed to compute sync status: " (call (get_sync_status cluster r crds))
    fill (λ s. record s { sync_status = sync })

  unfoldable pub compute_from : M (Draft W) (Unit {0})
  unfolding compute_reconcilers
  compute_from = do
    distribution ← call (get_distribution_status cluster r)
    fill (λ s. record s { distribution = distribution })
    crds ← prefixed "failed to list CRDs: " (call (list_crds cluster r))
    components ←
        prefixed "failed to compute components status: " (call (get_components_status cluster r))
    fill (λ s. record s { components_status = components })
    compute_reconcilers crds

  unfoldable pub compute : W → Result (Unit {0}) × Draft W
  unfolding compute_from
  compute w = compute_from (record { spec = empty_spec; world = w })

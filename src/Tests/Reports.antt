-- ===== src/Tests/Reports.antt =====
-- The theorems on the report at a concrete cluster.
use mathlib.Core.List.{Perm, Pairwise}
use flux_operator.Base.{
  String, ◌<>◌, ◌≡◌, ◌≢◌, ◌↔◌, refl, true, false, none, some, [], ◌∷◌, ok, ℕ, insert, lookup, arith,
}
use flux_operator.Base.Sort.{insertion_sort, insertion_sort-IsSort}
use flux_operator.Api.Report.{FluxReconcilerStatus, FluxDistributionStatus, is_disabled}
use flux_operator.Reporter.Metrics.{record_metrics}
use flux_operator.Reporter.Cluster.{new_flux_status_reporter}
use flux_operator.Reporter.Crds.{list_crds, gvk_for}
use flux_operator.Api.Instance.{disabled_by}
use flux_operator.Reporter.Stats.{
  stats_with, stats_of, format_size, get_reconcilers_status, letter_at,
}
use flux_operator.Reporter.Stats.Laws.{Counts, stats_with-Counts, stats_with-total_size}
use flux_operator.Reporter.Stats.Format.{format_size-UnitOf}
use flux_operator.Reporter.Stats.Rows.{get_reconcilers_status-rows}
use flux_operator.Reporter.Size.{divisor, letters}
use flux_operator.Reporter.Size.Laws.{UnitOf}
use flux_operator.Reporter.Sync.{sync_status_of, with_source, get_sync_status}
use flux_operator.Reporter.Sync.Laws.{
  is_good, last_ready, any_failing, read_conditions, sync_ready_iff,
}
use flux_operator.Reporter.Components.{get_components_status}
use flux_operator.Reporter.Distribution.{get_distribution_status}
use flux_operator.Reporter.Distribution.Laws.{get_distribution_status-issued}
use flux_operator.Reporter.Compute.{compute, empty_spec}
use flux_operator.Reporter.Compute.Laws.{Computed, compute_ok}
use flux_operator.Reporter.Compute.Lost.{compute_lost}
use flux_operator.Report.{reconcile_report}
use flux_operator.Report.Laws.{reconcile_report-patch, answer}
use flux_operator.Entitlement.Secret.{set_value}
use flux_operator.Tests.Entitlements.{sample_env}
use flux_operator.Tests.Cluster.{
  forbidden_cluster, git_kind, bucket_kind, report_cluster, reporter, report_cluster-IsApi, git_row,
  sample_draft, vendor_secret, sample_report, report_env, kinds-IsOrder,
}

stats_with-Counts_example : Counts report_cluster ("repo" ∷ "paused" ∷ []) git_row
unfolding stats_with record_metrics divisor
stats_with-Counts_example =
    stats_with-Counts report_cluster report_cluster-IsApi git_kind none ("repo" ∷ "paused" ∷ []) tt
      {x = none} refl

stats_with-total_size_example : format_size report_cluster 1400 ≡ ok "1.4 KiB"
unfolding stats_with record_metrics divisor
stats_with-total_size_example =
    stats_with-total_size report_cluster report_cluster-IsApi git_kind none ("repo" ∷ "paused" ∷ [])
      tt {s = git_row} {x = none} omega arith refl

format_size-UnitOf_example :
    (d : ℕ) × ((e : ℕ) × ((l : String) × UnitOf 1400 d e
        × (letter_at e letters ≡ some l)
        × (format_size report_cluster 1400 ≡ ok ("1.4" <> (" " <> (l <> "iB"))))))
format_size-UnitOf_example = format_size-UnitOf report_cluster 1400 omega arith omega arith

get_reconcilers_status-rows_example :
    Perm {A = String × String}
      (("source/v1", "GitRepository") ∷ [])
      (("source/v1", "GitRepository") ∷ [])
    × Pairwise {A = FluxReconcilerStatus} (λ a b. false ≡ false) (git_row ∷ [])
unfolding get_reconcilers_status record_metrics divisor insertion_sort
get_reconcilers_status-rows_example =
    get_reconcilers_status-rows report_cluster (insertion_sort-IsSort (λ a b. false) kinds-IsOrder)
      (git_kind ∷ []) tt {rows = git_row ∷ []} {x = none} refl

compute_lost_example :
    ((compute forbidden_cluster reporter tt).0 ≢ ok tt)
    × ((compute forbidden_cluster reporter tt).1.spec ≡ record empty_spec {
      distribution = sample_draft.spec.distribution;
      components_status = sample_draft.spec.components_status;
    })
unfolding stats_of record_metrics divisor get_distribution_status list_crds get_components_status
    lookup insertion_sort
compute_lost_example =
    compute_lost forbidden_cluster reporter (git_kind ∷ []) bucket_kind [] tt tt tt tt
      {done = git_row ∷ []} {f = none} {v = tt} refl refl refl refl refl

compute_ok_example : Computed report_cluster reporter tt sample_draft
unfolding compute get_distribution_status list_crds get_components_status lookup
    get_reconcilers_status record_metrics divisor get_sync_status gvk_for insertion_sort
compute_ok_example = compute_ok report_cluster reporter tt refl

sync_ready_iff_example :
    ((with_source report_cluster reporter
        (sync_status_of report_cluster reporter "flux" "repo")
        (some "paused")).ready
      ≡ true)
    ↔ ((is_good (last_ready (read_conditions report_cluster reporter (some "repo")) none) ≡ true)
        × (any_failing (read_conditions report_cluster reporter (some "paused")) ≡ false))
sync_ready_iff_example = sync_ready_iff report_cluster reporter "flux" "repo" (some "paused")

get_distribution_status-issued_example :
    (status : FluxDistributionStatus) × (get_distribution_status report_cluster
        (new_flux_status_reporter "flux" "flux-operator" "flux-system")
        tt
      ≡ (ok status, tt))
    × (status.entitlement ≡ "Issued by " <> "controlplane")
unfolding set_value insert lookup
get_distribution_status-issued_example =
    get_distribution_status-issued report_cluster sample_env "flux" "flux-system" "abc"
      vendor_secret tt {vendor = "controlplane"}
      {s' = record vendor_secret {
        data_ = some (("vendor", "controlplane") ∷ ("token", "abc") ∷ []);
      }}
      {l = ok []} {v = tt} {u = tt} refl refl refl (λ h. cc) refl refl

reconcile_report-patch_example :
    reconcile_report report_env tt ≡ (answer report_env sample_report none, tt)
unfolding compute record_metrics divisor insertion_sort is_disabled disabled_by
    get_distribution_status list_crds get_components_status get_reconcilers_status get_sync_status
    gvk_for
reconcile_report-patch_example =
    reconcile_report-patch report_env tt tt sample_report {x = ok tt} {d = sample_draft} {e = none}
      {v = tt} refl refl refl (λ h. cc) refl

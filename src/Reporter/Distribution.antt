-- ===== src/Reporter/Distribution.antt =====
-- internal/reporter/distribution.go.
pub mod Laws
use flux_operator.Base.{String, ◌<>◌, Option, none, some, Dict, lookup}
use flux_operator.Base.Effect.{M, ◌>>=◌, return}
use flux_operator.Api.Report.{FluxDistributionStatus}
use flux_operator.Entitlement.Client.{token_key, vendor_key}
use flux_operator.Reporter.Items.{Items}
use flux_operator.Reporter.Cluster.{Cluster, FluxStatusReporter, tried}

abbrev pub unknown_distribution : FluxDistributionStatus
unknown_distribution = record {
  entitlement = "Unknown";
  status = "Unknown";
  version = "";
  managed_by = "";
}

abbrev pub or_empty : Option String → String
or_empty none = ""
or_empty (some s) = s

unfoldable pub managed_by : Dict String → String
managed_by labels = elim (lookup "app.kubernetes.io/managed-by" labels) [
  | some manager ↦ manager
  | none ↦ elim (lookup "kustomize.toolkit.fluxcd.io/name" labels) [
    | some name ↦ "flux bootstrap"
    | none ↦ ""
  ]
]

-- The labels of the definition of GitRepository, if it is there.
unfoldable pub with_labels : Option (Dict String) → FluxDistributionStatus → FluxDistributionStatus
unfolding managed_by
with_labels none result = record result { status = "Not Installed" }
with_labels (some labels) result = record result {
  status = "Installed";
  version = or_empty (lookup "app.kubernetes.io/version" labels);
  managed_by = managed_by labels;
}

-- The data of the entitlement secret, if it can be read.
unfoldable pub with_entitlement :
    Option (Dict String) → FluxDistributionStatus → FluxDistributionStatus
with_entitlement none result = result
with_entitlement (some secret) result = elim (lookup token_key secret) [
  | none ↦ result
  | some token ↦ elim (lookup vendor_key secret) [
    | none ↦ record result { entitlement = "Issued" }
    | some vendor ↦ record result { entitlement = "Issued by " <> vendor }
  ]
]

module _ {items : Items} {W : Type 0} (cluster : Cluster items W) (r : FluxStatusReporter) where
  open cluster use {get_crd_labels, get_secret_data}

  unfoldable pub get_distribution_status : M W FluxDistributionStatus
  unfolding with_labels with_entitlement
  get_distribution_status = do
    labels ← λ w. tried (get_crd_labels "gitrepositories.source.toolkit.fluxcd.io" w)
    secret ← λ w. tried (get_secret_data r.namespace (r.manager <> "-entitlement") w)
    return (with_entitlement secret (with_labels labels unknown_distribution))

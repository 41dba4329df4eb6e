-- ===== src/Tests/Cluster.antt =====
-- A cluster with two repositories and a Deployment, and what its report holds.
use mathlib.Core.List.{Pairwise, Pairwise-singleton}
use flux_operator.Base.{
  String, ◌≡◌, ◌≢◌, refl, true, false, none, some, List, [], ◌∷◌, Result, ok, err, errorf,
  not_found, inl, inr, ◌==◌, if◌then◌else◌, Bool-cases,
}
use flux_operator.Base.Int.{pos}
use flux_operator.Base.Sort.{IsOrder, insertion_sort}
use flux_operator.Api.Report.{FluxReconcilerStatus, FluxReport}
use flux_operator.Reporter.Items.{Items}
use flux_operator.Reporter.Cluster.{
  Cluster, CrdItem, GroupVersionKind, ReportedCondition, FluxStatusReporter,
}
use flux_operator.Reporter.Stats.Bounds.{IsApi}
use flux_operator.Reporter.Compute.{Draft, empty_spec}
use flux_operator.Report.{Env}
use flux_operator.Entitlement.Secret.{Secret}
use flux_operator.Tests.Conditions.{sample_conditions}
use flux_operator.Tests.Objects.{sample_instance}

abbrev pub W : Type 0
W = Unit

abbrev pub report_items : Items
report_items = record {
  Item = String;
  uid = λ i. "1";
  kind = λ i. "GitRepository";
  name = λ i. i;
  namespace = λ i. "flux-system";
  annotations = λ i. [];
  nested_string = λ i p. none;
  nested_bool = λ i p. some (i == "paused");
  nested_int64 = λ i p. some (pos 700);
  condition_maps = λ i. none;
}

abbrev pub git_crd : CrdItem
git_crd = record {
  name = "gitrepositories";
  group = "source";
  kind = "GitRepository";
  stored_versions = "v1" ∷ [];
}

abbrev pub kustomize_crd : CrdItem
kustomize_crd = record {
  name = "kustomizations";
  group = "kustomize";
  kind = "Kustomization";
  stored_versions = "v1beta2" ∷ "v1" ∷ [];
}

abbrev pub git_kind : GroupVersionKind
git_kind = record { group = "source"; version = "v1"; kind = "GitRepository" }

abbrev pub bucket_kind : GroupVersionKind
bucket_kind = record { group = "source"; version = "v1"; kind = "Bucket" }

abbrev pub broken : ReportedCondition
broken = record { type = "Ready"; status = "False"; message = "timeout" }

abbrev pub listed : String → Result (List String)
listed kind =
    if kind == "GitRepository"
    then ok ("repo" ∷ "paused" ∷ [])
    else if kind == "Deployment"
    then ok ("source-controller" ∷ [])
    else if kind == "Kustomization"
    then ok []
    else err (errorf "forbidden")

abbrev pub report_cluster : Cluster report_items W
report_cluster = record {
  list_crds = λ ns l w. (ok (git_crd ∷ kustomize_crd ∷ []), w);
  list_items = λ v k ns l w. (listed k, w);
  list_instances = λ ns w. (ok (sample_instance ∷ []), w);
  get_item = λ v k ns n w. (err (record { text = "not found"; reason = not_found }), w);
  get_crd_labels = λ n w. (ok [], w);
  get_secret_data = λ ns n w. (ok (("vendor", "controlplane") ∷ ("token", "abc") ∷ []), w);
  compute_status = λ i. ok ("Current", "Replicas: 1");
  conditions_of = λ i. some (if i == "repo" then broken ∷ [] else []);
  containers = λ i. some (some (("image", "ghcr.io/fluxcd/source-controller") ∷ []) ∷ []);
  aggregate = λ a b. b;
  stable_sort = λ less xs. insertion_sort less xs;
  before = λ a b. false;
  printed_int = λ z. "1400";
  printed_ratio = λ a b. "1.4";
  get_gauges = λ w. record { instance_info = []; resource_info = [] };
  set_gauges = λ g w. w;
}

-- The same, with a kind that cannot be listed.
abbrev pub forbidden_cluster : Cluster report_items W
forbidden_cluster = record report_cluster {
  list_crds = λ ns l w. (ok (git_crd ∷ record git_crd { kind = "Bucket" } ∷ []), w);
}

abbrev pub reporter : FluxStatusReporter
reporter = record {
  instance_ = "flux";
  manager = "flux-operator";
  namespace = "flux-system";
  label_selector = ("app.kubernetes.io/part-of", "flux") ∷ [];
}

one_condition :
    (i : String) {cs : List ReportedCondition}
    → some (if i == "repo" then broken ∷ [] else []) ≡ some cs
    → Pairwise (λ a b. a.type ≢ b.type) cs
one_condition i {cs} e = elim (Bool-cases (i == "repo")) [
  | inl h ↦
      (let k : some (broken ∷ []) ≡ some cs = rw h at e in
        (let q : broken ∷ [] ≡ cs = cc in rw (← q) (Pairwise-singleton _ broken)))
  | inr h ↦
      (let k : some [] ≡ some cs = rw h at e in (let q : [] ≡ cs = cc in rw (← q) Pairwise.nil))
]

pub report_cluster-IsApi : IsApi report_cluster
report_cluster-IsApi = record { unique = λ i e. one_condition i e; not_negative = λ i e. (700, cc) }

abbrev pub git_row : FluxReconcilerStatus
git_row = record {
  api_version = "source/v1";
  kind = "GitRepository";
  stats = record { running = pos 1; failing = pos 1; suspended = pos 1; total_size = "1.4 KiB" };
}

abbrev pub sample_draft : Draft W
sample_draft = record {
  spec = record {
    distribution = record {
      entitlement = "Issued by controlplane";
      status = "Installed";
      version = "";
      managed_by = "";
    };
    components_status =
        record {
          name = "source-controller";
          ready = true;
          status = "Current Replicas: 1";
          image = "ghcr.io/fluxcd/source-controller";
        }
        ∷ [];
    reconcilers_status =
        git_row
        ∷ record {
          api_version = "kustomize/v1";
          kind = "Kustomization";
          stats = record { running = pos 0; failing = pos 0; suspended = pos 0; total_size = "" };
        }
        ∷ [];
    sync_status = none;
  };
  world = tt;
}

abbrev pub vendor_secret : Secret
vendor_secret = record {
  name = "flux-operator-entitlement";
  namespace = "flux-system";
  labels = [];
  data_ = some (("vendor", "controlplane") ∷ []);
}

abbrev pub sample_report : FluxReport
sample_report = record {
  name = "flux";
  namespace = "flux-system";
  annotations = [];
  spec = empty_spec;
  conditions = [];
}

abbrev pub report_env : Env report_items W
report_env = record {
  cluster = report_cluster;
  get_report = λ w. (ok sample_report, w);
  apply_report = λ r w. (none, w);
  patch_report = λ old new w. (none, w);
  conditions = sample_conditions;
  parse_duration = λ s. none;
  reporting_interval = "";
  elapsed = λ w. "1s";
  status_manager = "flux-operator";
  watch_namespace = "flux-system";
}

pub kinds-IsOrder : IsOrder {A = FluxReconcilerStatus} (λ a b. false)
kinds-IsOrder = record {
  irrefl = λ a. refl;
  asym = λ a b h. absurd (cc);
  not_trans = λ a b c h k. refl;
}

-- ===== src/Api/Instance.antt =====
-- api/v1/fluxinstance_types.go: the FluxInstance object and the defaults of its settings.
use flux_operator.Base.{
  String, Bool, true, false, Option, none, some, List, [], ◌∷◌, Dict, lookup, to_lower, ◌==◌,
}
use flux_operator.Base.Int.{ℤ, pos, minutes}
use flux_operator.Api.Conditions.{Condition}

abbrev pub finalizer : String
finalizer = "fluxcd.controlplane.io/finalizer"

abbrev pub reconcile_annotation : String
reconcile_annotation = "fluxcd.controlplane.io/reconcile"

abbrev pub reconcile_every_annotation : String
reconcile_every_annotation = "fluxcd.controlplane.io/reconcileEvery"

abbrev pub reconcile_artifact_every_annotation : String
reconcile_artifact_every_annotation = "fluxcd.controlplane.io/reconcileArtifactEvery"

abbrev pub reconcile_timeout_annotation : String
reconcile_timeout_annotation = "fluxcd.controlplane.io/reconcileTimeout"

abbrev pub prune_annotation : String
prune_annotation = "fluxcd.controlplane.io/prune"

abbrev pub revision_annotation : String
revision_annotation = "fluxcd.controlplane.io/revision"

abbrev pub disabled_value : String
disabled_value = "disabled"

abbrev pub default_namespace : String
default_namespace = "flux-system"

abbrev pub default_instance_name : String
default_instance_name = "flux"

pub record Distribution : Type 0 where
  pub version : String
  pub registry : String
  pub image_pull_secret : String
  pub artifact : String

pub record ComponentImage : Type 0 where
  pub name : String
  pub repository : String
  pub tag : String
  pub digest : String

pub record Cluster : Type 0 where
  pub domain : String
  pub multitenant : Bool
  pub tenant_default_service_account : String
  pub network_policy : Bool
  pub type : String

pub record Sharding : Type 0 where
  pub key : String
  pub shards : List String

pub record Storage : Type 0 where
  pub class : String
  pub size : String

pub record CommonMetadata : Type 0 where
  pub annotations : Dict String
  pub labels : Dict String

-- A patch is kept as its text.
pub record Kustomize : Type 0 where
  pub patches : List String

pub record Sync : Type 0 where
  pub name : String
  pub interval : Option ℤ
  pub kind : String
  pub url : String
  pub ref : String
  pub path : String
  pub pull_secret : String

pub record ResourceRef : Type 0 where
  pub id : String
  pub version : String

pub record ResourceInventory : Type 0 where
  pub entries : List ResourceRef

pub record FluxInstanceSpec : Type 0 where
  pub distribution : Distribution
  pub components : List String
  pub common_metadata : Option CommonMetadata
  pub cluster : Option Cluster
  pub sharding : Option Sharding
  pub storage : Option Storage
  pub kustomize : Option Kustomize
  pub wait : Option Bool
  pub migrate_resources : Option Bool
  pub sync : Option Sync

pub record FluxInstanceStatus : Type 0 where
  pub last_handled_reconcile_at : String
  pub conditions : List Condition
  pub last_attempted_revision : String
  pub last_applied_revision : String
  pub last_artifact_revision : String
  pub components : List ComponentImage
  pub inventory : Option ResourceInventory

-- Of the object's metadata, the fields that the program reads or writes.
pub record FluxInstance : Type 0 where
  pub name : String
  pub namespace : String
  pub annotations : Dict String
  pub finalizers : List String
  pub under_deletion : Bool
  pub spec : FluxInstanceSpec
  pub status : FluxInstanceStatus

unfoldable pub get_distribution : FluxInstance → Distribution
get_distribution obj = obj.spec.distribution

-- The test on the length and the copy of the list in one.
unfoldable pub components_or_default : List String → List String
components_or_default [] =
    "source-controller" ∷ "kustomize-controller" ∷ "helm-controller" ∷ "notification-controller"
    ∷ []
components_or_default (c ∷ cs) = c ∷ cs

unfoldable pub get_components : FluxInstance → List String
unfolding components_or_default
get_components obj = components_or_default obj.spec.components

unfoldable pub get_cluster : FluxInstance → Cluster
get_cluster obj = elim (obj.spec.cluster) [
  | none ↦ record {
    domain = "cluster.local";
    multitenant = false;
    tenant_default_service_account = "";
    network_policy = true;
    type = "kubernetes";
  }
  | some cluster ↦ cluster
]

unfoldable pub get_migrate_resources : FluxInstance → Bool
get_migrate_resources obj = elim (obj.spec.migrate_resources) [ none ↦ true | some b ↦ b ]

unfoldable pub get_wait : FluxInstance → Bool
get_wait obj = elim (obj.spec.wait) [ none ↦ true | some b ↦ b ]

-- Of the annotations alone: the two kinds of object have the same test.
unfoldable pub disabled_by : Dict String → Bool
unfolding lookup to_lower
disabled_by annotations = elim (lookup reconcile_annotation annotations) [
  | none ↦ false
  | some val ↦ to_lower val == disabled_value
]

unfoldable pub is_disabled : FluxInstance → Bool
is_disabled obj = disabled_by obj.annotations

-- `time.ParseDuration`, with its error left out: the program only tests for it.
module _ (parse_duration : String → Option ℤ) where
  -- The value of a duration annotation, or its default.
  unfoldable pub duration_of : Dict String → String → ℤ → ℤ
  duration_of annotations key default = elim (lookup key annotations) [
    | none ↦ default
    | some val ↦ elim (parse_duration val) [ none ↦ default | some d ↦ d ]
  ]

  unfoldable pub get_interval : FluxInstance → ℤ
  unfolding duration_of
  get_interval obj = elim (is_disabled obj) [
    | true ↦ pos 0
    | false ↦ duration_of obj.annotations reconcile_every_annotation (minutes 60)
  ]

  unfoldable pub get_artifact_interval : FluxInstance → ℤ
  unfolding duration_of
  get_artifact_interval obj = elim (is_disabled obj) [
    | true ↦ pos 0
    | false ↦ duration_of obj.annotations reconcile_artifact_every_annotation (minutes 10)
  ]

  unfoldable pub get_timeout : FluxInstance → ℤ
  unfolding duration_of
  get_timeout obj = duration_of obj.annotations reconcile_timeout_annotation (minutes 5)

-- ===== src/Reporter/Cluster.antt =====
-- What the computation of the report in internal/reporter is given, and what it calls.
use flux_operator.Base.{
  String, Bool, Option, none, some, List, [], ◌∷◌, Dict, Error, Result, ok, err, panic,
}
use flux_operator.Base.Int.{ℤ}
use flux_operator.Base.Effect.{M}
use flux_operator.Api.Instance.{FluxInstance}
use flux_operator.Reporter.Items.{Items}
use flux_operator.Reporter.Metrics.{Gauges}

-- A CustomResourceDefinition, by the fields that are read.
pub record CrdItem : Type 0 where
  pub name : String
  pub group : String
  pub kind : String
  pub stored_versions : List String

pub record GroupVersionKind : Type 0 where
  pub group : String
  pub version : String
  pub kind : String

-- A condition as kstatus reads it from an object.
pub record ReportedCondition : Type 0 where
  pub type : String
  pub status : String
  pub message : String

-- The calls, each of which may fail. A list of objects is asked for by the API version, the kind,
-- the namespace (empty for all) and the labels; an object by its API version, kind, namespace and
-- name. `compute_status` is kstatus's, with the status and the message; `conditions_of` is its
-- `GetObjectWithConditions`. `containers` is the list of that name in a Deployment's pod template,
-- of which an element that is no map is `none` and a map is kept by its fields that are texts.
-- `aggregate` is apimachinery's, of an error that may be nil and one that is not. `before` is the
-- order of texts, `printed_int` and `printed_ratio` are the verbs `%d` and `%.1f` of a quotient.
pub record Cluster (items : Items) (World : Type 0) : Type 1 where
  pub list_crds : String → Dict String → M World (List CrdItem)
  pub list_items : String → String → String → Dict String → M World (List items.Item)
  pub list_instances : String → M World (List FluxInstance)
  pub get_item : String → String → String → String → M World items.Item
  pub get_crd_labels : String → M World (Dict String)
  pub get_secret_data : String → String → M World (Dict String)
  pub compute_status : items.Item → Result (String × String)
  pub conditions_of : items.Item → Option (List ReportedCondition)
  pub containers : items.Item → Option (List (Option (Dict String)))
  pub aggregate : Option Error → Error → Error
  pub stable_sort : {A : Type 0} → (A → A → Bool) → List A → List A
  pub before : String → String → Bool
  pub printed_int : ℤ → String
  pub printed_ratio : ℤ → ℤ → String
  pub get_gauges : World → Gauges
  pub set_gauges : Gauges → World → World

pub record FluxStatusReporter : Type 0 where
  pub instance_ : String
  pub manager : String
  pub namespace : String
  pub label_selector : Dict String

unfoldable pub new_flux_status_reporter : String → String → String → FluxStatusReporter
new_flux_status_reporter instance_ manager namespace = record {
  instance_ = instance_;
  manager = manager;
  namespace = namespace;
  label_selector = ("app.kubernetes.io/part-of", instance_) ∷ [];
}

-- A call whose error is only looked at for being there.
abbrev pub tried : {W A : Type 0} → Result A × W → Result (Option A) × W
tried (ok a, w) = (ok (some a), w)
tried (err e, w) = (ok none, w)
tried (panic, w) = (panic, w)

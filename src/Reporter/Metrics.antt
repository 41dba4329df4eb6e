-- ===== src/Reporter/Metrics.antt =====
-- internal/reporter/metrics.go: the labels of the gauges.
pub mod Keys
pub mod Laws
use flux_operator.Base.{
  String, ◌<>◌, Bool, true, false, Option, none, some, List, [], ◌∷◌, ◌++◌, map, Dict, lookup,
  insert, Result, ok, err, panic, ◌>>=◌, ◌==◌, if◌then◌else◌,
}
use flux_operator.Base.Effect.{M}
use flux_operator.Api.Instance.{reconcile_annotation, disabled_by}
use flux_operator.Reporter.Items.{Items}

-- A gauge vector: its series, each by its labels. A series is set to 1 or not there.
abbrev pub Gauge : Type 0
Gauge = List (Dict String)

pub record Gauges : Type 0 where
  pub instance_info : Gauge
  pub resource_info : Gauge

abbrev pub common_labels : List String
common_labels =
    "uid" ∷ "kind" ∷ "name" ∷ "exported_namespace" ∷ "ready" ∷ "reason" ∷ "suspended" ∷ []

-- The labels that the two gauges are declared with.
abbrev pub instance_labels : List String
instance_labels = common_labels ++ "registry" ∷ "revision" ∷ []

abbrev pub resource_labels : List String
resource_labels = common_labels ++ "revision" ∷ "url" ∷ "ref" ∷ "source_name" ∷ "path" ∷ []

-- The names of the two gauges, by the keys of the map.
abbrev pub metrics : Dict String
metrics = ("FluxInstance", "flux_instance_info") ∷ ("FluxResource", "flux_resource_info") ∷ []

-- `MustRegisterMetrics` over the registry of controller-runtime. The order of the collectors, which
-- is that of a Go map, does not matter to it.
abbrev pub must_register_metrics : {W : Type 0} → (List String → M W (Unit {0})) → M W (Unit {0})
must_register_metrics must_register = must_register (map (λ metric. metric.1) metrics)

-- Two fields of a condition that is taken for the labels. One that is no text panics.
unfoldable pub label_condition : Dict String → Dict String → Result (Dict String)
unfolding lookup insert
label_condition condition labels = elim (lookup "status" condition) [
  | none ↦ panic
  | some status ↦ elim (lookup "reason" condition) [
    | none ↦ panic
    | some reason ↦ ok (insert "reason" reason (insert "ready" status labels))
  ]
]

abbrev pub is_ready_type : Option String → Bool
is_ready_type none = false
is_ready_type (some t) = t == "Ready"

-- The loop over the conditions: the first that is the ready one ends it.
unfoldable pub label_conditions : List (Option (Dict String)) → Dict String → Result (Dict String)
unfolding label_condition
label_conditions [] labels = ok labels
label_conditions (none ∷ conditions) labels = panic
label_conditions (some condition ∷ conditions) labels =
    let rest = label_conditions conditions labels in
    if is_ready_type (lookup "type" condition) then label_condition condition labels else rest

-- An assignment that is made only if the field is found.
unfoldable pub assign_if : String → Option String → Dict String → Dict String
unfolding insert
assign_if key none labels = labels
assign_if key (some value) labels = insert key value labels

module _ (is : Items) where
  open is use {
    Item, uid, kind, name, namespace, annotations, nested_string, nested_bool, condition_maps,
  }

  unfoldable pub common_labels_to_values : Item → Result (Dict String)
  unfolding label_conditions
  common_labels_to_values obj =
      let labels =
        ("uid", uid obj)
        ∷ ("kind", kind obj)
        ∷ ("name", name obj)
        ∷ ("exported_namespace", namespace obj)
        ∷ ("ready", "Unknown")
        ∷ ("reason", "")
        ∷ [] in
      elim (condition_maps obj) [
        | none ↦ ok labels
        | some conditions ↦ label_conditions conditions labels
      ]

  abbrev found : Item → List String → String → Dict String → Dict String
  found obj path key labels = assign_if key (nested_string obj path) labels

  abbrev pub is_oci : Option String → Bool
  is_oci none = false
  is_oci (some t) = t == "oci"

  -- The `switch` on the kind.
  unfoldable pub label_kind : String → Item → Dict String → Dict String
  label_kind k obj labels =
      if k == "Kustomization"
      then found obj ("spec" ∷ "path" ∷ []) "path" labels
      else if k == "GitRepository"
      then found obj ("spec" ∷ "ref" ∷ "name" ∷ []) "ref" (
          found obj ("spec" ∷ "ref" ∷ "semver" ∷ []) "ref" (
            found obj ("spec" ∷ "ref" ∷ "tag" ∷ []) "ref"
              (found obj ("spec" ∷ "ref" ∷ "branch" ∷ []) "ref" labels)))
      else if k == "OCIRepository"
      then found obj ("spec" ∷ "ref" ∷ "semver" ∷ []) "ref"
          (found obj ("spec" ∷ "ref" ∷ "tag" ∷ []) "ref" labels)
      else if k == "Bucket"
      then found obj ("spec" ∷ "bucketName" ∷ []) "ref"
          (found obj ("spec" ∷ "endpoint" ∷ []) "url" labels)
      else if k == "HelmRelease"
      then found obj ("spec" ∷ "chart" ∷ "spec" ∷ "sourceRef" ∷ "name" ∷ []) "source_name"
          (found obj ("spec" ∷ "chartRef" ∷ "name" ∷ []) "source_name" labels)
      else if k == "HelmRepository"
      then (if is_oci (nested_string obj ("spec" ∷ "type" ∷ []))
          then insert "ready" "True" labels
          else labels)
      else if k == "Alert"
      then insert "ready" "True" labels
      else if k == "Provider"
      then insert "ready" "True" labels
      else if k == "Receiver"
      then found obj ("status" ∷ "webhookPath" ∷ []) "url" labels
      else if k == "ImageRepository"
      then found obj ("spec" ∷ "image" ∷ []) "url" labels
      else if k == "ImagePolicy"
      then found obj ("spec" ∷ "imageRepositoryRef" ∷ "name" ∷ []) "source_name" labels
      else labels

  abbrev pub is_suspended : Option Bool → Bool
  is_suspended none = false
  is_suspended (some b) = b

  -- The empty labels of a resource, and those that every kind may fill.
  unfoldable pub label_resource : Item → Dict String → Dict String
  label_resource obj labels =
      let empty = insert "path" "" (
        insert "source_name" "" (
          insert "ref" ""
            (insert "url" "" (insert "revision" "" (insert "suspended" "False" labels))))) in
      let suspended =
        if is_suspended (nested_bool obj ("spec" ∷ "suspend" ∷ []))
        then insert "suspended" "True" empty
        else empty in
      found obj ("spec" ∷ "url" ∷ []) "url" (
        found obj ("status" ∷ "lastAttemptedRevision" ∷ []) "revision" (
          found obj ("status" ∷ "artifact" ∷ "revision" ∷ []) "revision"
            (found obj ("spec" ∷ "sourceRef" ∷ "name" ∷ []) "source_name" suspended)))

  unfoldable pub flux_labels_to_values : Item → Result (Dict String)
  unfolding common_labels_to_values label_resource label_kind
  flux_labels_to_values obj = common_labels_to_values obj >>= λ labels.
      ok (label_kind (kind obj) obj (label_resource obj labels))

  abbrev text_or_empty : Option String → String
  text_or_empty none = ""
  text_or_empty (some s) = s

  -- The labels of a FluxInstance.
  unfoldable pub label_instance : Item → Dict String → Dict String
  unfolding insert
  label_instance obj labels =
      let labelled = insert "suspended" "False" (
        insert "revision"
          (text_or_empty (nested_string obj ("status" ∷ "lastAppliedRevision" ∷ [])))
          (insert "registry"
            (text_or_empty (nested_string obj ("spec" ∷ "distribution" ∷ "registry" ∷ [])))
            labels)) in
      if disabled_by (annotations obj) then insert "suspended" "True" labelled else labelled

  -- An instance replaces all series of its gauge, a resource adds its own. The labels of a
  -- resource are computed once more for it.
  unfoldable pub record_metrics : Item → Gauges → Result Gauges
  unfolding label_instance flux_labels_to_values
  record_metrics obj gauges = common_labels_to_values obj >>= λ labels.
      if kind obj == "FluxInstance"
      then ok (record gauges { instance_info = label_instance obj labels ∷ [] })
      else (flux_labels_to_values obj >>= λ own.
          ok (record gauges { resource_info = gauges.resource_info ++ own ∷ [] }))

-- `ResetMetrics` of a kind that has a gauge.
unfoldable pub reset_metrics : String → Gauges → Gauges
reset_metrics kind gauges =
    if kind == "FluxInstance"
    then record gauges { instance_info = [] }
    else if kind == "FluxResource"
    then record gauges { resource_info = [] }
    else gauges

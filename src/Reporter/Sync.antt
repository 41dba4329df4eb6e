-- ===== src/Reporter/Sync.antt =====
-- internal/reporter/sync.go: the state of the sync.
pub mod Laws
use flux_operator.Base.{
  String, ◌<>◌, ◌==◌, Bool, true, false, not, ◌&&◌, Option, none, some, List, [], ◌∷◌, Error,
  Result, ok, err, panic, errorf, wrap, is_not_found, to_lower, if◌then◌else◌,
}
use flux_operator.Base.Effect.{M, ◌>>=◌, after, fail, return}
use flux_operator.Api.Instance.{FluxInstance}
use flux_operator.Api.Report.{FluxSyncStatus}
use flux_operator.Reporter.Items.{Items}
use flux_operator.Reporter.Cluster.{
  Cluster, ReportedCondition, GroupVersionKind, FluxStatusReporter, tried,
}
use flux_operator.Reporter.Crds.{api_version, gvk_for}
use flux_operator.Reporter.Stats.{is_failing}

-- The name of the sync, from the instances that were listed.
unfoldable pub sync_name : String → Option (List FluxInstance) → String
sync_name namespace none = namespace
sync_name namespace (some []) = namespace
sync_name namespace (some (i ∷ is)) = elim (i.spec.sync) [
  | none ↦ namespace
  | some s ↦ if s.name == "" then namespace else s.name
]

-- The loop over the conditions of the Kustomization: the last one that is the ready one counts.
unfoldable pub sync_conditions : List ReportedCondition → FluxSyncStatus → FluxSyncStatus
sync_conditions [] s = s
sync_conditions (c ∷ cs) s = sync_conditions cs (
    if c.type == "Ready"
    then record s { ready = not (c.status == "False"); status = c.message }
    else s)

-- The loop over the conditions of the source.
unfoldable pub source_conditions : List ReportedCondition → FluxSyncStatus → FluxSyncStatus
source_conditions [] s = s
source_conditions (c ∷ cs) s = source_conditions cs (
    if is_failing c then record s { ready = false; status = s.status <> (" " <> c.message) } else s)

module _ {items : Items} {W : Type 0} (cluster : Cluster items W) (r : FluxStatusReporter) where
  open cluster use {conditions_of}
  open items use {nested_string}

  unfoldable pub get_sync_name_from_instance : M W String
  unfolding sync_name
  get_sync_name_from_instance w =
      after (tried (cluster.list_instances r.namespace w)) (λ is. return (sync_name r.namespace is))

  -- What the Kustomization says.
  unfoldable pub sync_status_of : String → items.Item → FluxSyncStatus
  unfolding sync_conditions
  sync_status_of name obj =
      let s : FluxSyncStatus = record {
        id = to_lower "Kustomization" <> ("/" <> name);
        path = elim (nested_string obj ("spec" ∷ "path" ∷ [])) [ none ↦ "" | some path ↦ path ];
        ready = false;
        status = "not initialized";
        source = "";
      } in
      elim (conditions_of obj) [ none ↦ s | some cs ↦ sync_conditions cs s ]

  -- What the source adds, if it was found.
  unfoldable pub with_source : FluxSyncStatus → Option items.Item → FluxSyncStatus
  unfolding source_conditions
  with_source s none = s
  with_source s (some obj) =
      let t : FluxSyncStatus = elim (nested_string obj ("spec" ∷ "url" ∷ [])) [
        | none ↦ s
        | some url ↦ record s { source = url }
      ] in
      elim (conditions_of obj) [ none ↦ t | some cs ↦ source_conditions cs t ]

  -- The source of the sync, by the sync's name.
  unfoldable pub read_source :
      String → List GroupVersionKind → Option String → FluxSyncStatus → M W FluxSyncStatus
  unfolding with_source
  read_source name crds none s = return s
  read_source name crds (some kind) s = elim (gvk_for kind crds) [
    | none ↦ fail (errorf ("source kind " <> (kind <> " not found")))
    | some gvk ↦ λ w.
        after (tried (cluster.get_item (api_version gvk) gvk.kind r.namespace name w))
          (λ obj. return (with_source s obj))
  ]

  -- What follows the call of Get.
  unfoldable pub sync_with :
      String → List GroupVersionKind → Result items.Item × W → Result (Option FluxSyncStatus) × W
  unfolding read_source
  sync_with name crds (ok obj, w) =
      after
        (read_source name crds (nested_string obj ("spec" ∷ "sourceRef" ∷ "kind" ∷ []))
          (sync_status_of name obj) w)
        (λ s. return (some s))
  sync_with name crds (err e, w) =
      (if is_not_found e then ok none else err (wrap "failed to assert sync status: " e), w)
  sync_with name crds (panic, w) = (panic, w)

  unfoldable pub get_sync_status : List GroupVersionKind → M W (Option FluxSyncStatus)
  unfolding get_sync_name_from_instance sync_with
  get_sync_status crds = do
    name ← get_sync_name_from_instance
    elim (gvk_for "Kustomization" crds) [
      | none ↦ fail (errorf "source kind Kustomization not found")
      | some gvk ↦ λ w.
          sync_with name crds
            (cluster.get_item (api_version gvk) "Kustomization" r.namespace name w)
    ]

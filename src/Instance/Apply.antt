-- ===== src/Instance/Apply.antt =====
-- `apply` of fluxinstance_controller.go: the objects are applied, the inventory is recorded, what
-- has become stale is deleted, and the cluster is waited for.
pub mod Laws
use flux_operator.Base.{
  String, ◌<>◌, Bool, true, false, not, ◌&&◌, Option, none, some, List, [], ◌∷◌, map, Result, ok,
  err, panic, ◌==◌, filter, if◌then◌else◌, before, trim_suffix,
}
use flux_operator.Base.Effect.{M, ◌>>=◌, ◌>>◌, act, get, lift, log_only, return, when}
use flux_operator.Api.Instance.{
  FluxInstance, FluxInstanceStatus, ResourceInventory, CommonMetadata, get_wait, get_timeout,
  get_migrate_resources, prune_annotation, disabled_value,
}
use flux_operator.Api.Instance
use flux_operator.Api.Conditions.{reconciliation_succeeded}
use flux_operator.Builder.Options.{BuildResult, ComponentImage}
use flux_operator.Inventory.{ChangeSetEntry, ObjMetadata, add_change_set, diff}
use flux_operator.Inventory
use flux_operator.Instance.Env.{Env, State, Rest, EventType, on_rest, on_world, set_status}
use flux_operator.Instance.Status.{has_changed, notify}
use flux_operator.Instance.Migrate.{migrate_resources}

-- The snapshot of the inventory before the change.
unfoldable pub snapshot : Option ResourceInventory → ResourceInventory
snapshot none = Inventory.new
snapshot (some inv) = inv

-- The copy of the images into the status.
unfoldable pub status_images : List ComponentImage → List Instance.ComponentImage
status_images images =
    map (λ i. record { name = i.name; repository = i.repository; tag = i.tag; digest = i.digest })
      images

abbrev pub is_empty {ℓ} : {A : Type ℓ} → List A → Bool
is_empty [] = true
is_empty (x ∷ xs) = false

-- The entries that the loop over the change set keeps.
unfoldable pub changed : List ChangeSetEntry → List ChangeSetEntry
changed entries = filter (λ e. has_changed e.action) entries

unfoldable pub with_common :
    {O : Type 0} (set : List O → List (String × String) → List (String × String) → List O)
    → Option CommonMetadata
    → List O
    → List O
with_common set none objects = objects
with_common set (some cm) objects = set objects cm.labels cm.annotations

-- What is written to the log of changes, a line for each entry.
unfoldable pub log_of : (ChangeSetEntry → String) → List ChangeSetEntry → String
log_of describe [] = ""
log_of describe (e ∷ es) = describe e <> ("\n" <> log_of describe es)

module _ (env : Env) where
  open env use {World, objects, manager, kube, parse_duration}

  -- The objects as they are sent to the cluster.
  unfoldable pub prepared : FluxInstance → List objects.Object → Result (List objects.Object)
  unfolding with_common
  prepared obj os = elim (manager.normalize (manager.set_owner_labels os obj.name obj.namespace)) [
    | ok ns ↦ ok (with_common manager.set_common_metadata obj.spec.common_metadata ns)
    | err e ↦ err e
    | panic ↦ panic
  ]

  -- The inventory and the images of the status.
  unfoldable pub record_applied :
      ResourceInventory → List ComponentImage → FluxInstanceStatus → FluxInstanceStatus
  unfolding status_images
  record_applied inv images status = record status {
    inventory = some inv;
    components = status_images images;
  }

  -- Garbage collection, if there is anything stale. The result is what it adds to the log.
  unfoldable pub collect_garbage : FluxInstance → List objects.Object → M (Rest World) String
  collect_garbage obj [] = return ""
  collect_garbage obj (o ∷ os) = do
    delete_set ←
        on_world
          (manager.delete_all (o ∷ os) obj.name obj.namespace prune_annotation disabled_value)
    return (log_of manager.describe delete_set)

  -- The wait for the resources that changed.
  unfoldable pub wait_for_changes : FluxInstance → List ChangeSetEntry → M (Rest World) (Unit {0})
  wait_for_changes obj result_set = when (get_wait obj && not (is_empty result_set)) (
      on_world (
        act (
          manager.wait_for_set (map (λ e. e.obj_metadata) result_set)
            (get_timeout parse_duration obj))))

  -- The migration of custom resources, whose error is logged only. A panic in it goes on.
  unfoldable pub migrate : FluxInstance → M (Rest World) (Unit {0})
  migrate obj =
      when (get_migrate_resources obj)
        (on_world (log_only (migrate_resources kube "app.kubernetes.io/part-of" obj.name)))

  -- The event, only if something changed.
  unfoldable pub report_changes : String → Bool → String → FluxInstance → M (Rest World) (Unit {0})
  report_changes revision fresh log obj = when (not (trim_suffix b'\n' log == "")) (
      notify env reconciliation_succeeded EventType.normal
        ("Flux "
          <> (before b'@' revision
              <> (" "
                  <> ((if fresh then "installed" else "updated")
                      <> ("\n" <> trim_suffix b'\n' log)))))
        obj)

  -- The objects are made ready and applied.
  unfoldable pub send : List objects.Object → FluxInstance → M (Rest World) (List ChangeSetEntry)
  send built obj = do os ← lift (prepared obj built); on_world (manager.apply_all_staged os)

  -- What follows once the inventory is recorded: the stale objects, the wait, the migration and
  -- the event.
  unfoldable pub settle :
      ResourceInventory
      → ResourceInventory
      → List ChangeSetEntry
      → String
      → FluxInstance
      → M (Rest World) (Unit {0})
  unfolding collect_garbage wait_for_changes migrate
  settle old_inventory new_inventory change_set revision obj = do
    stale ← lift (diff objects old_inventory new_inventory)
    deleted ← collect_garbage obj stale
    wait_for_changes obj (changed change_set)
    migrate obj
    report_changes revision (is_empty old_inventory.entries)
        (log_of manager.describe (changed change_set) <> deleted) obj

  unfoldable pub apply : BuildResult objects.Object → M (State World) (Unit {0})
  apply build_result = do
    s ← get
    let old_inventory = snapshot s.obj.status.inventory
    change_set ← on_rest (send build_result.objects)
    let new_inventory = add_change_set objects Inventory.new (some change_set)
    set_status (record_applied new_inventory build_result.component_images)
    on_rest (settle old_inventory new_inventory change_set build_result.revision)

-- ===== src/Instance/Env.antt =====
-- What the reconciler calls outside the repository, and the state that it works on.
use flux_operator.Base.{String, Bool, Option, List, [], ◌∷◌, ◌++◌, Dict, Result, ok, Error}
use flux_operator.Base.Int.{ℤ}
use flux_operator.Base.Effect.{M}
use flux_operator.Api.Conditions.{Condition, ConditionReason, ConditionSet}
use flux_operator.Api.Instance.{FluxInstance, FluxInstanceStatus}
use flux_operator.Inventory.{Objects, ObjMetadata, ChangeSetEntry}
use flux_operator.Builder.Semver.{Semver, Directory}
use flux_operator.Builder.Images.{Sources}
use flux_operator.Builder.Files.{Files}
use flux_operator.Builder.Pull.{Registry}
use flux_operator.Reporter.Items.{Items}
use flux_operator.Reporter.Metrics.{Gauges}
use flux_operator.Reporter.Request.{Reports}

-- A CustomResourceDefinition, by the fields that the program reads or writes. A version is its
-- name and whether it is the storage version.
pub record Crd : Type 0 where
  pub name : String
  pub group : String
  pub list_kind : String
  pub versions : List (String × Bool)
  pub stored_versions : List String

-- The calls of the Kubernetes client and of client-go's retry.
pub record Kube (World : Type 0) : Type 0 where
  pub get_instance : M World FluxInstance
  pub patch_instance : FluxInstance → World → Option Error × World
  pub list_crds : String → String → M World (List String)
  pub get_crd : String → M World Crd
  pub update_crd_status : Crd → World → Option Error × World
  pub list_resources : String → String → M World (List String)
  pub patch_resource : String → String → String → World → Option Error × World
  pub clear_finalizers : String → String → String → World → Option Error × World
  pub retry_on_conflict : M World (Unit {0}) → M World (Unit {0})

-- The calls of fluxcd/pkg/ssa. `delete_all` takes the owner's name and namespace, whose labels an
-- object must have, and the annotation that exempts an object.
pub record Manager (World Object : Type 0) : Type 0 where
  pub set_owner_labels : List Object → String → String → List Object
  pub normalize : List Object → Result (List Object)
  pub set_common_metadata : List Object → Dict String → Dict String → List Object
  pub apply_all_staged : List Object → M World (List ChangeSetEntry)
  pub delete_all : List Object → String → String → String → String → M World (List ChangeSetEntry)
  pub wait_for_set : List ObjMetadata → ℤ → World → Option Error × World
  pub wait_for_termination : List Object → ℤ → World → Option Error × World
  pub describe : ChangeSetEntry → String

-- All that the reconciler is given: the settings of the process, the libraries, and the calls.
-- The aggregate of two errors and `kerrors.FilterOut` with the test for a missing object are
-- apimachinery's. `elapsed` is the time since the start, as it is written in messages.
pub record Env : Type 1 where
  pub World : Type 0
  pub storage_path : String
  pub notifications_disabled : String
  pub objects : Objects
  pub semver : Semver
  pub sort_versions : List semver.Version → List semver.Version
  pub conditions : ConditionSet
  pub parse_duration : String → Option ℤ
  pub duration_string : ℤ → String
  pub marshal_patches : List String → Result String
  pub read_objects : String → Result (List objects.Object)
  pub digest_of : String → String
  pub aggregate : Error → Error → Error
  pub filter_out_not_found : Error → Option Error
  pub elapsed : World → String
  pub recorder_fails : String → Bool
  pub directory : World → Directory
  pub sources : World → Sources
  pub files : Files World
  pub registry : Registry World
  pub kube : Kube World
  pub manager : Manager World objects.Object
  pub status_manager : String
  pub items : Items
  pub to_unstructured : FluxInstance → Result items.Item
  pub get_gauges : World → Gauges
  pub set_gauges : Gauges → World → World
  pub reports : Reports World
  pub remove_all : String → World → World

pub data EventType : Type 0 where
  normal warning : EventType

pub data EventReason : Type 0 where
  because : ConditionReason → EventReason
  outdated_version reconciliation_disabled : EventReason

-- An event, with the address of the notification controller where it is sent on, empty if not.
pub record Event : Type 0 where
  pub address : String
  pub annotations : Dict String
  pub type : EventType
  pub reason : EventReason
  pub message : String

-- The events so far, and the rest of the world.
pub record Rest (World : Type 0) : Type 0 where
  pub events : List Event
  pub world : World

-- The object in memory, and the rest.
pub record State (World : Type 0) : Type 0 where
  pub obj : FluxInstance
  pub rest : Rest World

module _ {W : Type 0} where
  -- A call of the outside.
  abbrev pub on_world : {A : Type 0} → M W A → M (Rest W) A
  on_world m s = let (r, w) = m s.world in (r, record s { world = w })

  abbrev pub emit : Event → M (Rest W) (Unit {0})
  emit e s = (ok tt, record s { events = s.events ++ e ∷ [] })

  -- A call that is given the object and does not change it.
  abbrev pub on_rest : {A : Type 0} → (FluxInstance → M (Rest W) A) → M (State W) A
  on_rest m s = let (r, t) = m s.obj s.rest in (r, record s { rest = t })

  abbrev pub set_obj : (FluxInstance → FluxInstance) → M (State W) (Unit {0})
  set_obj f s = (ok tt, record s { obj = f s.obj })

  abbrev pub set_status : (FluxInstanceStatus → FluxInstanceStatus) → M (State W) (Unit {0})
  set_status f s = (ok tt, record s { obj = record (s.obj) { status = f s.obj.status } })

  abbrev pub set_conditions : (List Condition → List Condition) → M (State W) (Unit {0})
  set_conditions f = set_status (λ t. record t { conditions = f t.conditions })

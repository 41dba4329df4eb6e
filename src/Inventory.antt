-- ===== src/Inventory.antt =====
-- internal/inventory/inventory.go: the record of what was applied, and what has become stale.
-- Object identifiers (fluxcd/cli-utils) and objects (unstructured) are parameters.
pub mod Laws
use flux_operator.Base.{
  String, Bool, true, false, Option, none, some, List, [], ◌∷◌, ◌++◌, map, Result, ok, err, panic,
  ◌>>=◌, ◌==◌, if◌then◌else◌,
}
use flux_operator.Api.Instance.{ResourceRef, ResourceInventory}

-- `object.ObjMetadata`, by the fields that the program reads.
pub record ObjMetadata : Type 0 where
  pub namespace : String
  pub name : String
  pub group : String
  pub kind : String

-- `ssa.Action`.
pub data Action : Type 0 where
  created configured unchanged deleted skipped unknown : Action

-- `ssa.ChangeSetEntry`, by the fields that the program reads.
pub record ChangeSetEntry : Type 0 where
  pub obj_metadata : ObjMetadata
  pub group_version : String
  pub action : Action

-- What the program calls of cli-utils and ssa to name and order objects. `reference` is an
-- unstructured object with its group, version, kind, name and namespace set and nothing else.
pub record Objects : Type 1 where
  pub Object : Type 0
  pub reference : String → String → String → String → String → Object
  pub get_kind : Object → String
  pub parse_id : String → Result ObjMetadata
  pub id_of : ObjMetadata → String
  pub set_diff : List ObjMetadata → List ObjMetadata → List ObjMetadata
  pub sort : List Object → List Object

unfoldable pub new : ResourceInventory
new = record { entries = [] }

module _ (os : Objects) where
  open os use {Object, reference, parse_id, id_of, set_diff, sort}

  unfoldable pub refs_of : List ChangeSetEntry → List ResourceRef
  refs_of [] = []
  refs_of (entry ∷ set) =
      record { id = id_of entry.obj_metadata; version = entry.group_version } ∷ refs_of set

  -- The error that the function returns is always nil. A nil set is `none`.
  unfoldable pub add_change_set :
      ResourceInventory → Option (List ChangeSetEntry) → ResourceInventory
  unfolding refs_of
  add_change_set inv none = inv
  add_change_set inv (some set) = record inv { entries = inv.entries ++ refs_of set }

  unfoldable pub object_of : ObjMetadata → String → Object
  object_of m version = reference m.group version m.kind m.name m.namespace

  -- The loop of `List`.
  unfoldable pub objects_of : List ResourceRef → Result (List Object)
  unfolding object_of
  objects_of [] = ok []
  objects_of (entry ∷ entries) =
      let rest = objects_of entries in
      parse_id entry.id >>= λ m. rest >>= λ objects. ok (object_of m entry.version ∷ objects)

  unfoldable pub list : ResourceInventory → Result (List Object)
  unfolding objects_of
  list inv = objects_of inv.entries >>= λ objects. ok (sort objects)

  -- The loop of `ListMetadata`. What it found before an error is used by no caller.
  unfoldable pub metadata_of : List ResourceRef → Result (List ObjMetadata)
  metadata_of [] = ok []
  metadata_of (e ∷ entries) =
      let rest = metadata_of entries in parse_id e.id >>= λ m. rest >>= λ metas. ok (m ∷ metas)

  unfoldable pub list_metadata : ResourceInventory → Result (List ObjMetadata)
  unfolding metadata_of
  list_metadata inv = metadata_of inv.entries

  -- The closure `versionOf` of `Diff`.
  unfoldable pub version_of : List ResourceRef → ObjMetadata → String
  version_of [] m = ""
  version_of (entry ∷ entries) m =
      if entry.id == id_of m then entry.version else version_of entries m

  unfoldable pub stale_of : List ResourceRef → List ObjMetadata → List Object
  unfolding object_of version_of
  stale_of entries [] = []
  stale_of entries (m ∷ metas) = object_of m (version_of entries m) ∷ stale_of entries metas

  -- The test for an empty difference, and the sort.
  unfoldable pub sorted_stale : List ResourceRef → List ObjMetadata → List Object
  unfolding stale_of
  sorted_stale entries [] = []
  sorted_stale entries (m ∷ metas) = sort (stale_of entries (m ∷ metas))

  unfoldable pub diff : ResourceInventory → ResourceInventory → Result (List Object)
  unfolding list_metadata sorted_stale
  diff inv target = do
    a_list ← list_metadata inv
    b_list ← list_metadata target
    ok (sorted_stale inv.entries (set_diff a_list b_list))

-- ===== src/Instance/Migrate.antt =====
-- fluxinstance_migrator.go: custom resources are rewritten at the storage version of their CRD.
pub mod Laws
use flux_operator.Base.{
  String, ◌<>◌, Bool, true, false, Option, none, some, List, [], ◌∷◌, Error, is_not_found, errorf,
  wrap, ◌==◌, if◌then◌else◌, not,
}
use flux_operator.Base.Effect.{M, ◌>>=◌, ◌>>◌, act, fail, prefixed, return, when}
use flux_operator.Instance.Env.{Crd, Kube}

unfoldable pub get_storage_version : List (String × Bool) → String
get_storage_version [] = ""
get_storage_version ((name, storage) ∷ versions) =
    if storage then name else get_storage_version versions

-- The test for the early return.
unfoldable pub is_migrated : List String → String → Bool
is_migrated (v ∷ []) storage_version = v == storage_version
is_migrated _ storage_version = false

-- An error other than that the object is gone.
abbrev pub unless_not_found : Option Error → Option Error
unless_not_found none = none
unless_not_found (some e) = if is_not_found e then none else some e

module _ {W : Type 0} (kube : Kube W) where
  -- The loop over the resources.
  unfoldable pub patch_resources : String → String → List String → M W (Unit {0})
  patch_resources api_version kind [] = return tt
  patch_resources api_version kind (item ∷ items) =
      let rest = patch_resources api_version kind items in
      do
        prefixed ("failed to patch resource " <> (item <> ": ")) (
            act (λ w.
              let (e, v) = kube.patch_resource api_version kind item w in (unless_not_found e, v)))
        rest

  unfoldable pub migrate_cr : Crd → String → M W (Unit {0})
  unfolding patch_resources
  migrate_cr crd version = do
    let api_version = crd.group <> ("/" <> version)
    items ←
        prefixed ("failed to list resources for CRD " <> (crd.name <> ": "))
          (kube.list_resources api_version crd.list_kind)
    patch_resources api_version crd.list_kind items

  -- What follows the early returns.
  unfoldable pub migrate_to : Crd → String → String → M W (Unit {0})
  migrate_to crd name storage_version = do
    prefixed ("failed to migrate resources for CRD " <> (name <> ": "))
        (kube.retry_on_conflict (migrate_cr crd storage_version))
    prefixed ("failed to update CRD " <> (crd.name <> " status: "))
        (act (kube.update_crd_status (record crd { stored_versions = storage_version ∷ [] })))

  -- What follows the reading of the CRD.
  unfoldable pub migrate_read : String → Crd → M W (Unit {0})
  unfolding migrate_to get_storage_version is_migrated
  migrate_read name crd =
      let storage_version = get_storage_version crd.versions in
      if storage_version == ""
      then fail (errorf ("no storage version found for CRD " <> name))
      else when (not (is_migrated crd.stored_versions storage_version))
          (migrate_to crd name storage_version)

  unfoldable pub migrate_crd : String → M W (Unit {0})
  unfolding migrate_read
  migrate_crd name = do
    crd ← prefixed ("failed to get CRD " <> (name <> ": ")) (kube.get_crd name)
    migrate_read name crd

  -- The loop over the CRDs.
  unfoldable pub migrate_crds : List String → M W (Unit {0})
  migrate_crds [] = return tt
  migrate_crds (name ∷ names) = let rest = migrate_crds names in migrate_crd name >> rest

  unfoldable pub migrate_resources : String → String → M W (Unit {0})
  unfolding migrate_crds
  migrate_resources label value = do
    names ← prefixed "failed to list CRDs: " (kube.list_crds label value)
    migrate_crds names

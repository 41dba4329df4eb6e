-- ===== src/Instance/Migrate/Laws.antt =====
-- What a migration without an error did to each CRD.
use mathlib.Core.List.{Memᴰ}
use flux_operator.Base.{String, ◌≡◌, ◌≢◌, ◌⊎◌, true, none, List, [], ◌∷◌, ok}
use flux_operator.Instance.Env.{Crd, Kube}
use flux_operator.Instance.Migrate.{migrate_cr}

-- The migration of one CRD: it was read and has a storage version. If this is the only stored
-- version, nothing else was done. If not, the resources were migrated to it, and then it became the
-- only stored version.
pub record Migrated {W : Type 0} (kube : Kube W) (name : String) (w u : W) : Type 0 where
  pub crd : Crd
  pub version : String
  pub left : W
  pub read : kube.get_crd name w ≡ (ok crd, left)
  pub is_storage : Memᴰ (version, true) crd.versions
  pub named : version ≢ ""
  pub outcome :
      ((crd.stored_versions ≡ version ∷ []) × (u ≡ left))
      ⊎ ((crd.stored_versions ≢ version ∷ [])
          × ((v : W) × (kube.retry_on_conflict (migrate_cr kube crd version) left ≡ (ok tt, v))
              × (kube.update_crd_status (record crd { stored_versions = version ∷ [] }) v
                  ≡ (none, u))))

-- One CRD after the other.
abbrev pub Migrations : {W : Type 0} → Kube W → List String → W → W → Type 0
Migrations kube [] w u = w ≡ u
Migrations {W} kube (name ∷ names) w u =
    (v : W) × Migrated kube name w v × Migrations kube names v u

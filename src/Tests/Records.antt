-- ===== src/Tests/Records.antt =====
-- The theorems on the inventory, the metrics and the reports at concrete data.
use mathlib.Core.List.{Memᴰ, Mem}
use flux_operator.Base.{
  String, ◌≡◌, refl, ap, sym, ◌==◌, false, ok_injective, ◌∙◌, none, some, List, [], ◌∷◌, ok,
}
use flux_operator.Base.Int.{minutes}
use flux_operator.Api.Instance.{ResourceRef, ResourceInventory}
use flux_operator.Api.Report
use flux_operator.Api.Report.{FluxReport, get_interval_ignores_env}
use flux_operator.Inventory.{
  ObjMetadata, ChangeSetEntry, created, new, add_change_set, list_metadata, diff,
}
use flux_operator.Inventory.Laws.{list_metadata-add_change_set, diff_lem}
use flux_operator.Tests.Data.{sample_objects, sample_objects-laws, config_map}
use flux_operator.Tests.Objects.{old_inventory}

abbrev entry : String → ChangeSetEntry
entry name = record { obj_metadata = config_map name; group_version = "v1"; action = created }

abbrev kept_inventory : ResourceInventory
kept_inventory = record { entries = record { id = "kept"; version = "v1" } ∷ [] }

list_metadata-add_change_set_example :
    list_metadata sample_objects
      (add_change_set sample_objects new (some (entry "a" ∷ entry "b" ∷ [])))
    ≡ ok (config_map "a" ∷ config_map "b" ∷ [])
list_metadata-add_change_set_example =
    list_metadata-add_change_set sample_objects (entry "a" ∷ entry "b" ∷ []) (refl, (refl, tt))

named :
    {s t : String} {m : ObjMetadata}
    → s ≡ t
    → (t == "") ≡ false
    → sample_objects.parse_id s ≡ ok m
    → m.name ≡ s
named {s} {t} {m} e n p =
    let q : config_map t ≡ m = ok_injective (rw (e, n) at p) in sym (ap (λ k. k.name) q) ∙ sym e

-- The recorded identifiers are written as they are printed.
sample_written :
    (e : ResourceRef) (m : ObjMetadata)
    → Memᴰ e old_inventory.entries
    → sample_objects.parse_id e.id ≡ ok m
    → sample_objects.id_of m ≡ e.id
sample_written e m (Memᴰ.head i) p = named (ap (λ r. r.id) i) refl p
sample_written e m (Memᴰ.tail (Memᴰ.head i)) p = named (ap (λ r. r.id) i) refl p
sample_written e m (Memᴰ.tail (Memᴰ.tail i)) p = elim i [ ]

diff_lem_example :
    (objects : List String) × (diff sample_objects old_inventory kept_inventory ≡ ok objects)
    × ((e : ResourceRef) (m : ObjMetadata)
        → Memᴰ e old_inventory.entries
        → sample_objects.parse_id e.id ≡ ok m
        → ¬ Memᴰ m (config_map "kept" ∷ [])
        → Mem m.name objects)
    × ((o : String)
        → Mem o objects
        → ∥ (
            (e : ResourceRef) × (m : ObjMetadata) × Memᴰ e old_inventory.entries
            × (sample_objects.parse_id e.id ≡ ok m)
            × (¬ Memᴰ m (config_map "kept" ∷ []))
            × (o ≡ m.name)) ∥₁)
unfolding list_metadata
diff_lem_example =
    diff_lem sample_objects sample_objects-laws old_inventory kept_inventory refl refl
      (((λ p. cc), tt), (tt, tt)) sample_written

abbrev report : FluxReport
report = record {
  name = "flux";
  namespace = "flux-system";
  annotations = [];
  spec = record {
    distribution = record { entitlement = ""; status = ""; version = ""; managed_by = "" };
    components_status = [];
    reconcilers_status = [];
    sync_status = none;
  };
  conditions = [];
}

get_interval_ignores_env_example :
    Report.get_interval (λ s. some (minutes 1)) "1m" report
    ≡ Report.get_interval (λ s. some (minutes 1)) "" report
get_interval_ignores_env_example = get_interval_ignores_env (λ s. some (minutes 1)) "1m" report refl

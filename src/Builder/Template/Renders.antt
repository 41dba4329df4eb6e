-- ===== src/Builder/Template/Renders.antt =====
-- The templates of internal/builder/templates.go are well typed over the options.
use flux_operator.Base.{String, ◌≡◌, refl, true, Option, none, some, List, [], ◌∷◌, ok}
use flux_operator.Api.Conditions.{is_some}
use flux_operator.Builder.Options.{ComponentImage, ArtifactStorage, Sync, Options}
use flux_operator.Builder.Template.Syntax.{Template}
use flux_operator.Builder.Template.Value.{Value, Fields, with_field}
use flux_operator.Builder.Template.Data.{
  texts, image_value, image_values, storage_fields, storage_value, sync_fields, sync_value, data_of,
  render,
}
use flux_operator.Builder.Template.Kustomization.{
  image_entry, notification_patch, storage_patch, source_patch, other_patch, component_patch,
  shards_patch, component_patches, kustomization_tmpl,
}
use flux_operator.Builder.Template.Shard.{shard_resource, shard_patches, kustomization_shard_tmpl}
use flux_operator.Builder.Template.Manifests.{
  kustomization_roles_tmpl, node_selector_tmpl, labels_tmpl, annotations_tmpl, namespace_tmpl,
  pvc_tmpl,
}
use flux_operator.Builder.Template.SyncTemplate.{sync_tmpl}
use flux_operator.Builder.Template.Typing.{
  Ty, a_string, a_bool, a_slice, a_struct, a_pointer, Row, no_row, row, HasType, AllType, HasRow,
  Matches, checks,
}
use flux_operator.Builder.Template.Typing.Sound.{run-ok}

abbrev rows : List (String × Ty) → Row
rows [] = no_row
rows ((f, τ) ∷ r) = row f τ (rows r)

abbrev image_row : Row
image_row =
    rows (
      ("Name", a_string) ∷ ("Repository", a_string) ∷ ("Tag", a_string) ∷ ("Digest", a_string) ∷ [])

abbrev pub storage_row : Row
storage_row = rows (("Class", a_string) ∷ ("Size", a_string) ∷ [])

abbrev pub sync_row : Row
sync_row = rows (
    ("Name", a_string)
    ∷ ("Kind", a_string)
    ∷ ("URL", a_string)
    ∷ ("Ref", a_string)
    ∷ ("Path", a_string)
    ∷ ("Interval", a_string)
    ∷ ("PullSecret", a_string)
    ∷ [])

-- The type of the options, given those of the two pointers.
abbrev pub options_type : Ty → Ty → Ty
options_type storage sync = a_struct (
    rows (
      ("Version", a_string)
      ∷ ("Namespace", a_string)
      ∷ ("Components", a_slice a_string)
      ∷ ("ComponentImages", a_slice (a_struct image_row))
      ∷ ("EventsAddr", a_string)
      ∷ ("Registry", a_string)
      ∷ ("ImagePullSecret", a_string)
      ∷ ("WatchAllNamespaces", a_bool)
      ∷ ("NetworkPolicy", a_bool)
      ∷ ("LogLevel", a_string)
      ∷ ("NotificationController", a_string)
      ∷ ("ClusterDomain", a_string)
      ∷ ("TolerationKeys", a_slice a_string)
      ∷ ("Patches", a_string)
      ∷ ("ArtifactStorage", storage)
      ∷ ("Sync", sync)
      ∷ ("ShardingKey", a_string)
      ∷ ("Shards", a_slice a_string)
      ∷ ("ShardName", a_string)
      ∷ []))

string_row :
    {f : String} {s : String} {fs : Fields} {r : Row}
    → HasRow fs r
    → HasRow (with_field f (Value.string s) fs) (row f a_string r)
string_row h = HasRow.row HasType.string h

texts-AllType : (ss : List String) → AllType (texts ss) a_string
unfolding texts
texts-AllType [] = AllType.no_values
texts-AllType (s ∷ ss) = AllType.value HasType.string (texts-AllType ss)

image_values-AllType : (is : List ComponentImage) → AllType (image_values is) (a_struct image_row)
unfolding image_values image_value
image_values-AllType [] = AllType.no_values
image_values-AllType (i ∷ is) =
    AllType.value (HasType.struct (string_row (string_row (string_row (string_row HasRow.no_row)))))
      (image_values-AllType is)

storage_fields-HasRow : (s : ArtifactStorage) → HasRow (storage_fields s) storage_row
unfolding storage_fields
storage_fields-HasRow s = string_row (string_row HasRow.no_row)

sync_fields-HasRow : (s : Sync) → HasRow (sync_fields s) sync_row
unfolding sync_fields
sync_fields-HasRow s =
    string_row
      (string_row (string_row (string_row (string_row (string_row (string_row HasRow.no_row))))))

pub storage_value-HasType :
    (s : Option ArtifactStorage) → HasType (storage_value s) (a_pointer storage_row)
unfolding storage_value
storage_value-HasType none = HasType.nil
storage_value-HasType (some s) = HasType.set (storage_fields-HasRow s)

pub sync_value-HasType : (s : Option Sync) → HasType (sync_value s) (a_pointer sync_row)
unfolding sync_value
sync_value-HasType none = HasType.nil
sync_value-HasType (some s) = HasType.set (sync_fields-HasRow s)

-- A pointer that is set has a struct behind it.
storage_value_set :
    (s : Option ArtifactStorage)
    → is_some s ≡ true
    → HasType (storage_value s) (a_struct storage_row)
unfolding storage_value
storage_value_set none h = absurd (cc)
storage_value_set (some s) h = HasType.struct (storage_fields-HasRow s)

sync_value_set : (s : Option Sync) → is_some s ≡ true → HasType (sync_value s) (a_struct sync_row)
unfolding sync_value
sync_value_set none h = absurd (cc)
sync_value_set (some s) h = HasType.struct (sync_fields-HasRow s)

module _ (o : Options) where
  pub data_of-HasType :
      {σ τ : Ty}
      → HasType (storage_value o.artifact_storage) σ
      → HasType (sync_value o.sync) τ
      → HasType (data_of o) (options_type σ τ)
  unfolding data_of
  data_of-HasType h k = HasType.struct (
      string_row (
        string_row (
          HasRow.row (HasType.slice (texts-AllType _)) (
            HasRow.row (HasType.slice (image_values-AllType _)) (
              string_row (
                string_row (
                  string_row (
                    HasRow.row HasType.bool (
                      HasRow.row HasType.bool (
                        string_row (
                          string_row (
                            string_row (
                              HasRow.row (HasType.slice (texts-AllType _)) (
                                string_row (
                                  HasRow.row h (
                                    HasRow.row k (
                                      string_row (
                                        HasRow.row (HasType.slice (texts-AllType _))
                                          (string_row HasRow.no_row)))))))))))))))))))

  -- A template that is well typed over the options gives a text.
  rendered :
      (tmpl : Template) {σ τ : Ty}
      → HasType (storage_value o.artifact_storage) σ
      → HasType (sync_value o.sync) τ
      → checks tmpl (options_type σ τ) [] ≡ true
      → (s : String) × (render tmpl o ≡ ok s)
  unfolding render
  rendered tmpl h k c = run-ok tmpl (data_of-HasType h k) Matches.empty c

  -- The templates that `generate` executes.
  pub data IsUsed : Template → Type 0 where
    namespace : IsUsed namespace_tmpl
    annotations : IsUsed annotations_tmpl
    labels : IsUsed labels_tmpl
    node_selector : IsUsed node_selector_tmpl
    pvc : is_some o.artifact_storage ≡ true → IsUsed pvc_tmpl
    sync : is_some o.sync ≡ true → IsUsed sync_tmpl
    kustomization : IsUsed kustomization_tmpl
    roles : IsUsed kustomization_roles_tmpl
    shard : IsUsed kustomization_shard_tmpl

  unset :
      (tmpl : Template)
      → checks tmpl (options_type (a_pointer storage_row) (a_pointer sync_row)) [] ≡ true
      → (s : String) × (render tmpl o ≡ ok s)
  unset tmpl c = rendered tmpl (storage_value-HasType _) (sync_value-HasType _) c

  -- Whatever the options, the execution of each of the nine templates gives a text and no error. For
  -- the template of the volume the storage has to be set, for the template of the sync the sync.
  pub render-used : {tmpl : Template} → IsUsed tmpl → (s : String) × (render tmpl o ≡ ok s)
  unfolding checks kustomization_tmpl shard_patches component_patches image_entry component_patch
      notification_patch source_patch storage_patch other_patch shards_patch
      kustomization_shard_tmpl shard_resource kustomization_roles_tmpl node_selector_tmpl
      labels_tmpl annotations_tmpl namespace_tmpl pvc_tmpl sync_tmpl
  render-used namespace = unset namespace_tmpl refl
  render-used annotations = unset annotations_tmpl refl
  render-used labels = unset labels_tmpl refl
  render-used node_selector = unset node_selector_tmpl refl
  render-used (pvc h) = rendered pvc_tmpl (storage_value_set _ h) (sync_value-HasType _) refl
  render-used (sync h) = rendered sync_tmpl (storage_value-HasType _) (sync_value_set _ h) refl
  render-used kustomization = unset kustomization_tmpl refl
  render-used roles = unset kustomization_roles_tmpl refl
  render-used shard = unset kustomization_shard_tmpl refl

-- ===== src/Builder/Build.antt =====
-- internal/builder/build.go: the files of a build, and its result.
pub mod Calls
pub mod Total
pub mod Resources
pub mod Provided
use flux_operator.Base.{
  String, ◌<>◌, ℕ, zero, suc, ◌-◌, Bool, true, false, not, Option, none, some, List, [], ◌∷◌, ◌==◌,
  Result, ok, err, panic, if◌then◌else◌, is_prefix, count_chars, replace_all,
}
use flux_operator.Base.Effect.{M, ◌>>=◌, ◌>>◌, act, lift, prefixed, return, when}
use flux_operator.Api.Conditions.{is_some}
use flux_operator.Inventory.{Objects}
use flux_operator.Builder.Options.{
  Options, BuildResult, make_default_options, contain_element_string,
}
use flux_operator.Builder.Files.{Files}
use flux_operator.Builder.Template.Syntax.{Template}
use flux_operator.Builder.Template.Kustomization.{kustomization_tmpl}
use flux_operator.Builder.Template.Shard.{kustomization_shard_tmpl}
use flux_operator.Builder.Template.Manifests.{
  kustomization_roles_tmpl, node_selector_tmpl, labels_tmpl, annotations_tmpl, namespace_tmpl,
  pvc_tmpl,
}
use flux_operator.Builder.Template.SyncTemplate.{sync_tmpl}
use flux_operator.Builder.Template.{exec_template}

-- The events address is set if the notification controller is installed.
unfoldable pub with_events : Options → Options
unfolding contain_element_string
with_events options =
    if contain_element_string options.components options.notification_controller
    then record options {
      events_addr =
          "http://"
          <> (options.notification_controller
              <> ("." <> (options.namespace <> (".svc." <> (options.cluster_domain <> "./")))));
    }
    else options

module _ {W : Type 0} (fs : Files W) where
  -- One template of `generate`, with the text in front of its error.
  abbrev pub generated : Options → Template → String → String → M W (Unit {0})
  generated options tmpl filename p = prefixed p (exec_template fs options tmpl filename)

  -- The loop over the shards.
  unfoldable pub generate_shards : String → Options → List String → M W (Unit {0})
  generate_shards base options [] = return tt
  generate_shards base options (shard ∷ shards) =
      let rest = generate_shards base (record options { shard_name = shard }) shards in
      do
        prefixed "generate shard dir failed: " (act (fs.mkdir_all (fs.join (base ∷ shard ∷ []))))
        generated (record options { shard_name = shard }) kustomization_shard_tmpl
            (fs.join (base ∷ shard ∷ "kustomization.yaml" ∷ []))
            "generate shard kustomization failed: "
        rest

  -- The namespace of the service account in the role bindings.
  unfoldable pub rename_namespace : String → Options → M W (Unit {0})
  unfolding make_default_options
  rename_namespace rbac_file options = do
    let default_ns = make_default_options.namespace
    when (not (default_ns == options.namespace)) (do
      rbac ← prefixed "reading rbac file failed: " (fs.read_file rbac_file)
      prefixed "replacing service account namespace in rbac failed: "
          (act (fs.write_file rbac_file (replace_all default_ns options.namespace rbac))))

  unfoldable pub generate : String → Options → M W (Unit {0})
  generate base options_in = do
    let options = with_events options_in
    generated options namespace_tmpl (fs.join (base ∷ "namespace.yaml" ∷ []))
        "generate namespace failed: "
    generated options annotations_tmpl (fs.join (base ∷ "annotations.yaml" ∷ []))
        "generate annotations failed: "
    generated options labels_tmpl (fs.join (base ∷ "labels.yaml" ∷ [])) "generate labels failed: "
    generated options node_selector_tmpl (fs.join (base ∷ "node-selector.yaml" ∷ []))
        "generate node selector failed: "
    when (is_some options.artifact_storage)
        (generated options pvc_tmpl (fs.join (base ∷ "pvc.yaml" ∷ [])) "generate pvc failed: ")
    when (is_some options.sync)
        (generated options sync_tmpl (fs.join (base ∷ "sync.yaml" ∷ [])) "generate sync failed: ")
    generated options kustomization_tmpl (fs.join (base ∷ "kustomization.yaml" ∷ []))
        "generate kustomization failed: "
    let rbac_file = fs.join (base ∷ "roles" ∷ "rbac.yaml" ∷ [])
    prefixed "generate rbac failed: " (act (fs.copy (fs.join (base ∷ "rbac.yaml" ∷ [])) rbac_file))
    generated options kustomization_roles_tmpl
        (fs.join (base ∷ "roles" ∷ "kustomization.yaml" ∷ []))
        "generate roles kustomization failed: "
    rename_namespace rbac_file options
    generate_shards base options options.shards

  -- `read_objects` is `ssautil.ReadObjects`, `digest_of` is `digest.FromBytes(data).String()`.
  unfoldable pub build :
      (os : Objects)
      → (String → Result (List os.Object))
      → (String → String)
      → String
      → String
      → Options
      → M W (BuildResult os.Object)
  build os read_objects digest_of src_dir tmp_dir options = do
    act (fs.copy src_dir tmp_dir)
    generate tmp_dir options
    data_ ← fs.secure_build tmp_dir
    objects ← lift (read_objects data_)
    let d = digest_of data_
    return (record {
      version = options.version;
      digest = d;
      revision = options.version <> ("@" <> d);
      objects = os.sort objects;
      component_images = options.component_images;
    })

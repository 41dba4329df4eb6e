-- ===== src/Instance/Build.antt =====
-- `fetch` and `build` of fluxinstance_controller.go.
use flux_operator.Base.{
  String, ◌<>◌, not, List, [], ◌∷◌, Result, ok, err, panic, errorf, ◌==◌, if◌then◌else◌, wrapping,
}
use flux_operator.Base.Effect.{M, ◌>>=◌, ◌>>◌, fail, get, lift, prefixed, return, when}
use flux_operator.Api.Instance.{FluxInstance}
use flux_operator.Builder.Options.{BuildResult, ComponentImage}
use flux_operator.Builder.Semver.{is_compatible_version, match_version}
use flux_operator.Builder.Images.{extract_component_images, extract_component_images_with_digest}
use flux_operator.Builder.Build.{build}
use flux_operator.Builder.Pull.{pull_artifact, mkdir_temp_abs}
use flux_operator.Instance.Env.{Env, Rest, EventType, EventReason, on_world, emit}
use flux_operator.Instance.Options.{options_for}

module _ (env : Env) where
  open env use {World, objects, semver, sort_versions, storage_path}

  -- A temporary directory is removed whatever happened. An error of the removal is logged only.
  unfoldable pub removing : {A : Type 0} → String → M (Rest World) A → M (Rest World) A
  removing dir body s = let (r, t) = body s in (r, record t { world = env.remove_all dir t.world })

  -- The manifests' directory, and the digest of the artifact if it was pulled.
  unfoldable pub fetch : String → FluxInstance → M (Rest World) (String × String)
  fetch tmp_dir obj = if obj.spec.distribution.artifact == "" then return (storage_path, "") else do
    digest ← on_world (pull_artifact env.registry obj.spec.distribution.artifact tmp_dir)
    return (tmp_dir, digest)

  -- `builder.MatchVersion` on the directory as it is now.
  unfoldable pub matched : String → String → M (Rest World) String
  matched dir range s = (match_version semver sort_versions (env.directory s.world) dir range, s)

  -- The images with digests, and those of the manifests where that fails.
  unfoldable pub images_or_fallback :
      Result (List ComponentImage) → Result (List ComponentImage) → Result (List ComponentImage)
  images_or_fallback (ok images) fallback = ok images
  images_or_fallback (err e) fallback =
      wrapping "failed to extract container images from manifests: " fallback
  images_or_fallback panic fallback = panic

  -- What `build` does between making its temporary directory and removing it.
  unfoldable pub build_in :
      FluxInstance → String → String → String → M (Rest World) (BuildResult objects.Object)
  unfolding images_or_fallback
  build_in obj manifests_dir flux_manifests_dir tmp_dir = do
    s ← get
    ver ← matched flux_manifests_dir obj.spec.distribution.version
    when (not (obj.status.last_applied_revision == ""))
        (lift (is_compatible_version semver obj.status.last_applied_revision ver))
    latest_ver ← matched flux_manifests_dir "2.x"
    when (not (ver == latest_ver)) (
        emit (record {
          address = "";
          annotations = List.[];
          type = EventType.normal;
          reason = EventReason.outdated_version;
          message =
              "Flux " <> (ver <> (" is outdated, the latest stable version is " <> latest_ver));
        }))
    options ← lift (options_for env.duration_string env.marshal_patches obj ver)
    let src_dir = env.files.join (flux_manifests_dir ∷ ver ∷ [])
    let src = env.sources s.world
    images ← lift (
        images_or_fallback
          (extract_component_images_with_digest src
            (env.files.join (manifests_dir ∷ "flux-images" ∷ [])) options)
          (extract_component_images src src_dir options))
    on_world (
        build env.files objects env.read_objects env.digest_of src_dir tmp_dir
          (record options { component_images = images }))

  unfoldable pub build_instance :
      String → FluxInstance → M (Rest World) (BuildResult objects.Object)
  unfolding build_in removing
  build_instance manifests_dir obj = do
    let flux_manifests_dir = env.files.join (manifests_dir ∷ "flux" ∷ [])
    s ← get
    if (env.directory s.world).is_missing flux_manifests_dir
        then fail (errorf ("storage path " <> (flux_manifests_dir <> " does not exist")))
        else do
          tmp_dir ← prefixed "failed to create tmp dir: " (on_world (mkdir_temp_abs env.registry))
          removing tmp_dir (build_in obj manifests_dir flux_manifests_dir tmp_dir)

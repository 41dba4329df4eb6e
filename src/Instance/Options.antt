-- ===== src/Instance/Options.antt =====
-- The options of a build, as `build` of fluxinstance_controller.go makes them from the spec.
use flux_operator.Base.{
  String, ◌<>◌, Option, none, some, List, [], ◌∷◌, Result, ok, panic, ◌>>=◌, wrapping, ◌==◌,
  if◌then◌else◌,
}
use flux_operator.Base.Int.{ℤ}
use flux_operator.Api.Instance.{
  FluxInstance, Cluster, Sharding, Storage, Kustomize, get_distribution, get_components,
  get_cluster,
}
use flux_operator.Api.Instance
use flux_operator.Builder.Options.{Options, make_default_options, contain_element_string}
use flux_operator.Builder.Profiles.{
  profile_open_shift, get_multitenant_profile, get_notification_patch,
}

-- The patches of the profiles, in the order in which they are appended.
unfoldable pub profile_patches : FluxInstance → List String → String → String
unfolding contain_element_string
profile_patches obj components notification_controller =
    (if (get_cluster obj).type == "openshift" then profile_open_shift else "")
    <> ((if (get_cluster obj).multitenant
          then get_multitenant_profile (get_cluster obj).tenant_default_service_account
          else "")
        <> (if contain_element_string components notification_controller
            then get_notification_patch obj.namespace
            else ""))

unfoldable pub with_sharding : Option Sharding → Options → Options
with_sharding none o = o
with_sharding (some s) o = record o { sharding_key = s.key; shards = s.shards }

unfoldable pub with_storage : Option Storage → Options → Options
with_storage none o = o
with_storage (some s) o = record o {
  artifact_storage = some (record { class = s.class; size = s.size });
}

module _ (duration_string : ℤ → String) (marshal_patches : List String → Result String) where
  -- The name of the sync is that of the namespace if it has none. An interval that is not set is
  -- a nil pointer, whose use panics.
  unfoldable pub with_sync : String → Option Instance.Sync → Options → Result Options
  with_sync namespace none o = ok o
  with_sync namespace (some s) o = elim (s.interval) [
    | none ↦ panic
    | some d ↦ ok (record o {
      sync = some (record {
        name = if s.name == "" then namespace else s.name;
        kind = s.kind;
        url = s.url;
        ref = s.ref;
        path = s.path;
        interval = duration_string d;
        pull_secret = s.pull_secret;
      });
    })
  ]

  -- Patches of the user come behind those of the profiles.
  unfoldable pub with_patches : Option Kustomize → Options → Result Options
  with_patches none o = ok o
  with_patches (some k) o = elim (k.patches) [
    | [] ↦ ok o
    | p ∷ ps ↦
        wrapping "failed to parse kustomize patches: " (marshal_patches k.patches) >>= λ text.
        ok (record o { patches = o.patches <> text })
  ]

  unfoldable pub options_for : FluxInstance → String → Result Options
  unfolding profile_patches with_sharding with_storage with_sync with_patches make_default_options
  options_for obj ver = do
    let o = record make_default_options {
      version = ver;
      registry = (get_distribution obj).registry;
      image_pull_secret = (get_distribution obj).image_pull_secret;
      namespace = obj.namespace;
      components = get_components obj;
      network_policy = (get_cluster obj).network_policy;
      cluster_domain =
          if (get_cluster obj).domain == ""
          then make_default_options.cluster_domain
          else (get_cluster obj).domain;
      patches =
          profile_patches obj (get_components obj) make_default_options.notification_controller;
    }
    synced ←
        with_sync obj.namespace obj.spec.sync
          (with_storage obj.spec.storage (with_sharding obj.spec.sharding o))
    with_patches obj.spec.kustomize synced

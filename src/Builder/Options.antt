-- ===== src/Builder/Options.antt =====
-- internal/builder/options.go and result.go: what a build is asked for, and what it gives.
use flux_operator.Base.{String, Bool, true, false, Option, none, List, [], ◌∷◌, ◌||◌, ◌==◌}

pub record ComponentImage : Type 0 where
  pub name : String
  pub repository : String
  pub tag : String
  pub digest : String

pub record ArtifactStorage : Type 0 where
  pub class : String
  pub size : String

pub record Sync : Type 0 where
  pub name : String
  pub kind : String
  pub url : String
  pub ref : String
  pub path : String
  pub interval : String
  pub pull_secret : String

pub record Options : Type 0 where
  pub version : String
  pub namespace : String
  pub components : List String
  pub component_images : List ComponentImage
  pub events_addr : String
  pub registry : String
  pub image_pull_secret : String
  pub watch_all_namespaces : Bool
  pub network_policy : Bool
  pub log_level : String
  pub notification_controller : String
  pub cluster_domain : String
  pub toleration_keys : List String
  pub patches : String
  pub artifact_storage : Option ArtifactStorage
  pub sync : Option Sync
  pub sharding_key : String
  pub shards : List String
  pub shard_name : String

unfoldable pub make_default_options : Options
make_default_options = record {
  version = "*";
  namespace = "flux-system";
  components =
      "source-controller" ∷ "kustomize-controller" ∷ "helm-controller" ∷ "notification-controller"
      ∷ "image-reflector-controller" ∷ "image-automation-controller" ∷ [];
  component_images = [];
  events_addr = "";
  registry = "ghcr.io/fluxcd";
  image_pull_secret = "";
  watch_all_namespaces = true;
  network_policy = true;
  log_level = "info";
  notification_controller = "notification-controller";
  cluster_domain = "cluster.local";
  toleration_keys = [];
  patches = "";
  artifact_storage = none;
  sync = none;
  sharding_key = "sharding.fluxcd.io/key";
  shards = [];
  shard_name = "";
}

-- The result of a build, over the objects of the library that reads them.
pub record BuildResult (Object : Type 0) : Type 0 where
  pub version : String
  pub digest : String
  pub revision : String
  pub objects : List Object
  pub component_images : List ComponentImage

unfoldable pub contain_element_string : List String → String → Bool
contain_element_string [] e = false
contain_element_string (a ∷ s) e = a == e || contain_element_string s e

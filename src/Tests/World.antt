-- ===== src/Tests/World.antt =====
-- A reconciler whose calls all succeed but for the deletion of stale objects, and its objects.
use flux_operator.Base.{
  ◌<>◌, String, true, false, none, some, List, [], ◌∷◌, map, ok, err, Error, errorf, ◌==◌,
  if◌then◌else◌,
}
use flux_operator.Base.Effect.{M}
use flux_operator.Base.Sort.{insertion_sort}
use flux_operator.Builder.Files.{Files}
use flux_operator.Builder.Images.{Sources}
use flux_operator.Builder.Semver.{Directory}
use flux_operator.Builder.Pull.{Registry}
use flux_operator.Inventory.{ChangeSetEntry, created}
use flux_operator.Reporter.Items.{Items}
use flux_operator.Reporter.Request.{Reports}
use flux_operator.Instance.Env.{Crd, Kube, Manager, Env}
use flux_operator.Tests.Conditions.{sample_conditions}
use flux_operator.Tests.Data.{sample_semver, sample_objects, config_map}

abbrev pub W : Type 0
W = Unit

abbrev pub none_yet : Error
none_yet = errorf "not available"

abbrev pub sample_crd : Crd
sample_crd = record {
  name = "buckets.source.toolkit.fluxcd.io";
  group = "source.toolkit.fluxcd.io";
  list_kind = "BucketList";
  versions = ("v1beta2", false) ∷ ("v1", true) ∷ [];
  stored_versions = "v1beta2" ∷ "v1" ∷ [];
}

abbrev pub broken_crd : Crd
broken_crd = record sample_crd { list_kind = "BrokenList" }

abbrev pub sample_kube : Kube W
sample_kube = record {
  get_instance = λ w. (err none_yet, w);
  patch_instance = λ obj w. (none, w);
  list_crds = λ l v w. (ok [], w);
  get_crd = λ n w. (ok (if n == "broken" then broken_crd else sample_crd), w);
  update_crd_status = λ c w. (none, w);
  list_resources =
      λ v k w. (if k == "BrokenList" then err none_yet else ok ("flux-system/bucket" ∷ []), w);
  patch_resource = λ v k i w. (none, w);
  clear_finalizers = λ v k i w. (none, w);
  retry_on_conflict = λ m. m;
}

-- Objects named stale cannot be deleted.
abbrev pub deletion : List String → M W (List ChangeSetEntry)
deletion [] w = (ok [], w)
deletion (o ∷ os) w = (err (errorf "delete failed"), w)

abbrev pub application : List String → M W (List ChangeSetEntry)
application [] w = (err (errorf "nothing to apply"), w)
application (o ∷ os) w = (
  ok (
      map (λ x. record { obj_metadata = config_map x; group_version = "v1"; action = created })
        (o ∷ os)),
  w,
)

abbrev pub sample_manager : Manager W String
sample_manager = record {
  set_owner_labels = λ os n ns. os;
  normalize = λ os. ok os;
  set_common_metadata = λ os l a. os;
  apply_all_staged = application;
  delete_all = λ os n ns a v. deletion os;
  wait_for_set = λ os t w. (none, w);
  wait_for_termination = λ os t w. (none, w);
  describe = λ e. e.obj_metadata.name;
}

abbrev pub sample_directory : Directory
sample_directory = record {
  is_missing = λ d. d == "/missing/flux";
  glob = λ p. ok ("/flux/2.3.0" ∷ "/flux/2.4.0" ∷ "/flux/3.1.0" ∷ []);
  is_dir = λ p. some true;
}

-- A directory and names that are clean, with slashes between them.
abbrev pub slashed : List String → String
slashed [] = ""
slashed (s ∷ []) = s
slashed (s ∷ t ∷ ss) = s <> ("/" <> slashed (t ∷ ss))

abbrev pub sample_files : Files W
sample_files = record {
  join = slashed;
  create = λ f w. (none, w);
  write_string = λ f s w. (some (errorf "no space left on device"), w);
  sync = λ f w. (none, w);
  close = λ f w. (none, w);
  copy = λ a b w. (none, w);
  mkdir_all = λ a w. (none, w);
  write_file = λ a b w. (none, w);
  read_file = λ a w. (ok "content", w);
  secure_build = λ a w. (ok "manifests", w);
}

abbrev pub sample_registry : Registry W
sample_registry = record {
  Image = String;
  Layer = String;
  Blob = String;
  pull = λ url w. (err (errorf "unauthorized"), w);
  image_digest = λ i w. (ok "sha256:1", w);
  layers = λ i w. (ok ("layer" ∷ []), w);
  compressed = λ l w. (ok l, w);
  untar = λ b d w. (none, w);
  remote_digest = λ u w. (ok "sha256:1", w);
  mkdir_temp = λ w. (ok "/tmp/1", w);
  eval_symlinks = λ d w. (ok d, w);
}

abbrev pub sample_sources : Sources
sample_sources = record {
  join = slashed;
  read_file = λ f. ok "file";
  read_objects = λ s. ok [];
  unmarshal_images = λ s. ok [];
  parse_tag = λ s. ok s;
}

abbrev pub sample_items : Items
sample_items = record {
  Item = String;
  uid = λ i. "1";
  kind = λ i. "GitRepository";
  name = λ i. i;
  namespace = λ i. "flux-system";
  annotations = λ i. [];
  nested_string = λ i p. none;
  nested_bool = λ i p. none;
  nested_int64 = λ i p. none;
  condition_maps = λ i. none;
}

abbrev pub sample_reports : Reports W
sample_reports = record {
  get_report = λ n ns w. (ok [], w);
  patch_report = λ a b c d w. (none, w);
  now_unix = λ w. "0";
}

abbrev pub sample_env : Env
sample_env = record {
  World = W;
  storage_path = "/data";
  notifications_disabled = "true";
  objects = sample_objects;
  semver = sample_semver;
  sort_versions = insertion_sort (λ a b. sample_semver.less b a);
  conditions = sample_conditions;
  parse_duration = λ s. none;
  duration_string = λ d. "1m";
  marshal_patches = λ p. ok "";
  read_objects = λ f. ok ("stale" ∷ []);
  digest_of = λ s. "sha256:2";
  aggregate = λ a b. a;
  filter_out_not_found = λ e. some e;
  elapsed = λ w. "1s";
  recorder_fails = λ a. false;
  directory = λ w. sample_directory;
  sources = λ w. sample_sources;
  files = sample_files;
  registry = sample_registry;
  kube = sample_kube;
  manager = sample_manager;
  status_manager = "flux-operator";
  items = sample_items;
  to_unstructured = λ o. ok "flux";
  get_gauges = λ w. record { instance_info = []; resource_info = [] };
  set_gauges = λ g w. w;
  reports = sample_reports;
  remove_all = λ d w. w;
}

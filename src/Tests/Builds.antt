-- ===== src/Tests/Builds.antt =====
-- The theorems on the builder at concrete versions, images and files.
use mathlib.Core.List.{Memᴰ}
use flux_operator.Base.{
  if◌then◌else◌, ◌==◌, ◌++◌, errorf, inr, String, ◌<>◌, ◌≡◌, ◌↔◌, refl, ℕ, false, none, some, List,
  [], ◌∷◌, ok, err, panic, All, arith, ltb, after_last, trim_suffix,
}
use flux_operator.Base.Sort.{IsOrder, insertion_sort, insertion_sort-IsSort}
use flux_operator.Builder.Options.{
  ComponentImage, Options, make_default_options, contain_element_string,
}
use flux_operator.Builder.Semver.{
  is_compatible_version, match_version, without_digest, downgrade, directories, matching_versions,
}
use flux_operator.Builder.Semver.Compatible.{
  Allows, is_compatible_version_iff, is_compatible_version_next_major,
}
use flux_operator.Builder.Semver.Matches.{Candidate, Readable}
use flux_operator.Builder.Semver.Latest.{
  match_version_max, match_version_found, match_version_dangling,
}
use flux_operator.Builder.Images.{
  Sources, extract_component_images_with_digest, registry_of, distro_of, images_in_file, selected,
  complete,
}
use flux_operator.Builder.Images.Laws.{
  extract_with_digest-complete, extract_with_digest_doubled, names,
}
use flux_operator.Builder.Files.{Files}
use flux_operator.Builder.Template.Manifests.{namespace_tmpl}
use flux_operator.Builder.Template.SyncTemplate.{sync_tmpl}
use flux_operator.Builder.Template.Data.{render}
use flux_operator.Builder.Template.Shard.{kustomization_shard_tmpl}
use flux_operator.Builder.Template.Resources.{shard_entries, render-shard_entries}
use flux_operator.Builder.Template.Listed.{heading, entries, resources, images}
use flux_operator.Builder.Template.Renders.{IsUsed, render-used}
use flux_operator.Builder.Template.{exec_template, exec_template_lost}
use flux_operator.Builder.Build.{generate, build, with_events}
use flux_operator.Builder.Build.Calls.{Call, written, built, generate-calls, recorder, calls}
use flux_operator.Builder.Build.Provided.{build-Provided}
use flux_operator.Builder.Build.Resources.{Provided}
use flux_operator.Builder.Build.Total.{Works, build_works}
use flux_operator.Tests.Data.{sample_semver, sample_objects, version_text}
use flux_operator.Tests.World.{slashed, sample_directory, sample_files, sample_sources}

is_compatible_version_iff_example :
    (is_compatible_version sample_semver "2.3.0" "2.4.0" ≡ ok tt)
    ↔ Allows sample_semver "2.3.0" "2.4.0"
is_compatible_version_iff_example = is_compatible_version_iff sample_semver "2.3.0" "2.4.0"

is_compatible_version_next_major_example :
    is_compatible_version sample_semver "2.4.0" "3.1.0" ≡ err (downgrade "2.4.0" "3.1.0")
unfolding without_digest
is_compatible_version_next_major_example =
    is_compatible_version_next_major sample_semver "2.4.0" "3.1.0" refl refl (omega arith)
      (omega arith)

abbrev paths : List String
paths = "/flux/2.3.0" ∷ "/flux/2.4.0" ∷ "/flux/3.1.0" ∷ []

descending : IsOrder (λ a b. ltb b a)
descending = record {
  irrefl = λ a. ground arith;
  asym = λ a b h. ground arith;
  not_trans = λ a b c h k. ground arith;
}

readable :
    Readable sample_semver sample_directory "/flux" "2.x" 2 paths ("2.3.0" ∷ "2.4.0" ∷ "3.1.0" ∷ [])
unfolding directories after_last
readable = record { found = refl; globbed = refl; statted = refl; parsed = refl }

match_version_max_example :
    (v : ℕ) × (version_text v ≡ "2.4.0")
    × ∥ Candidate sample_semver sample_directory 2 paths v ∥₁
    × ((w : ℕ) → Candidate sample_semver sample_directory 2 paths w → ltb v w ≡ false)
unfolding match_version insertion_sort directories matching_versions after_last
match_version_max_example =
    match_version_max sample_semver (insertion_sort (λ a b. ltb b a))
      (insertion_sort-IsSort (λ a b. ltb b a) descending) sample_directory "/flux" "2.x" readable
      (λ v. descending.irrefl v) refl

match_version_found_example :
    (name : String) × (match_version sample_semver
        (insertion_sort (λ a b. ltb b a))
        sample_directory
        "/flux"
        "2.x"
      ≡ ok name)
unfolding after_last
match_version_found_example =
    match_version_found sample_semver (insertion_sort (λ a b. ltb b a))
      (insertion_sort-IsSort (λ a b. ltb b a) descending) sample_directory "/flux" "2.x" readable
      {v = 203}
      (record {
        path = "/flux/2.3.0";
        listed = Memᴰ.head refl;
        is_dir = refl;
        parses = refl;
        satisfies = refl;
      })

match_version_dangling_example :
    match_version sample_semver
      (λ vs. vs)
      (record sample_directory { is_dir = λ p. none })
      "/flux"
      "2.x"
    ≡ panic
match_version_dangling_example =
    match_version_dangling sample_semver (λ vs. vs) (record sample_directory { is_dir = λ p. none })
      "/flux" "2.x" paths refl refl (Memᴰ.head refl) refl

-- A file of images that lists one component twice.
abbrev doubled : Sources
doubled = record sample_sources {
  unmarshal_images = λ s. ok (
      record { name = "fluxcd/a"; new_tag = "v1"; digest = "" }
      ∷ record { name = "fluxcd/a"; new_tag = "v2"; digest = "" }
      ∷ []);
}

abbrev single : Sources
single = record sample_sources {
  unmarshal_images = λ s. ok (record { name = "fluxcd/a"; new_tag = "v1"; digest = "" } ∷ []);
}

abbrev of_two : Options
of_two = record make_default_options { components = "a" ∷ "b" ∷ [] }

abbrev of_one : Options
of_one = record make_default_options { components = "a" ∷ [] }

abbrev image_a : List ComponentImage
image_a = record { name = "a"; repository = "ghcr.io/fluxcd/a"; tag = "v1"; digest = "" } ∷ []

extract_with_digest-complete_example : Memᴰ "a" (names image_a)
unfolding extract_component_images_with_digest registry_of distro_of images_in_file selected
    complete contain_element_string make_default_options trim_suffix after_last
extract_with_digest-complete_example =
    extract_with_digest-complete single "/flux-images" of_one {images = image_a} refl refl refl
      (tt, tt) refl "a" (Memᴰ.head refl)

extract_with_digest_doubled_example :
    (images : List ComponentImage) × (extract_component_images_with_digest doubled "/flux-images"
        of_two
      ≡ ok images)
    × (names images ≡ "a" ∷ "a" ∷ [])
unfolding registry_of distro_of make_default_options trim_suffix after_last
extract_with_digest_doubled_example =
    extract_with_digest_doubled doubled "/flux-images" of_two refl refl refl refl refl refl

generate-calls_example :
    generate (recorder slashed (λ f. "roles") "manifests") "/tmp" of_two []
    ≡ (ok tt, calls slashed (λ f. "roles") "manifests" "/tmp" (with_events of_two))
generate-calls_example = generate-calls slashed (λ f. "roles") "manifests" "/tmp" of_two []

recorder-Works : Works (recorder slashed (λ f. "roles") "manifests")
recorder-Works = record {
  create = λ f w. refl;
  write_string = λ f s w. refl;
  sync = λ f w. refl;
  close = λ f w. refl;
  copy = λ a b w. refl;
  mkdir_all = λ d w. refl;
  write_file = λ f s w. refl;
  read_file = λ f w. ("roles", refl);
}

build_works_example :
    (build
      (recorder slashed (λ f. "roles") "manifests")
      sample_objects
      (λ s. ok ("app" ∷ []))
      (λ s. "sha256:2")
      "/src"
      "/tmp"
      of_one
      []).0
    ≡ ok (record {
      version = of_one.version;
      digest = "sha256:2";
      revision = of_one.version <> "@sha256:2";
      objects = "app" ∷ [];
      component_images = [];
    })
unfolding make_default_options
build_works_example =
    build_works (recorder slashed (λ f. "roles") "manifests") recorder-Works sample_objects
      (λ s. ok ("app" ∷ [])) (λ s. "sha256:2") "/src" "/tmp" of_one [] refl refl

abbrev synced : Options
synced = record make_default_options {
  components = "a" ∷ [];
  sync = some (record {
    name = "flux-system";
    kind = "GitRepository";
    url = "https://example.com/fleet.git";
    ref = "refs/heads/main";
    path = "clusters/prod";
    interval = "1m";
    pull_secret = "";
  });
}

render-shard_entries_example :
    (head : String) × (tail : String) × ((cs : List String)
      → render kustomization_shard_tmpl (record of_one { components = cs })
        ≡ ok (head <> (shard_entries cs <> tail)))
render-shard_entries_example = render-shard_entries of_one

-- The source directory has the file of a component, and the network policies.
abbrev sample_listing : String → List String
sample_listing d = if d == "/src" then "a.yaml" ∷ "policies.yaml" ∷ [] else []

component_shipped :
    (c : String) → Memᴰ c synced.components → Memᴰ (c <> ".yaml") (sample_listing "/src")
component_shipped c (Memᴰ.head e) = rw e (Memᴰ.head refl)
component_shipped c (Memᴰ.tail i) = elim i [ ]

build-Provided_example :
    (log : List Call) × (tail : String) × ((build
        (recorder slashed (λ f. "roles") "manifests")
        sample_objects
        (λ s. ok ("app" ∷ []))
        (λ s. "sha256:2")
        "/src"
        "/tmp"
        synced
        []).1
      ≡ log ++ built "/tmp" ∷ [])
    × Memᴰ
        (written "/tmp/kustomization.yaml" (
          heading synced.namespace
          <> (entries (resources synced) <> (images synced <> ("\npatches:" <> tail)))))
        log
    × All (Provided slashed "/tmp" log sample_listing) (resources synced)
build-Provided_example =
    build-Provided slashed (λ f. "roles") "manifests" "/tmp" sample_objects (λ s. ok ("app" ∷ []))
      (λ s. "sha256:2") "/src" synced sample_listing (λ p. Memᴰ.tail (Memᴰ.head refl))
      component_shipped

render-used_example : (s : String) × (render sync_tmpl synced ≡ ok s)
render-used_example = render-used synced (IsUsed.sync refl)

-- A file system on which the write succeeds and the sync fails.
abbrev unsynced : Files (Unit {0})
unsynced = record sample_files {
  write_string = λ f d w. (none, w);
  sync = λ f w. (some (errorf "input/output error"), w);
}

exec_template_lost_example :
    exec_template unsynced of_one namespace_tmpl "namespace.yaml" tt ≡ (ok tt, tt)
unfolding render namespace_tmpl make_default_options
exec_template_lost_example =
    exec_template_lost unsynced of_one namespace_tmpl "namespace.yaml" {w = tt} {v = tt} refl refl
      (inr (tt, refl, refl))

-- ===== src/Builder/Build/Total.antt =====
-- On a file system whose calls succeed, the files of a build are written for any options.
use flux_operator.Base.{
  String, ◌<>◌, Result, ◌≡◌, refl, Bool, true, false, not, Option, none, Error, List, [], ◌∷◌, ◌==◌,
  ok,
}
use flux_operator.Base.Effect.{M, ◌>>=◌, ◌>>◌, act, prefixed, when}
use flux_operator.Inventory.{Objects}
use flux_operator.Builder.Options.{Options, make_default_options}
use flux_operator.Builder.Files.{Files}
use flux_operator.Builder.Template.Syntax.{Template}
use flux_operator.Builder.Template.Renders.{
  IsUsed, namespace, annotations, labels, node_selector, pvc, sync, kustomization, roles, shard,
  render-used,
}
use flux_operator.Builder.Template.{closing, filled, opened, executed, exec_template}
use flux_operator.Builder.Build.{
  generated, with_events, generate_shards, rename_namespace, generate, build,
}

-- Every call succeeds.
pub record Works {W : Type 0} (fs : Files W) : Type 0 where
  pub create : (f : String) (w : W) → (fs.create f w).0 ≡ none
  pub write_string : (f s : String) (w : W) → (fs.write_string f s w).0 ≡ none
  pub sync : (f : String) (w : W) → (fs.sync f w).0 ≡ none
  pub close : (f : String) (w : W) → (fs.close f w).0 ≡ none
  pub copy : (a b : String) (w : W) → (fs.copy a b w).0 ≡ none
  pub mkdir_all : (d : String) (w : W) → (fs.mkdir_all d w).0 ≡ none
  pub write_file : (f s : String) (w : W) → (fs.write_file f s w).0 ≡ none
  pub read_file : (f : String) (w : W) → (s : String) × ((fs.read_file f w).0 ≡ ok s)

-- From every state the calls come back without an error.
record Done {W : Type 0} (m : M W (Unit {0})) : Type 0 where
  done : (w : W) → (m w).0 ≡ ok tt

module _ {W : Type 0} where
  seq-Done : (m k : M W (Unit {0})) → Done m → Done k → Done (m >> k)
  seq-Done m k h g = record { done = λ w. rw (h.done w) (g.done _) }

  act-Done :
      (p : String) (op : W → Option Error × W)
      → ((w : W) → (op w).0 ≡ none)
      → Done (prefixed p (act op))
  act-Done p op h = record { done = λ w. rw (h w) }

  prefixed-Done : (p : String) (m : M W (Unit {0})) → Done m → Done (prefixed p m)
  prefixed-Done p m h = record { done = λ w. rw (h.done w) }

  when-Done : (b : Bool) (m : M W (Unit {0})) → (b ≡ true → Done m) → Done (when b m)
  when-Done true m h = h refl
  when-Done false m h = record { done = λ w. refl }

module _ {W : Type 0} (fs : Files W) (works : Works fs) where
  exec_template-Done :
      (o : Options) {tmpl : Template} (f : String)
      → IsUsed o tmpl
      → Done (exec_template fs o tmpl f)
  unfolding exec_template executed opened closing filled
  exec_template-Done o f u =
      let (s, p) = render-used o u in
      record {
        done = λ w. rw (p, works.create f w, works.write_string f s, works.sync f, works.close f);
      }

  generated-Done :
      (o : Options) {tmpl : Template} (f p : String)
      → IsUsed o tmpl
      → Done (generated fs o tmpl f p)
  generated-Done o f p u = prefixed-Done p _ (exec_template-Done o f u)

  generate_shards-Done :
      (base : String) (o : Options) (shards : List String) → Done (generate_shards fs base o shards)
  unfolding generate_shards
  generate_shards-Done base o [] = record { done = λ w. refl }
  generate_shards-Done base o (s ∷ shards) = seq-Done _ _ (act-Done _ _ (works.mkdir_all _)) (
      seq-Done _ _ (generated-Done _ _ _ shard)
        (generate_shards-Done base (record o { shard_name = s }) shards))

  read_file-Done :
      (p f : String) (k : String → M W (Unit {0}))
      → ((s : String) → Done (k s))
      → Done (prefixed p (fs.read_file f) >>= k)
  read_file-Done p f k h = record {
    done = λ w. let (s, e) = works.read_file f w in rw e ((h s).done _);
  }

  rename_namespace-Done : (f : String) (o : Options) → Done (rename_namespace fs f o)
  unfolding rename_namespace
  rename_namespace-Done f o =
      when-Done (not (make_default_options.namespace == o.namespace)) _
        (λ _. read_file-Done _ f _ (λ s. act-Done _ _ (works.write_file _ _)))

  generate-Done : (base : String) (o : Options) → Done (generate fs base o)
  unfolding generate
  generate-Done base options_in =
      let o = with_events options_in in
      seq-Done _ _ (generated-Done o _ _ namespace) (
        seq-Done _ _ (generated-Done o _ _ annotations) (
          seq-Done _ _ (generated-Done o _ _ labels) (
            seq-Done _ _ (generated-Done o _ _ node_selector) (
              seq-Done _ _ (when-Done _ _ (λ a. generated-Done o _ _ (pvc a))) (
                seq-Done _ _ (when-Done _ _ (λ s. generated-Done o _ _ (sync s))) (
                  seq-Done _ _ (generated-Done o _ _ kustomization) (
                    seq-Done _ _ (act-Done _ _ (works.copy _ _)) (
                      seq-Done _ _ (generated-Done o _ _ roles) (
                        seq-Done _ _ (rename_namespace-Done _ o)
                          (generate_shards-Done base o o.shards))))))))))

  -- Where the calls of the file system succeed, the build of kustomize gives manifests for the
  -- directory that `generate` leaves and these can be read, a build succeeds, whatever the options: no template fails on them. Its result has the
  -- version and the images of the options, the digest of the manifests, the revision made of both,
  -- and the objects of the manifests, sorted.
  pub build_works :
      (os : Objects) (read_objects : String → Result (List os.Object)) (digest_of : String → String)
      (src_dir tmp_dir : String) (options : Options) {manifests : String} {objects : List os.Object}
      (w : W)
      → (fs.secure_build tmp_dir (generate fs tmp_dir options (fs.copy src_dir tmp_dir w).1).1).0
        ≡ ok manifests
      → read_objects manifests ≡ ok objects
      → (build fs os read_objects digest_of src_dir tmp_dir options w).0
        ≡ ok (record {
          version = options.version;
          digest = digest_of manifests;
          revision = options.version <> ("@" <> digest_of manifests);
          objects = os.sort objects;
          component_images = options.component_images;
        })
  unfolding build
  build_works os read_objects digest_of src_dir tmp_dir options w built readable =
      rw (works.copy src_dir tmp_dir w, (generate-Done tmp_dir options).done _, built, readable)

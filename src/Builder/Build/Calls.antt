-- ===== src/Builder/Build/Calls.antt =====
-- What a build does to its directory, call by call.
use mathlib.Core.List.{append-nil, append_assoc}
use flux_operator.Base.{
  String, ◌≡◌, Bool, not, none, List, [], ◌∷◌, ◌++◌, ◌==◌, Result, ok, err, panic, if◌then◌else◌,
  Bool-cases, inl, inr, replace_all,
}
use flux_operator.Base.Effect.{when}
use flux_operator.Api.Conditions.{is_some}
use flux_operator.Builder.Options.{Options}
use flux_operator.Builder.Files.{Files}
use flux_operator.Builder.Template.Syntax.{Template}
use flux_operator.Builder.Template.Data.{render}
use flux_operator.Builder.Template.Kustomization.{kustomization_tmpl}
use flux_operator.Builder.Template.Shard.{kustomization_shard_tmpl}
use flux_operator.Builder.Template.Manifests.{
  kustomization_roles_tmpl, node_selector_tmpl, labels_tmpl, annotations_tmpl, namespace_tmpl,
  pvc_tmpl,
}
use flux_operator.Builder.Template.SyncTemplate.{sync_tmpl}
use flux_operator.Builder.Template.Renders.{
  IsUsed, namespace, annotations, labels, node_selector, pvc, sync, kustomization, roles, shard,
  render-used,
}
use flux_operator.Builder.Template.{exec_template}
use flux_operator.Builder.Build.{
  generated, with_events, generate_shards, rename_namespace, generate,
}

pub data Call : Type 0 where
  created : String → Call
  written : String → String → Call
  synced : String → Call
  closed : String → Call
  copied : String → String → Call
  made : String → Call
  loaded : String → Call
  rewritten : String → String → Call
  built : String → Call

-- A file system on which nothing fails and that records every call. The paths are joined by
-- `join`, a file reads as its `content`, and kustomize gives the manifests.
abbrev pub recorder : (List String → String) → (String → String) → String → Files (List Call)
recorder join content manifests = record {
  join = join;
  create = λ f w. (none, w ++ created f ∷ []);
  write_string = λ f d w. (none, w ++ written f d ∷ []);
  sync = λ f w. (none, w ++ synced f ∷ []);
  close = λ f w. (none, w ++ closed f ∷ []);
  copy = λ a b w. (none, w ++ copied a b ∷ []);
  mkdir_all = λ d w. (none, w ++ made d ∷ []);
  write_file = λ f d w. (none, w ++ rewritten f d ∷ []);
  read_file = λ f w. (ok (content f), w ++ loaded f ∷ []);
  secure_build = λ d w. (ok manifests, w ++ built d ∷ []);
}

abbrev pub text_of : Result String → String
text_of (ok s) = s
text_of (err e) = ""
text_of panic = ""

-- What a template prints.
abbrev pub printed : Template → Options → String
printed tmpl o = text_of (render tmpl o)

-- The calls that write a template.
unfoldable pub wrote : String → String → List Call
wrote f s = created f ∷ written f s ∷ synced f ∷ closed f ∷ []

abbrev pub on : Bool → List Call → List Call
on b cs = if b then cs else []

module _ (join : List String → String) (content : String → String) (manifests base : String) where
  abbrev pub files : Files (List Call)
  files = recorder join content manifests

  abbrev pub file_of : String → String
  file_of name = join (base ∷ name ∷ [])

  abbrev pub roles_file : String → String
  roles_file name = join (base ∷ "roles" ∷ name ∷ [])

  unfoldable pub shard_calls : Options → List String → List Call
  shard_calls o [] = []
  shard_calls o (s ∷ shards) =
      made (file_of s)
      ∷ (wrote (join (base ∷ s ∷ "kustomization.yaml" ∷ []))
            (printed kustomization_shard_tmpl (record o { shard_name = s }))
          ++ shard_calls (record o { shard_name = s }) shards)

  abbrev pub namespace_calls : Options → List Call
  namespace_calls o = on (not ("flux-system" == o.namespace)) (
      loaded (roles_file "rbac.yaml")
      ∷ rewritten (roles_file "rbac.yaml")
          (replace_all "flux-system" o.namespace (content (roles_file "rbac.yaml")))
      ∷ [])

  -- The calls from the kustomization on, for options whose events address is set.
  unfoldable pub last_calls : Options → List Call
  last_calls o =
      wrote (file_of "kustomization.yaml") (printed kustomization_tmpl o)
      ++ (copied (file_of "rbac.yaml") (roles_file "rbac.yaml")
          ∷ (wrote (roles_file "kustomization.yaml") (printed kustomization_roles_tmpl o)
              ++ (namespace_calls o ++ shard_calls o o.shards)))

  -- The calls up to the node selector, and those of the volume and of the sync.
  unfoldable pub first_calls : Options → List Call
  first_calls o =
      wrote (file_of "namespace.yaml") (printed namespace_tmpl o)
      ++ (wrote (file_of "annotations.yaml") (printed annotations_tmpl o)
          ++ (wrote (file_of "labels.yaml") (printed labels_tmpl o)
              ++ wrote (file_of "node-selector.yaml") (printed node_selector_tmpl o)))

  unfoldable pub pvc_calls : Options → List Call
  pvc_calls o = on (is_some o.artifact_storage) (wrote (file_of "pvc.yaml") (printed pvc_tmpl o))

  unfoldable pub sync_calls : Options → List Call
  sync_calls o = on (is_some o.sync) (wrote (file_of "sync.yaml") (printed sync_tmpl o))

  -- All the calls in their order, for such options.
  unfoldable pub calls : Options → List Call
  calls o = first_calls o ++ (pvc_calls o ++ (sync_calls o ++ last_calls o))

  exec_template-calls :
      {o : Options} {tmpl : Template} (filename : String) (log : List Call)
      → IsUsed o tmpl
      → exec_template files o tmpl filename log ≡ (ok tt, log ++ wrote filename (printed tmpl o))
  unfolding exec_template wrote
  exec_template-calls {o} filename log u = let (s, p) = render-used o u in rw p (simp append_assoc)

  generate_shards-calls :
      (o : Options) (shards : List String) (log : List Call)
      → generate_shards files base o shards log ≡ (ok tt, log ++ shard_calls o shards)
  unfolding generate_shards shard_calls
  generate_shards-calls o [] log = rw append-nil
  generate_shards-calls o (s ∷ shards) log =
      rw
        (
          exec_template-calls {tmpl = kustomization_shard_tmpl} _ _ shard,
          generate_shards-calls (record o { shard_name = s }) shards,
        )
        (simp append_assoc)

  rename_namespace-calls :
      (o : Options) (log : List Call)
      → rename_namespace files (roles_file "rbac.yaml") o log ≡ (ok tt, log ++ namespace_calls o)
  unfolding rename_namespace
  rename_namespace-calls o log = elim (Bool-cases ("flux-system" == o.namespace)) [
    | inl e ↦ rw e (rw append-nil)
    | inr n ↦ rw n (simp append_assoc)
  ]

  pvc-calls :
      (o : Options) (p : String) (log : List Call)
      → when (is_some o.artifact_storage) (generated files o pvc_tmpl (file_of "pvc.yaml") p) log
        ≡ (
          ok tt,
          log ++ on (is_some o.artifact_storage) (wrote (file_of "pvc.yaml") (printed pvc_tmpl o)),
        )
  pvc-calls o p log = elim (Bool-cases (is_some o.artifact_storage)) [
    | inl a ↦ rw (a, exec_template-calls {o = o} {tmpl = pvc_tmpl} _ _ (pvc a))
    | inr n ↦ rw n (rw append-nil)
  ]

  sync-calls :
      (o : Options) (p : String) (log : List Call)
      → when (is_some o.sync) (generated files o sync_tmpl (file_of "sync.yaml") p) log
        ≡ (ok tt, log ++ on (is_some o.sync) (wrote (file_of "sync.yaml") (printed sync_tmpl o)))
  sync-calls o p log = elim (Bool-cases (is_some o.sync)) [
    | inl a ↦ rw (a, exec_template-calls {o = o} {tmpl = sync_tmpl} _ _ (sync a))
    | inr n ↦ rw n (rw append-nil)
  ]

  -- Where nothing fails, `generate` creates, writes, syncs and closes the files of the templates,
  -- copies the roles and makes the directories of the shards, in this order, and calls nothing else
  -- of the file system. The volume and the sync are written only if they are asked for, and the
  -- roles are read and rewritten only for another namespace than flux-system.
  pub generate-calls :
      (o : Options) (log : List Call)
      → generate files base o log ≡ (ok tt, log ++ calls (with_events o))
  unfolding generate calls first_calls pvc_calls sync_calls last_calls
  generate-calls o log =
      let u = with_events o in
      rw
        (
          exec_template-calls {o = u} {tmpl = namespace_tmpl} _ _ namespace,
          exec_template-calls {o = u} {tmpl = annotations_tmpl} _ _ annotations,
          exec_template-calls {o = u} {tmpl = labels_tmpl} _ _ labels,
          exec_template-calls {o = u} {tmpl = node_selector_tmpl} _ _ node_selector,
          pvc-calls,
          sync-calls,
          exec_template-calls {o = u} {tmpl = kustomization_tmpl} _ _ kustomization,
          exec_template-calls {o = u} {tmpl = kustomization_roles_tmpl} _ _ roles,
          rename_namespace-calls,
          generate_shards-calls,
        )
        (simp append_assoc)

-- ===== src/Builder/Template/Listed/Rendered.antt =====
-- The main kustomization of a build, as its template is executed.
use text.Mathlib.TextLemmas.{nil-append, append-nil, append_assoc}
use flux_operator.Base.{String, ◌<>◌, ◌≡◌, refl, [], ◌∷◌, map, ok, if◌then◌else◌}
use flux_operator.Api.Conditions.{is_some}
use flux_operator.Builder.Options.{Options}
use flux_operator.Builder.Template.Value.{string, bool}
use flux_operator.Builder.Template.Run.{Vars, run}
use flux_operator.Builder.Template.Data.{storage_value, sync_value, data_of, render}
use flux_operator.Builder.Template.Kustomization.{
  component_patches, kustomization_tmpl, component_patch, notification_patch, source_patch,
  storage_patch, other_patch, shards_patch,
}
use flux_operator.Builder.Template.Typing.{
  a_string, a_bool, a_pointer, HasType, Matches, bind, empty, checks,
}
use flux_operator.Builder.Template.Typing.Sound.{run-ok}
use flux_operator.Builder.Template.Renders.{
  storage_row, sync_row, storage_value-HasType, sync_value-HasType, data_of-HasType,
}
use flux_operator.Builder.Template.Listed.{
  heading, entries, resources, images, entries-append, each-components, each-shards,
  each-image_entry, if_ok, if_not, entries-if, truth-storage_value, truth-sync_value,
}

module _ (o : Options) where
  abbrev vars_of : Vars
  vars_of =
      ("namespace", string o.namespace)
      ∷ ("sync", sync_value o.sync)
      ∷ ("artifactStorage", storage_value o.artifact_storage)
      ∷ ("clusterDomain", string o.cluster_domain)
      ∷ ("logLevel", string o.log_level)
      ∷ ("registry", string o.registry)
      ∷ ("watchAllNamespaces", bool o.watch_all_namespaces)
      ∷ ("eventsAddr", string o.events_addr)
      ∷ []

  vars_of-Matches : Matches vars_of (
      ("namespace", a_string)
      ∷ ("sync", a_pointer sync_row)
      ∷ ("artifactStorage", a_pointer storage_row)
      ∷ ("clusterDomain", a_string)
      ∷ ("logLevel", a_string)
      ∷ ("registry", a_string)
      ∷ ("watchAllNamespaces", a_bool)
      ∷ ("eventsAddr", a_string)
      ∷ [])
  vars_of-Matches = bind HasType.string (
      bind (sync_value-HasType _) (
        bind (storage_value-HasType _) (
          bind HasType.string (
            bind HasType.string
              (bind HasType.string (bind HasType.bool (bind HasType.string empty)))))))

  entries-resources :
      entries (resources o)
      ≡ "\n  - namespace.yaml"
        <> ((if o.network_policy then "\n  - policies.yaml" else "")
            <> ("\n  - roles"
                <> (entries (map (λ c. c <> ".yaml") o.components)
                    <> (entries o.shards
                        <> ((if is_some o.artifact_storage then "\n  - pvc.yaml" else "")
                            <> (if is_some o.sync then "\n  - sync.yaml" else ""))))))
  unfolding entries resources
  entries-resources =
      rw
        (
          entries-append (if o.network_policy then "policies.yaml" ∷ [] else []),
          entries-if o.network_policy,
          entries-append (map (λ c. c <> ".yaml") o.components),
          entries-append o.shards,
          entries-append (if is_some o.artifact_storage then "pvc.yaml" ∷ [] else []),
          entries-if (is_some o.artifact_storage),
          entries-if (is_some o.sync),
        )
        refl

  -- The patches are well typed.
  component_patches-ok : (s : String) × (run component_patches (data_of o) vars_of ≡ ok s)
  unfolding checks component_patches component_patch notification_patch source_patch storage_patch
      other_patch shards_patch
  component_patches-ok =
      run-ok component_patches (data_of-HasType o (storage_value-HasType _) (sync_value-HasType _))
        vars_of-Matches refl

  -- In the kustomization of a build the block of resources lists `resources` in their order, and
  -- the images come next, with the registry's names and the tags, unless the registry is empty.
  pub render-entries :
      (tail : String) × (render kustomization_tmpl o
        ≡ ok (
            heading o.namespace <> (entries (resources o) <> (images o <> ("\npatches:" <> tail)))))
  unfolding render kustomization_tmpl run data_of images
  render-entries =
      let (t, p) = component_patches-ok in
      (
        t,
        rw
            (
              if_ok o.network_policy,
              each-components o.components 0 vars_of,
              each-shards o.shards 0 vars_of,
              truth-storage_value o.artifact_storage,
              if_ok (is_some o.artifact_storage),
              truth-sync_value o.sync,
              if_ok (is_some o.sync),
              each-image_entry o.component_images 0 vars_of,
              if_not o.registry,
              p,
              entries-resources,
            )
            (simp (append_assoc, nil-append, append-nil)),
      )

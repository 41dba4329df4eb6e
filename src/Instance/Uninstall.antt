-- ===== src/Instance/Uninstall.antt =====
-- fluxinstance_uninstaller.go: what is deleted when the FluxInstance is.
pub mod Laws
use flux_operator.Base.{
  String, ◌<>◌, Bool, true, false, Option, none, some, List, [], ◌∷◌, ◌||◌, ◌&&◌, not, Error,
  Result, ok, err, panic, ◌==◌, filter, if◌then◌else◌, has_text,
}
use flux_operator.Base.Int.{minutes}
use flux_operator.Base.Effect.{M, ◌>>=◌, ◌>>◌, act, caught, lift, log_only, return, when, get}
use flux_operator.Api.Instance.{
  FluxInstance, ResourceInventory, finalizer, prune_annotation, disabled_value, is_disabled,
}
use flux_operator.Api.Conditions.{is_some}
use flux_operator.Inventory
use flux_operator.Inventory.{Objects}
use flux_operator.Instance.Env.{Kube, Manager, Env, State, on_rest, on_world, set_obj}

-- `errors.Join`: nil for no error. The class is that of the first.
unfoldable pub join_texts : String → List Error → String
join_texts s [] = s
join_texts s (e ∷ es) = join_texts (s <> ("\n" <> e.text)) es

unfoldable pub join_errors : List Error → Option Error
unfolding join_texts
join_errors [] = none
join_errors (e ∷ es) = some (record e { text = join_texts e.text es })

-- The API versions and list kinds of `removeFluxFinalizers`.
abbrev pub flux_kinds : List (String × String)
flux_kinds =
    ("kustomize.toolkit.fluxcd.io/v1", "KustomizationList")
    ∷ ("helm.toolkit.fluxcd.io/v2beta1", "HelmReleaseList")
    ∷ ("helm.toolkit.fluxcd.io/v2beta2", "HelmReleaseList")
    ∷ ("helm.toolkit.fluxcd.io/v2", "HelmReleaseList")
    ∷ ("source.toolkit.fluxcd.io/v1beta2", "HelmRepositoryList")
    ∷ ("source.toolkit.fluxcd.io/v1", "HelmRepositoryList")
    ∷ ("source.toolkit.fluxcd.io/v1beta2", "HelmChartList")
    ∷ ("source.toolkit.fluxcd.io/v1", "HelmChartList")
    ∷ ("source.toolkit.fluxcd.io/v1", "GitRepositoryList")
    ∷ ("source.toolkit.fluxcd.io/v1beta2", "OCIRepositoryList")
    ∷ ("source.toolkit.fluxcd.io/v1beta2", "BucketList")
    ∷ ("source.toolkit.fluxcd.io/v1", "BucketList")
    ∷ ("notification.toolkit.fluxcd.io/v1", "ReceiverList")
    ∷ ("notification.toolkit.fluxcd.io/v1beta2", "ProviderList")
    ∷ ("notification.toolkit.fluxcd.io/v1beta3", "ProviderList")
    ∷ ("notification.toolkit.fluxcd.io/v1beta2", "AlertList")
    ∷ ("notification.toolkit.fluxcd.io/v1beta3", "AlertList")
    ∷ ("image.toolkit.fluxcd.io/v1beta2", "ImageRepositoryList")
    ∷ ("image.toolkit.fluxcd.io/v1beta2", "ImagePolicyList")
    ∷ ("image.toolkit.fluxcd.io/v1beta1", "ImageUpdateAutomationList")
    ∷ ("image.toolkit.fluxcd.io/v1beta2", "ImageUpdateAutomationList")
    ∷ []

-- An error that says that the cluster does not have the kind.
abbrev pub is_missing_kind : Error → Bool
is_missing_kind e =
    has_text "the server could not find the requested resource" e.text
    || has_text "no matches for kind" e.text

abbrev pub collected : Option Error → List Error → List Error
collected none es = es
collected (some e) es = e ∷ es

module _ {W : Type 0} (kube : Kube W) where
  -- The loop over the resources of a kind: every one is tried, and the errors are kept.
  unfoldable pub clear_all : String → String → List String → W → List Error × W
  clear_all api_version kind [] w = ([], w)
  clear_all api_version kind (item ∷ items) w =
      let (e, v) = kube.clear_finalizers api_version kind item w in
      let (es, u) = clear_all api_version kind items v in (collected e es, u)

  abbrev pub joined : List Error × W → Result (Unit {0}) × W
  joined (es, w) = (elim (join_errors es) [ none ↦ ok tt | some e ↦ err e ], w)

  unfoldable pub remove_finalizers_for : String → String → M W (Unit {0})
  unfolding clear_all join_errors
  remove_finalizers_for api_version kind = do
    items ← kube.list_resources api_version kind
    λ w. joined (clear_all api_version kind items w)

  -- The loop over the kinds. A kind that the cluster lacks is no error.
  unfoldable pub remove_for_kinds : List (String × String) → M W (List Error)
  unfolding has_text
  remove_for_kinds [] = return []
  remove_for_kinds ((api_version, kind) ∷ kinds) =
      let rest = remove_for_kinds kinds in
      do
        failed ← caught (kube.retry_on_conflict (remove_finalizers_for api_version kind))
        es ← rest
        return (elim failed [ none ↦ es | some e ↦ if is_missing_kind e then es else e ∷ es ])

  unfoldable pub remove_flux_finalizers : M W (Unit {0})
  unfolding remove_for_kinds join_errors
  remove_flux_finalizers = do es ← remove_for_kinds flux_kinds; λ w. joined (es, w)

-- `controllerutil.RemoveFinalizer`.
unfoldable pub remove_finalizer : FluxInstance → FluxInstance
remove_finalizer obj = record obj { finalizers = filter (λ f. not (f == finalizer)) obj.finalizers }

-- The entries of a status that has an inventory.
abbrev pub has_entries : Option ResourceInventory → Bool
has_entries none = false
has_entries (some inv) = elim (inv.entries) [ [] ↦ false | e ∷ es ↦ true ]

-- `objects, _ := inventory.List(...)`: nothing where an entry cannot be read.
unfoldable pub listed : (os : Objects) → Option ResourceInventory → Result (List os.Object)
listed os none = ok []
listed os (some inv) = elim (Inventory.list os inv) [
  | ok objects ↦ ok objects
  | err e ↦ ok []
  | panic ↦ panic
]

module _ (env : Env) where
  open env use {World, objects, kube, manager}

  -- The two deletions, the wait between them and the removal of the finalizers. Their errors are
  -- logged and nothing more, but a panic in one of them goes on.
  unfoldable pub delete_resources : FluxInstance → M World (Unit {0})
  unfolding listed remove_flux_finalizers
  delete_resources obj = do
    all ← lift (listed objects obj.status.inventory)
    let deployments = filter (λ o. objects.get_kind o == "Deployment") all
    failed ←
        caught
          (manager.delete_all deployments obj.name obj.namespace prune_annotation disabled_value)
    when (not (is_some failed))
        (log_only (act (manager.wait_for_termination deployments (minutes 5))))
    log_only (manager.delete_all all obj.name obj.namespace prune_annotation disabled_value)
    log_only (remove_flux_finalizers kube)

  -- It has no error to return: where it comes back, the reconciliation ends well and is not
  -- repeated.
  unfoldable pub uninstall : M (State World) (Unit {0})
  unfolding delete_resources remove_finalizer
  uninstall = do
    s ← get
    when (not (is_disabled s.obj || not (has_entries s.obj.status.inventory)))
        (on_rest (λ obj. on_world (delete_resources obj)))
    set_obj remove_finalizer

-- ===== src/Reporter/Crds.antt =====
-- internal/reporter/crds.go: the kinds that are installed.
use flux_operator.Base.{
  String, ◌<>◌, ◌==◌, Option, none, some, List, [], ◌∷◌, Result, ok, err, errorf, ◌>>=◌,
  if◌then◌else◌,
}
use flux_operator.Base.Effect.{M, after, lift, prefixed}
use flux_operator.Reporter.Items.{Items}
use flux_operator.Reporter.Cluster.{Cluster, CrdItem, GroupVersionKind, FluxStatusReporter}

abbrev pub last_of {ℓ} : {A : Type ℓ} → List A → Option A
last_of [] = none
last_of (x ∷ xs) = elim (last_of xs) [ none ↦ some x | some y ↦ some y ]

unfoldable pub gvk_of : CrdItem → Result GroupVersionKind
gvk_of crd = elim (last_of crd.stored_versions) [
  | some version ↦ ok (record { group = crd.group; version = version; kind = crd.kind })
  | none ↦ err (errorf ("no stored versions found for CRD " <> crd.name))
]

-- The loop: the first definition without a stored version ends it.
unfoldable pub gvk_list : List CrdItem → Result (List GroupVersionKind)
unfolding gvk_of
gvk_list [] = ok []
gvk_list (crd ∷ crds) = gvk_of crd >>= λ gvk. gvk_list crds >>= λ rest. ok (gvk ∷ rest)

-- What follows the call of List.
unfoldable pub found_crds : List CrdItem → Result (List GroupVersionKind)
unfolding gvk_list
found_crds [] = err (errorf "no Flux CRDs found")
found_crds (crd ∷ crds) = gvk_list (crd ∷ crds)

module _ {items : Items} {W : Type 0} (cluster : Cluster items W) (r : FluxStatusReporter) where
  unfoldable pub list_crds : M W (List GroupVersionKind)
  unfolding found_crds
  list_crds w =
      after (prefixed "failed to list CRDs: " (cluster.list_crds "" r.label_selector) w)
        (λ crds. lift (found_crds crds))

-- The first of the kind.
unfoldable pub gvk_for : String → List GroupVersionKind → Option GroupVersionKind
gvk_for kind [] = none
gvk_for kind (gvk ∷ crds) = if gvk.kind == kind then some gvk else gvk_for kind crds

-- The group and the version, as an object names them.
abbrev pub api_version : GroupVersionKind → String
api_version gvk = gvk.group <> ("/" <> gvk.version)

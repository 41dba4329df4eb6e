-- ===== src/Reporter/Components.antt =====
-- internal/reporter/components.go: the state of the Deployments.
pub mod Laws
use flux_operator.Base.{
  String, ◌<>◌, ◌==◌, Bool, true, false, Option, none, some, List, [], ◌∷◌, Dict, lookup, Error,
  Result, ok, err, panic, ◌>>=◌, ◌>>◌,
}
use flux_operator.Base.Effect.{M, after, lift, prefixed}
use flux_operator.Api.Report.{FluxComponentStatus}
use flux_operator.Reporter.Items.{Items}
use flux_operator.Reporter.Cluster.{Cluster, FluxStatusReporter}

-- The image of the first container. A container that is no map, or has no image that is a text,
-- panics.
unfoldable pub first_image : Option (List (Option (Dict String))) → Result String
first_image none = ok ""
first_image (some []) = ok ""
first_image (some (none ∷ rest)) = panic
first_image (some (some container ∷ rest)) = elim (lookup "image" container) [
  | none ↦ panic
  | some image ↦ ok image
]

module _ {items : Items} {W : Type 0} (cluster : Cluster items W) where
  open cluster use {compute_status, containers, stable_sort, before}

  unfoldable pub component_of : items.Item → Result FluxComponentStatus
  unfolding first_image
  component_of d = elim (compute_status d) [
    | ok s ↦ first_image (containers d) >>= λ image. ok (record {
      name = items.name d;
      ready = s.0 == "Current";
      status = s.0 <> (" " <> s.1);
      image = image;
    })
    | err e ↦ first_image (containers d) >>= λ image. ok (record {
      name = items.name d;
      ready = false;
      status = "Failed to compute status: " <> e.text;
      image = image;
    })
    | panic ↦ panic
  ]

  unfoldable pub components_of : List items.Item → Result (List FluxComponentStatus)
  unfolding component_of
  components_of [] = ok []
  components_of (d ∷ ds) = component_of d >>= λ c. components_of ds >>= λ cs. ok (c ∷ cs)

  abbrev pub by_name : FluxComponentStatus → FluxComponentStatus → Bool
  by_name i j = before i.name j.name

  module _ (r : FluxStatusReporter) where
    unfoldable pub get_components_status : M W (List FluxComponentStatus)
    unfolding components_of
    get_components_status w =
        after
          (prefixed "failed to list deployments: "
            (cluster.list_items "apps/v1" "Deployment" r.namespace r.label_selector) w)
          (λ ds. lift (components_of ds >>= λ cs. ok (stable_sort by_name cs)))

-- ===== src/Reporter/Components/Laws.antt =====
-- The components are the Deployments, in the order of their names.
use mathlib.Core.List.{Perm, Pairwise}
use mathlib.Core.List.Perm
use flux_operator.Base.{
  ◌≡◌, refl, sym, ap, ◌∙◌, false, List, [], ◌∷◌, map, Result, ok, err, panic, ok_injective,
  Result-cases, inl, inr, ◌>>=◌,
}
use flux_operator.Base.Sort.{IsSort}
use flux_operator.Api.Report.{FluxComponentStatus}
use flux_operator.Reporter.Items.{Items}
use flux_operator.Reporter.Cluster.{Cluster, FluxStatusReporter}
use flux_operator.Reporter.Components.{
  component_of, components_of, get_components_status, by_name, first_image,
}

-- A chain that went well began well.
bound_ok :
    {A B : Type 0} (m : Result A) (f : A → Result B) {b : B}
    → m >>= f ≡ ok b
    → (a : A) × (m ≡ ok a) × (f a ≡ ok b)
bound_ok (ok a) f h = (a, refl, h)
bound_ok (err e) f h = absurd (cc)
bound_ok panic f h = absurd (cc)

module _ {items : Items} {W : Type 0} (cluster : Cluster items W) where
  component_of-name :
      (d : items.Item) {c : FluxComponentStatus}
      → component_of cluster d ≡ ok c
      → c.name ≡ items.name d
  unfolding component_of
  component_of-name d {c} h = elim (Result-cases (cluster.compute_status d)) [
    | inl (s, e) ↦
        let k : first_image (cluster.containers d) >>= _ ≡ ok c = rw (component_of, e) at h in
        let (i, p, q) = bound_ok (first_image (cluster.containers d)) _ k in
        ap (λ z. z.name) (sym (ok_injective q))
    | inr (inl (x, e)) ↦
        let k : first_image (cluster.containers d) >>= _ ≡ ok c = rw (component_of, e) at h in
        let (i, p, q) = bound_ok (first_image (cluster.containers d)) _ k in
        ap (λ z. z.name) (sym (ok_injective q))
    | inr (inr e) ↦ absurd (let k : panic ≡ ok c = rw (component_of, e) at h in cc)
  ]

  components_of-names :
      (ds : List items.Item) {cs : List FluxComponentStatus}
      → components_of cluster ds ≡ ok cs
      → map (λ c. c.name) cs ≡ map items.name ds
  unfolding components_of
  components_of-names [] {cs} h = ap (map (λ c. c.name)) (sym (ok_injective {a = []} {b = cs} h))
  components_of-names (d ∷ ds) {cs} h =
      let (c, p, k) = bound_ok (component_of cluster d) _ h in
      let (rest, q, j) = bound_ok (components_of cluster ds) _ k in
      let e : c ∷ rest ≡ cs = ok_injective j in
      ap (map (λ c. c.name)) (sym e)
      ∙ (ap (λ n. n ∷ map (λ c. c.name) rest) (component_of-name d p)
          ∙ ap (λ n. items.name d ∷ n) (components_of-names ds q))

  -- Where the sort is one, the Deployments were listed and nothing panics, the components that are
  -- reported are these Deployments, each as often as it was listed, by their names and in the
  -- order of these.
  get_components_status-names :
      IsSort (by_name cluster) (cluster.stable_sort (by_name cluster))
      → (r : FluxStatusReporter) (w : W) {ds : List items.Item} {v : W}
        {cs : List FluxComponentStatus}
      → cluster.list_items "apps/v1" "Deployment" r.namespace r.label_selector w ≡ (ok ds, v)
      → (get_components_status cluster r w).0 ≡ ok cs
      → Perm (map (λ c. c.name) cs) (map items.name ds)
        × Pairwise (λ a b. by_name cluster b a ≡ false) cs
  unfolding get_components_status
  get_components_status-names s r w {ds} {v} {cs} l h =
      let k : components_of cluster ds >>= (λ xs. ok (cluster.stable_sort (by_name cluster) xs))
          ≡ ok cs =
        rw (get_components_status, l) at h in
      let (xs, p, q) = bound_ok (components_of cluster ds) _ k in
      let e : cluster.stable_sort (by_name cluster) xs ≡ cs = ok_injective q in
      (
        rw (← e) (rw (← components_of-names ds p) (Perm.map (λ c. c.name) (s.perm xs))),
        rw (← e) (s.sorted xs),
      )

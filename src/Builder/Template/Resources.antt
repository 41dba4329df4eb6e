-- ===== src/Builder/Template/Resources.antt =====
-- The resources that the kustomizations list.
use text.Mathlib.TextLemmas.{nil-append, append-nil, append_assoc}
use flux_operator.Base.{
  String, ◌<>◌, ℕ, suc, ◌≡◌, refl, Bool, List, [], ◌∷◌, ◌==◌, ok, Bool-cases, inl, inr,
  if◌then◌else◌, ◌||◌,
}
use flux_operator.Builder.Options.{Options}
use flux_operator.Builder.Template.Value.{Value, string, int, get_field, find_field}
use flux_operator.Builder.Template.Run.{Vars, each, run, eval}
use flux_operator.Builder.Template.Data.{texts, data_of, render}
use flux_operator.Builder.Template.Shard.{shard_resource, shard_patches, kustomization_shard_tmpl}

-- The controllers that a shard has a copy of.
abbrev pub is_sharded : String → Bool
is_sharded c = c == "source-controller" || (c == "kustomize-controller" || c == "helm-controller")

-- The entries for the components that are sharded, in their order.
pub shard_entries : List String → String
shard_entries [] = ""
shard_entries (c ∷ cs) =
    let rest = shard_entries cs in
    if is_sharded c then ("\n  - ../" <> (c <> ".yaml")) <> rest else rest

run-shard_resource :
    (c : String) (d : Value) (i : ℕ) (vars : Vars)
    → run shard_resource d (("component", string c) ∷ ("i", int i) ∷ vars)
      ≡ ok (if is_sharded c then "\n  - ../" <> (c <> ".yaml") else "")
unfolding run shard_resource
run-shard_resource c d i vars = elim (Bool-cases (c == "source-controller")) [
  | inl a ↦ rw a (simp append-nil)
  | inr a ↦ elim (Bool-cases (c == "kustomize-controller")) [
    | inl b ↦ rw (a, b) (simp append-nil)
    | inr b ↦ elim (Bool-cases (c == "helm-controller")) [
      | inl h ↦ rw (a, b, h) (simp append-nil)
      | inr h ↦ rw (a, b, h)
    ]
  ]
]

each-shard_resource :
    (cs : List String) (i : ℕ) (vars : Vars)
    → each (λ n y. run shard_resource y (("component", y) ∷ ("i", int n) ∷ vars)) i (texts cs)
      ≡ ok (shard_entries cs)
unfolding each texts shard_entries
each-shard_resource [] i vars = refl
each-shard_resource (c ∷ cs) i vars = elim (Bool-cases (is_sharded c)) [
  | inl a ↦ rw (run-shard_resource c (string c) i vars, each-shard_resource cs (suc i) vars, a)
  | inr a ↦
      rw (run-shard_resource c (string c) i vars, each-shard_resource cs (suc i) vars, a)
        (simp nil-append)
]

-- What follows the resources does not depend on the components.
tail_text :
    (o : Options)
    → (s : String) × ((cs : List String)
        → run shard_patches (data_of (record o { components = cs })) [] ≡ ok s)
unfolding run data_of shard_patches eval get_field find_field
tail_text o = (_, λ cs. refl)

-- Between texts that do not depend on the components, the kustomization of a shard lists the
-- source, the kustomize and the helm controllers among the components, and no other component.
pub render-shard_entries :
    (o : Options)
    → (head : String) × (tail : String) × ((cs : List String)
        → render kustomization_shard_tmpl (record o { components = cs })
          ≡ ok (head <> (shard_entries cs <> tail)))
unfolding render kustomization_shard_tmpl run data_of
render-shard_entries o =
    let (t, p) = tail_text o in
    (
      "---"
          <> ("\napiVersion: kustomize.config.k8s.io/v1beta1"
              <> ("\nkind: Kustomization" <> ("\nnamespace: " <> (o.namespace <> "\nresources:")))),
      t,
      λ cs. rw (each-shard_resource cs 0 [], p cs) (simp append_assoc),
    )

-- ===== src/Builder/Template/Listed.antt =====
-- The resources and the images that the main kustomization of a build lists, and the loops of its
-- template that print them.
pub mod Rendered
use text.Mathlib.TextLemmas.{nil-append, append-nil, append_assoc}
use flux_operator.Base.{
  String, ◌<>◌, ℕ, suc, ◌≡◌, refl, Bool, true, false, not, Option, none, some, List, [], ◌∷◌, ◌++◌,
  map, ◌==◌, ok, Bool-cases, inl, inr, if◌then◌else◌,
}
use flux_operator.Api.Conditions.{is_some}
use flux_operator.Builder.Options.{ComponentImage, ArtifactStorage, Sync, Options}
use flux_operator.Builder.Template.Syntax.{literal, print, dot, end, ◌⨾◌}
use flux_operator.Builder.Template.Value.{string, bool, truth}
use flux_operator.Builder.Template.Run.{Vars, each, run}
use flux_operator.Builder.Template.Data.{
  texts, image_value, image_values, storage_value, sync_value, data_of, render,
}
use flux_operator.Builder.Template.Kustomization.{
  image_entry, component_patches, kustomization_tmpl, component_patch, notification_patch,
  source_patch, storage_patch, other_patch, shards_patch,
}
use flux_operator.Builder.Template.Typing.{
  a_string, a_bool, a_pointer, HasType, Matches, bind, empty, checks,
}
use flux_operator.Builder.Template.Typing.Sound.{run-ok}
use flux_operator.Builder.Template.Renders.{
  storage_row, sync_row, storage_value-HasType, sync_value-HasType, data_of-HasType,
}

-- The resources: the namespace, the network policies, the roles, the components, the shards, the
-- volume and the sync.
unfoldable pub resources : Options → List String
resources o =
    "namespace.yaml"
    ∷ ((if o.network_policy then "policies.yaml" ∷ [] else [])
        ++ ("roles"
            ∷ (map (λ c. c <> ".yaml") o.components
                ++ (o.shards
                    ++ ((if is_some o.artifact_storage then "pvc.yaml" ∷ [] else [])
                        ++ (if is_some o.sync then "sync.yaml" ∷ [] else []))))))

-- What stands in front of the resources.
abbrev pub heading : String → String
heading namespace =
    "---"
    <> ("\napiVersion: kustomize.config.k8s.io/v1beta1"
        <> ("\nkind: Kustomization"
            <> ("\nnamespace: "
                <> (namespace
                    <> ("\ntransformers:"
                        <> ("\n  - annotations.yaml"
                            <> ("\n  - labels.yaml" <> "\nresources:")))))))

pub entries : List String → String
entries [] = ""
entries (e ∷ es) = ("\n  - " <> e) <> entries es

pub image_text : ComponentImage → String
image_text i =
    "\n  - name: fluxcd/"
    <> (i.name
        <> ("\n    newName: "
            <> (i.repository
                <> ("\n    newTag: "
                    <> (i.tag <> (if i.digest == "" then "" else "\n    digest: " <> i.digest))))))

pub image_texts : List ComponentImage → String
image_texts [] = ""
image_texts (i ∷ is) = image_text i <> image_texts is

-- The images, none if there is no registry.
unfoldable pub images : Options → String
images o = if o.registry == "" then "" else "\nimages:" <> image_texts o.component_images

pub entries-append : (xs ys : List String) → entries (xs ++ ys) ≡ entries xs <> entries ys
unfolding entries
entries-append [] ys = rw nil-append
entries-append (x ∷ xs) ys = rw (entries-append xs ys) (simp append_assoc)

pub each-components :
    (cs : List String) (i : ℕ) (vars : Vars)
    → each (λ n y. run (literal "\n  - " ⨾ print dot ⨾ literal ".yaml" ⨾ end) y vars) i (texts cs)
      ≡ ok (entries (map (λ c. c <> ".yaml") cs))
unfolding each texts entries run
each-components [] i vars = refl
each-components (c ∷ cs) i vars =
    rw (each-components cs (suc i) vars) (simp (append_assoc, nil-append))

pub each-shards :
    (cs : List String) (i : ℕ) (vars : Vars)
    → each (λ n y. run (literal "\n  - " ⨾ print dot ⨾ end) y vars) i (texts cs) ≡ ok (entries cs)
unfolding each texts entries run
each-shards [] i vars = refl
each-shards (c ∷ cs) i vars = rw (each-shards cs (suc i) vars) (simp (append_assoc, append-nil))

run-image_entry :
    (i : ComponentImage) (vars : Vars) → run image_entry (image_value i) vars ≡ ok (image_text i)
unfolding run image_entry image_value image_text
run-image_entry i vars = elim (Bool-cases (i.digest == "")) [
  | inl h ↦ rw h (simp append-nil)
  | inr h ↦ rw h (simp append-nil)
]

pub each-image_entry :
    (is : List ComponentImage) (n : ℕ) (vars : Vars)
    → each (λ n y. run image_entry y vars) n (image_values is) ≡ ok (image_texts is)
unfolding each image_values image_texts
each-image_entry [] n vars = refl
each-image_entry (i ∷ is) n vars = rw (run-image_entry i vars, each-image_entry is (suc n) vars)

pub if_ok : (b : Bool) (x y : String) → (if b then ok x else ok y) ≡ ok (if b then x else y)
if_ok true x y = refl
if_ok false x y = refl

pub if_not :
    (s x y : String) → (if not (s == "") then ok x else ok y) ≡ ok (if s == "" then y else x)
if_not s x y = elim (Bool-cases (s == "")) [ inl h ↦ rw h | inr h ↦ rw h ]

pub entries-if :
    (b : Bool) (e : String) → entries (if b then e ∷ [] else []) ≡ (if b then "\n  - " <> e else "")
unfolding entries
entries-if true e = rw append-nil
entries-if false e = refl

pub truth-storage_value : (s : Option ArtifactStorage) → truth (storage_value s) ≡ is_some s
unfolding storage_value
truth-storage_value none = refl
truth-storage_value (some s) = refl

pub truth-sync_value : (s : Option Sync) → truth (sync_value s) ≡ is_some s
unfolding sync_value
truth-sync_value none = refl
truth-sync_value (some s) = refl

-- ===== src/Reporter/Metrics/Laws.antt =====
-- The labels that are set are the labels that the gauges are declared with.
use flux_operator.Base.{
  String, ◌≡◌, refl, sym, ap, none, some, [], ◌∷◌, ◌++◌, Dict, insert, ok, ◌==◌, arith, Bool-cases,
  Result-cases, Option-cases, inl, inr,
}
use mathlib.Core.List.{Perm, perm_append_comm}
use mathlib.Core.List.Perm
use flux_operator.Api.Instance.{disabled_by}
use flux_operator.Builder.Options.{contain_element_string}
use flux_operator.Reporter.Items.{Items}
use flux_operator.Reporter.Metrics.{
  instance_labels, resource_labels, is_suspended, is_oci, text_or_empty, assign_if,
  common_labels_to_values, label_kind, label_resource, flux_labels_to_values, label_instance,
}
use flux_operator.Reporter.Metrics.Keys.{
  either, empty_labels, filled, keys, keys-assign_if, keys-insert_new, keys-label_conditions, put,
  set, start,
}

module _ (is : Items) where
  starts :
      {obj : is.Item} {r : Dict String}
      → is.condition_maps obj ≡ none
      → common_labels_to_values is obj ≡ ok r
      → (("uid", is.uid obj)
          ∷ ("kind", is.kind obj)
          ∷ ("name", is.name obj)
          ∷ ("exported_namespace", is.namespace obj)
          ∷ ("ready", "Unknown")
          ∷ ("reason", "")
          ∷ [])
        ≡ r
  unfolding common_labels_to_values
  starts n h = ground arith

  keys-common_labels :
      (obj : is.Item) {r : Dict String} → common_labels_to_values is obj ≡ ok r → keys r ≡ start
  unfolding common_labels_to_values
  keys-common_labels obj {r} h = elim (Option-cases (is.condition_maps obj)) [
    | inl n ↦ ap keys (sym (starts n h))
    | inr (cs, e) ↦ keys-label_conditions cs _ refl (rw (common_labels_to_values, e) at h)
  ]

  keys-label_resource :
      (obj : is.Item) (m : Dict String)
      → keys m ≡ start
      → keys (label_resource is obj m) ≡ resource_labels
  unfolding label_resource contain_element_string
  keys-label_resource obj m e =
      elim (Bool-cases (is_suspended is (is.nested_bool obj ("spec" ∷ "suspend" ∷ [])))) [
        | inl y ↦
            rw (label_resource, y)
              (filled _ _ _ _ _ (put "suspended" "True" _ refl (empty_labels m e)))
        | inr n ↦ rw (label_resource, n) (filled _ _ _ _ _ (empty_labels m e))
      ]

  keys-label_kind :
      (k : String) (obj : is.Item) (m : Dict String)
      → keys m ≡ resource_labels
      → keys (label_kind is k obj m) ≡ resource_labels
  unfolding label_kind contain_element_string
  keys-label_kind k obj m e = either _ _ (k == "Kustomization") (set "path" _ m refl e) (
      either _ _ (k == "GitRepository")
        (set "ref" _ _ refl (set "ref" _ _ refl (set "ref" _ _ refl (set "ref" _ m refl e))))
        (either _ _ (k == "OCIRepository") (set "ref" _ _ refl (set "ref" _ m refl e)) (
          either _ _ (k == "Bucket") (set "ref" _ _ refl (set "url" _ m refl e)) (
            either _ _ (k == "HelmRelease")
              (set "source_name" _ _ refl (set "source_name" _ m refl e))
              (either _ _ (k == "HelmRepository")
                (either _ _ (is_oci is (is.nested_string obj ("spec" ∷ "type" ∷ [])))
                  (put "ready" "True" m refl e) e)
                (either _ _ (k == "Alert") (put "ready" "True" m refl e) (
                  either _ _ (k == "Provider") (put "ready" "True" m refl e) (
                    either _ _ (k == "Receiver") (set "url" _ m refl e) (
                      either _ _ (k == "ImageRepository") (set "url" _ m refl e)
                        (either _ _ (k == "ImagePolicy") (set "source_name" _ m refl e) e))))))))))

  -- The labels that are computed for a resource are the labels that its gauge is declared with,
  -- each once and in the same order, whatever the kind and the fields of the resource.
  keys-flux_labels :
      (obj : is.Item) {r : Dict String}
      → flux_labels_to_values is obj ≡ ok r
      → keys r ≡ resource_labels
  unfolding flux_labels_to_values
  keys-flux_labels obj {r} h = elim (Result-cases (common_labels_to_values is obj)) [
    | inl (labels, e) ↦
        let same : label_kind is (is.kind obj) obj (label_resource is obj labels) ≡ r =
          ground arith in
        rw (← same) (
          keys-label_kind (is.kind obj) obj _
            (keys-label_resource obj labels (keys-common_labels obj e)))
    | inr (inl (x, e)) ↦ absurd (ground arith)
    | inr (inr e) ↦ absurd (ground arith)
  ]

  -- The labels of an instance are those that its gauge is declared with, in another order.
  keys-label_instance :
      (obj : is.Item) {m : Dict String}
      → common_labels_to_values is obj ≡ ok m
      → Perm (keys (label_instance is obj m)) instance_labels
  unfolding label_instance contain_element_string assign_if
  keys-label_instance obj {m} h = rw labelled (
      Perm.cons _ (
        Perm.cons _ (
          Perm.cons _ (
            Perm.cons _ (
              Perm.cons _ (
                Perm.cons _
                  (perm_append_comm ("registry" ∷ "revision" ∷ []) ("suspended" ∷ []))))))))
    where
      base :
          keys (
            insert "suspended" "False" (
              insert "revision"
                (text_or_empty is (is.nested_string obj ("status" ∷ "lastAppliedRevision" ∷ [])))
                (insert "registry"
                  (text_or_empty is
                    (is.nested_string obj ("spec" ∷ "distribution" ∷ "registry" ∷ [])))
                  m)))
          ≡ start ++ "registry" ∷ "revision" ∷ "suspended" ∷ []
      base = keys-insert_new "suspended" "False" _ refl (
          keys-insert_new "revision" _ _ refl
            (keys-insert_new "registry" _ m refl (keys-common_labels obj h)))

      labelled :
          keys (label_instance is obj m) ≡ start ++ "registry" ∷ "revision" ∷ "suspended" ∷ []
      labelled = elim (Bool-cases (disabled_by (is.annotations obj))) [
        | inl y ↦ rw (label_instance, y) (keys-assign_if "suspended" (some "True") _ refl base)
        | inr n ↦ rw (label_instance, n) base
      ]

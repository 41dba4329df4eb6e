-- ===== src/Builder/Build/Provided.antt =====
-- What the kustomization of a build lists is there when kustomize reads it.
use mathlib.Core.List.{Memᴰ}
use mathlib.Core.Path.{subst}
use flux_operator.Base.{
  String, ◌<>◌, ◌≡◌, refl, ap, Bool, true, false, List, [], ◌∷◌, ◌++◌, Result, Result-cases, inl,
  inr, All, if◌then◌else◌,
}
use flux_operator.Inventory.{Objects}
use flux_operator.Builder.Options.{Options, contain_element_string}
use flux_operator.Builder.Template.Listed.{heading, entries, resources, images}
use flux_operator.Builder.Template.Listed.Rendered.{render-entries}
use flux_operator.Builder.Build.{with_events, build}
use flux_operator.Builder.Build.Calls.{
  Call, written, copied, built, recorder, calls, text_of, generate-calls,
}
use flux_operator.Builder.Build.Resources.{Provided, Ships, mem-kustomization, calls-Provided}

module _ (join : List String → String) (content : String → String) (manifests base : String) where
  -- What holds of the resources of a log of calls, for the text behind the images.
  abbrev Lists : List Call → (String → List String) → String → Options → Type 0
  Lists log listing tail o =
      Memᴰ
        (written (join (base ∷ "kustomization.yaml" ∷ []))
          (heading o.namespace <> (entries (resources o) <> (images o <> ("\npatches:" <> tail)))))
        log
      × All (Provided join base log listing) (resources o)

  -- The events address is in none of it.
  without_events :
      (log : List Call) (listing : String → List String) (tail : String) (o : Options) (b : Bool)
      (e : String)
      → Lists log listing tail (if b then record o { events_addr = e } else o)
      → Lists log listing tail o
  unfolding resources images
  without_events log listing tail o true e h = h
  without_events log listing tail o false e h = h

  with_events-Ships :
      (shipped : List String) (o : Options) (b : Bool) (e : String)
      → Ships shipped o
      → Ships shipped (if b then record o { events_addr = e } else o)
  with_events-Ships shipped o true e h = h
  with_events-Ships shipped o false e h = h

  -- What a build does, whether or not its manifests can be read.
  build-calls :
      (os : Objects) (read_objects : String → Result (List os.Object)) (digest_of : String → String)
      (src : String) (o : Options)
      → (build (recorder join content manifests) os read_objects digest_of src base o []).1
        ≡ copied src base ∷ (calls join content manifests base (with_events o) ++ built base ∷ [])
  unfolding build
  build-calls os read_objects digest_of src o =
      let made = generate-calls join content manifests base o (copied src base ∷ []) in
      elim (Result-cases (read_objects manifests)) [
        | inl (objects, p) ↦ rw (made, p) refl
        | inr (inl (e, p)) ↦ rw (made, p) refl
        | inr (inr p) ↦ rw (made, p) refl
      ]

  -- Where nothing fails and the source directory has the files of the components and, if they are
  -- asked for, of the network policies, the kustomization that a build writes has the block of
  -- resources of the options, and each of these resources is there before kustomize reads it: a file
  -- or a directory of its name is written, or it is a file of a directory that is copied here.
  pub build-Provided :
      (os : Objects) (read_objects : String → Result (List os.Object)) (digest_of : String → String)
      (src : String) (o : Options) (listing : String → List String)
      → (o.network_policy ≡ true → Memᴰ "policies.yaml" (listing src))
      → ((c : String) → Memᴰ c o.components → Memᴰ (c <> ".yaml") (listing src))
      → (log : List Call) × (tail : String) × ((build
            (recorder join content manifests)
            os
            read_objects
            digest_of
            src
            base
            o
            []).1
          ≡ log ++ built base ∷ [])
        × Memᴰ
            (written (join (base ∷ "kustomization.yaml" ∷ [])) (
              heading o.namespace
              <> (entries (resources o) <> (images o <> ("\npatches:" <> tail)))))
            log
        × All (Provided join base log listing) (resources o)
  unfolding with_events
  build-Provided os read_objects digest_of src o listing policies components =
      let u = with_events o in
      let log = copied src base ∷ calls join content manifests base u in
      let (tail, p) = render-entries u in
      let sent = contain_element_string o.components o.notification_controller in
      let lists = without_events log listing tail o sent _ (
        subst (λ s. Memᴰ (written (join (base ∷ "kustomization.yaml" ∷ [])) s) log) (ap text_of p)
            (mem-kustomization join content manifests base src u),
        calls-Provided join content manifests base src u listing
            (with_events-Ships (listing src) o sent _ (policies, components)),
      ) in
      (log, tail, build-calls os read_objects digest_of src o, lists.0, lists.1)

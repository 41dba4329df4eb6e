-- ===== src/Builder/Build/Resources.antt =====
-- The resources that a kustomization lists are among the calls of a build.
use mathlib.Core.List.{Memᴰ}
use mathlib.Core.List.Memᴰ
use flux_operator.Base.{
  String, ◌<>◌, ◌≡◌, refl, Bool, true, false, List, [], ◌∷◌, ◌++◌, map, All, All-append,
  if◌then◌else◌,
}
use flux_operator.Api.Conditions.{is_some}
use flux_operator.Builder.Options.{Options}
use flux_operator.Builder.Template.Kustomization.{kustomization_tmpl}
use flux_operator.Builder.Template.Shard.{kustomization_shard_tmpl}
use flux_operator.Builder.Template.Manifests.{kustomization_roles_tmpl, namespace_tmpl, pvc_tmpl}
use flux_operator.Builder.Template.SyncTemplate.{sync_tmpl}
use flux_operator.Builder.Template.Listed.{resources}
use flux_operator.Builder.Build.Calls.{
  Call, written, copied, made, shard_calls, on, wrote, calls, first_calls, pvc_calls, sync_calls,
  last_calls, namespace_calls, printed,
}

-- A resource is a file that was written, a directory that was made with a kustomization in it, the
-- directory of the roles, or a file of a directory that was copied here. `listing` has the files of
-- each directory before the build.
pub data Provided (join : List String → String) (base : String) (log : List Call)
    (listing : String → List String) (r : String) : Type 0 where
  file :
      {s : String} → Memᴰ (written (join (base ∷ r ∷ [])) s) log → Provided join base log listing r
  directory :
      {s : String}
      → Memᴰ (made (join (base ∷ r ∷ []))) log
      → Memᴰ (written (join (base ∷ r ∷ "kustomization.yaml" ∷ [])) s) log
      → Provided join base log listing r
  roles :
      {s : String}
      → r ≡ "roles"
      → Memᴰ
          (copied (join (base ∷ "rbac.yaml" ∷ [])) (join (base ∷ "roles" ∷ "rbac.yaml" ∷ [])))
          log
      → Memᴰ (written (join (base ∷ "roles" ∷ "kustomization.yaml" ∷ [])) s) log
      → Provided join base log listing r
  manifest :
      {src : String}
      → Memᴰ (copied src base) log
      → Memᴰ r (listing src)
      → Provided join base log listing r

All-map_mem :
    {A B : Type 0} (P : B → Type 0) (f : A → B) (xs : List A)
    → ((x : A) → Memᴰ x xs → P (f x))
    → All P (map f xs)
All-map_mem P f [] h = tt
All-map_mem P f (x ∷ xs) h = (h x (Memᴰ.head refl), All-map_mem P f xs (λ y m. h y (Memᴰ.tail m)))

All-if :
    {A : Type 0} (P : A → Type 0) (b : Bool) (x : A)
    → (b ≡ true → P x)
    → All P (if b then x ∷ [] else [])
All-if P true x h = (h refl, tt)
All-if P false x h = tt

mem-on : (b : Bool) {c : Call} {cs : List Call} → b ≡ true → Memᴰ c cs → Memᴰ c (on b cs)
mem-on true h m = m
mem-on false h m = absurd (cc)

mem-wrote : (f s : String) → Memᴰ (written f s) (wrote f s)
unfolding wrote
mem-wrote f s = Memᴰ.tail (Memᴰ.head refl)

-- The files of the source directory are those of the options.
abbrev pub Ships : List String → Options → Type 0
Ships shipped o =
    (o.network_policy ≡ true → Memᴰ "policies.yaml" shipped)
    × ((c : String) → Memᴰ c o.components → Memᴰ (c <> ".yaml") shipped)

module _ (join : List String → String) (content : String → String) (manifests base : String) where
  abbrev shard_files : Options → String → List Call
  shard_files o s =
      wrote (join (base ∷ s ∷ "kustomization.yaml" ∷ []))
        (printed kustomization_shard_tmpl (record o { shard_name = s }))

  -- Each shard has its directory.
  shard_calls-Provided :
      (o : Options) (listing : String → List String) (shards : List String) (log : List Call)
      → ((c : Call) → Memᴰ c (shard_calls join content manifests base o shards) → Memᴰ c log)
      → All (Provided join base log listing) shards
  unfolding shard_calls
  shard_calls-Provided o listing [] log sub = tt
  shard_calls-Provided o listing (s ∷ shards) log sub = (
    directory (sub _ (Memᴰ.head refl)) (
        sub _ (
          Memᴰ.tail (
            Memᴰ.append_left {s = shard_files o s} _
              (mem-wrote _ (printed kustomization_shard_tmpl (record o { shard_name = s })))))),
    shard_calls-Provided (record o { shard_name = s }) listing shards log
        (λ c m. sub c (Memᴰ.tail (Memᴰ.append_right (shard_files o s) m))),
  )

  module _ (src : String) (o : Options) where
    abbrev all_calls : List Call
    all_calls = copied src base ∷ calls join content manifests base o

    abbrev first : List Call
    first = first_calls join content manifests base o

    abbrev pvc : List Call
    pvc = pvc_calls join content manifests base o

    abbrev sync : List Call
    sync = sync_calls join content manifests base o

    abbrev last : List Call
    last = last_calls join content manifests base o

    mem-last_calls : {c : Call} → Memᴰ c last → Memᴰ c all_calls
    unfolding calls
    mem-last_calls m =
        Memᴰ.tail (Memᴰ.append_right first (Memᴰ.append_right pvc (Memᴰ.append_right sync m)))

    mem-pvc :
        is_some o.artifact_storage ≡ true
        → Memᴰ (written (join (base ∷ "pvc.yaml" ∷ [])) (printed pvc_tmpl o)) all_calls
    unfolding calls pvc_calls
    mem-pvc h = Memᴰ.tail (
        Memᴰ.append_right first
          (Memᴰ.append_left {s = pvc} (sync ++ last) (mem-on _ h (mem-wrote _ _))))

    mem-sync :
        is_some o.sync ≡ true
        → Memᴰ (written (join (base ∷ "sync.yaml" ∷ [])) (printed sync_tmpl o)) all_calls
    unfolding calls sync_calls
    mem-sync h = Memᴰ.tail (
        Memᴰ.append_right first
          (Memᴰ.append_right pvc (Memᴰ.append_left {s = sync} last (mem-on _ h (mem-wrote _ _)))))

    mem-namespace :
        Memᴰ (written (join (base ∷ "namespace.yaml" ∷ [])) (printed namespace_tmpl o)) all_calls
    unfolding calls first_calls
    mem-namespace =
        Memᴰ.tail (
          Memᴰ.append_left {s = first} (pvc ++ (sync ++ last)) (Memᴰ.append_left _ (mem-wrote _ _)))

    abbrev kustomization_calls : List Call
    kustomization_calls =
        wrote (join (base ∷ "kustomization.yaml" ∷ [])) (printed kustomization_tmpl o)

    abbrev roles_calls : List Call
    roles_calls =
        wrote (join (base ∷ "roles" ∷ "kustomization.yaml" ∷ []))
          (printed kustomization_roles_tmpl o)

    pub mem-kustomization :
        Memᴰ
          (written (join (base ∷ "kustomization.yaml" ∷ [])) (printed kustomization_tmpl o))
          all_calls
    unfolding last_calls
    mem-kustomization =
        mem-last_calls (Memᴰ.append_left {s = kustomization_calls} _ (mem-wrote _ _))

    mem-behind_kustomization :
        {c : Call}
        → Memᴰ c (
            copied (join (base ∷ "rbac.yaml" ∷ [])) (join (base ∷ "roles" ∷ "rbac.yaml" ∷ []))
            ∷ (roles_calls
                ++ (namespace_calls join content manifests base o
                    ++ shard_calls join content manifests base o o.shards)))
        → Memᴰ c all_calls
    unfolding last_calls
    mem-behind_kustomization m = mem-last_calls (Memᴰ.append_right kustomization_calls m)

    roles-Provided : (listing : String → List String) → Provided join base all_calls listing "roles"
    roles-Provided listing = roles refl (mem-behind_kustomization (Memᴰ.head refl)) (
        mem-behind_kustomization (
          Memᴰ.tail (
            Memᴰ.append_left {s = roles_calls} _
              (mem-wrote _ (printed kustomization_roles_tmpl o)))))

    pub calls-Provided :
        (listing : String → List String)
        → Ships (listing src) o
        → All (Provided join base all_calls listing) (resources o)
    unfolding resources
    calls-Provided listing (policies, components) =
        let P : String → Type 0 = Provided join base all_calls listing in
        (
          file mem-namespace,
          All-append P (if o.network_policy then "policies.yaml" ∷ [] else []) _
              (All-if P o.network_policy "policies.yaml"
                (λ h. manifest (Memᴰ.head refl) (policies h)))
              (
                roles-Provided listing,
                All-append P (map (λ c. c <> ".yaml") o.components) _
                    (All-map_mem P (λ c. c <> ".yaml") o.components
                      (λ c m. manifest (Memᴰ.head refl) (components c m)))
                    (All-append P o.shards _
                      (shard_calls-Provided o listing o.shards _ (λ c m. mem-behind_kustomization (
                        Memᴰ.tail (
                          Memᴰ.append_right roles_calls (
                            Memᴰ.append_right (namespace_calls join content manifests base o) m)))))
                      (All-append P (if is_some o.artifact_storage then "pvc.yaml" ∷ [] else []) _
                        (All-if P (is_some o.artifact_storage) "pvc.yaml" (λ h. file (mem-pvc h)))
                        (All-if P (is_some o.sync) "sync.yaml" (λ h. file (mem-sync h))))),
              ),
        )

-- ===== src/Instance/Uninstall/Laws.antt =====
-- What the uninstallation does to the object, whatever the cluster answers.
use flux_operator.Base.{
  String, ◌≡◌, refl, true, false, not, Option, none, some, List, [], ◌∷◌, Error, ok, panic, ◌⊎◌,
  inl, inr, filter, Bool-cases, Option-cases, Result-cases, ◌≢◌, ◌==◌, ◌||◌,
}
use flux_operator.Base.Int.{minutes}
use flux_operator.Base.Calm.{
  Calm, Sure, return-Sure, Sure-Calm, then-Sure, then-Calm, log_only-Sure, caught-Sure, act-Calm,
  when-Sure,
}
use flux_operator.Base.Effect.{M, lift}
use flux_operator.Api.Instance.{
  FluxInstance, ResourceRef, ResourceInventory, finalizer, is_disabled, prune_annotation,
  disabled_value,
}
use flux_operator.Inventory
use flux_operator.Api.Conditions.{is_some}
use flux_operator.Builder.Options.{contain_element_string}
use flux_operator.Instance.Env.{Env, State}
use flux_operator.Instance.Uninstall.{
  uninstall, remove_finalizer, has_entries, listed, delete_resources, join_errors, joined,
  clear_all, remove_for_kinds, remove_finalizers_for, remove_flux_finalizers, flux_kinds,
}

contain_element_string-filter :
    (xs : List String) (x : String)
    → contain_element_string (filter (λ f. not (f == x)) xs) x ≡ false
unfolding contain_element_string
contain_element_string-filter [] x = refl
contain_element_string-filter (y ∷ xs) x = elim (Bool-cases (y == x)) [
  | inl e ↦ rw e (contain_element_string-filter xs x)
  | inr e ↦ rw e (rw e (contain_element_string-filter xs x))
]

-- What is documented of the calls: they return their errors, and none of them panics. A retry
-- panics only if what it calls does.
pub record Steady (env : Env) : Type 1 where
  pub parse_id : (s : String) → env.objects.parse_id s ≢ panic
  pub delete_all :
      (os : List env.objects.Object) (name namespace a v : String) (w : env.World)
      → (env.manager.delete_all os name namespace a v w).0 ≢ panic
  pub list_resources :
      (v kind : String) (w : env.World) → (env.kube.list_resources v kind w).0 ≢ panic
  pub retry_on_conflict :
      (m : M env.World (Unit {0}))
      → ((w : env.World) → (m w).0 ≢ panic)
      → (w : env.World) → (env.kube.retry_on_conflict m w).0 ≢ panic

module _ (env : Env) where
  open env use {World, objects, kube, manager}

  module _ (steady : Steady env) where
    objects_of-steady : (es : List ResourceRef) → Inventory.objects_of objects es ≢ panic
    unfolding Inventory.objects_of
    objects_of-steady [] = λ q. cc
    objects_of-steady (e ∷ es) = elim (Result-cases (objects.parse_id e.id)) [
      | inl (m, p) ↦ elim (Result-cases (Inventory.objects_of objects es)) [
        | inl (os, q) ↦ rw (p, q) (λ x. cc)
        | inr (inl (x, q)) ↦ rw (p, q) (λ x. cc)
        | inr (inr q) ↦ absurd (objects_of-steady es q)
      ]
      | inr (inl (x, p)) ↦ rw p (λ x. cc)
      | inr (inr p) ↦ absurd (steady.parse_id e.id p)
    ]

    listed-Sure : (inv : Option ResourceInventory) → Sure {S = World} (lift (listed objects inv))
    unfolding listed Inventory.list
    listed-Sure none = record { sure = λ w. ([], refl) }
    listed-Sure (some inv) = elim (Result-cases (Inventory.objects_of objects inv.entries)) [
      | inl (os, q) ↦ record { sure = λ w. (objects.sort os, rw (listed, q) refl) }
      | inr (inl (x, q)) ↦ record { sure = λ w. ([], rw (listed, q) refl) }
      | inr (inr q) ↦ absurd (objects_of-steady inv.entries q)
    ]

    joined-Calm : (es : List Error) (w : World) → (joined kube (es, w)).0 ≢ panic
    joined-Calm es w = elim (Option-cases (join_errors es)) [
      | inl p ↦ rw (joined, p) (λ q. cc)
      | inr (e, p) ↦ rw (joined, p) (λ q. cc)
    ]

    remove_for_kinds-Sure : (kinds : List (String × String)) → Sure (remove_for_kinds kube kinds)
    unfolding remove_for_kinds remove_finalizers_for
    remove_for_kinds-Sure [] = record { sure = λ w. ([], refl) }
    remove_for_kinds-Sure ((v, kind) ∷ kinds) =
        let calm =
          then-Calm (kube.list_resources v kind)
            (λ items w. joined kube (clear_all kube v kind items w))
            (record { calm = steady.list_resources v kind })
            (λ items. record {
              calm = λ w.
                  joined-Calm (clear_all kube v kind items w).0 (clear_all kube v kind items w).1;
            }) in
        then-Sure _ _ (caught-Sure _ (record { calm = steady.retry_on_conflict _ calm.calm }))
          (λ failed. then-Sure _ _ (remove_for_kinds-Sure kinds) (λ es. return-Sure _))

    remove_flux_finalizers-Calm : Calm (remove_flux_finalizers kube)
    unfolding remove_flux_finalizers
    remove_flux_finalizers-Calm =
        then-Calm (remove_for_kinds kube flux_kinds) (λ es w. joined kube (es, w))
          (Sure-Calm _ (remove_for_kinds-Sure flux_kinds)) (λ es. record { calm = joined-Calm es })

    deletion-Calm :
        (os : List objects.Object) (obj : FluxInstance)
        → Calm (manager.delete_all os obj.name obj.namespace prune_annotation disabled_value)
    deletion-Calm os obj = record { calm = steady.delete_all os _ _ _ _ }

    delete_resources-Sure : (obj : FluxInstance) → Sure (delete_resources env obj)
    unfolding delete_resources
    delete_resources-Sure obj = then-Sure _ _ (listed-Sure obj.status.inventory) (λ all.
        let deployments = filter (λ o. objects.get_kind o == "Deployment") all in
        then-Sure _ _ (caught-Sure _ (deletion-Calm deployments obj)) (λ failed.
          then-Sure _ _
            (when-Sure (not (is_some failed)) _
              (log_only-Sure _ (act-Calm (manager.wait_for_termination deployments (minutes 5)))))
            (λ _.
              then-Sure _ _ (log_only-Sure _ (deletion-Calm all obj))
                (λ _. log_only-Sure _ remove_flux_finalizers-Calm))))

    -- Where no call panics, an uninstallation returns without an error and leaves the object
    -- without the finalizer of the operator and otherwise as it was, whatever errors the calls
    -- return.
    pub uninstall-finalizer :
        (s : State World)
        → ((uninstall env s).0 ≡ ok tt)
          × ((uninstall env s).1.obj ≡ remove_finalizer s.obj)
          × (contain_element_string (uninstall env s).1.obj.finalizers finalizer ≡ false)
    unfolding uninstall remove_finalizer
    uninstall-finalizer s =
        let gone = contain_element_string-filter s.obj.finalizers finalizer in
        elim (Bool-cases (not (is_disabled s.obj || not (has_entries s.obj.status.inventory)))) [
          | inl e ↦
              let (_, p) = (delete_resources-Sure s.obj).sure s.rest.world in
              (rw (e, p) refl, rw (e, p) refl, rw (e, p) gone)
          | inr e ↦ (rw e refl, rw e refl, rw e gone)
        ]

  -- Whether or not a call panics, the object loses the finalizer at most.
  pub uninstall_kept :
      (s : State World)
      → ((uninstall env s).1.obj ≡ remove_finalizer s.obj) ⊎ ((uninstall env s).1.obj ≡ s.obj)
  unfolding uninstall
  uninstall_kept s =
      elim (Bool-cases (not (is_disabled s.obj || not (has_entries s.obj.status.inventory)))) [
        | inl e ↦ elim (Result-cases (delete_resources env s.obj s.rest.world).0) [
          | inl (a, p) ↦ inl (rw (e, p) refl)
          | inr (inl (x, p)) ↦ inr (rw (e, p) refl)
          | inr (inr p) ↦ inr (rw (e, p) refl)
        ]
        | inr e ↦ inl (rw e refl)
      ]

  -- Where the object is disabled or its inventory is missing or empty, the uninstallation leaves
  -- the cluster and the events as they were.
  uninstall-untouched :
      (s : State World)
      → (is_disabled s.obj ≡ true) ⊎ (has_entries s.obj.status.inventory ≡ false)
      → (uninstall env s).1.rest ≡ s.rest
  unfolding uninstall
  uninstall-untouched s (inl d) = rw d refl
  uninstall-untouched s (inr e) = elim (Bool-cases (is_disabled s.obj)) [
    | inl d ↦ rw d refl
    | inr d ↦ rw (d, e) refl
  ]

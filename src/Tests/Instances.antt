-- ===== src/Tests/Instances.antt =====
-- The theorems on the FluxInstance controller at concrete objects.
use flux_operator.Base.{
  List, panic, ◌≢◌, String, ◌==◌, eq_iff, Bool-cases, inl, inr, insert, ◌≡◌, ◌⊎◌, refl, Bool, true,
  false, none, some, Dict, [], ◌∷◌, ok, err, errorf, trim_suffix,
}
use flux_operator.Api.Conditions.{
  ready, reconciliation_failed, reconciliation_succeeded, is_true, is_false, condition,
}
use flux_operator.Api.Instance.{
  FluxInstance, finalizer, reconcile_annotation, is_disabled, disabled_by, get_wait,
  get_migrate_resources,
}
use flux_operator.Builder.Options.{contain_element_string}
use flux_operator.Builder.Pull.{get_artifact_digest}
use flux_operator.Inventory.{add_change_set, diff, list_metadata, sorted_stale, stale_of, created}
use flux_operator.Inventory
use flux_operator.Instance.Status.{requested_at, patch, notify, has_changed, requeue_after}
use flux_operator.Instance.Apply.{
  prepared, settle, collect_garbage, wait_for_changes, migrate, report_changes, log_of, changed,
  status_images, apply, send, record_applied, snapshot,
}
use flux_operator.Instance.Apply.Laws.{apply-recorded, apply_gc_lost}
use flux_operator.Instance.Env.{Kube}
use flux_operator.Instance.Artifact.{handle_artifact, requeue_artifact_after}
use flux_operator.Instance.Artifact.Laws.{handle_artifact-digest}
use flux_operator.Instance.Artifact.{artifact_update}
use flux_operator.Instance.Watch.{Predicates, instance_update}
use flux_operator.Instance.Watch.Laws.{PredicatesLaws, artifact_update-instance_update}
use flux_operator.Instance.Uninstall.{uninstall, remove_finalizer}
use flux_operator.Instance.Uninstall.Laws.{Steady, uninstall-finalizer}
use flux_operator.Instance.Reconcile.{roll_out, attempt}
use flux_operator.Instance.Request.{reconcile_object}
use flux_operator.Instance.Reconcile.Advance.{Kept, Completed}
use flux_operator.Instance.Reconcile.Progress.{roll_out-apply, roll_out-applied}
use flux_operator.Instance.Reconcile.Guards.{reconcile_object-last_applied}
use flux_operator.Tests.Data.{sample_objects, sample_objects-laws, config_map}
use flux_operator.Tests.World.{W, deletion, sample_env, sample_kube}
use flux_operator.Tests.Objects.{pulled, sample_instance, fresh, deployed, dying, built}

reconcile_object-last_applied_example :
    Kept fresh (reconcile_object sample_env sample_instance tt).1
    ⊎ Completed sample_env fresh
        (reconcile_object sample_env sample_instance tt).1.obj.status.last_applied_revision
reconcile_object-last_applied_example = reconcile_object-last_applied sample_env sample_instance tt

roll_out-applied_example :
    ((roll_out sample_env "d" (built ("app" ∷ [])) fresh).0
      ≡ ok (requeue_after sample_env.parse_duration sample_instance))
    × ((roll_out sample_env "d" (built ("app" ∷ [])) fresh).1.obj.status.last_attempted_revision
        ≡ "2.4.0@sha256:2")
    × ((roll_out sample_env "d" (built ("app" ∷ [])) fresh).1.obj.status.last_applied_revision
        ≡ "2.4.0@sha256:2")
    × ((roll_out sample_env "d" (built ("app" ∷ [])) fresh).1.obj.status.last_artifact_revision
        ≡ "d")
    × ((roll_out sample_env "d" (built ("app" ∷ [])) fresh).1.obj.status.conditions
        ≡ condition ready is_true reconciliation_succeeded "Reconciliation finished in 1s" ∷ [])
unfolding attempt patch apply send prepared settle diff list_metadata add_change_set sorted_stale
    stale_of snapshot record_applied collect_garbage wait_for_changes migrate report_changes notify
    get_wait get_migrate_resources Inventory.new trim_suffix log_of changed has_changed
roll_out-applied_example = roll_out-applied sample_env "d" (built ("app" ∷ [])) fresh _ _ refl refl

roll_out-apply_example :
    ((roll_out sample_env "d" (built []) fresh).0 ≡ err (errorf "nothing to apply"))
    × ((roll_out sample_env "d" (built []) fresh).1.obj.status.last_attempted_revision
        ≡ "2.4.0@sha256:2")
    × ((roll_out sample_env "d" (built []) fresh).1.obj.status.last_applied_revision
        ≡ "2.3.0@sha256:1")
    × ((roll_out sample_env "d" (built []) fresh).1.obj.status.conditions
        ≡ condition ready is_false reconciliation_failed "reconciliation failed: nothing to apply"
          ∷ [])
unfolding attempt patch apply send prepared
roll_out-apply_example = roll_out-apply sample_env "d" (built []) fresh _ _ _ refl refl

apply-recorded_example :
    (apply sample_env (built ("app" ∷ [])) fresh).1.obj.status ≡ record (sample_instance.status) {
      inventory = some (record { entries = record { id = "app"; version = "v1" } ∷ [] });
      components = [];
    }
unfolding send prepared add_change_set Inventory.new status_images
apply-recorded_example = apply-recorded sample_env (built ("app" ∷ [])) fresh _ _ refl

apply_gc_lost_example :
    ((apply sample_env (built ("kept" ∷ [])) deployed).0 ≡ err (errorf "delete failed"))
    × (diff sample_objects
          (snapshot (apply sample_env (built ("kept" ∷ [])) deployed).1.obj.status.inventory)
          (add_change_set sample_objects Inventory.new (
            some (
              record { obj_metadata = config_map "kept"; group_version = "v1"; action = created }
              ∷ [])))
        ≡ ok [])
unfolding send prepared diff list_metadata add_change_set sorted_stale stale_of snapshot
    Inventory.new
apply_gc_lost_example =
    apply_gc_lost sample_env sample_objects-laws (built ("kept" ∷ [])) deployed _ _ "stale" [] _ _
      refl refl refl refl

deletion_steady : (os : List String) (w : W) → (deletion os w).0 ≢ panic
deletion_steady [] w = λ q. cc
deletion_steady (o ∷ os) w = λ q. cc

-- The calls of the sample come back with a value or an error.
sample_env-Steady : Steady sample_env
sample_env-Steady = record {
  parse_id = λ s. elim (Bool-cases (s == "")) [ inl e ↦ rw e (λ q. cc) | inr n ↦ rw n (λ q. cc) ];
  delete_all = λ os name namespace a v w. deletion_steady os w;
  list_resources = λ v kind w. elim (Bool-cases (kind == "BrokenList")) [
    | inl e ↦ rw e (λ q. cc)
    | inr n ↦ rw n (λ q. cc)
  ];
  retry_on_conflict = λ m h. h;
}

uninstall-finalizer_example :
    ((uninstall sample_env dying).0 ≡ ok tt)
    × ((uninstall sample_env dying).1.obj ≡ remove_finalizer dying.obj)
    × (contain_element_string (uninstall sample_env dying).1.obj.finalizers finalizer ≡ false)
uninstall-finalizer_example = uninstall-finalizer sample_env sample_env-Steady dying

handle_artifact-digest_example :
    ((("sha256:1" == "sha256:0") ≡ true)
      × (handle_artifact sample_env (λ cs. true) (λ w. "now") pulled
          ≡ (ok (requeue_artifact_after sample_env.parse_duration pulled.obj), pulled)))
    ⊎ ((("sha256:1" == "sha256:0") ≡ false)
        × ((handle_artifact sample_env (λ cs. true) (λ w. "now") pulled).1 ≡ (
            let obj : FluxInstance = record (pulled.obj) {
              annotations = (requested_at, "now") ∷ [];
            } in
            record { obj = obj; rest = (patch sample_env obj pulled.rest).1 })))
unfolding get_artifact_digest is_disabled disabled_by insert
handle_artifact-digest_example =
    handle_artifact-digest sample_env (λ cs. true) (λ w. "now") pulled "sha256:1" tt refl refl refl

-- A cluster with a CRD that stores two versions.
abbrev bucket_kube : Kube W
bucket_kube = record sample_kube { list_crds = λ l v w. (ok ("buckets" ∷ []), w) }

String-discrete : Discrete String
String-discrete s t = elim (Bool-cases (s == t)) [
  | inl y ↦ yes ((eq_iff s t).0 y)
  | inr n ↦ no (λ e. cc ((eq_iff s t).1 e))
]

dict_decision : Discrete (Dict String)
dict_decision = hlevel (String-discrete)

abbrev differs : {A : Type 0} {x y : A} → Dec (x ≡ y) → Bool
differs (yes _) = false
differs (no _) = true

differs-false : {A : Type 0} {x y : A} (d : Dec (x ≡ y)) → differs d ≡ false → x ≡ y
differs-false (yes p) h = p
differs-false (no n) h = absurd (cc)

differs_self : {A : Type 0} {x : A} (d : Dec (x ≡ x)) → differs d ≡ false
differs_self (yes p) = refl
differs_self (no n) = absurd (n refl)

abbrev sample_predicates : Predicates
sample_predicates = record {
  generation_changed = λ a b. false;
  annotation_changed = λ a b. differs (dict_decision a.annotations b.annotations);
}

sample_predicates-laws : PredicatesLaws sample_predicates
sample_predicates-laws = record {
  same_annotations = λ a b h. differs-false (dict_decision a.annotations b.annotations) h;
  annotations_kept = λ a status. differs_self (dict_decision a.annotations a.annotations);
  generation_kept = λ a status. refl;
}

-- An instance that was disabled.
abbrev enabled_again : FluxInstance
enabled_again = record sample_instance { annotations = (reconcile_annotation, "disabled") ∷ [] }

artifact_update-instance_update_example :
    (instance_update sample_predicates enabled_again sample_instance ≡ true)
    × (instance_update sample_predicates sample_instance
          (record sample_instance { status = deployed.obj.status })
        ≡ false)
    × (artifact_update
          (λ s. none)
          sample_instance
          (record sample_instance { status = deployed.obj.status })
        ≡ false)
unfolding artifact_update is_disabled disabled_by
artifact_update-instance_update_example =
    artifact_update-instance_update (λ s. none) sample_predicates sample_predicates-laws
      enabled_again sample_instance deployed.obj.status refl

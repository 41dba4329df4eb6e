-- ===== src/Instance/Apply/Laws.antt =====
-- What `apply` leaves in the status of the object.
use flux_operator.Base.{◌≡◌, refl, some, List, [], ◌∷◌, ok, err, Error}
use flux_operator.Api.Instance.{prune_annotation, disabled_value}
use flux_operator.Builder.Options.{BuildResult}
use flux_operator.Inventory.{Objects, ChangeSetEntry, add_change_set, diff}
use flux_operator.Inventory
use flux_operator.Inventory.Laws.{IsObjects, diff_self}
use flux_operator.Instance.Env.{Env, State, Rest}
use flux_operator.Instance.Apply.{
  send, settle, apply, snapshot, record_applied, status_images, collect_garbage,
}

module _ (env : Env) where
  open env use {World, objects, manager}

  -- Where the objects are sent to the cluster, the status that `apply` leaves has the inventory of
  -- what was sent and the images of the build, and is otherwise the one before, whether or not the
  -- deletion of what is stale, the wait and the events that follow succeed.
  pub apply-recorded :
      (b : BuildResult objects.Object) (s : State World) (ch : List ChangeSetEntry) (t : Rest World)
      → send env b.objects s.obj s.rest ≡ (ok ch, t)
      → (apply env b s).1.obj.status ≡ record (s.obj.status) {
        inventory = some (add_change_set objects Inventory.new (some ch));
        components = status_images b.component_images;
      }
  unfolding apply record_applied
  apply-recorded b s ch t h = rw h refl

  -- Where sending the objects fails, `apply` fails with that error and leaves the object as it was.
  apply-unsent :
      (b : BuildResult objects.Object) (s : State World) (e : Error) (t : Rest World)
      → send env b.objects s.obj s.rest ≡ (err e, t)
      → apply env b s ≡ (err e, record s { rest = t })
  unfolding apply
  apply-unsent b s e t h = rw h

  -- A deletion of stale objects that fails makes `apply` fail, yet the status already holds the new
  -- inventory, so that the next apply of the same inventory finds nothing stale to delete.
  pub apply_gc_lost :
      (l : IsObjects objects) (b : BuildResult objects.Object) (s : State World)
      (ch : List ChangeSetEntry) (t : Rest World) (o : objects.Object) (stale : List objects.Object)
      (e : Error) (w : World) {ids : List Inventory.ObjMetadata}
      → send env b.objects s.obj s.rest ≡ (ok ch, t)
      → diff objects
          (snapshot s.obj.status.inventory)
          (add_change_set objects Inventory.new (some ch))
        ≡ ok (o ∷ stale)
      → manager.delete_all
          (o ∷ stale)
          s.obj.name
          s.obj.namespace
          prune_annotation
          disabled_value
          t.world
        ≡ (err e, w)
      → Inventory.list_metadata objects (add_change_set objects Inventory.new (some ch)) ≡ ok ids
      → ((apply env b s).0 ≡ err e)
        × (diff objects
              (snapshot (apply env b s).1.obj.status.inventory)
              (add_change_set objects Inventory.new (some ch))
            ≡ ok [])
  unfolding apply settle collect_garbage snapshot record_applied
  apply_gc_lost l b s ch t o stale e w h d g r = (
    rw h (rw d (rw g refl)),
    rw h (diff_self objects l (add_change_set objects Inventory.new (some ch)) r),
  )

-- ===== src/Instance/Reconcile/Guards.antt =====
-- An object that is being deleted, and what the deferred report adds to a reconciliation.
use mathlib.Core.Path.{subst}
use flux_operator.Base.{
  sym, String, ◌≡◌, refl, ap, true, Option, none, some, List, Result, ok, err, panic, inl, inr, ◌⊎◌,
  Bool-cases, lookup, Dict, ◌∙◌,
}
use flux_operator.Api.Instance.{FluxInstance, FluxInstanceStatus, finalizer, is_disabled}
use flux_operator.Builder.Options.{contain_element_string}
use flux_operator.Instance.Env.{Env, State}
use flux_operator.Instance.Status.{
  Requeue, no_requeue, finalize_status, handle_request, requested_at,
}
use flux_operator.Instance.Uninstall.{uninstall, remove_finalizer}
use flux_operator.Instance.Uninstall.Laws.{Steady, uninstall-finalizer, uninstall_kept}
use flux_operator.Base.Effect.{after, return}
use flux_operator.Instance.Reconcile.{handle, skip_disabled, add_finalizer}
use flux_operator.Instance.Request.{report, reconcile_object}
use flux_operator.Instance.Reconcile.Advance.{Kept, Completed, reconcile-last_applied}

handle_request-kept :
    (annotations : Dict String) (status : FluxInstanceStatus)
    → (handle_request annotations status).last_applied_revision ≡ status.last_applied_revision
unfolding handle_request
handle_request-kept annotations status = go (lookup requested_at annotations) refl
  where
    go :
        (x : Option String)
        → lookup requested_at annotations ≡ x
        → (handle_request annotations status).last_applied_revision ≡ status.last_applied_revision
    go none h = rw (handle_request, h) refl
    go (some v) h = rw (handle_request, h) refl

module _ (env : Env) where
  open env use {World, conditions}

  -- An object that is being deleted is uninstalled even if it is disabled or has no finalizer: where
  -- no call panics, the reconciliation ends without an error, and the object is left without the
  -- finalizer and otherwise as it was.
  handle_deleted :
      Steady env
      → (s : State World) → s.obj.under_deletion ≡ true
      → ((handle env s).0 ≡ ok no_requeue) × ((handle env s).1.obj ≡ remove_finalizer s.obj)
  unfolding handle
  handle_deleted steady s d =
      let (a, b, c) = uninstall-finalizer env steady s in
      let u : uninstall env s ≡ (ok tt, (uninstall env s).1) =
        ap (λ r. (r, (uninstall env s).1)) a in
      (simp d (rw u refl), simp d (rw u b))

  after-return :
      {A B : Type 0} (r : Result A) (t : State World) (b : B) → (after (r, t) (λ _. return b)).1 ≡ t
  after-return (ok a) t b = refl
  after-return (err e) t b = refl
  after-return panic t b = refl

  deleted-last_applied :
      (s : State World)
      → s.obj.under_deletion ≡ true
      → (handle env s).1.obj.status.last_applied_revision ≡ s.obj.status.last_applied_revision
  unfolding handle remove_finalizer
  deleted-last_applied s d =
      let left = after-return (uninstall env s).0 (uninstall env s).1 no_requeue in
      let kept : (uninstall env s).1.obj.status.last_applied_revision
          ≡ s.obj.status.last_applied_revision =
        elim (uninstall_kept env s) [
          | inl p ↦ ap (λ o. o.status.last_applied_revision) p
          | inr p ↦ ap (λ o. o.status.last_applied_revision) p
        ] in
      simp d (ap (λ t. t.obj.status.last_applied_revision) left ∙ kept)

  -- The deferred report does not touch the latest applied revision.
  report-last_applied :
      (r : Result Requeue) (s : State World)
      → (report env (r, s)).1.obj.status.last_applied_revision ≡ s.obj.status.last_applied_revision
  unfolding report finalize_status
  report-last_applied r s = handle_request-kept s.obj.annotations s.obj.status

  -- The state in which an object is taken up.
  abbrev state_of : FluxInstance → World → State World
  state_of obj w = record { obj = obj; rest = record { events = List.[]; world = w } }

  handle-last_applied :
      (s : State World)
      → Kept s (handle env s).1 ⊎ Completed env s (handle env s).1.obj.status.last_applied_revision
  unfolding handle skip_disabled add_finalizer remove_finalizer
  handle-last_applied s = elim (Bool-cases s.obj.under_deletion) [
    | inl d ↦ inl (deleted-last_applied s d)
    | inr d ↦ elim (Bool-cases (contain_element_string s.obj.finalizers finalizer)) [
      | inr f ↦ inl (simp (d, f) refl)
      | inl f ↦ elim (Bool-cases (is_disabled s.obj)) [
        | inl i ↦ inl (simp (d, f, i) refl)
        | inr i ↦ simp (d, f, i) (reconcile-last_applied env s)
      ]
    ]
  ]

  -- Whatever happens when an object is reconciled, its status reported included, the latest applied
  -- revision stays as it was, or the object was reconciled to the end: the status was patched, the
  -- manifests were fetched and built from this object, the build's revision was recorded as
  -- attempted, `apply` of this build succeeded, and the latest applied revision is that of the
  -- build.
  pub reconcile_object-last_applied :
      (obj : FluxInstance) (w : World)
      → Kept (state_of obj w) (reconcile_object env obj w).1
        ⊎ Completed env
            (state_of obj w)
            (reconcile_object env obj w).1.obj.status.last_applied_revision
  unfolding reconcile_object
  reconcile_object-last_applied obj w =
      let k = report-last_applied (handle env (state_of obj w)).0 (handle env (state_of obj w)).1 in
      elim (handle-last_applied (state_of obj w)) [
        | inl e ↦ inl (k ∙ e)
        | inr c ↦ inr (subst (Completed env (state_of obj w)) (sym k) c)
      ]

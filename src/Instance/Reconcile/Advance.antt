-- ===== src/Instance/Reconcile/Advance.antt =====
-- When the latest applied revision changes: only behind a whole chain of steps that succeeded.
use flux_operator.Base.{String, ◌≡◌, refl, Result, ok, err, panic, ◌⊎◌, inl, inr, ap}
use flux_operator.Builder.Options.{BuildResult}
use flux_operator.Builder.Pull.{mkdir_temp_abs}
use flux_operator.Instance.Env.{Env, State, Rest}
use flux_operator.Instance.Status.{mark_progressing, patch}
use flux_operator.Instance.Build.{fetch, build_instance}
use flux_operator.Instance.Apply.{apply}
use flux_operator.Instance.Reconcile.{
  reconcile, reconcile_in, build_and_apply, either_way, roll_out, attempt, applied, apply_failed,
  fetch_failed, build_failed_with, removing_after,
}
use flux_operator.Instance.Reconcile.Branches.{notify-ok, attempt-status}
use flux_operator.Instance.Reconcile.Progress.{started, roll_out-patch, apply-started}

-- The state once the conditions say that the reconciliation is in progress.
abbrev pub begun : (env : Env) → State env.World → State env.World
begun env s = record s {
  obj = record (s.obj) {
    status = record (s.obj.status) {
      conditions =
          mark_progressing env.conditions "Reconciliation in progress" s.obj.status.conditions;
    };
  };
}

-- From `s`, the build `b` was attempted and applied, and its revision is the one given.
pub record RolledOut (env : Env) (b : BuildResult env.objects.Object) (s : State env.World)
    (revision : String) : Type 0 where
  pub rest : Rest env.World
  pub final : State env.World
  pub patched :
      patch env (attempt env b.revision s).1.obj (attempt env b.revision s).1.rest ≡ (ok tt, rest)
  pub succeeded : apply env b (started env b.revision s rest) ≡ (ok tt, final)
  pub recorded : revision ≡ b.revision

-- From `s`, the manifests of the directory were built and the build was rolled out.
pub record Built (env : Env) (dir : String) (s : State env.World) (revision : String) : Type 0 where
  pub result : BuildResult env.objects.Object
  pub rest : Rest env.World
  pub built : build_instance env dir s.obj s.rest ≡ (ok result, rest)
  pub next : RolledOut env result (record s { rest = rest }) revision

-- From `s`, the manifests were fetched with the help of the directory, built and rolled out.
pub record Fetched (env : Env) (dir : String) (s : State env.World) (revision : String)
    : Type 0 where
  pub manifests : String × String
  pub rest : Rest env.World
  pub fetched : fetch env dir s.obj s.rest ≡ (ok manifests, rest)
  pub next : Built env manifests.0 (record s { rest = rest }) revision

-- From `s`, the status was patched, a directory was made, and the rest followed.
pub record Completed (env : Env) (s : State env.World) (revision : String) : Type 0 where
  pub rest : Rest env.World
  pub world : env.World
  pub dir : String
  pub patched : patch env (begun env s).obj s.rest ≡ (ok tt, rest)
  pub made : mkdir_temp_abs env.registry rest.world ≡ (ok dir, world)
  pub next :
      Fetched env dir (record (begun env s) { rest = record rest { world = world } }) revision

abbrev pub Kept : {W : Type 0} → State W → State W → Type 0
Kept s t = t.obj.status.last_applied_revision ≡ s.obj.status.last_applied_revision

module _ (env : Env) where
  open env use {World, objects, conditions}

  -- The three ways `roll_out` ends after the patch.
  roll_out_after :
      (digest : String) (b : BuildResult objects.Object) (s : State World) (t : Rest World)
      (y : Result (Unit {0}) × State World)
      → apply env b (started env b.revision s t) ≡ y
      → patch env (attempt env b.revision s).1.obj (attempt env b.revision s).1.rest ≡ (ok tt, t)
      → Kept s (either_way y (apply_failed env) (λ _. applied env digest)).1
        ⊎ RolledOut env b s
            (either_way y
              (apply_failed env)
              (λ _. applied env digest)).1.obj.status.last_applied_revision
  unfolding apply_failed applied
  roll_out_after digest b s t (ok r, v) a p = inr (record {
    rest = t;
    final = v;
    patched = p;
    succeeded = a;
    recorded = ap (λ o. o.status.last_attempted_revision) (apply-started env b s t a);
  })
  roll_out_after digest b s t (err e, v) a p =
      inl
        (rw (notify-ok env) (ap (λ o. o.status.last_applied_revision) (apply-started env b s t a)))
  roll_out_after digest b s t (panic, v) a p =
      inl (ap (λ o. o.status.last_applied_revision) (apply-started env b s t a))

  roll_out-last_applied :
      (digest : String) (b : BuildResult objects.Object) (s : State World)
      → Kept s (roll_out env digest b s).1
        ⊎ RolledOut env b s (roll_out env digest b s).1.obj.status.last_applied_revision
  unfolding roll_out
  roll_out-last_applied digest b s =
      go (patch env (attempt env b.revision s).1.obj (attempt env b.revision s).1.rest) refl
    where
      e : attempt env b.revision s ≡ (ok tt, (attempt env b.revision s).1)
      e = ap (λ r. (r, (attempt env b.revision s).1)) ((attempt-status env b.revision s).0)

      kept :
          (attempt env b.revision s).1.obj.status.last_applied_revision
          ≡ s.obj.status.last_applied_revision
      kept = ap (λ o. o.status.last_applied_revision) ((attempt-status env b.revision s).1)

      go :
          (x : Result (Unit {0}) × Rest World)
          → patch env (attempt env b.revision s).1.obj (attempt env b.revision s).1.rest ≡ x
          → Kept s (roll_out env digest b s).1
            ⊎ RolledOut env b s (roll_out env digest b s).1.obj.status.last_applied_revision
      go (ok r, t) p =
          rw (roll_out-patch env digest b s t p)
            (roll_out_after digest b s t (apply env b (started env b.revision s t)) refl p)
      go (err x, t) p = inl (rw e (rw p kept))
      go (panic, t) p = inl (rw e (rw p kept))

  build_and_apply-last_applied :
      (d : String × String) (s : State World)
      → Kept s (build_and_apply env d s).1
        ⊎ Built env d.0 s (build_and_apply env d s).1.obj.status.last_applied_revision
  unfolding build_and_apply build_failed_with
  build_and_apply-last_applied (dir, digest) s = go (build_instance env dir s.obj s.rest) refl
    where
      go :
          (x : Result (BuildResult objects.Object) × Rest World)
          → build_instance env dir s.obj s.rest ≡ x
          → Kept s (build_and_apply env (dir, digest) s).1
            ⊎ Built env dir s
                (build_and_apply env (dir, digest) s).1.obj.status.last_applied_revision
      go (ok b, t) p = rw p (elim (roll_out-last_applied digest b (record s { rest = t })) [
        | inl k ↦ inl k
        | inr r ↦ inr (record { result = b; rest = t; built = p; next = r })
      ])
      go (err e, t) p = inl (rw p (rw (notify-ok env) refl))
      go (panic, t) p = inl (rw p refl)

  reconcile_in-last_applied :
      (dir : String) (s : State World)
      → Kept s (reconcile_in env dir s).1
        ⊎ Fetched env dir s (reconcile_in env dir s).1.obj.status.last_applied_revision
  unfolding reconcile_in fetch_failed
  reconcile_in-last_applied dir s = go (fetch env dir s.obj s.rest) refl
    where
      go :
          (x : Result (String × String) × Rest World)
          → fetch env dir s.obj s.rest ≡ x
          → Kept s (reconcile_in env dir s).1
            ⊎ Fetched env dir s (reconcile_in env dir s).1.obj.status.last_applied_revision
      go (ok d, t) p = rw p (elim (build_and_apply-last_applied d (record s { rest = t })) [
        | inl k ↦ inl k
        | inr r ↦ inr (record { manifests = d; rest = t; fetched = p; next = r })
      ])
      go (err e, t) p = inl (rw p (rw (notify-ok env) refl))
      go (panic, t) p = inl (rw p refl)

  -- In a reconciliation the latest applied revision stays as it was or all steps have succeeded.
  pub reconcile-last_applied :
      (s : State World)
      → Kept s (reconcile env s).1
        ⊎ Completed env s (reconcile env s).1.obj.status.last_applied_revision
  unfolding reconcile removing_after
  reconcile-last_applied s = go (patch env (begun env s).obj s.rest) refl
    where
      made :
          (t : Rest World) (x : Result String × World)
          → patch env (begun env s).obj s.rest ≡ (ok tt, t)
          → mkdir_temp_abs env.registry t.world ≡ x
          → Kept s (reconcile env s).1
            ⊎ Completed env s (reconcile env s).1.obj.status.last_applied_revision
      made t (ok dir, w) p m =
          rw (p, m)
            (elim (reconcile_in-last_applied dir
              (record (begun env s) { rest = record t { world = w } })) [
                | inl k ↦ inl k
                | inr r ↦
                    inr (record { rest = t; world = w; dir = dir; patched = p; made = m; next = r })
              ])
      made t (err e, w) p m = inl (rw (p, m) refl)
      made t (panic, w) p m = inl (rw (p, m) refl)

      go :
          (x : Result (Unit {0}) × Rest World)
          → patch env (begun env s).obj s.rest ≡ x
          → Kept s (reconcile env s).1
            ⊎ Completed env s (reconcile env s).1.obj.status.last_applied_revision
      go (ok r, t) p = made t (mkdir_temp_abs env.registry t.world) p refl
      go (err e, t) p = inl (rw p refl)
      go (panic, t) p = inl (rw p refl)

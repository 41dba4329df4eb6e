-- ===== src/Entitlement/Reconcile/Refines.antt =====
-- The reconciliation of the entitlement does what the specification says, and settles.
use flux_operator.Base.{
  [], ◌∷◌, String, ◌≡◌, refl, ap, ◌∙◌, ◌≢◌, Bool, true, false, Option, none, some, Dict, lookup,
  insert, lookup-insert_self, Result, ok, err, panic, logged, Option-cases, inl, inr, Bool-cases,
  ◌==◌, arith,
}
use flux_operator.Base.Int.{minutes}
use flux_operator.Base.Effect.{after, return}
use flux_operator.Instance.Status.{Requeue, no_requeue}
use flux_operator.Entitlement.Client.{vendor_key, token_key}
use flux_operator.Entitlement.Secret.{
  Secret, Env, set_value, new_secret, get_entitlement_secret, update_entitlement_secret,
  delete_entitlement_secret,
}
use flux_operator.Entitlement.Reconcile.{
  reconcile_entitlement, register, verify, token_of, request_report, verify_error,
}
use flux_operator.Entitlement.Reconcile.Cluster.{IsCluster, HasData}
use flux_operator.Entitlement.Reconcile.Spec.{
  issued, of_token, view, half_an_hour, after_time, step, seen, next, step_thrice,
}

set_value-some :
    (key value : String) (s : Secret) {d : Dict String}
    → s.data_ ≡ some d
    → set_value key value s ≡ ok (record s { data_ = some (insert key value d) })
unfolding set_value
set_value-some key value s {d} e = ground (arith, e)

token_of-insert :
    (s : Secret) (d : Dict String) (t : String)
    → token_of (record s { data_ = some (insert token_key t d) }) ≡ t
unfolding token_of
token_of-insert s d t = rw (token_of, lookup-insert_self token_key t d) refl

logged_lem :
    {W : Type 0} {q : Requeue} (r : Result (Unit {0})) (v : W)
    → r ≢ panic
    → after (logged r, v) (λ _. return q) ≡ (ok q, v)
logged_lem (ok a) v n = refl
logged_lem (err e) v n = refl
logged_lem panic v n = absurd (n refl)

module _ {W : Type 0} (env : Env W) (holds : W → Option Secret) (id fresh : String)
    (c : IsCluster env holds id)
    (registers : (w : W)
      → (v : W) × (env.client.register_usage id w ≡ (ok fresh, v)) × (holds v ≡ holds w)) where
  abbrev good : String → Bool
  good t = (env.client.verify t id).0

  get_found : (w : W) {s : Secret} → holds w ≡ some s → get_entitlement_secret env w ≡ (ok s, w)
  unfolding get_entitlement_secret
  get_found w h = rw (c.found w h) refl

  get_missing :
      (w : W)
      → holds w ≡ none
      → (v : W) × (get_entitlement_secret env w ≡ (ok (new_secret env), v))
        × (holds v ≡ some (new_secret env))
  unfolding get_entitlement_secret
  get_missing w h =
      let (e, q, n) = c.missing w h in
      let (v, p, k) = c.created w (new_secret env) h in
      (v, rw q (rw n (rw q (rw n (rw p (ap (λ x. (ok (new_secret env), x.1)) p))))), k)

  update_held :
      (w : W) (t : String) {s : Secret} {d : Dict String}
      → holds w ≡ some s
      → s.data_ ≡ some d
      → (v : W) × (update_entitlement_secret env t w ≡ (ok tt, v))
        × (holds v ≡ some (record s { data_ = some (insert token_key t d) }))
  unfolding update_entitlement_secret
  update_held w t {s} {d} h e =
      let (v, p, k) = c.updated w (record s { data_ = some (insert token_key t d) }) (λ q. cc) in
      (
        v,
        rw (get_found w h) (rw (set_value-some token_key t s e) (rw p (ap (λ x. (ok tt, x.1)) p))),
        k,
      )

  -- A secret without a token: the usage is registered and the token kept.
  register_held :
      (w : W) {s : Secret} {d : Dict String}
      → holds w ≡ some s
      → s.data_ ≡ some d
      → (v : W) × (register env id w ≡ (ok (record no_requeue { requeue = true }), v))
        × (holds v ≡ some (record s { data_ = some (insert token_key fresh d) }))
  unfolding register request_report
  register_held w {s} {d} h e =
      let (v1, p1, k1) = registers w in
      let (v2, p2, k2) = update_held v1 fresh (k1 ∙ h) e in
      let (r, (v3, p3, n, k3)) = c.reported v2 in
      (v3, rw p1 (rw p2 (rw p3 (logged_lem r v3 n))), k3 ∙ k2)

  -- A secret with a token: it is kept or deleted.
  verify_held :
      (w : W) {s : Secret} {d : Dict String}
      → holds w ≡ some s
      → s.data_ ≡ some d
      → (token_of s == "") ≡ false
      → (seen holds (verify env s id w) ≡ step fresh good (issued (token_of s)))
        × HasData (holds (verify env s id w).1)
  verify_held w {s} {d} h e n = elim (Bool-cases (good (token_of s))) [
    | inl g ↦
        let q : verify env s id w ≡ (ok (record no_requeue { requeue_after = minutes 30 }), w) =
          unfold verify in rw g refl in
        (rw q (rw h (rw (n, g) refl)), rw q (rw h (d, e)))
    | inr g ↦
        let (v, p, k) = c.deleted w s h in
        let q : verify env s id w ≡ (err (verify_error (env.client.verify (token_of s) id).1), v) =
          unfold verify delete_entitlement_secret in
          rw g
            (rw p (ap (λ x. (err (verify_error (env.client.verify (token_of s) id).1), x.1)) p)) in
        (rw q (rw k (rw g refl)), rw q (rw k tt))
  ]

  reconcile_held :
      (w v : W) {s : Secret} {d : Dict String}
      → get_entitlement_secret env w ≡ (ok s, v)
      → holds v ≡ some s
      → s.data_ ≡ some d
      → (seen holds (reconcile_entitlement env w) ≡ step fresh good (of_token (token_of s)))
        × HasData (holds (reconcile_entitlement env w).1)
  unfolding reconcile_entitlement
  reconcile_held w v {s} {d} g h e = elim (Bool-cases (token_of s == "")) [
    | inl t ↦
        let (u, p, k) = register_held v h e in
        (
          rw (c.uid w) (rw g (rw t (rw p (rw k (rw (token_of-insert s d fresh) refl))))),
          rw (c.uid w) (rw g (rw t (rw p (rw k (insert token_key fresh d, refl))))),
        )
    | inr t ↦
        let (a, b) = verify_held v h e t in
        (rw (c.uid w) (rw g (rw t a)), rw (c.uid w) (rw g (rw t b)))
  ]

  -- On a cluster whose calls succeed, where the client issues the same token each time and the
  -- secret, if there is one, has a map of data, a reconciliation does to what the secret says
  -- about the entitlement what the specification does, is due again when that says, and leaves a
  -- secret with a map of data or none.
  pub reconcile_refines :
      (w : W)
      → HasData (holds w)
      → (seen holds (reconcile_entitlement env w) ≡ step fresh good (view (holds w)))
        × HasData (holds (reconcile_entitlement env w).1)
  reconcile_refines w hd = elim (Option-cases (holds w)) [
    | inl h ↦
        let (v, p, k) = get_missing w h in
        let (a, b) =
          reconcile_held w v {d = (vendor_key, env.client.get_vendor) ∷ []} p k
            (unfold new_secret in refl) in
        let t : token_of (new_secret env) ≡ "" = unfold token_of new_secret lookup in refl in
        (rw h (a ∙ rw t refl), b)
    | inr (s, h) ↦
        let (d, e) : HasData (some s) = rw h at hd in
        let (a, b) = reconcile_held w w (get_found w h) h e in (rw h a, b)
  ]

  -- Where the token that the client issues is not empty and the client accepts it, three
  -- reconciliations in a row settle the entitlement from whatever the secret was before: the third
  -- finds a token that the client accepts, keeps it, and is due again in half an hour.
  pub reconcile_settles :
      (w : W)
      → HasData (holds w)
      → (fresh == "") ≡ false
      → good fresh ≡ true
      → (t : String) × (seen holds (
            reconcile_entitlement env (reconcile_entitlement env (reconcile_entitlement env w).1).1)
          ≡ (issued t, after_time half_an_hour))
        × (good t ≡ true)
  reconcile_settles w hd f g =
      let (a1, h1) = reconcile_refines w hd in
      let (a2, h2) = reconcile_refines (reconcile_entitlement env w).1 h1 in
      let (a3, h3) =
        reconcile_refines (reconcile_entitlement env (reconcile_entitlement env w).1).1 h2 in
      let (t, e, k) = step_thrice fresh good f g (view (holds w)) in
      let v1 : view (holds (reconcile_entitlement env w).1) ≡ next fresh good (view (holds w)) =
        ap (λ x. x.0) a1 in
      let v2 : view (holds (reconcile_entitlement env (reconcile_entitlement env w).1).1)
          ≡ next fresh good (view (holds (reconcile_entitlement env w).1)) =
        ap (λ x. x.0) a2 in
      (t, a3 ∙ (ap (step fresh good) (v2 ∙ ap (next fresh good) v1) ∙ e), k)

  -- On a cluster whose calls succeed, a secret without a map of data, such as one that was emptied,
  -- makes the reconciliation panic after the usage was registered, and the secret stays as it was.
  pub reconcile_without_data :
      (w : W) {s : Secret}
      → holds w ≡ some s
      → s.data_ ≡ none
      → (v : W) × (env.client.register_usage id w ≡ (ok fresh, v))
        × (reconcile_entitlement env w ≡ (panic, v))
        × (holds v ≡ some s)
  unfolding reconcile_entitlement register update_entitlement_secret set_value token_of
  reconcile_without_data w {s} h e =
      let (v, p, k) = registers w in
      let t : token_of s ≡ "" = unfold token_of in rw e refl in
      let g : set_value token_key fresh s ≡ panic = unfold set_value in rw e refl in
      (
        v,
        p,
        rw (c.uid w) (rw (get_found w h) (rw t (rw p (rw (get_found v (k ∙ h)) (rw g refl))))),
        k ∙ h,
      )

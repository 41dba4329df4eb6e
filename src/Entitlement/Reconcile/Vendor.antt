-- ===== src/Entitlement/Reconcile/Vendor.antt =====
-- The secret that the initialisation leaves is one of the client's vendor.
use flux_operator.Base.{
  String, ◌≡◌, refl, ap, ◌⊎◌, true, Option, none, some, lookup, ok, inl, inr, Bool-cases, eq_iff,
}
use flux_operator.Entitlement.Client.{vendor_key}
use flux_operator.Entitlement.Secret.{
  Secret, Env, value_of, is_vendor, of_vendor, new_secret, set_vendor, init_entitlement_secret,
}
use flux_operator.Entitlement.Reconcile.{token_of}
use flux_operator.Entitlement.Reconcile.Cluster.{IsCluster}

is_vendor_iff : (vendor : String) (v : Option String) → is_vendor vendor v ≡ true → v ≡ some vendor
is_vendor_iff vendor none h = absurd (cc)
is_vendor_iff vendor (some v) h = ap some ((eq_iff v vendor).0 h)

module _ {W : Type 0} (env : Env W) (holds : W → Option Secret) {id : String}
    (c : IsCluster env holds id) where
  -- What the initialisation comes to from a state.
  pub record Initialised (w : W) : Type 0 where
    pub secret : Secret
    pub world : W
    pub returned : init_entitlement_secret env w ≡ (ok secret, world)
    pub held : holds world ≡ some secret
    pub vendor : is_vendor env.client.get_vendor (value_of secret vendor_key) ≡ true
    pub token : (holds w ≡ some secret) ⊎ (token_of secret ≡ "")

  own_vendor : is_vendor env.client.get_vendor (some env.client.get_vendor) ≡ true
  own_vendor = (eq_iff env.client.get_vendor env.client.get_vendor).1 refl

  init_missing : (w : W) → holds w ≡ none → Initialised w
  unfolding init_entitlement_secret new_secret lookup token_of
  init_missing w h =
      let (e, q, n) = c.missing w h in
      let (v, p, k) = c.created w (new_secret env) h in
      record {
        secret = new_secret env;
        world = v;
        returned = rw q (rw n (rw p (ap (λ x. (ok (new_secret env), x.1)) p)));
        held = k;
        vendor = own_vendor;
        token = inr refl;
      }

  init_held : (w : W) {s : Secret} → holds w ≡ some s → Initialised w
  unfolding init_entitlement_secret
  init_held w {s} h = elim (Bool-cases (is_vendor env.client.get_vendor (value_of s vendor_key))) [
    | inl i ↦ record {
      secret = s;
      world = w;
      returned = rw (c.found w h) (unfold set_vendor in rw i refl);
      held = h;
      vendor = i;
      token = inl h;
    }
    | inr i ↦
        let (v, p, k) = c.updated w (of_vendor env s) (λ q. cc) in
        record {
          secret = of_vendor env s;
          world = v;
          returned =
              rw (c.found w h)
                (unfold set_vendor in rw i (rw p (ap (λ x. (ok (of_vendor env s), x.1)) p)));
          held = k;
          vendor = unfold of_vendor lookup in own_vendor;
          token = inr (unfold of_vendor lookup token_of in refl);
        }
  ]

  -- On a cluster whose calls succeed, the initialisation leaves a secret with the vendor of the
  -- client and returns it. The secret is the one that was there before, or it has no token: a token
  -- of another vendor does not stay. A second run returns the same and changes nothing.
  pub init_entitlement_secret-Initialised :
      (w : W) → (i : Initialised w) × (init_entitlement_secret env i.world ≡ (ok i.secret, i.world))
  unfolding init_entitlement_secret set_vendor
  init_entitlement_secret-Initialised w =
      let i = either_held (holds w) refl in (i, rw (c.found i.world i.held) (rw i.vendor refl))
    where
      either_held : (x : Option Secret) → holds w ≡ x → Initialised w
      either_held none h = init_missing w h
      either_held (some s) h = init_held w h

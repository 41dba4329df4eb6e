-- ===== src/Tests/Entitlements.antt =====
-- A namespace with at most one secret, the clients of the vendors, and the theorems on them.
use flux_operator.Base.{
  panic, String, ◌≡◌, ◌≢◌, ◌⊎◌, refl, true, false, Option, none, some, [], ◌∷◌, Result, ok, err,
  not_found,
}
use flux_operator.Reporter.Request.{request_report_update}
use flux_operator.Entitlement.Client.{
  Marketplace, string, whole, default_client, amazon_verify, vendor_key, token_key,
  aws_marketplace_product_code,
}
use flux_operator.Entitlement.Client.Laws.{Entitles, amazon_verify_cases}
use flux_operator.Entitlement.Secret.{Secret, init_entitlement_secret, Env}
use flux_operator.Entitlement.Reconcile.{reconcile_entitlement}
use flux_operator.Entitlement.Reconcile.Vendor.{Initialised, init_entitlement_secret-Initialised}
use flux_operator.Entitlement.Reconcile.Cluster.{IsCluster, HasData}
use flux_operator.Entitlement.Reconcile.Spec.{issued, half_an_hour, after_time, step, view, seen}
use flux_operator.Entitlement.Reconcile.Refines.{
  reconcile_refines, reconcile_settles, reconcile_without_data,
}

abbrev pub Cell : Type 0
Cell = Option Secret

abbrev pub held : Cell → Result Secret
held none = err (record { text = "not found"; reason = not_found })
held (some s) = ok s

abbrev pub sample_env : Env Cell
sample_env = record {
  client = default_client (λ s. s) "controlplane";
  secrets = record {
    get_secret = λ namespace name w. (held w, w);
    create = λ s w. (none, some s);
    update = λ s w. (none, some s);
    delete = λ s w. (none, none);
  };
  reports = record {
    get_report = λ n ns w. (ok [], w);
    patch_report = λ a b c d w. (none, w);
    now_unix = λ w. "0";
  };
  get_uid = λ w. (ok "uid", w);
  status_manager = "flux-operator";
  watch_namespace = "flux-system";
}

sample_env-IsCluster : IsCluster sample_env (λ w. w) "uid"
unfolding request_report_update
sample_env-IsCluster = record {
  uid = λ w. refl;
  found = λ w h. rw h refl;
  missing = λ w h. (record { text = "not found"; reason = not_found }, rw h refl, refl);
  created = λ w s h. (some s, refl, refl);
  updated = λ w s h. (some s, refl, refl);
  deleted = λ w s h. (none, refl, refl);
  reported = λ w. (ok tt, (w, refl, λ h. cc, refl));
}

registers :
    (w : Cell)
    → (v : Cell) × (sample_env.client.register_usage "uid" w ≡ (ok "controlplane-uid", v)) × (v ≡ w)
unfolding default_client
registers w = (w, refl, refl)

-- A secret that another vendor's token was put into.
abbrev pub stale_secret : Secret
stale_secret = record {
  name = "flux-operator-entitlement";
  namespace = "flux-system";
  labels = [];
  data_ = some ((vendor_key, "other") ∷ (token_key, "stale") ∷ []);
}

reconcile_refines_example :
    (seen (λ w. w) (reconcile_entitlement sample_env (some stale_secret))
      ≡ step "controlplane-uid"
          (λ t. (sample_env.client.verify t "uid").0)
          (view (some stale_secret)))
    × HasData (reconcile_entitlement sample_env (some stale_secret)).1
reconcile_refines_example =
    reconcile_refines sample_env (λ w. w) "uid" "controlplane-uid" sample_env-IsCluster registers
      (some stale_secret) (_, refl)

abbrev emptied : Secret
emptied = record stale_secret { data_ = none }

reconcile_without_data_example :
    (v : Cell) × (sample_env.client.register_usage "uid" (some emptied)
      ≡ (ok "controlplane-uid", v))
    × (reconcile_entitlement sample_env (some emptied) ≡ (panic, v))
    × (v ≡ some emptied)
reconcile_without_data_example =
    reconcile_without_data sample_env (λ w. w) "uid" "controlplane-uid" sample_env-IsCluster
      registers (some emptied) refl refl

init_entitlement_secret-Initialised_example :
    (i : Initialised sample_env (λ w. w) sample_env-IsCluster (some stale_secret))
    × (init_entitlement_secret sample_env i.world ≡ (ok i.secret, i.world))
init_entitlement_secret-Initialised_example =
    init_entitlement_secret-Initialised sample_env (λ w. w) sample_env-IsCluster (some stale_secret)

reconcile_settles_example :
    (t : String) × (seen
        (λ w. w)
        (reconcile_entitlement sample_env
          (reconcile_entitlement sample_env
            (reconcile_entitlement sample_env (some stale_secret)).1).1)
      ≡ (issued t, after_time half_an_hour))
    × ((sample_env.client.verify t "uid").0 ≡ true)
unfolding default_client
reconcile_settles_example =
    reconcile_settles sample_env (λ w. w) "uid" "controlplane-uid" sample_env-IsCluster registers
      (some stale_secret) (_, refl) refl refl

abbrev pub sample_marketplace : Marketplace Cell
sample_marketplace = record {
  register = λ code version nonce w. (ok (some "token"), w);
  parse_with_claims = λ token. (
    record {
      valid = true;
      claims =
          ("productCode", string aws_marketplace_product_code)
          ∷ ("nonce", string token)
          ∷ ("publicKeyVersion", whole 1)
          ∷ [];
    },
    none,
  );
  printed = λ verb c. "claim";
}

amazon_verify_cases_example :
    ((amazon_verify sample_marketplace "uid" "other" ≡ (true, none))
      × Entitles sample_marketplace "uid" "other")
    ⊎ (((amazon_verify sample_marketplace "uid" "other").0 ≡ false)
        × ((amazon_verify sample_marketplace "uid" "other").1 ≢ none)
        × (¬ Entitles sample_marketplace "uid" "other"))
amazon_verify_cases_example = amazon_verify_cases sample_marketplace "uid" "other"

-- ===== src/Entitlement/Reconcile/Cluster.antt =====
-- The contract of a cluster whose calls succeed, as far as the entitlement needs it.
use flux_operator.Base.{
  String, ◌≡◌, ◌≢◌, true, Option, none, some, Dict, Error, Result, ok, err, panic, is_not_found,
}
use flux_operator.Api.Instance.{default_instance_name}
use flux_operator.Reporter.Request.{request_report_update}
use flux_operator.Entitlement.Secret.{Secret, Env, secret_name}

-- What the cluster holds in place of the secret, over the states in which no call fails. A read
-- changes nothing, a write is read back, and the requests for a report leave the secret alone.
pub record IsCluster {W : Type 0} (env : Env W) (holds : W → Option Secret) (id : String)
    : Type 0 where
  pub uid : (w : W) → env.get_uid w ≡ (ok id, w)
  pub found :
      (w : W) {s : Secret}
      → holds w ≡ some s
      → env.secrets.get_secret env.watch_namespace (secret_name env) w ≡ (ok s, w)
  pub missing :
      (w : W)
      → holds w ≡ none
      → (e : Error) × (env.secrets.get_secret env.watch_namespace (secret_name env) w ≡ (err e, w))
        × (is_not_found e ≡ true)
  pub created :
      (w : W) (s : Secret)
      → holds w ≡ none
      → (v : W) × (env.secrets.create s w ≡ (none, v)) × (holds v ≡ some s)
  pub updated :
      (w : W) (s : Secret)
      → (holds w ≢ none)
      → (v : W) × (env.secrets.update s w ≡ (none, v)) × (holds v ≡ some s)
  pub deleted :
      (w : W) (s : Secret)
      → holds w ≡ some s
      → (v : W) × (env.secrets.delete s w ≡ (none, v)) × (holds v ≡ none)
  pub reported :
      (w : W)
      → (r : Result (Unit {0})) × ((v : W) × (request_report_update env.reports
              default_instance_name env.status_manager env.watch_namespace w
            ≡ (r, v))
          × (r ≢ panic)
          × (holds v ≡ holds w))

-- A secret has a map of data, which may be empty.
abbrev pub HasData : Option Secret → Type 0
HasData none = Unit
HasData (some s) = (d : Dict String) × (s.data_ ≡ some d)

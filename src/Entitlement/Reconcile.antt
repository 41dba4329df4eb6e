-- ===== src/Entitlement/Reconcile.antt =====
-- `Reconcile` of entitlement_controller.go.
pub mod Cluster
pub mod Spec
pub mod Refines
pub mod Vendor
use flux_operator.Base.{
  String, ◌<>◌, Bool, true, false, Option, none, some, Error, Result, ok, err, panic, errorf, wrap,
  ◌==◌, if◌then◌else◌,
}
use flux_operator.Base.Int.{pos, minutes}
use flux_operator.Base.Effect.{M, ◌>>=◌, ◌>>◌, fail, log_only, prefixed, return}
use flux_operator.Api.Instance.{default_instance_name}
use flux_operator.Instance.Status.{Requeue, no_requeue}
use flux_operator.Reporter.Request.{request_report_update}
use flux_operator.Entitlement.Client.{token_key}
use flux_operator.Entitlement.Secret.{
  Secret, Env, value_of, get_entitlement_secret, update_entitlement_secret,
  delete_entitlement_secret,
}

-- The token of the secret, empty if there is none.
unfoldable pub token_of : Secret → String
token_of secret = elim (value_of secret token_key) [ none ↦ "" | some t ↦ t ]

-- `fmt.Errorf("failed to verify entitlement: %w", err)`, where the error may be nil.
unfoldable pub verify_error : Option Error → Error
verify_error none = errorf "failed to verify entitlement: %!w(<nil>)"
verify_error (some e) = wrap "failed to verify entitlement: " e

module _ {W : Type 0} (env : Env W) where
  open env use {client, reports, status_manager, watch_namespace}

  unfoldable pub request_report : M W (Unit {0})
  unfolding request_report_update
  request_report =
      log_only (request_report_update reports default_instance_name status_manager watch_namespace)

  -- The usage is registered, and the token is kept in the secret.
  unfoldable pub register : String → M W Requeue
  unfolding request_report
  register id = do
    token ←
        prefixed ("failed to register usage for vendor " <> (client.get_vendor <> ": "))
          (client.register_usage id)
    update_entitlement_secret env token
    request_report
    return (record no_requeue { requeue = true })

  -- The token is verified, and an invalid one is deleted with its secret.
  unfoldable pub verify : Secret → String → M W Requeue
  unfolding verify_error
  verify secret id =
      let (valid, e) = client.verify (token_of secret) id in
      if valid
      then return (record no_requeue { requeue_after = minutes 30 })
      else (delete_entitlement_secret env secret >> fail (verify_error e))

  unfoldable pub reconcile_entitlement : M W Requeue
  unfolding register verify token_of
  reconcile_entitlement = do
    id ← env.get_uid
    secret ← get_entitlement_secret env
    if token_of secret == "" then register id else verify secret id

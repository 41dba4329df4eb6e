-- ===== src/Reporter/Distribution/Laws.antt =====
-- What the report says of the entitlement that the other controller keeps.
use flux_operator.Base.{
  String, ◌<>◌, ◌≡◌, ◌≢◌, refl, ap, ◌∙◌, Option, none, some, Dict, lookup, insert,
  lookup-insert_other, lookup-insert_self, Result, ok, err, panic, ok_injective, Option-cases, inl,
  inr,
}
use flux_operator.Api.Report.{FluxDistributionStatus}
use flux_operator.Entitlement.Client.{token_key, vendor_key}
use flux_operator.Entitlement.Secret.{Secret, value_of, set_value, secret_name}
use flux_operator.Entitlement.Secret
use flux_operator.Reporter.Items.{Items}
use flux_operator.Reporter.Cluster.{Cluster, new_flux_status_reporter}
use flux_operator.Reporter.Distribution.{
  unknown_distribution, with_labels, with_entitlement, get_distribution_status,
}

with_entitlement_issued :
    (d : Dict String) (s : FluxDistributionStatus) {token vendor : String}
    → lookup token_key d ≡ some token
    → lookup vendor_key d ≡ some vendor
    → (with_entitlement (some d) s).entitlement ≡ "Issued by " <> vendor
unfolding with_entitlement
with_entitlement_issued d s t v = rw (with_entitlement, t, v) refl

set_value-lookup :
    (token : String) (s : Secret) {vendor : String} {s' : Secret} {d : Dict String}
    → set_value token_key token s ≡ ok s'
    → value_of s vendor_key ≡ some vendor
    → s'.data_ ≡ some d
    → (lookup token_key d ≡ some token) × (lookup vendor_key d ≡ some vendor)
unfolding set_value
set_value-lookup token s {vendor} {s'} {d} h v e = elim (Option-cases (s.data_)) [
  | inl n ↦ absurd (let k : panic ≡ ok s' = rw (set_value, n) at h in cc)
  | inr (c, n) ↦
      let k : ok (record s { data_ = some (insert token_key token c) }) ≡ ok s' =
        rw (set_value, n) at h in
      let q : some (insert token_key token c) ≡ some d = ap (λ z. z.data_) (ok_injective k) ∙ e in
      let i : insert token_key token c ≡ d = cc in
      let o : lookup vendor_key c ≡ some vendor = rw n at v in
      (
        rw (← i) (lookup-insert_self token_key token c),
        rw (← i) (lookup-insert_other vendor_key token_key token c refl ∙ o),
      )
]

-- Where the secret of the entitlement held a vendor and was given a token, and it is this secret's
-- data that the reporter reads, under the name that the entitlement controller gives it, then the
-- distribution is reported as issued by that vendor, whether or not the CRD was found.
pub get_distribution_status-issued :
    {items : Items} {W V : Type 0} (cluster : Cluster items W) (env : Secret.Env V)
    (instance_ namespace token : String) (s : Secret) (w : W) {vendor : String} {s' : Secret}
    {d : Dict String} {l : Result (Dict String)} {v u : W}
    → set_value token_key token s ≡ ok s'
    → value_of s vendor_key ≡ some vendor
    → s'.data_ ≡ some d
    → l ≢ panic
    → cluster.get_crd_labels "gitrepositories.source.toolkit.fluxcd.io" w ≡ (l, v)
    → cluster.get_secret_data namespace (secret_name env) v ≡ (ok d, u)
    → (status : FluxDistributionStatus) × (get_distribution_status cluster
          (new_flux_status_reporter instance_ env.status_manager namespace)
          w
        ≡ (ok status, u))
      × (status.entitlement ≡ "Issued by " <> vendor)
unfolding get_distribution_status new_flux_status_reporter secret_name
get_distribution_status-issued cluster env instance_ namespace token s w {vendor = vendor} {d = d}
      {l = l} {v = v} {u = u} h k e n c g =
    let (t, i) = set_value-lookup token s h k e in
    let known = λ (labels : Option (Dict String)).
      with_entitlement_issued d (with_labels labels unknown_distribution) t i in
    by_labels l n c known
  where
    by_labels :
        (l : Result (Dict String))
        → l ≢ panic
        → cluster.get_crd_labels "gitrepositories.source.toolkit.fluxcd.io" w ≡ (l, v)
        → ((labels : Option (Dict String))
            → (with_entitlement (some d) (with_labels labels unknown_distribution)).entitlement
              ≡ "Issued by " <> vendor)
        → (status : FluxDistributionStatus) × (get_distribution_status cluster
              (new_flux_status_reporter instance_ env.status_manager namespace)
              w
            ≡ (ok status, u))
          × (status.entitlement ≡ "Issued by " <> vendor)
    by_labels (ok labels) n c known = (
      with_entitlement (some d) (with_labels (some labels) unknown_distribution),
      rw c (rw g refl),
      known (some labels),
    )
    by_labels (err e) n c known = (
      with_entitlement (some d) (with_labels none unknown_distribution),
      rw c (rw g refl),
      known none,
    )
    by_labels panic n c known = absurd (n refl)

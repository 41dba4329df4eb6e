-- ===== src/Entitlement/Client/Laws.antt =====
-- Which tokens the two clients accept.
use flux_operator.Base.{
  String, ◌<>◌, ◌≡◌, refl, sym, ap, ◌∙◌, Result-cases, ◌≢◌, ◌↔◌, ℕ, true, false, Option, none, some,
  Dict, lookup, Error, Result, ok, err, panic, errorf, arith, Bool-cases, inl, inr, ◌==◌, eq_iff,
  ◌⊎◌,
}
use flux_operator.Entitlement.Client.{
  Client, Claim, string, whole, other, Marketplace, default_client, default_vendor, is_text,
  is_whole, verify_claims, amazon_verify, amazon_client, aws_marketplace_product_code,
  aws_marketplace_public_key_version, new_client, vendor_of,
}

is_text_iff : (s : String) (c : Option Claim) → (is_text s c ≡ true) ↔ (c ≡ some (string s))
unfolding is_text
is_text_iff s none = (λ h. absurd (cc), λ h. absurd (cc))
is_text_iff s (some (string t)) =
    (λ h. (let e : t ≡ s = (eq_iff t s).0 h in rw e), λ h. (let e : t ≡ s = cc in (eq_iff t s).1 e))
is_text_iff s (some (whole n)) = (λ h. absurd (cc), λ h. absurd (cc))
is_text_iff s (some other) = (λ h. absurd (cc), λ h. absurd (cc))

is_whole_iff : (k : ℕ) (c : Option Claim) → (is_whole k c ≡ true) ↔ (c ≡ some (whole k))
unfolding is_whole
is_whole_iff k none = (λ h. absurd (cc), λ h. absurd (cc))
is_whole_iff k (some (whole n)) = (λ h. ground arith, λ h. ground arith)
is_whole_iff k (some (string t)) = (λ h. absurd (cc), λ h. absurd (cc))
is_whole_iff k (some other) = (λ h. absurd (cc), λ h. absurd (cc))

-- A token that entitles the usage with the id.
pub record Entitles {W : Type 0} (mc : Marketplace W) (token id : String) : Type 0 where
  pub parses : (mc.parse_with_claims token).1 ≡ none
  pub is_valid : (mc.parse_with_claims token).0.valid ≡ true
  pub product :
      lookup "productCode" (mc.parse_with_claims token).0.claims
      ≡ some (string aws_marketplace_product_code)
  pub nonce : lookup "nonce" (mc.parse_with_claims token).0.claims ≡ some (string id)
  pub version :
      lookup "publicKeyVersion" (mc.parse_with_claims token).0.claims
      ≡ some (whole aws_marketplace_public_key_version)

-- `Verify` of the AWS client accepts a token, with no error, exactly if the token parses, is valid,
-- and its claims are the product's code, the id that is asked for, and the version of the public
-- key; otherwise it refuses the token with an error.
pub amazon_verify_cases :
    {W : Type 0} (mc : Marketplace W) (token id : String)
    → ((amazon_verify mc token id ≡ (true, none)) × Entitles mc token id)
      ⊎ (((amazon_verify mc token id).0 ≡ false)
          × ((amazon_verify mc token id).1 ≢ none)
          × (¬ Entitles mc token id))
unfolding amazon_verify verify_claims
amazon_verify_cases mc token id = parsed ((mc.parse_with_claims token).1) refl
  where
    claims : Dict Claim
    claims = (mc.parse_with_claims token).0.claims

    parsed :
        (x : Option Error)
        → (mc.parse_with_claims token).1 ≡ x
        → ((amazon_verify mc token id ≡ (true, none)) × Entitles mc token id)
          ⊎ (((amazon_verify mc token id).0 ≡ false)
              × ((amazon_verify mc token id).1 ≢ none)
              × (¬ Entitles mc token id))
    parsed (some x) h =
        inr (
          rw (amazon_verify, h) refl,
          rw (amazon_verify, h) (λ q. cc),
          λ k. (let q = k.parses in cc),
        )
    parsed none h = elim (Bool-cases (mc.parse_with_claims token).0.valid) [
      | inr v ↦ inr (
        rw (amazon_verify, h) (rw v refl),
        rw (amazon_verify, h) (rw v (λ q. cc)),
        λ k. (let q = k.is_valid in cc),
      )
      | inl v ↦
          elim (Bool-cases (is_text aws_marketplace_product_code (lookup "productCode" claims))) [
            | inr a ↦ inr (
              rw (amazon_verify, h) (rw v (rw a refl)),
              rw (amazon_verify, h) (rw v (rw a (λ q. cc))),
              λ k. (let q = (is_text_iff aws_marketplace_product_code _).1 k.product in cc),
            )
            | inl a ↦ elim (Bool-cases (is_text id (lookup "nonce" claims))) [
              | inr b ↦ inr (
                rw (amazon_verify, h) (rw v (rw (a, b) refl)),
                rw (amazon_verify, h) (rw v (rw (a, b) (λ q. cc))),
                λ k. (let q = (is_text_iff id _).1 k.nonce in cc),
              )
              | inl b ↦
                  elim (Bool-cases (
                    is_whole aws_marketplace_public_key_version
                      (lookup "publicKeyVersion" claims))) [
                        | inr c ↦ inr (
                          rw (amazon_verify, h) (rw v (rw (a, b, c) refl)),
                          rw (amazon_verify, h) (rw v (rw (a, b, c) (λ q. cc))),
                          λ k.
                              (let q =
                                  (is_whole_iff aws_marketplace_public_key_version _).1 k.version in
                                cc),
                        )
                        | inl c ↦ inl (
                          rw (amazon_verify, h) (rw v (rw (a, b, c) refl)),
                          record {
                            parses = h;
                            is_valid = v;
                            product = (is_text_iff aws_marketplace_product_code _).0 a;
                            nonce = (is_text_iff id _).0 b;
                            version = (is_whole_iff aws_marketplace_public_key_version _).0 c;
                          },
                        )
                      ]
            ]
          ]
    ]

-- The token that the default client issues for an id verifies for exactly those ids whose digest,
-- with the vendor in front, is the same.
default_client-verify :
    {W : Type 0} (encoded : String → String) (vendor id id' : String) (w : W) {token : String}
    {v : W}
    → (default_client encoded vendor).register_usage id w ≡ (ok token, v)
    → ((default_client {W = W} encoded vendor).verify token id').0 ≡ true
      ↔ (encoded (vendor <> ("-" <> id)) ≡ encoded (vendor <> ("-" <> id')))
unfolding default_client
default_client-verify encoded vendor id id' w {token} h =
    let e : encoded (vendor <> ("-" <> id)) ≡ token = cc in rw (← e) (eq_iff _ _)

-- `NewClient` never hands out a client of another vendor than the variable stands for: it is the
-- default client where the variable is unset, empty or the default vendor, and otherwise an AWS
-- client of the vendor with the variable in lower case behind the default vendor.
pub new_client-vendor :
    {W : Type 0} (encoded : String → String) (load : Result (Marketplace W))
    (marketplace : Option String) {c : Client W}
    → new_client encoded load marketplace ≡ ok c
    → ((vendor_of marketplace ≡ default_vendor) × (c ≡ default_client encoded default_vendor))
      ⊎ ((vendor_of marketplace ≡ "controlplane-aws")
          × ((mc : Marketplace W) × (load ≡ ok mc) × (c ≡ amazon_client mc "controlplane-aws")))
unfolding new_client
new_client-vendor encoded load marketplace {c} h =
    elim (Bool-cases (vendor_of marketplace == default_vendor)) [
      | inl d ↦
          let v : vendor_of marketplace ≡ default_vendor = (eq_iff _ _).0 d in
          let k : ok (default_client encoded (vendor_of marketplace)) ≡ ok c = rw d at h in
          let q : default_client encoded (vendor_of marketplace) ≡ c = cc in
          inl (v, sym q ∙ ap (default_client encoded) v)
      | inr d ↦ elim (Bool-cases (vendor_of marketplace == "controlplane-aws")) [
        | inr a ↦ absurd (let k : err (errorf _) ≡ ok c = rw (d, a) at h in cc)
        | inl a ↦
            let v : vendor_of marketplace ≡ "controlplane-aws" = (eq_iff _ _).0 a in
            elim (Result-cases load) [
              | inl (mc, l) ↦
                  let k : ok (amazon_client mc (vendor_of marketplace)) ≡ ok c =
                    rw (d, a, l) at h in
                  let q : amazon_client mc (vendor_of marketplace) ≡ c = cc in
                  inr (v, (mc, l, sym q ∙ ap (amazon_client mc) v))
              | inr (inl (e, l)) ↦ absurd (let k : err _ ≡ ok c = rw (d, a, l) at h in cc)
              | inr (inr l) ↦ absurd (let k : panic ≡ ok c = rw (d, a, l) at h in cc)
            ]
      ]
    ]

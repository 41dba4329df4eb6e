-- ===== src/Entitlement/Client.antt =====
-- internal/entitlement: client.go, default.go and aws.go.
pub mod Laws
use flux_operator.Base.{
  String, ◌<>◌, ℕ, Bool, true, false, not, Option, none, some, Dict, lookup, Error, Result, ok, err,
  panic, errorf, wrap, ◌==◌, to_lower, if◌then◌else◌, wrapping, eqb,
}
use flux_operator.Base.Effect.{M, ◌>>=◌, lift, prefixed, return}

abbrev pub vendor_key : String
vendor_key = "vendor"

abbrev pub token_key : String
token_key = "token"

abbrev pub default_vendor : String
default_vendor = "controlplane"

-- The interface. `verify` returns a flag and an error, which may be nil whatever the flag is.
pub record Client (World : Type 0) : Type 0 where
  pub register_usage : String → M World String
  pub verify : String → String → Bool × Option Error
  pub get_vendor : String

module _ {W : Type 0} where
  -- `DefaultClient`. `encoded` is the hexadecimal digest of go-digest's `FromString`.
  unfoldable pub default_client : (String → String) → String → Client W
  default_client encoded vendor = record {
    register_usage = λ id. return (encoded (vendor <> ("-" <> id)));
    verify = λ token id. (token == encoded (vendor <> ("-" <> id)), none);
    get_vendor = vendor;
  }

abbrev pub aws_marketplace_product_code : String
aws_marketplace_product_code = "272knt6mdmtctbck10givwm1h"

abbrev pub aws_marketplace_public_key_version : ℕ
aws_marketplace_public_key_version = 1

-- The value of a claim: a text, a float64 that is a natural number, or anything else.
pub data Claim : Type 0 where
  string : String → Claim
  whole : ℕ → Claim
  other : Claim

pub record Token : Type 0 where
  pub valid : Bool
  pub claims : Dict Claim

-- What is called of the AWS SDK and of golang-jwt. `register` is given the product code, the
-- version of the public key and the nonce, and its signature may be nil. `parse_with_claims` is
-- given the token and checks it against the public key of the program. `printed` is what a verb of
-- `fmt`, `%s` or `%f`, makes of a claim.
pub record Marketplace (World : Type 0) : Type 0 where
  pub register : String → ℕ → String → M World (Option String)
  pub parse_with_claims : String → Token × Option Error
  pub printed : String → Option Claim → String

-- The comparisons of the `switch`: a claim that is missing is a nil interface, equal to nothing.
unfoldable pub is_text : String → Option Claim → Bool
is_text s (some (string t)) = t == s
is_text s (some (whole n)) = false
is_text s (some other) = false
is_text s none = false

unfoldable pub is_whole : ℕ → Option Claim → Bool
is_whole k (some (whole n)) = eqb n k
is_whole k (some (string t)) = false
is_whole k (some other) = false
is_whole k none = false

abbrev pub to_string : Option String → String
to_string none = ""
to_string (some s) = s

module _ {W : Type 0} (mc : Marketplace W) where
  open mc use {register, parse_with_claims, printed}

  unfoldable pub verify_claims : String → Dict Claim → Bool × Option Error
  unfolding is_text is_whole
  verify_claims id claims =
      if not (is_text aws_marketplace_product_code (lookup "productCode" claims))
      then (
        false,
        some (
            errorf (
              "AWS Marketplace product code mismatch: "
              <> printed "%s" (lookup "productCode" claims))),
      )
      else if not (is_text id (lookup "nonce" claims))
      then (
        false,
        some (errorf ("AWS Marketplace nonce mismatch: " <> printed "%s" (lookup "nonce" claims))),
      )
      else if not (is_whole aws_marketplace_public_key_version (lookup "publicKeyVersion" claims))
      then (
        false,
        some (
            errorf (
              "AWS Marketplace public key version mismatch: "
              <> printed "%f" (lookup "publicKeyVersion" claims))),
      )
      else (true, none)

  unfoldable pub amazon_verify : String → String → Bool × Option Error
  unfolding verify_claims
  amazon_verify token id =
      let (t, e) = parse_with_claims token in
      elim e [
        | some x ↦ (false, some (wrap "AWS Marketplace invalid token: " x))
        | none ↦
            if t.valid
            then verify_claims id t.claims
            else (false, some (errorf "AWS Marketplace invalid token"))
      ]

  unfoldable pub amazon_register : String → M W String
  amazon_register id = do
    signature ←
        prefixed "failed to register usage with AWS Marketplace: "
          (register aws_marketplace_product_code aws_marketplace_public_key_version id)
    return (to_string signature)

  unfoldable pub amazon_client : String → Client W
  unfolding amazon_register amazon_verify
  amazon_client vendor = record {
    register_usage = amazon_register;
    verify = amazon_verify;
    get_vendor = vendor;
  }

-- `NewAmazonClient`. `load` is the load of the AWS configuration.
abbrev pub new_amazon_client : {W : Type 0} → Result (Marketplace W) → String → Result (Client W)
new_amazon_client load vendor = elim (wrapping "failed to load AWS configuration: " load) [
  | ok mc ↦ ok (amazon_client mc vendor)
  | err e ↦ err e
  | panic ↦ panic
]

-- The vendor that MARKETPLACE_TYPE stands for; `none` if the variable is not set.
unfoldable pub vendor_of : Option String → String
unfolding to_lower
vendor_of none = default_vendor
vendor_of (some marketplace) =
    if marketplace == ""
    then default_vendor
    else if marketplace == default_vendor
    then default_vendor
    else default_vendor <> ("-" <> to_lower marketplace)

-- `NewClient`. The AWS configuration is only loaded for its vendor.
unfoldable pub new_client :
    {W : Type 0} → (String → String) → Result (Marketplace W) → Option String → Result (Client W)
unfolding vendor_of default_client
new_client encoded load marketplace =
    if vendor_of marketplace == default_vendor
    then ok (default_client encoded (vendor_of marketplace))
    else if vendor_of marketplace == "controlplane-aws"
    then new_amazon_client load (vendor_of marketplace)
    else err (errorf ("unsupported vendor " <> vendor_of marketplace))

-- ===== src/Entitlement/Secret.antt =====
-- The entitlement secret: the functions of entitlement_controller.go that read and write it.
use flux_operator.Base.{
  String, ◌<>◌, Bool, false, Option, none, some, [], ◌∷◌, Dict, lookup, insert, Error, Result, ok,
  err, panic, is_not_found, wrap, ◌==◌, if◌then◌else◌,
}
use flux_operator.Base.Effect.{M, ◌>>=◌, ◌>>◌, act, prefixed, return}
use flux_operator.Entitlement.Client.{Client, vendor_key, token_key}
use flux_operator.Reporter.Request.{Reports}

-- A secret, by the fields that the program reads or writes. The data of a secret may be a nil map.
pub record Secret : Type 0 where
  pub name : String
  pub namespace : String
  pub labels : Dict String
  pub data_ : Option (Dict String)

-- The calls of the Kubernetes client: `get` is given the namespace and the name.
pub record Secrets (World : Type 0) : Type 0 where
  pub get_secret : String → String → M World Secret
  pub create : Secret → World → Option Error × World
  pub update : Secret → World → Option Error × World
  pub delete : Secret → World → Option Error × World

-- What the reconciler is given. `get_uid` reads the namespace of the request, for its UID.
pub record Env (World : Type 0) : Type 0 where
  pub client : Client World
  pub secrets : Secrets World
  pub reports : Reports World
  pub get_uid : M World String
  pub status_manager : String
  pub watch_namespace : String

-- Reading a nil map finds nothing, and writing to it panics.
abbrev pub value_of : Secret → String → Option String
value_of secret key = elim (secret.data_) [ none ↦ none | some d ↦ lookup key d ]

unfoldable pub set_value : String → String → Secret → Result Secret
set_value key value secret = elim (secret.data_) [
  | none ↦ panic
  | some d ↦ ok (record secret { data_ = some (insert key value d) })
]

abbrev pub is_vendor : String → Option String → Bool
is_vendor vendor none = false
is_vendor vendor (some v) = v == vendor

module _ {W : Type 0} (env : Env W) where
  open env use {client, secrets, status_manager, watch_namespace}
  open secrets use {get_secret, create, update, delete}

  unfoldable pub secret_name : String
  secret_name = status_manager <> "-entitlement"

  unfoldable pub new_secret : Secret
  unfolding secret_name
  new_secret = record {
    name = secret_name;
    namespace = watch_namespace;
    labels =
        ("app.kubernetes.io/name", status_manager)
        ∷ ("app.kubernetes.io/component", "entitlement")
        ∷ ("app.kubernetes.io/managed-by", status_manager)
        ∷ [];
    data_ = some ((vendor_key, client.get_vendor) ∷ []);
  }

  -- The secret with nothing but the vendor.
  unfoldable pub of_vendor : Secret → Secret
  of_vendor secret = record secret { data_ = some ((vendor_key, client.get_vendor) ∷ []) }

  unfoldable pub create_secret : M W Secret
  unfolding new_secret
  create_secret = do
    prefixed ("failed to create " <> (secret_name <> ": ")) (act (create new_secret))
    return new_secret

  -- The check of the vendor in a secret that is there.
  unfoldable pub set_vendor : Secret → M W Secret
  unfolding of_vendor
  set_vendor secret =
      if is_vendor client.get_vendor (value_of secret vendor_key) then return secret else do
        prefixed ("failed to set vendor in " <> (secret_name <> ": "))
            (act (update (of_vendor secret)))
        return (of_vendor secret)

  abbrev init_with : Result Secret × W → Result Secret × W
  init_with (ok secret, w) = set_vendor secret w
  init_with (err e, w) =
      if is_not_found e
      then create_secret w
      else (err (wrap ("failed to init " <> (secret_name <> ": ")) e), w)
  init_with (panic, w) = (panic, w)

  unfoldable pub init_entitlement_secret : M W Secret
  unfolding create_secret set_vendor
  init_entitlement_secret w = init_with (get_secret watch_namespace secret_name w)

  abbrev get_with : Result Secret × W → Result Secret × W
  get_with (ok secret, w) = (ok secret, w)
  get_with (err e, w) =
      if is_not_found e
      then init_entitlement_secret w
      else (err (wrap ("failed to get " <> (secret_name <> ": ")) e), w)
  get_with (panic, w) = (panic, w)

  unfoldable pub get_entitlement_secret : M W Secret
  unfolding init_entitlement_secret
  get_entitlement_secret w = get_with (get_secret watch_namespace secret_name w)

  unfoldable pub update_entitlement_secret : String → M W (Unit {0})
  unfolding get_entitlement_secret set_value
  update_entitlement_secret token = do
    secret ← get_entitlement_secret
    secret' ← λ w. (set_value token_key token secret, w)
    prefixed ("failed to update " <> (secret.name <> ": ")) (act (update secret'))

  unfoldable pub delete_entitlement_secret : Secret → M W (Unit {0})
  delete_entitlement_secret secret =
      prefixed ("failed to delete " <> (secret.name <> ": ")) (act (delete secret))

  -- `register` is what the builder of the manager does.
  unfoldable pub setup_with_manager : M W (Unit {0}) → M W (Unit {0})
  unfolding init_entitlement_secret
  setup_with_manager register = init_entitlement_secret >> register

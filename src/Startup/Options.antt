-- ===== src/Startup/Options.antt =====
-- The flags of cmd/main.go and the options of its manager.
use flux_operator.Base.{String, Bool, true, false, List, [], ◌∷◌, Dict}
use flux_operator.Base.Int.{ℤ, pos}
use flux_operator.Api.Instance.{default_instance_name}

abbrev pub controller_name : String
controller_name = "flux-operator"

-- A flag: its name and its default.
pub data Flag : Type 0 where
  int_var : String → ℤ → Flag
  string_var : String → String → Flag
  bool_var : String → Bool → Flag

-- The flags that the program declares itself. Those of the logger and of the rate limiter are
-- declared by their libraries.
abbrev pub declared_flags : List Flag
declared_flags =
    int_var "concurrent" (pos 4)
    ∷ string_var "metrics-addr" ":8080"
    ∷ string_var "health-addr" ":8081"
    ∷ string_var "storage-path" "/data"
    ∷ bool_var "enable-leader-election" false
    ∷ []

-- The values that `flag.Parse` gives the variables.
pub record Flags : Type 0 where
  pub concurrent : ℤ
  pub metrics_addr : String
  pub health_addr : String
  pub enable_leader_election : Bool
  pub storage_path : String

-- The options that the manager is made with, but for the scheme and the handlers of the profiler.
-- `uncached` has the kinds that the client reads without the cache, `selected` the fields that an
-- object of a kind must have to be in the cache.
pub record ManagerOptions : Type 0 where
  pub metrics_bind_address : String
  pub health_probe_bind_address : String
  pub leader_election : Bool
  pub leader_election_id : String
  pub leader_election_release_on_cancel : Bool
  pub max_concurrent_reconciles : ℤ
  pub recover_panic : Bool
  pub uncached : List String
  pub selected : Dict (Dict String)

-- The fields of the one object that is reconciled.
abbrev pub only_instance : String → Dict String
only_instance namespace =
    ("metadata.name", default_instance_name) ∷ ("metadata.namespace", namespace) ∷ []

unfoldable pub manager_options : Flags → String → ManagerOptions
manager_options flags namespace = record {
  metrics_bind_address = flags.metrics_addr;
  health_probe_bind_address = flags.health_addr;
  leader_election = flags.enable_leader_election;
  leader_election_id = controller_name;
  leader_election_release_on_cancel = true;
  max_concurrent_reconciles = flags.concurrent;
  recover_panic = true;
  uncached = "Secret" ∷ "ConfigMap" ∷ [];
  selected =
      ("FluxInstance", only_instance namespace) ∷ ("FluxReport", only_instance namespace) ∷ [];
}

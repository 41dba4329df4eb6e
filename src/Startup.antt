-- ===== src/Startup.antt =====
-- `main` of cmd/main.go: the flags are read, the controllers are set up one after the other, and the
-- manager is started.
pub mod Options
pub mod Laws
use flux_operator.Base.{
  String, Bool, Option, none, some, List, Error, Result, ok, err, panic, ◌==◌, if◌then◌else◌,
}
use flux_operator.Base.Effect.{M, ◌>>=◌, ◌>>◌, lift}
use flux_operator.Api.Instance.{default_namespace}
use flux_operator.Reporter.Items.{Items}
use flux_operator.Entitlement.Client.{Client, Marketplace, new_client}
use flux_operator.Entitlement.Secret
use flux_operator.Report
use flux_operator.Reporter.Metrics.{must_register_metrics}
use flux_operator.Startup.Options.{
  controller_name, Flag, declared_flags, Flags, ManagerOptions, manager_options,
}

-- What the process is given: two variables of the environment, empty or `none` if they are not set,
-- the parser of the flags, the registry of the metrics, the load of the AWS configuration, and the
-- calls of the manager. The `register` calls are those of the manager's builder, and `start` sets up
-- the probes first. Of the two environments the name and the namespace are set here, and the
-- reconciler of the instance is given the storage path and its name, that of the artifacts its name.
pub record Process (items : Items) (World : Type 0) : Type 1 where
  pub runtime_namespace : String
  pub marketplace : Option String
  pub encoded : String → String
  pub load : World → Result (Marketplace World)
  pub parse : List Flag → M World Flags
  pub must_register : List String → M World (Unit {0})
  pub new_manager : ManagerOptions → M World (Unit {0})
  pub entitlement : Secret.Env World
  pub report : Report.Env items World
  pub register_entitlement : M World (Unit {0})
  pub register_instance : String → String → M World (Unit {0})
  pub register_artifact : String → M World (Unit {0})
  pub register_report : M World (Unit {0})
  pub start : M World (Unit {0})

module _ {items : Items} {W : Type 0} (p : Process items W) where
  open p use {
    new_manager, register_entitlement, register_instance, register_artifact, register_report, start,
  }

  unfoldable pub watched : String
  watched = if p.runtime_namespace == "" then default_namespace else p.runtime_namespace

  abbrev pub entitlement_env : Client W → Secret.Env W
  entitlement_env c = record (p.entitlement) {
    client = c;
    status_manager = controller_name;
    watch_namespace = watched;
  }

  abbrev pub report_env : Report.Env items W
  report_env = record (p.report) { status_manager = controller_name; watch_namespace = watched }

  -- An error ends the process.
  unfoldable pub main : M W (Unit {0})
  unfolding watched
  main = do
    flags ← p.parse declared_flags
    must_register_metrics p.must_register
    new_manager (manager_options flags watched)
    client ← λ w. (new_client p.encoded (p.load w) p.marketplace, w)
    Secret.setup_with_manager (entitlement_env client) register_entitlement
    register_instance flags.storage_path controller_name
    register_artifact controller_name
    Report.setup_with_manager report_env register_report
    start

-- ===== src/Lib.antt =====
-- Flux Operator: the core of the operator that installs Flux in a cluster and keeps it up to date.
--
-- A FluxInstance object asks for a version of Flux. The FluxInstance controller fetches the
-- manifests, takes the latest version in the range, builds the objects, applies them, records them
-- in the inventory of the object's status, deletes what is no longer there and reports. The other
-- parts are libraries that it calls.
--
-- Base: what the models share. Outcome has the result of a Go call: a value, an error or a panic.
--   Effect has calls that read and change a state, Calm those that do not panic. Text and Lists have the functions of Go's
--   strings and maps, Sort the contract of Go's sorting, Int signed 64-bit quantities.
-- Api: api/v1. Instance and Report are the two kinds of object with their defaults
--   (fluxinstance_types.go, fluxreport_types.go). Conditions has the calls of
--   fluxcd/pkg/runtime/conditions, with what is documented of them.
-- Builder: internal/builder. Semver (semver.go), Images (images.go), Profiles (profiles.go),
--   Options (options.go, result.go and `ContainElementString`), Template (`execTemplate` of
--   templates.go), Build (build.go), Pull (pull.go, digest.go and `MkdirTempAbs`). Files has the
--   calls of the file system and the join of paths.
-- Builder/Template: the templates of templates.go (Kustomization, Shard, Manifests, SyncTemplate) as
--   trees of actions. Syntax, Value and Run are the part of Go's text/template that they use: its
--   actions, its values and its execution. Data has the options as the value that a template is
--   executed on, Typing a checker of templates against the types of such values.
-- Inventory: internal/inventory/inventory.go.
-- Reporter: internal/reporter. Metrics (metrics.go), Request (`RequestReportUpdate` of
--   reporter.go), Compute (`Compute`), Distribution (distribution.go), Crds (crds.go), Components
--   (components.go), Stats and Size (`getReconcilersStatus` and `formatSize` of reconcilers.go), Sync
--   (sync.go). Items has the accessors of unstructured objects, Cluster the reporter and its calls.
-- Report: `Reconcile` and `initReport` of internal/controller/fluxreport_controller.go.
-- Entitlement: Client (internal/entitlement), Secret and Reconcile (the functions on the secret and
--   `Reconcile` of internal/controller/entitlement_controller.go). Reconcile/Spec has the
--   specification: whether there is a secret, whether it has a token, which, and in what time the
--   next reconciliation is due. Reconcile/Cluster has the contract of a cluster whose calls succeed.
-- Startup: `main` of cmd/main.go, with the calls of the manager and the parser of the flags as
--   parameters. Options has the flags and the options that the manager is made with.
-- Instance: internal/controller. Request and Reconcile (`Reconcile` and `reconcile` of
--   fluxinstance_controller.go), Build (`fetch` and `build`), Options (the part of `build` that
--   fills the options), Apply (`apply`), Status (`finalizeStatus`, `patch`, `notify` and the small
--   helpers), Uninstall (fluxinstance_uninstaller.go), Migrate (fluxinstance_migrator.go), Artifact
--   (fluxinstance_artifact_controller.go and the predicate of fluxinstance_artifact_manager.go), Watch
--   (the predicates of fluxinstance_manager.go).
--   Env has all that the reconciler is given.
--
-- The controller's state is the object in memory and the rest: the events so far and a world of
-- which nothing is known but the calls of Env. A call that may change the object is one on the
-- whole state, and one that cannot is one on the rest. The handlers are composed as in the source,
-- early returns and deferred calls included. An error of a Go call is a value with its text and its
-- class, and a use of a nil value or a failed type assertion is a panic. Where the source only logs
-- an error, a panic goes on.
--
-- Libraries are parameters: Masterminds/semver, the conditions and the server-side apply of
-- fluxcd/pkg, cli-utils, controller-runtime, crane, kustomize and the file system.
-- Where a theorem relies on one, what is documented of it is a record of laws that the theorem
-- takes, and the tests fill these records with concrete functions. A write of an object
-- to the cluster is taken to leave the object in memory as it is.
--
-- The report is computed in a draft: the part of the spec that is filled in, and the world. An error
-- leaves the draft as it is, which is what `Compute` returns beside the error. The secret that the
-- entitlement controller writes is the one that the distribution's status is read from.
--
-- Numbers are natural numbers, and the int64 that the sizes are added up in is kept by its 64 bits.
-- The one loop that is not over a list is that of `formatSize`: its model has fuel for 8 rounds, and
-- a size below 2 ^ 63 needs 5 at most. Its multiplication keeps the width of 64 bits.
--
-- Not modelled: the flags of the logger and of the rate limiter, the scheme and the profiler, the
-- rest of what the controllers are registered with, logging, the time limits of contexts and the
-- generated code. The text that lists missing images is left out of an error, and so are the list of
-- field managers and the cleanup of an apply, which the parameter for the apply stands for.
pub mod Base
pub mod Api
pub mod Builder
pub mod Inventory
pub mod Report
pub mod Reporter
pub mod Instance
pub mod Entitlement
pub mod Startup
mod Tests

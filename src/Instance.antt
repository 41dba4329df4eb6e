-- ===== src/Instance.antt =====
-- internal/controller/fluxinstance_*.go: the reconciliation of a FluxInstance.
pub mod Env
pub mod Migrate
pub mod Uninstall
pub mod Status
pub mod Options
pub mod Build
pub mod Apply
pub mod Artifact
pub mod Watch
pub mod Reconcile
pub mod Request

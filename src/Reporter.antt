-- ===== src/Reporter.antt =====
-- Package internal/reporter: metrics, and the report on the Flux installation.
pub mod Items
pub mod Cluster
pub mod Distribution
pub mod Crds
pub mod Components
pub mod Stats
pub mod Sync
pub mod Compute
pub mod Metrics
pub mod Size
pub mod Request

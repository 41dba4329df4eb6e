-- ===== src/Tests.antt =====
-- Concrete data, and runs of the theorems on them.
mod Conditions
mod Data
mod World
mod Objects
mod Builds
mod Records
mod Instances
mod Entitlements
mod Cluster
mod Reports
mod Startups

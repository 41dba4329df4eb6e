-- ===== src/Api.antt =====
-- Package api/v1: the objects that the operator reads and writes.
pub mod Conditions
pub mod Instance
pub mod Report

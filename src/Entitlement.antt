-- ===== src/Entitlement.antt =====
-- internal/entitlement and entitlement_controller.go: the vendors' clients, the secret that holds
-- the token, and its reconciliation.
pub mod Client
pub mod Secret
pub mod Reconcile

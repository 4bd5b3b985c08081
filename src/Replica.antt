-- ===== src/Replica.antt =====
-- internal/controller/litestreamreplica_controller.go: the controller of LitestreamReplica.
pub mod Conditions
pub mod ConfigMaps
pub mod Target
pub mod Pods
pub mod Status
pub mod Reconcile
pub mod Health
pub mod Readiness
pub mod Handoff
pub mod Convergence
pub mod Writes
pub mod InitSql
pub mod Cycle

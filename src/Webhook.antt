-- ===== src/Webhook.antt =====
-- internal/webhook: the mutating webhook for pods and the validating webhook for
-- LitestreamReplicas.
pub mod Scripts
pub mod Injector
pub mod Validator
pub mod Admission
pub mod Mounts
pub mod Injection
pub mod Patched
pub mod Startup
pub mod Reference

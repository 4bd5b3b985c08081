-- ===== src/Manager.antt =====
-- The entry point of the manager, cmd/main.go.
pub mod Slices
pub mod Tls
pub mod Calls
pub mod Main
pub mod Plan
pub mod Steps
pub mod Started
pub mod Servers

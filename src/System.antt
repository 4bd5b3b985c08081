-- ===== src/System.antt =====
-- The two controllers over one cluster.
pub mod Replay
pub mod Store
pub mod Quiet
pub mod Begin
pub mod Turns
pub mod Configs
pub mod Draining
pub mod Handover
pub mod Rendering
pub mod Handshake
pub mod Admission
pub mod Pipeline

-- ===== src/Restore.antt =====
-- internal/controller/litestreamrestore_controller.go: the restore controller.
pub mod Annotations
pub mod Status
pub mod Jobs
pub mod Phases
pub mod Reconcile
pub mod Trace
pub mod Machine
pub mod Steps
pub mod Refinement
pub mod Life
pub mod JobGuard
pub mod ScaleSteps
pub mod Scaling
pub mod Progress
pub mod SourceLoss
pub mod Returns
pub mod Pauses
pub mod Recovery
pub mod Bound
pub mod Course
pub mod Counts
pub mod Files

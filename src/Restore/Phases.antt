-- ===== src/Restore/Phases.antt =====
-- The handlers of the phases: reconcilePending to reconcileScalingUp.
mod Common
mod Pausing
mod Judging
mod ScalingUp
unfoldable pub use Common.*
unfoldable pub use Pausing.*
unfoldable pub use Judging.*
unfoldable pub use ScalingUp.*

-- ===== src/Session.antt =====
-- rust-core/src/session.rs: the session handle and its driver task.
pub mod Driver
pub mod Handlers
pub mod Shutdown
unfoldable pub use Driver.*
unfoldable pub use Handlers.*
pub mod Transitions
pub mod Answers
pub mod Stale
pub mod Conserved
pub mod Saved
pub mod Handle
pub mod Gate

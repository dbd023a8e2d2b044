-- ===== src/Mock.antt =====
-- rust-core/src/providers/mock.rs: the simulated SSH provider.
pub mod Replies
pub mod Provider
unfoldable pub use Replies.*
unfoldable pub use Provider.*
pub mod Reconnect

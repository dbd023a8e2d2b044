-- ===== src/MockFs.antt =====
-- rust-core/src/providers/mock.rs: the in-memory filesystem of the mock backend and the methods
-- of `MockFileProvider`.
mod Ops
mod Listing
mod Provider
unfoldable pub use Ops.*
unfoldable pub use Listing.*
unfoldable pub use Provider.*
pub mod Subtree
pub mod Contents
pub mod Reached

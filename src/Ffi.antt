-- ===== src/Ffi.antt =====
-- rust-core/src/ffi.rs: how events and results cross the C ABI, and the checks of its entry points.
pub mod Backing
pub mod Events
pub mod Calls
pub mod Tasks
pub mod Files
pub mod Teardown
pub mod Lifecycle
pub mod Boundary
pub mod InBounds

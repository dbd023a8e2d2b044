-- ===== src/MockFs/Contents.antt =====
-- providers/mock.rs: file contents, directory listings and single entries.
pub mod Files
pub mod Children
pub mod Sorting
pub mod Stable
pub mod Stat

-- ===== src/MockFs/Subtree.antt =====
-- providers/mock.rs: what renaming, copying and removing do to a whole subtree of the filesystem.
pub mod Prefix
pub mod Rename
pub mod Remove

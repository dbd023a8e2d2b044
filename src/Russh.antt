-- ===== src/Russh.antt =====
-- rust-core/src/providers/russh.rs: the parts of the russh backend that are the program's own.
pub mod Patterns
pub mod Keys
pub mod Auth
pub mod Sftp
pub mod Exec
pub mod Network
pub mod Provider

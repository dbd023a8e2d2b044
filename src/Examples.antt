-- ===== src/Examples.antt =====
-- The theorems at concrete inputs, and runs of the model's functions.
mod Filesystem
mod Driver
mod Russh
mod Disk
mod Sftp
mod Connection
mod Lifecycle
mod Abi
mod Shelf
mod Play

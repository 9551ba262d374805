-- ===== src/Super.antt =====
-- super.c: inodes, file handles for export, and the mount.
pub mod Inodes
pub mod Handles
pub mod Export
pub mod Attributes
pub mod Entries
pub mod Mount
pub mod Mounting

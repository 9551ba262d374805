-- ===== src/Dir.antt =====
-- dir.c: the operations on directories.
pub mod Create
pub mod Lookup
pub mod Remove
pub mod Links
pub mod Outcomes
pub mod Permission
pub mod Readdir

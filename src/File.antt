-- ===== src/File.antt =====
-- file.c: reading and writing pages of a file.
pub mod Pages
pub mod Content
pub mod Writes
pub mod Calls
pub mod Attributes

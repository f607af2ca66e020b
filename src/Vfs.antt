-- ===== src/Vfs.antt =====
-- The virtual file system: caches, files and paths.
pub mod Cache
mod Examples
pub mod Dentry
pub mod File
pub mod Open
pub mod Tree

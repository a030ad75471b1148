-- ===== src/System.antt =====
-- pkg/system: files and directories.
pub mod Backup
pub mod EmptyDirs
pub mod Dir

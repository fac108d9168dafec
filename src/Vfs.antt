-- ===== src/Vfs.antt =====
-- src/kernel/vfs.c, vfs.h and vfs_context.c: files and their references, names, volumes, and the table of
-- open files.
pub mod Files
pub mod Table
pub mod Names
pub mod Volumes
pub mod Canonical
pub mod Parse
mod Tests

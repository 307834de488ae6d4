-- ===== src/Fs.antt =====
-- kernel/src/fs: the file systems.
pub mod Mount
pub mod Vfs

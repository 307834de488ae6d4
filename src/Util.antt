-- ===== src/Util.antt =====
-- kernel/src/util: the helpers of the kernel.
pub mod Klib

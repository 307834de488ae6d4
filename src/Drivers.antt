-- ===== src/Drivers.antt =====
-- kernel/src/drivers: the drivers.
pub mod Block

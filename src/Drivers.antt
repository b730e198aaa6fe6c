-- ===== src/Drivers.antt =====
-- kernel/src/drivers: the drivers that talk to their device over I/O ports.
pub mod Port
pub mod Pic
pub mod Pit
pub mod Serial
pub mod Ps2
pub mod Tests

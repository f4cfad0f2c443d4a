-- ===== src/Lk.antt =====
-- The little kernel, the boot loader's: bootable/lk.
pub mod Timer
pub mod Thread
pub mod Wait
pub mod Calls
pub mod Mutex
pub mod Event
pub mod Dpc
pub mod Bytes
pub mod Partition
pub mod Fastboot
pub mod Flash

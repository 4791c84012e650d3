-- ===== src/SwapDisk.antt =====
-- kernel/swap_disk.c: swap storage on four simulated disks, with a request queue and RAID mappings.
pub mod State
pub mod Queue
pub mod Raid
pub mod Pages
mod Tests

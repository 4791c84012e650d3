-- ===== src/Frames.antt =====
-- kernel/kalloc.c: physical pages, the frame table with clock replacement, and the swap table.
pub mod State
pub mod Swap
pub mod Clock
pub mod Table
mod Tests

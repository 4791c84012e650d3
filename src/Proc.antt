-- ===== src/Proc.antt =====
-- kernel/proc.h, proc.c and the scheduling parts of trap.c.
pub mod State
pub mod Sleep
pub mod Mlfq
pub mod Scheduler
pub mod Lifecycle
mod Tests

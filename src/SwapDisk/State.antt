-- ===== src/SwapDisk/State.antt =====
-- kernel/swap_disk.h and the static data of kernel/swap_disk.c, with the process table that the
-- disk layer keeps its statistics in and the calling process (myproc()).
use operating_systems_2_assi.Prelude.{ℕ, Bool, Option, Bytes}
use operating_systems_2_assi.Proc.State.{Proc}

abbrev pub raid_0 : ℕ
raid_0 = 0

abbrev pub raid_1 : ℕ
raid_1 = 1

abbrev pub raid_5 : ℕ
raid_5 = 2

abbrev pub disk_sched_fcfs : ℕ
disk_sched_fcfs = 0

abbrev pub disk_sched_sstf : ℕ
disk_sched_sstf = 1

abbrev pub max_disk_reqs : ℕ
max_disk_reqs = 128

abbrev pub rotational_delay : ℕ
rotational_delay = 5

abbrev pub ndisks : ℕ
ndisks = 4

abbrev pub disk_blocks_per_disk : ℕ
disk_blocks_per_disk = 16384

-- MAX_SWAP (kernel/memlayout.h)
abbrev pub max_swap_slots : ℕ
max_swap_slots = 16384

-- BSIZE (kernel/fs.h)
abbrev pub bsize : ℕ
bsize = 1024

-- PGSIZE / BSIZE
abbrev pub blocks_per_page : ℕ
blocks_per_page = 4

-- struct disk_req
pub record DiskReq : Type 0 where
  pub valid : Bool
  pub blockno : ℕ
  pub write : Bool
  pub proc : Option ℕ
  pub priority : ℕ

-- The struct of `diskq`, less its lock.
pub record DiskQueue : Type 0 where
  pub reqs : ℕ → DiskReq
  pub head : ℕ
  pub policy : ℕ
  pub total_latency : ℕ
  pub total_requests : ℕ

-- `disks d b` is the block simulated_disks[d][b].
pub record SwapDisk : Type 0 where
  pub queue : DiskQueue
  pub disks : ℕ → ℕ → Bytes
  pub raid_mode : ℕ
  pub slot_mode : ℕ → ℕ
  pub procs : ℕ → Proc
  pub current : Option ℕ

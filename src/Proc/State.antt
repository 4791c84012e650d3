-- ===== src/Proc/State.antt =====
-- kernel/proc.h: a process as the kernel's table holds it. A pointer into the table is its index,
-- a null pointer is `none`, and an `int` that is only counted up is a natural number.
use operating_systems_2_assi.Prelude.{ℕ, zero, suc, Bool, Option}

-- enum procstate
pub data ProcState : Type 0 where
  unused used sleeping runnable running zombie : ProcState

-- `==` on process states.
abbrev pub is_unused : ProcState → Bool
is_unused ProcState.unused = Bool.true
is_unused _ = Bool.false

abbrev pub is_sleeping : ProcState → Bool
is_sleeping ProcState.sleeping = Bool.true
is_sleeping _ = Bool.false

abbrev pub is_runnable : ProcState → Bool
is_runnable ProcState.runnable = Bool.true
is_runnable _ = Bool.false

abbrev pub is_running : ProcState → Bool
is_running ProcState.running = Bool.true
is_running _ = Bool.false

abbrev pub is_zombie : ProcState → Bool
is_zombie ProcState.zombie = Bool.true
is_zombie _ = Bool.false

-- An `int` that may fall below 0: `negsuc n` is -(n + 1).
pub data ℤ : Type 0 where
  pos : ℕ → ℤ
  negsuc : ℕ → ℤ

abbrev pub incr : ℤ → ℤ
incr (ℤ.pos n) = ℤ.pos (suc n)
incr (ℤ.negsuc zero) = ℤ.pos zero
incr (ℤ.negsuc (suc n)) = ℤ.negsuc n

abbrev pub decr : ℤ → ℤ
decr (ℤ.pos zero) = ℤ.negsuc zero
decr (ℤ.pos (suc n)) = ℤ.pos n
decr (ℤ.negsuc n) = ℤ.negsuc (suc n)

-- struct proc. `ticks` is the array of four counters; addresses are numbers, and 0 is null.
pub record Proc : Type 0 where
  pub state : ProcState
  pub chan : ℕ
  pub killed : Bool
  pub xstate : ℤ
  pub pid : ℕ
  pub parent : Option ℕ
  pub sz : ℕ
  pub pagetable : ℕ
  pub trapframe : ℕ
  pub syscount : ℕ
  pub cur_queue_lvl : ℕ
  pub ticks_each_level : ℕ
  pub ticks : ℕ → ℕ
  pub no_of_schedules : ℕ
  pub temp : ℕ
  pub page_faults : ℕ
  pub pages_evicted : ℕ
  pub pages_swapped_in : ℕ
  pub pages_swapped_out : ℕ
  pub resident_pages : ℤ
  pub disk_reads : ℕ
  pub disk_writes : ℕ
  pub avg_disk_latency : ℕ

-- NPROC (kernel/param.h)
abbrev pub nproc : ℕ
nproc = 64

-- A process slot that was never used, as the zeroed table holds it.
abbrev pub blank_proc : Proc
blank_proc = record {
  state = ProcState.unused;
  chan = 0;
  killed = Bool.false;
  xstate = ℤ.pos 0;
  pid = 0;
  parent = Option.none;
  sz = 0;
  pagetable = 0;
  trapframe = 0;
  syscount = 0;
  cur_queue_lvl = 0;
  ticks_each_level = 0;
  ticks = λ _. 0;
  no_of_schedules = 0;
  temp = 0;
  page_faults = 0;
  pages_evicted = 0;
  pages_swapped_in = 0;
  pages_swapped_out = 0;
  resident_pages = ℤ.pos 0;
  disk_reads = 0;
  disk_writes = 0;
  avg_disk_latency = 0;
}

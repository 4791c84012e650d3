-- ===== src/Frames/State.antt =====
-- The data of kernel/kalloc.c and kernel/vmstruct.h, with the leaf entries of the page tables, the
-- contents of physical pages, and the disk layer that swapped pages go to.
use operating_systems_2_assi.Prelude.{
  ℕ, ◌*◌, ◌/◌, Bool, true, false, Option, none, some, List, Bytes, if◌then◌else◌, update, update₂,
  Outcome, ok, panic, Panic,
}
use operating_systems_2_assi.Proc.State.{Proc, ℤ}
use operating_systems_2_assi.SwapDisk.State.{SwapDisk}

-- MAX_FRAMES, MAX_SWAP (kernel/memlayout.h) and PGSIZE (kernel/riscv.h)
abbrev pub max_frames : ℕ
max_frames = 64

abbrev pub max_swap : ℕ
max_swap = 16384

abbrev pub pgsize : ℕ
pgsize = 4096

-- A page table entry: the number in bits 10 and up, and the flags PTE_V, PTE_R, PTE_W, PTE_X, PTE_U,
-- PTE_A and PTE_S. The other four of the low ten bits are `rest`.
pub record Pte : Type 0 where
  pub number : ℕ
  pub v : Bool
  pub r : Bool
  pub w : Bool
  pub x : Bool
  pub u : Bool
  pub a : Bool
  pub s : Bool
  pub rest : ℕ

-- PTE2PA
abbrev pub pte2pa : Pte → ℕ
pte2pa p = p.number * pgsize

-- struct frame
pub record Frame : Type 0 where
  pub used : Bool
  pub proc : Option ℕ
  pub va : ℕ
  pub pa : ℕ

-- struct swap
pub record Swap : Type 0 where
  pub used : Bool
  pub page_table : ℕ
  pub va : ℕ
  pub raid_mode : ℕ

-- `ptes pagetable n` is the leaf entry that walk(pagetable, va, 0) finds for the page n = va / PGSIZE,
-- `none` where it returns 0. `framelock` is set while this CPU holds the lock.
pub record Memory : Type 0 where
  pub disk : SwapDisk
  pub frames : ℕ → Frame
  pub framelock : Bool
  pub clock_hand : ℕ
  pub active_frames : ℤ
  pub swaptable : ℕ → Swap
  pub freelist : List ℕ
  pub ptes : ℕ → ℕ → Option Pte
  pub pages : ℕ → Bytes

abbrev pub procs_of : Memory → ℕ → Proc
procs_of m = m.disk.procs

-- The process table after a change to one process, if any.
abbrev pub with_proc : Option ℕ → (Proc → Proc) → SwapDisk → SwapDisk
with_proc none f d = d
with_proc (some i) f d = record d { procs = update d.procs i (f (d.procs i)) }

-- walk(pagetable, va, 0), and a write through the pointer that it returns. The addresses of frames are
-- below MAXVA, from where on walk() panics.
abbrev pub pte_at : Memory → ℕ → ℕ → Option Pte
pte_at m pagetable va = m.ptes pagetable (va / pgsize)

abbrev pub set_pte : ℕ → ℕ → Pte → Memory → Memory
set_pte pagetable va p m = record m { ptes = update₂ m.ptes pagetable (va / pgsize) (some p) }

-- acquire(&framelock) stops the machine if this CPU holds the lock already.
abbrev pub acquire_framelock : Memory → Outcome Memory
acquire_framelock m =
    if m.framelock then panic Panic.acquire else ok (record m { framelock = true })

abbrev pub release_framelock : Memory → Memory
release_framelock m = record m { framelock = false }

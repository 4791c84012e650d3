-- ===== src/Proc/Lifecycle.antt =====
-- kernel/proc.c: a process from allocproc() to the wait() of its parent. What the memory and file
-- layers return to these functions are arguments; their effects on pages and files are not here.
pub mod Pids
pub mod Alloc
pub mod Exit
pub mod Reuse
use operating_systems_2_assi.Prelude.{
  ℕ, zero, suc, ◌+◌, Bool, true, false, ◌&&◌, ◌||◌, not, Option, none, some, if◌then◌else◌, ◌==◌,
  update, find_first, for_each, Outcome, ok, panic, Panic,
}
use operating_systems_2_assi.Proc.State.{
  Proc, ProcState, ℤ, is_unused, is_zombie, is_sleeping, nproc,
}
use operating_systems_2_assi.Proc.Sleep.{wakeup, is_me}

-- The process table, nextpid and initproc.
pub record Table : Type 0 where
  pub procs : ℕ → Proc
  pub nextpid : ℕ
  pub initproc : Option ℕ

-- freeproc(), less the release of the pages.
unfoldable pub freeproc : Proc → Proc
freeproc p = record p {
  trapframe = 0;
  pagetable = 0;
  sz = 0;
  pid = 0;
  parent = none;
  chan = 0;
  killed = false;
  xstate = ℤ.pos 0;
  syscount = 0;
  state = ProcState.unused;
  page_faults = 0;
  pages_evicted = 0;
  pages_swapped_in = 0;
  pages_swapped_out = 0;
  resident_pages = ℤ.pos 0;
}

-- What allocproc() sets in the entry that it found, before it allocates memory.
unfoldable pub init_proc : ℕ → Proc → Proc
init_proc pid p = record p {
  pid = pid;
  state = ProcState.used;
  syscount = 0;
  cur_queue_lvl = 0;
  ticks_each_level = 0;
  ticks = update (update (update (update p.ticks 0 0) 1 0) 2 0) 3 0;
  no_of_schedules = 0;
  temp = 0;
  page_faults = 0;
  pages_evicted = 0;
  pages_swapped_in = 0;
  pages_swapped_out = 0;
  resident_pages = ℤ.pos 0;
}

abbrev pub find_unused : Table → Option ℕ
find_unused t = find_first (λ i. is_unused (t.procs i).state) nproc 0

-- `frame` and `pagetable` are what kalloc() and proc_pagetable() return, 0 if they fail.
unfoldable pub allocproc : ℕ → ℕ → Table → Option ℕ × Table
allocproc frame pagetable t = elim (find_unused t) [
  | none ↦ (none, t)
  | some i ↦
      let p : Proc = init_proc t.nextpid (t.procs i) in
      let q : Proc = record p { trapframe = frame } in
      let t' : Table = record t { nextpid = t.nextpid + 1 } in
      if frame == 0
      then (none, record t' { procs = update t.procs i (freeproc q) })
      else if pagetable == 0
      then (none, record t' { procs = update t.procs i (freeproc (record q { pagetable = 0 })) })
      else (some i, record t' { procs = update t.procs i (record q { pagetable = pagetable }) })
]

-- The child's entry when kfork() is done with it.
abbrev pub forked : ℕ → Proc → Proc → Proc
forked me parent child = record child {
  sz = parent.sz;
  parent = some me;
  state = ProcState.runnable;
}

-- `copied` says whether uvmcopy() succeeds. The result is the child's process id, `none` for -1.
unfoldable pub kfork : ℕ → ℕ → ℕ → Bool → Table → Option ℕ × Table
kfork me frame pagetable copied t =
    let (found, t') = allocproc frame pagetable t in
    elim found [
      | none ↦ (none, t')
      | some i ↦
          if copied
          then (
            some (t'.procs i).pid,
            record t' { procs = update t'.procs i (forked me (t'.procs me) (t'.procs i)) },
          )
          else (none, record t' { procs = update t'.procs i (freeproc (t'.procs i)) })
    ]

-- pp->parent == p
abbrev pub is_child_of : ℕ → Proc → Bool
is_child_of me p = is_me p.parent me

-- `addr` gives the address of a process entry, on which its parent sleeps; a null pointer is 0.
module _ (addr : ℕ → ℕ) where
  abbrev pub addr_of : Option ℕ → ℕ
  addr_of none = 0
  addr_of (some i) = addr i

  -- One round of the loop of reparent().
  unfoldable pub reparent_one : ℕ → Option ℕ → ℕ → (ℕ → Proc) → ℕ → Proc
  reparent_one me init i procs =
      if is_child_of me (procs i)
      then wakeup (some me) (addr_of init) (update procs i (record (procs i) { parent = init }))
      else procs

  -- for (pp = proc + i; n rounds)
  unfoldable pub reparent_loop : ℕ → Option ℕ → ℕ → ℕ → (ℕ → Proc) → ℕ → Proc
  reparent_loop me init zero i procs = procs
  reparent_loop me init (suc n) i procs =
      reparent_loop me init n (suc i) (reparent_one me init i procs)

  unfoldable pub reparent : ℕ → Table → Table
  reparent me t = record t { procs = reparent_loop me t.initproc nproc 0 t.procs }

  -- kexit() up to sched(), less the closing of files.
  unfoldable pub kexit : ℤ → ℕ → Table → Outcome Table
  kexit status me t =
      if is_me t.initproc me
      then panic Panic.init_exiting
      else let t' : Table = reparent me t in
        let woken = wakeup (some me) (addr_of (t'.procs me).parent) t'.procs in
        ok (record t' {
          procs = update woken me (record (woken me) { xstate = status; state = ProcState.zombie });
        })

-- What one round of the loop of kwait() comes to: a child is reaped with its id and status, the call
-- returns -1, or the caller sleeps on its own entry.
pub data WaitRound : Type 0 where
  reaped : ℕ → ℤ → Table → WaitRound
  failed : WaitRound
  sleeps : WaitRound

abbrev pub find_zombie : ℕ → Table → Option ℕ
find_zombie me t =
    find_first (λ i. is_child_of me (t.procs i) && is_zombie (t.procs i).state) nproc 0

abbrev pub has_kids : ℕ → Table → Bool
has_kids me t = elim (find_first (λ i. is_child_of me (t.procs i)) nproc 0) [
  | none ↦ false
  | some i ↦ true
]

-- `wanted` says that the status pointer is not null, and `copied` that copyout() succeeds.
unfoldable pub kwait_round : ℕ → Bool → Bool → Table → WaitRound
kwait_round me wanted copied t = elim (find_zombie me t) [
  | some i ↦
      if wanted && not copied
      then failed
      else reaped (t.procs i).pid (t.procs i).xstate
          (record t { procs = update t.procs i (freeproc (t.procs i)) })
  | none ↦ if not (has_kids me t) || (t.procs me).killed then failed else sleeps
]

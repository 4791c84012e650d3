-- ===== src/Proc/Tests.antt =====
-- The theorems about kernel/proc.c and kernel/trap.c at small inputs.
use operating_systems_2_assi.Prelude.{
  ◌*◌, ℕ, ◌+◌, ◌-◌, ◌≤◌, ◌≡◌, ◌≢◌, refl, ◌⊎◌, true, false, none, some, arith, List, [], ◌∷◌, update,
  ok, find_first, for_each, All,
}
use operating_systems_2_assi.Proc.State.{
  Proc, ProcState, ℤ, blank_proc, nproc, is_runnable, is_unused, is_zombie,
}
use operating_systems_2_assi.Proc.Sleep.{wakeup, fall_asleep, kkill}
use operating_systems_2_assi.Proc.Sleep.Wake.{wakeup-fall_asleep}
use operating_systems_2_assi.Proc.Mlfq.{Clock, clockintr, time_slice}
use operating_systems_2_assi.Proc.Mlfq.Rounds.{
  round, rounds, IsDispatched, round-level, cpu_bound_level, quiet_sinks,
}
use operating_systems_2_assi.Proc.Mlfq.Boost.{IsClock, gap, interrupts, boost_within_128}
use operating_systems_2_assi.Proc.Scheduler.{Pick, scheduler_pass, found}
use operating_systems_2_assi.Proc.Scheduler.Order.{IsOrdered, Switches, pass-IsOrdered}
use operating_systems_2_assi.Proc.Scheduler.First.{NoneBefore, IsBest, pass_first}
use operating_systems_2_assi.Proc.Lifecycle.{
  Table, freeproc, allocproc, kfork, kexit, kwait_round, reaped,
}
use operating_systems_2_assi.Proc.Lifecycle.Pids.{IsTable, kfork-IsTable, kexit-IsTable}
use operating_systems_2_assi.Proc.Lifecycle.Exit.{Exited, kexit-Exited, kwait_round-kexit}
use operating_systems_2_assi.Proc.Lifecycle.Reuse.{allocproc-disk_stats, kkill_zero}

-- A runnable process of a level.
abbrev runnable_at : ℕ → Proc
runnable_at l = record blank_proc { state = ProcState.runnable; cur_queue_lvl = l; pid = 9 }

-- Processes 2 and 4 of levels 1 and 0.
abbrev two_procs : ℕ → Proc
two_procs = update (update (λ _. blank_proc) 2 (runnable_at 1)) 4 (runnable_at 0)

-- A chosen process that runs goes to sleep on channel 5.
abbrev sleepers : ℕ → (ℕ → Proc) → ℕ → Proc
sleepers i procs = update procs i (fall_asleep 5 (procs i))

-- A process that was just dispatched at a level.
abbrev dispatched_at : ℕ → Proc
dispatched_at l = record (runnable_at l) { state = ProcState.running; temp = 5; syscount = 5 }

dispatched_at-IsDispatched : IsDispatched (dispatched_at 0)
unfolding time_slice
dispatched_at-IsDispatched = record {
  queued = record { level = omega arith; in_slice = omega arith; started = omega arith };
  counted = refl;
}

round-level_example :
    IsDispatched (round 1 (dispatched_at 0)) × ((round 1 (dispatched_at 0)).cur_queue_lvl ≡ 0)
unfolding time_slice
round-level_example = round-level 1 (dispatched_at 0) dispatched_at-IsDispatched

quiet_sinks_example : (rounds (1 ∷ 0 ∷ 1 ∷ []) (dispatched_at 0)).cur_queue_lvl ≡ cpu_bound_level 3
quiet_sinks_example =
    quiet_sinks (1 ∷ 0 ∷ 1 ∷ []) (dispatched_at 0) (omega arith, (omega arith, (omega arith, tt)))
      dispatched_at-IsDispatched refl refl

slices_2 : All (λ k. time_slice 0 ≤ k) (2 ∷ 3 ∷ [])
unfolding time_slice
slices_2 = (omega arith, (omega arith, tt))

-- 125 ticks have passed since the last promotion.
abbrev near_boost : Clock
near_boost = record { ticks = 225; last_boost = 100 }

near_boost-IsClock : IsClock near_boost
near_boost-IsClock = record {
  ticks_word = omega arith;
  boost_word = omega arith;
  recent = omega arith;
}

abbrev keep : ℕ → (ℕ → Proc) → ℕ → Proc
keep n procs = procs

-- What the interrupts before the promotion leave.
abbrev before_boost : Clock × (ℕ → Proc)
before_boost = interrupts keep none 77 (127 - gap near_boost) near_boost two_procs

before_boost-runnable : is_runnable (before_boost.1 2).state ≡ true
unfolding interrupts clockintr wakeup for_each
before_boost-runnable = refl

boost_within_128_example : ((clockintr none 77 before_boost.0 before_boost.1).1 2).cur_queue_lvl ≡ 0
boost_within_128_example =
    boost_within_128 keep none 77 near_boost before_boost.0 two_procs before_boost.1 2
      near_boost-IsClock refl (omega arith) before_boost-runnable

pass-IsOrdered_example :
    IsOrdered (scheduler_pass sleepers two_procs).picks
    × Switches sleepers two_procs 4 0
        (scheduler_pass sleepers two_procs).picks
        (scheduler_pass sleepers two_procs).procs
pass-IsOrdered_example = pass-IsOrdered sleepers two_procs

pass_first_example :
    ((found (scheduler_pass sleepers two_procs) ≡ false)
      × ((scheduler_pass sleepers two_procs).procs ≡ two_procs)
      × NoneBefore 4 0 two_procs)
    ⊎ ((p : Pick) × (ps : List Pick) × (found (scheduler_pass sleepers two_procs) ≡ true)
        × ((scheduler_pass sleepers two_procs).picks ≡ p ∷ ps)
        × IsBest two_procs p)
pass_first_example = pass_first sleepers two_procs

wakeup-fall_asleep_example :
    ((wakeup none 5 (update two_procs 4 (fall_asleep 5 (two_procs 4))) 4).state
      ≡ ProcState.runnable)
    × (wakeup none 6 (update two_procs 4 (fall_asleep 5 (two_procs 4))) 4
        ≡ fall_asleep 5 (two_procs 4))
wakeup-fall_asleep_example =
    wakeup-fall_asleep none 5 6 two_procs 4 (omega arith) refl (omega arith)

-- init in entry 0 and its child in entry 3.
abbrev init_entry : Proc
init_entry = record blank_proc { state = ProcState.runnable; pid = 1 }

abbrev child_entry : Proc
child_entry = record blank_proc {
  state = ProcState.running;
  pid = 2;
  parent = some 0;
  disk_reads = 8;
}

abbrev grandchild_entry : Proc
grandchild_entry = record blank_proc { state = ProcState.runnable; pid = 3; parent = some 3 }

abbrev small_table : Table
small_table = record {
  procs = update (update (update (λ _. blank_proc) 0 init_entry) 3 child_entry) 5 grandchild_entry;
  nextpid = 4;
  initproc = some 0;
}

small_table-IsTable : IsTable small_table
small_table-IsTable = record {
  next_pos = omega arith;
  pid_fresh = λ i u. ground arith;
  pid_distinct = λ i j n u v. ground arith;
  free_blank = λ i u. ground arith;
}

abbrev entry_address : ℕ → ℕ
entry_address i = 1000 + i * 360

kfork-IsTable_example : IsTable (kfork 3 4096 8192 true small_table).1
kfork-IsTable_example = kfork-IsTable 3 4096 8192 true small_table small_table-IsTable

kexit-Exited_example :
    (t' : Table) × (kexit entry_address (ℤ.pos 7) 3 small_table ≡ ok t')
    × Exited entry_address (ℤ.pos 7) 3 small_table t'
kexit-Exited_example = kexit-Exited entry_address (ℤ.pos 7) 3 small_table refl

abbrev exits :
    (t' : Table) × (kexit entry_address (ℤ.pos 7) 3 small_table ≡ ok t')
    × Exited entry_address (ℤ.pos 7) 3 small_table t'
exits = kexit-Exited entry_address (ℤ.pos 7) 3 small_table refl

kexit-IsTable_example : IsTable exits.0
kexit-IsTable_example =
    kexit-IsTable entry_address (ℤ.pos 7) 3 small_table exits.0 refl exits.1 small_table-IsTable

no_zombie : (j : ℕ) → j ≢ 3 → is_zombie (small_table.procs j).state ≡ false
no_zombie j n = ground arith

kwait_round-kexit_example :
    (t' : Table) × (t'' : Table) × (kexit entry_address (ℤ.pos 7) 3 small_table ≡ ok t')
    × (kwait_round 0 false true t' ≡ reaped 2 (ℤ.pos 7) t'')
    × (is_unused (t''.procs 3).state ≡ true)
kwait_round-kexit_example =
    kwait_round-kexit entry_address (ℤ.pos 7) 3 0 small_table refl (omega arith) (omega arith) refl
      no_zombie

-- The child is a zombie that its parent reaps.
abbrev zombie_table : Table
zombie_table = record small_table {
  procs = update small_table.procs 3 (record child_entry { state = ProcState.zombie });
}

zombie_table-IsTable : IsTable zombie_table
zombie_table-IsTable = record {
  next_pos = omega arith;
  pid_fresh = λ i u. ground arith;
  pid_distinct = λ i j n u v. ground arith;
  free_blank = λ i u. ground arith;
}

abbrev reaped_table : Table
reaped_table = record zombie_table {
  procs = update zombie_table.procs 3 (freeproc (zombie_table.procs 3));
}

reaps : kwait_round 0 false true zombie_table ≡ reaped 2 (ℤ.pos 0) reaped_table
unfolding kwait_round find_first
reaps = refl

-- Entry 0 is free; the process that had it before read 8 pages from the disks.
abbrev old_table : Table
old_table = record {
  procs = λ _. record blank_proc { disk_reads = 8 };
  nextpid = 4;
  initproc = none;
}

takes_first : (allocproc 4096 8192 old_table).0 ≡ some 0
unfolding allocproc find_first
takes_first = refl

allocproc-disk_stats_example :
    (((allocproc 4096 8192 old_table).1.procs 0).disk_reads ≡ 8)
    × (((allocproc 4096 8192 old_table).1.procs 0).disk_writes ≡ 0)
    × (((allocproc 4096 8192 old_table).1.procs 0).avg_disk_latency ≡ 0)
allocproc-disk_stats_example = allocproc-disk_stats 4096 8192 0 old_table takes_first

first_unused : find_first (λ i. is_unused (small_table.procs i).state) nproc 0 ≡ some 1
unfolding find_first
first_unused = refl

kkill_zero_example :
    (procs' : ℕ → Proc) × (kkill 0 small_table.procs ≡ some procs')
    × ((allocproc 4096 8192 (record small_table { procs = procs' })).0 ≡ some 1)
    × (((allocproc 4096 8192 (record small_table { procs = procs' })).1.procs 1).killed ≡ true)
kkill_zero_example =
    kkill_zero 4096 8192 1 small_table small_table-IsTable first_unused (omega arith) (omega arith)

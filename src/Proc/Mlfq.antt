-- ===== src/Proc/Mlfq.antt =====
-- The multi-level feedback queue: the timer branch of usertrap() and clockintr() in kernel/trap.c,
-- the system call count of kernel/syscall.c, and priority_boost() in kernel/proc.c.
pub mod Levels
pub mod Rounds
pub mod Boost
use operating_systems_2_assi.Prelude.{
  ℕ, zero, suc, ◌+◌, ◌-◌, ◌%◌, ◌^◌, Bool, ◌&&◌, if◌then◌else◌, ltb, leb, ◌==◌, update, for_each,
  List, [], ◌∷◌, Option,
}
use operating_systems_2_assi.Proc.State.{Proc, ProcState, is_runnable, nproc}
use operating_systems_2_assi.Proc.Sleep.{wakeup}

-- int time_slice[4]; the levels are 0 to 3.
unfoldable pub time_slice : ℕ → ℕ
time_slice zero = 2
time_slice (suc zero) = 4
time_slice (suc (suc zero)) = 8
time_slice (suc (suc (suc n))) = 16

-- The end of a slice: fewer system calls than ticks since its start, `syscount - temp < ticks`, move
-- the process one level down.
unfoldable pub end_slice : Proc → Proc
end_slice p = record p { cur_queue_lvl = level; ticks_each_level = 0; temp = p.syscount }
  where
    level : ℕ
    level =
        if ltb p.syscount (p.ticks_each_level + p.temp) && ltb p.cur_queue_lvl 3
        then suc p.cur_queue_lvl
        else p.cur_queue_lvl

-- What a timer interrupt in user space does to the interrupted process, before yield().
unfoldable pub timer_tick : Proc → Proc
unfolding end_slice
timer_tick p =
    if leb (time_slice p.cur_queue_lvl) counted.ticks_each_level then end_slice counted else counted
  where
    counted : Proc
    counted = record p {
      ticks_each_level = suc p.ticks_each_level;
      ticks = update p.ticks p.cur_queue_lvl (suc (p.ticks p.cur_queue_lvl));
    }

-- syscall(): p->syscount++
unfoldable pub count_syscall : Proc → Proc
count_syscall p = record p { syscount = suc p.syscount }

boost : Proc → Proc
boost p =
    if is_runnable p.state
    then record p { cur_queue_lvl = 0; ticks_each_level = 0; temp = p.syscount }
    else p

-- The message about the first process that is promoted is not modelled.
unfoldable pub priority_boost : (ℕ → Proc) → ℕ → Proc
unfolding boost
priority_boost procs = for_each (λ _. boost) nproc 0 procs

-- `ticks` of kernel/trap.c and the static last_boost of clockintr(), both 32-bit and unsigned.
pub record Clock : Type 0 where
  pub ticks : ℕ
  pub last_boost : ℕ

-- clockintr() on CPU 0 while `me` runs there; `chan` is the address of `ticks`.
unfoldable pub clockintr : Option ℕ → ℕ → Clock → (ℕ → Proc) → Clock × (ℕ → Proc)
clockintr me chan c procs =
    if leb 128 ((now + 2 ^ 32 - c.last_boost) % 2 ^ 32)
    then (record { ticks = now; last_boost = now }, priority_boost woken)
    else (record c { ticks = now }, woken)
  where
    now : ℕ
    now = (c.ticks + 1) % 2 ^ 32

    woken : ℕ → Proc
    woken = wakeup me chan procs

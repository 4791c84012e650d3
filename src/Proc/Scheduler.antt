-- ===== src/Proc/Scheduler.antt =====
-- scheduler() of kernel/proc.c: one pass of its endless loop on one CPU.
pub mod Order
pub mod First
use operating_systems_2_assi.Prelude.{
  ℕ, zero, suc, ◌+◌, Bool, true, false, ◌&&◌, ◌||◌, if◌then◌else◌, ◌==◌, update, List, [], ◌∷◌,
  ◌++◌,
}
use operating_systems_2_assi.Proc.State.{Proc, ProcState, is_runnable, nproc}

-- The index and the level of a process that the scheduler switched to.
pub record Pick : Type 0 where
  pub level : ℕ
  pub index : ℕ

-- What the scheduler sets before swtch().
unfoldable pub start_running : Proc → Proc
start_running p = record p {
  state = ProcState.running;
  no_of_schedules = suc p.no_of_schedules;
  temp = p.syscount;
}

abbrev pub is_eligible : ℕ → Proc → Bool
is_eligible level p = is_runnable p.state && p.cur_queue_lvl == level

-- The process table and the processes switched to so far in the pass.
pub record Pass : Type 0 where
  pub procs : ℕ → Proc
  pub picks : List Pick

-- `others` stands for everything that happens between the two swtch() calls: the chosen process runs
-- until it gives up this CPU, and other CPUs and interrupts change the table.
module _ (others : ℕ → (ℕ → Proc) → ℕ → Proc) where
  unfoldable pub visit : ℕ → ℕ → Pass → Pass
  visit level i s =
      if is_eligible level (s.procs i)
      then record {
        procs = others i (update s.procs i (start_running (s.procs i)));
        picks = s.picks ++ record { level = level; index = i } ∷ [];
      }
      else s

  -- for (p = proc + i; n rounds)
  unfoldable pub scan_level : ℕ → ℕ → ℕ → Pass → Pass
  scan_level level zero i s = s
  scan_level level (suc n) i s = scan_level level n (suc i) (visit level i s)

  -- for (level = l; n rounds)
  unfoldable pub scan_levels : ℕ → ℕ → Pass → Pass
  scan_levels zero l s = s
  scan_levels (suc n) l s = scan_levels n (suc l) (scan_level l nproc 0 s)

  -- One pass; the scheduler's variable `found` is set if anything was picked.
  unfoldable pub scheduler_pass : (ℕ → Proc) → Pass
  unfolding scan_levels
  scheduler_pass procs = scan_levels 4 0 (record { procs = procs; picks = [] })

-- found != 0; otherwise the CPU waits for an interrupt.
unfoldable pub found : Pass → Bool
found s = has_any s.picks
  where
    has_any : List Pick → Bool
    has_any [] = false
    has_any (p ∷ ps) = true

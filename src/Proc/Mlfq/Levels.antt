-- ===== src/Proc/Mlfq/Levels.antt =====
-- The queue data of a process.
use operating_systems_2_assi.Prelude.{ℕ, zero, suc, ◌≤◌, ◌<◌, arith}
use operating_systems_2_assi.Proc.State.{Proc}
use operating_systems_2_assi.Proc.Mlfq.{time_slice}

-- The level is one of the four, the current slice is not used up, and the count at the slice's start
-- is not ahead of the count now.
pub record IsQueued (p : Proc) : Type 0 where
  pub level : p.cur_queue_lvl ≤ 3
  pub in_slice : p.ticks_each_level < time_slice p.cur_queue_lvl
  pub started : p.temp ≤ p.syscount

pub time_slice_pos : (l : ℕ) → 0 < time_slice l
unfolding time_slice
time_slice_pos zero = omega arith
time_slice_pos (suc zero) = omega arith
time_slice_pos (suc (suc zero)) = omega arith
time_slice_pos (suc (suc (suc l))) = omega arith

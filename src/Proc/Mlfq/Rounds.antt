-- ===== src/Proc/Mlfq/Rounds.antt =====
-- How a process that runs from one timer tick to the next, gives up the CPU there in yield(), and is
-- dispatched again by scheduler(), moves between the levels.
use operating_systems_2_assi.Prelude.{
  ℕ, zero, suc, ◌+◌, ◌≤◌, ◌≡◌, refl, ◌⊎◌, inr, ◌&&◌, arith, if◌then◌else◌, ltb, ◌==◌, List, [], ◌∷◌,
  ◌∙◌, All, length,
}
use operating_systems_2_assi.Proc.State.{Proc}
use operating_systems_2_assi.Proc.Sleep.{yield}
use operating_systems_2_assi.Proc.Scheduler.{start_running}
use operating_systems_2_assi.Proc.Mlfq.{time_slice, timer_tick, count_syscall}
use operating_systems_2_assi.Proc.Mlfq.Levels.{IsQueued, time_slice_pos}

unfoldable pub syscalls : ℕ → Proc → Proc
syscalls zero p = p
syscalls (suc k) p = syscalls k (count_syscall p)

-- `k` system calls, the timer tick, and the next dispatch.
unfoldable pub round : ℕ → Proc → Proc
round k p = start_running (yield (timer_tick (syscalls k p)))

-- A round for each count of the list.
unfoldable pub rounds : List ℕ → Proc → Proc
rounds [] p = p
rounds (k ∷ ks) p = rounds ks (round k p)

syscalls-fields :
    (k : ℕ) (p : Proc)
    → ((syscalls k p).cur_queue_lvl ≡ p.cur_queue_lvl)
      × ((syscalls k p).ticks_each_level ≡ p.ticks_each_level)
      × ((syscalls k p).temp ≡ p.temp)
      × ((syscalls k p).syscount ≡ p.syscount + k)
unfolding syscalls count_syscall
syscalls-fields zero p = (refl, refl, refl, omega arith)
syscalls-fields (suc k) p = ground (arith, syscalls-fields k (count_syscall p))

-- A process that was just dispatched: the queue data is well formed, and the count of system calls
-- starts now.
pub record IsDispatched (p : Proc) : Type 0 where
  pub queued : IsQueued p
  pub counted : p.temp ≡ p.syscount

-- The level and the used part of the slice after a round with `k` system calls.
round-fields :
    (k : ℕ) (p : Proc)
    → IsDispatched p
    → ((round k p).cur_queue_lvl ≡ (
        if suc p.ticks_each_level == time_slice p.cur_queue_lvl
          && (ltb k (time_slice p.cur_queue_lvl) && ltb p.cur_queue_lvl 3)
        then suc p.cur_queue_lvl
        else p.cur_queue_lvl))
      × ((round k p).ticks_each_level ≡ (
          if suc p.ticks_each_level == time_slice p.cur_queue_lvl
          then 0
          else suc p.ticks_each_level))
unfolding round timer_tick yield start_running
round-fields k p h = ground (arith, syscalls-fields k p, h.queued.in_slice, h.counted)

counted_again : (k : ℕ) (p : Proc) → (round k p).temp ≡ (round k p).syscount
unfolding round start_running
counted_again k p = refl

round-IsDispatched : (k : ℕ) (p : Proc) → IsDispatched p → IsDispatched (round k p)
round-IsDispatched k p h =
    let f = round-fields k p h in
    let c = counted_again k p in
    record {
      queued = record {
        level = ground (arith, f.0, h.queued.level);
        in_slice = ground (
          arith,
          f,
          h.queued.in_slice,
          time_slice_pos p.cur_queue_lvl,
          time_slice_pos (suc p.cur_queue_lvl),
        );
        started = omega (arith, c);
      };
      counted = c;
    }

-- A process that was just dispatched moves one level down at a tick exactly when the tick ends
-- its slice, it made fewer system calls since that dispatch than the slice has ticks, and the
-- level is not the last; what the round leaves is dispatched again.
pub round-level :
    (k : ℕ) (p : Proc)
    → IsDispatched p
    → IsDispatched (round k p)
      × ((round k p).cur_queue_lvl ≡ (
          if suc p.ticks_each_level == time_slice p.cur_queue_lvl
            && (ltb k (time_slice p.cur_queue_lvl) && ltb p.cur_queue_lvl 3)
          then suc p.cur_queue_lvl
          else p.cur_queue_lvl))
round-level k p h = (round-IsDispatched k p h, (round-fields k p h).0)

-- The level after `n` ticks of a process that starts at level 0 and is not interactive.
pub cpu_bound_level : ℕ → ℕ
cpu_bound_level n = if ltb n 2 then 0 else if ltb n 6 then 1 else if ltb n 14 then 2 else 3

-- The first tick of a level of that process.
first_tick : ℕ → ℕ
first_tick zero = 0
first_tick (suc zero) = 2
first_tick (suc (suc zero)) = 6
first_tick (suc (suc (suc l))) = 14

-- Where that process stands after `m` ticks.
record Sunk (p : Proc) (m : ℕ) : Type 0 where
  dispatched : IsDispatched p
  since : first_tick p.cur_queue_lvl ≤ m
  place : (p.cur_queue_lvl ≡ 3) ⊎ (first_tick p.cur_queue_lvl + p.ticks_each_level ≡ m)

Sunk-round : (k : ℕ) (p : Proc) (m : ℕ) → k ≤ 1 → Sunk p m → Sunk (round k p) (suc m)
unfolding first_tick time_slice
Sunk-round k p m s h =
    let f = round-fields k p h.dispatched in
    record {
      dispatched = round-IsDispatched k p h.dispatched;
      since =
          ground
            (arith, f, h.since, h.place, h.dispatched.queued.level, h.dispatched.queued.in_slice);
      place =
          ground
            (arith, f, h.since, h.place, h.dispatched.queued.level, h.dispatched.queued.in_slice);
    }

Sunk-level : (p : Proc) (m : ℕ) → Sunk p m → p.cur_queue_lvl ≡ cpu_bound_level m
unfolding cpu_bound_level first_tick time_slice
Sunk-level p m h =
    ground (arith, h.since, h.place, h.dispatched.queued.level, h.dispatched.queued.in_slice)

rounds-Sunk :
    (ks : List ℕ) (p : Proc) (m n : ℕ)
    → m + length ks ≡ n
    → All (λ k. k ≤ 1) ks
    → Sunk p m
    → Sunk (rounds ks p) n
unfolding rounds
rounds-Sunk [] p m n e a h = let f : m ≡ n = omega arith in rw (← f) h
rounds-Sunk (k ∷ ks) p m n e a h =
    rounds-Sunk ks (round k p) (suc m) n (omega arith) a.1 (Sunk-round k p m a.0 h)

first_tick_zero : first_tick 0 ≡ 0
unfolding first_tick
first_tick_zero = refl

-- A process that is dispatched at the start of a slice at level 0 and makes at most one system
-- call before each tick is at level 0 for 2 ticks, at level 1 for the next 4, at level 2 for the
-- next 8, and at level 3 for ever after, unless it is promoted.
pub quiet_sinks :
    (ks : List ℕ) (p : Proc)
    → All (λ k. k ≤ 1) ks
    → IsDispatched p
    → p.cur_queue_lvl ≡ 0
    → p.ticks_each_level ≡ 0
    → (rounds ks p).cur_queue_lvl ≡ cpu_bound_level (length ks)
quiet_sinks ks p a d l t = Sunk-level (rounds ks p) (length ks) (
    rounds-Sunk ks p 0 (length ks) (omega arith) a (record {
      dispatched = d;
      since = rw (l, first_tick_zero) (omega arith);
      place = inr (rw (l, first_tick_zero) (omega arith));
    }))

-- A dispatched process that makes before each tick at least as many system calls as its slice has
-- ticks is never moved down, however long it runs.
pub busy_stays :
    (ks : List ℕ) (p : Proc)
    → All (λ k. time_slice p.cur_queue_lvl ≤ k) ks
    → IsDispatched p
    → (rounds ks p).cur_queue_lvl ≡ p.cur_queue_lvl
unfolding rounds
busy_stays [] p a h = refl
busy_stays (k ∷ ks) p a h =
    let same : (round k p).cur_queue_lvl ≡ p.cur_queue_lvl =
      ground (arith, (round-fields k p h).0, a.0) in
    busy_stays ks (round k p) (rw same a.1) (round-IsDispatched k p h) ∙ same

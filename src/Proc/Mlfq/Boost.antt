-- ===== src/Proc/Mlfq/Boost.antt =====
-- The periodic promotion: priority_boost() of kernel/proc.c and its calls in clockintr() of
-- kernel/trap.c.
use operating_systems_2_assi.Prelude.{
  ℕ, zero, suc, ◌+◌, ◌-◌, ◌%◌, ◌^◌, ◌<◌, ◌≡◌, true, ◌&&◌, Option, arith, if◌then◌else◌, ltb, ◌∙◌,
  ap, for_each_lem,
}
use operating_systems_2_assi.Proc.State.{Proc, is_runnable, nproc}
use operating_systems_2_assi.Proc.Sleep.{wakeup}
use operating_systems_2_assi.Proc.Sleep.Wake.{wakeup_lem}
use operating_systems_2_assi.Proc.Mlfq.{boost, priority_boost, Clock, clockintr}

-- A promotion puts every runnable process of the table at the start of a slice at level 0, and
-- changes nothing else: neither its other data nor any other process.
priority_boost_lem :
    (procs : ℕ → Proc) (i : ℕ)
    → priority_boost procs i ≡ (
        if ltb i nproc && is_runnable (procs i).state
        then record (procs i) { cur_queue_lvl = 0; ticks_each_level = 0; temp = (procs i).syscount }
        else procs i)
unfolding priority_boost
priority_boost_lem procs i = for_each_lem (λ _. boost) nproc 0 procs i ∙ ground arith

-- The timer ticks since the last promotion, as clockintr() computes them.
abbrev pub gap : Clock → ℕ
gap c = (c.ticks + 2 ^ 32 - c.last_boost) % 2 ^ 32

-- 32-bit counters, and fewer than 128 ticks since the last promotion.
pub record IsClock (c : Clock) : Type 0 where
  pub ticks_word : c.ticks < 2 ^ 32
  pub boost_word : c.last_boost < 2 ^ 32
  pub recent : gap c < 128

module _ (me : Option ℕ) (chan : ℕ) (c : Clock) (procs : ℕ → Proc) (v : IsClock c) where
  -- A clock interrupt keeps both counters within 32 bits and their distance below 128.
  clockintr-IsClock : IsClock (clockintr me chan c procs).0
  unfolding clockintr
  clockintr-IsClock = ground arith

  -- Before the 128th tick nobody is promoted.
  clockintr_counts :
      gap c < 127
      → (gap (clockintr me chan c procs).0 ≡ suc (gap c))
        × ((clockintr me chan c procs).1 ≡ wakeup me chan procs)
  unfolding clockintr
  clockintr_counts h = ground arith

  -- The 128th tick promotes.
  clockintr_boosts :
      gap c ≡ 127
      → (gap (clockintr me chan c procs).0 ≡ 0)
        × ((clockintr me chan c procs).1 ≡ priority_boost (wakeup me chan procs))
  unfolding clockintr
  clockintr_boosts h = ground arith

-- `n` clock interrupts on CPU 0. Between two of them the processes run, which `others` stands for:
-- it turns the table that one interrupt leaves into the one that the next finds.
unfoldable pub interrupts :
    (ℕ → (ℕ → Proc) → ℕ → Proc) → Option ℕ → ℕ → ℕ → Clock → (ℕ → Proc) → Clock × (ℕ → Proc)
interrupts others me chan zero c procs = (c, procs)
interrupts others me chan (suc n) c procs =
    let (c', procs') = clockintr me chan c procs in interrupts others me chan n c' (others n procs')

interrupts_count :
    (others : ℕ → (ℕ → Proc) → ℕ → Proc) (me : Option ℕ) (chan n : ℕ) (c : Clock) (procs : ℕ → Proc)
    → IsClock c
    → gap c + n ≡ 127
    → IsClock (interrupts others me chan n c procs).0
      × (gap (interrupts others me chan n c procs).0 ≡ 127)
unfolding interrupts
interrupts_count others me chan zero c procs v h = (v, omega arith)
interrupts_count others me chan (suc n) c procs v h =
    let (c', procs') = clockintr me chan c procs in
    interrupts_count others me chan n c' (others n procs') (clockintr-IsClock me chan c procs v)
      (let p = clockintr_counts me chan c procs v (omega arith) in omega (arith, p))

wakeup-is_runnable :
    (me : Option ℕ) (chan : ℕ) (procs : ℕ → Proc) (i : ℕ)
    → is_runnable (procs i).state ≡ true
    → is_runnable (wakeup me chan procs i).state ≡ true
wakeup-is_runnable me chan procs i h = ground (arith, wakeup_lem me chan procs i)

boosted_level :
    (procs : ℕ → Proc) (i : ℕ)
    → i < nproc
    → is_runnable (procs i).state ≡ true
    → (priority_boost procs i).cur_queue_lvl ≡ 0
boosted_level procs i h r = ground (arith, priority_boost_lem procs i)

-- From any clock state with fewer than 128 ticks since the last promotion, after 127 minus that
-- many clock interrupts the next one puts every process of the table that is then runnable at
-- level 0, whatever the processes do in between.
pub boost_within_128 :
    (others : ℕ → (ℕ → Proc) → ℕ → Proc) (me : Option ℕ) (chan : ℕ) (c c' : Clock)
    (procs procs' : ℕ → Proc) (i : ℕ)
    → IsClock c
    → interrupts others me chan (127 - gap c) c procs ≡ (c', procs')
    → i < nproc
    → is_runnable (procs' i).state ≡ true
    → ((clockintr me chan c' procs').1 i).cur_queue_lvl ≡ 0
boost_within_128 others me chan c c' procs procs' i v e h r =
    let p = interrupts_count others me chan (127 - gap c) c procs v (omega arith) in
    let q = rw e at p in
    ap (λ (t : ℕ → Proc). (t i).cur_queue_lvl) (clockintr_boosts me chan c' procs' q.0 q.1).1
    ∙ boosted_level (wakeup me chan procs') i h (wakeup-is_runnable me chan procs' i r)

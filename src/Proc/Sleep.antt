-- ===== src/Proc/Sleep.antt =====
-- kernel/proc.c: sleeping, waking and killing.
pub mod Wake
use operating_systems_2_assi.Prelude.{
  ℕ, Bool, true, false, ◌&&◌, Option, none, some, if◌then◌else◌, ◌==◌, update, for_each, find_first,
}
use operating_systems_2_assi.Proc.State.{Proc, ProcState, is_sleeping, nproc}

-- p == myproc()
abbrev pub is_me : Option ℕ → ℕ → Bool
is_me none i = false
is_me (some me) i = i == me

abbrev pub wake_one : Option ℕ → ℕ → ℕ → Proc → Proc
wake_one me chan i p =
    if is_me me i
    then p
    else if is_sleeping p.state && p.chan == chan
    then record p { state = ProcState.runnable }
    else p

unfoldable pub wakeup : Option ℕ → ℕ → (ℕ → Proc) → ℕ → Proc
wakeup me chan procs = for_each (wake_one me chan) nproc 0 procs

-- What sleep() sets before it calls sched(), and the tidying after its return.
unfoldable pub fall_asleep : ℕ → Proc → Proc
fall_asleep chan p = record p { chan = chan; state = ProcState.sleeping }

unfoldable pub tidy_up : Proc → Proc
tidy_up p = record p { chan = 0 }

-- yield() before it calls sched()
unfoldable pub yield : Proc → Proc
yield p = record p { state = ProcState.runnable }

abbrev pub kill_one : Proc → Proc
kill_one p = record p {
  killed = true;
  state = if is_sleeping p.state then ProcState.runnable else p.state;
}

-- The result is `none` where kkill() returns -1.
unfoldable pub kkill : ℕ → (ℕ → Proc) → Option (ℕ → Proc)
kkill pid procs = elim (find_first (λ i. (procs i).pid == pid) nproc 0) [
  | none ↦ none
  | some i ↦ some (update procs i (kill_one (procs i)))
]

unfoldable pub setkilled : Proc → Proc
setkilled p = record p { killed = true }

unfoldable pub is_killed : Proc → Bool
is_killed p = p.killed

-- ===== src/Proc/Sleep/Wake.antt =====
-- Who is woken by wakeup() and kkill() of kernel/proc.c.
use operating_systems_2_assi.Prelude.{
  ℕ, ◌<◌, ◌≡◌, ◌≢◌, refl, ◌⊎◌, inl, inr, true, false, ◌&&◌, not, Option, none, some, arith,
  if◌then◌else◌, ltb, ◌==◌, update, for_each_lem, find_first, IsFirst, NoneIn, find_first-IsFirst,
  find_first-none, Option-cases, ◌∙◌, ==-self, ==-ne, lt→ltb,
}
use operating_systems_2_assi.Proc.State.{Proc, ProcState, is_sleeping, nproc}
use operating_systems_2_assi.Proc.Sleep.{is_me, wake_one, wakeup, fall_asleep, kill_one, kkill}

-- wakeup() makes runnable exactly the processes of the table, other than the caller, that sleep
-- on the channel; nothing else changes, neither in those processes nor in any other.
pub wakeup_lem :
    (me : Option ℕ) (chan : ℕ) (procs : ℕ → Proc) (i : ℕ)
    → wakeup me chan procs i ≡ (
        if ltb i nproc && not (is_me me i) && is_sleeping (procs i).state && (procs i).chan == chan
        then record (procs i) { state = ProcState.runnable }
        else procs i)
unfolding wakeup
wakeup_lem me chan procs i = for_each_lem (wake_one me chan) nproc 0 procs i ∙ ground arith

-- A process of the table that has gone to sleep on a channel is runnable after a wakeup() on that
-- channel by another process; a wakeup() by another process on a different channel leaves it
-- asleep.
pub wakeup-fall_asleep :
    (me : Option ℕ) (chan other : ℕ) (procs : ℕ → Proc) (i : ℕ)
    → i < nproc
    → is_me me i ≡ false
    → chan ≢ other
    → ((wakeup me chan (update procs i (fall_asleep chan (procs i))) i).state ≡ ProcState.runnable)
      × (wakeup me other (update procs i (fall_asleep chan (procs i))) i
          ≡ fall_asleep chan (procs i))
unfolding fall_asleep
wakeup-fall_asleep me chan other procs i h m n = (
  rw (wakeup_lem, ==-self i, lt→ltb i nproc h, m, ==-self chan) refl,
  rw (wakeup_lem, ==-self i, lt→ltb i nproc h, m, ==-ne chan other n) refl,
)

-- What a kkill() that succeeds has done: the first process with the id is marked killed and does not
-- sleep any more, and no other process has changed.
pub record Killed (pid : ℕ) (procs procs' : ℕ → Proc) (i : ℕ) : Type 0 where
  pub target : IsFirst (λ j. (procs j).pid == pid) nproc 0 i
  pub marked : (procs' i).killed ≡ true
  pub awake : is_sleeping (procs' i).state ≡ false
  pub kept : is_sleeping (procs i).state ≡ false → (procs' i).state ≡ (procs i).state
  pub others : (j : ℕ) → j ≢ i → procs' j ≡ procs j

-- kkill() fails exactly when no process of the table has the id; otherwise it kills the first one
-- that has it, and wakes it if it sleeps.
pub kkill-Killed :
    (pid : ℕ) (procs : ℕ → Proc)
    → ((kkill pid procs ≡ none) × NoneIn (λ j. (procs j).pid == pid) nproc 0)
      ⊎ ((i : ℕ) × (procs' : ℕ → Proc) × (kkill pid procs ≡ some procs')
          × Killed pid procs procs' i)
unfolding kkill
kkill-Killed pid procs = elim (Option-cases (find_first (λ j. (procs j).pid == pid) nproc 0)) [
  | inl e ↦ inl (rw (e, kkill), find_first-none (λ j. (procs j).pid == pid) nproc 0 e)
  | inr (i, e) ↦ inr (
    i,
    update procs i (kill_one (procs i)),
    rw (e, kkill),
    record {
      target = find_first-IsFirst (λ j. (procs j).pid == pid) nproc 0 i e;
      marked = rw (==-self i);
      awake = rw (==-self i) (woken (procs i).state);
      kept = λ h. rw (==-self i, h);
      others = λ j n. rw (==-ne j i n);
    },
  )
]
  where
    woken :
        (st : ProcState) → is_sleeping (if is_sleeping st then ProcState.runnable else st) ≡ false
    woken st = ground arith

-- ===== src/SwapDisk/Queue/Accounting.antt =====
-- What one call of disk_submit_and_dispatch() of kernel/swap_disk.c does when no request is pending,
-- which is how every call finds and leaves the queue.
use operating_systems_2_assi.Prelude.{
  ℕ, zero, suc, ◌+◌, ◌/◌, ◌≤◌, ◌≡◌, refl, inl, inr, Bool, true, false, not, none, some, arith,
  if◌then◌else◌, ◌==◌, ok, Bool-cases, find_first-here, ==-ne, ==-self, ap, ◌≢◌,
}
use operating_systems_2_assi.SwapDisk.State.{
  DiskReq, DiskQueue, SwapDisk, disk_sched_fcfs, rotational_delay,
}
use operating_systems_2_assi.SwapDisk.Queue.{
  seek, Best, sstf_step, sstf_loop, disk_schedule_locked, count_request, serve, enqueue, dispatch,
  disk_submit_and_dispatch, chosen_of,
}

-- No request is pending, and a process `me` makes the calls.
pub record IsIdle (me : ℕ) (s : SwapDisk) : Type 0 where
  pub idle : (i : ℕ) → (s.queue.reqs i).valid ≡ false
  pub caller : s.current ≡ some me

sstf_loop-idle :
    (head : ℕ) (reqs : ℕ → DiskReq) (n i : ℕ) (b : Best)
    → ((j : ℕ) → i ≤ j → (reqs j).valid ≡ false)
    → sstf_loop head reqs n i (some b) ≡ some b
unfolding sstf_loop sstf_step
sstf_loop-idle head reqs zero i b h = refl
sstf_loop-idle head reqs (suc n) i b h =
    rw (h i (omega arith)) (sstf_loop-idle head reqs n (suc i) b (λ j a. h j (omega arith)))

sstf-only :
    (q : DiskQueue)
    → (q.reqs 0).valid ≡ true
    → ((j : ℕ) → 1 ≤ j → (q.reqs j).valid ≡ false)
    → chosen_of (sstf_loop q.head q.reqs 128 0 none) ≡ some 0
unfolding sstf_loop sstf_step
sstf-only q v h = rw v (ap chosen_of (sstf_loop-idle q.head q.reqs 127 1 (first q) (λ j a. h j a)))
  where
    first : DiskQueue → Best
    first q = record {
      chosen = 0;
      min_dist = seek q.head (q.reqs 0).blockno;
      best_pri = (q.reqs 0).priority;
    }

-- With one request, in slot 0, both policies choose it.
schedule_only :
    (q : DiskQueue)
    → (q.reqs 0).valid ≡ true
    → ((j : ℕ) → 1 ≤ j → (q.reqs j).valid ≡ false)
    → disk_schedule_locked q ≡ some 0
unfolding disk_schedule_locked
schedule_only q v h = elim (Bool-cases (q.policy == disk_sched_fcfs)) [
  | inl p ↦ rw p (find_first-here (λ i. (q.reqs i).valid) 127 0 v)
  | inr p ↦ rw p (sstf-only q v h)
]

enqueue-others :
    (b : ℕ) (w : Bool) (me : ℕ) (s : SwapDisk)
    → IsIdle me s
    → (j : ℕ) → 1 ≤ j
    → ((enqueue 0 b w me s).queue.reqs j).valid ≡ false
unfolding enqueue
enqueue-others b w me s h j a = rw (==-ne j 0 (omega arith)) (h.idle j)

dispatch_only :
    (b : ℕ) (w : Bool) (me : ℕ) (s : SwapDisk)
    → IsIdle me s
    → dispatch (enqueue 0 b w me s) ≡ serve 0 (enqueue 0 b w me s)
unfolding dispatch
dispatch_only b w me s h = rw (
  schedule_only (enqueue 0 b w me s).queue (valid b w me s) (enqueue-others b w me s h),
  dispatch,
)
  where
    valid :
        (b : ℕ) (w : Bool) (me : ℕ) (s : SwapDisk)
        → ((enqueue 0 b w me s).queue.reqs 0).valid ≡ true
    valid b w me s = unfold enqueue in refl

-- A call that finds the queue idle puts its request in slot 0 and serves it at once.
submit_idle :
    (b : ℕ) (w : Bool) (me : ℕ) (s : SwapDisk)
    → IsIdle me s
    → disk_submit_and_dispatch b w s ≡ ok (serve 0 (enqueue 0 b w me s))
unfolding disk_submit_and_dispatch
submit_idle b w me s h = ground (
  arith,
  find_first-here (λ i. not (s.queue.reqs i).valid) 127 0 (rw (h.idle 0)),
  dispatch_only b w me s h,
)

-- What a call has done: its own request is served at once.
pub record Submitted (b : ℕ) (w : Bool) (me : ℕ) (s t : SwapDisk) : Type 0 where
  pub still_idle : IsIdle me t
  pub same_disks : t.disks ≡ s.disks
  pub same_mode : t.raid_mode ≡ s.raid_mode
  pub same_slots : t.slot_mode ≡ s.slot_mode
  pub same_policy : t.queue.policy ≡ s.queue.policy
  pub head_moved : t.queue.head ≡ b
  pub latency :
      t.queue.total_latency ≡ s.queue.total_latency + (seek s.queue.head b + rotational_delay)
  pub requests : t.queue.total_requests ≡ s.queue.total_requests + 1
  pub writes :
      (t.procs me).disk_writes
      ≡ (if w then suc (s.procs me).disk_writes else (s.procs me).disk_writes)
  pub reads :
      (t.procs me).disk_reads ≡ (if w then (s.procs me).disk_reads else suc (s.procs me).disk_reads)
  pub average : (t.procs me).avg_disk_latency ≡ t.queue.total_latency / t.queue.total_requests
  pub others : (p : ℕ) → p ≢ me → t.procs p ≡ s.procs p

-- A submission by a process to an idle queue succeeds, moves the head to its block, and adds one
-- request and its seek distance plus the rotational delay to the totals.
pub submit-Submitted :
    (b : ℕ) (w : Bool) (me : ℕ) (s : SwapDisk)
    → IsIdle me s
    → (t : SwapDisk) × (disk_submit_and_dispatch b w s ≡ ok t) × Submitted b w me s t
unfolding serve enqueue count_request
submit-Submitted b w me s h = (
  serve 0 (enqueue 0 b w me s),
  submit_idle b w me s h,
  record {
    still_idle = record { idle = λ i. ground (arith, h.idle i); caller = h.caller };
    same_disks = refl;
    same_mode = refl;
    same_slots = refl;
    same_policy = refl;
    head_moved = refl;
    latency = refl;
    requests = refl;
    writes = rw (==-self me);
    reads = rw (==-self me);
    average = rw (==-self me, ==-ne (s.queue.total_requests + 1) 0 (omega arith));
    others = λ p n. rw (==-ne p me n);
  },
)

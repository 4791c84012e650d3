-- ===== src/SwapDisk/Queue.antt =====
-- kernel/swap_disk.c: choosing the next request and the synchronous submission of one.
pub mod Choice
pub mod Accounting
use operating_systems_2_assi.Prelude.{
  ℕ, zero, suc, ◌+◌, ◌-◌, ◌/◌, Bool, true, false, ◌&&◌, ◌||◌, not, Option, none, some,
  if◌then◌else◌, ltb, ◌==◌, update, Outcome, ok, panic, Panic, find_first,
}
use operating_systems_2_assi.Proc.State.{Proc}
use operating_systems_2_assi.SwapDisk.State.{
  DiskReq, DiskQueue, SwapDisk, max_disk_reqs, rotational_delay, disk_sched_fcfs,
}

-- int dist = to - from; if (dist < 0) dist = -dist;
abbrev pub seek : ℕ → ℕ → ℕ
seek from to = if ltb to from then from - to else to - from

-- The variables chosen, min_dist and best_pri of the SSTF loop, once a request was chosen.
pub record Best : Type 0 where
  pub chosen : ℕ
  pub min_dist : ℕ
  pub best_pri : ℕ

-- One round of the SSTF loop; `none` stands for chosen == -1.
unfoldable pub sstf_step : ℕ → ℕ → DiskReq → Option Best → Option Best
sstf_step head i r best =
    if r.valid
    then elim best [
      | none ↦ some new
      | some b ↦
          if ltb dist b.min_dist || (dist == b.min_dist && ltb r.priority b.best_pri)
          then some new
          else some b
    ]
    else best
  where
    dist : ℕ
    dist = seek head r.blockno

    new : Best
    new = record { chosen = i; min_dist = dist; best_pri = r.priority }

unfoldable pub sstf_loop : ℕ → (ℕ → DiskReq) → ℕ → ℕ → Option Best → Option Best
sstf_loop head reqs zero i best = best
sstf_loop head reqs (suc n) i best = sstf_loop head reqs n (suc i) (sstf_step head i (reqs i) best)

abbrev chosen_of : Option Best → Option ℕ
chosen_of none = none
chosen_of (some b) = some b.chosen

unfoldable pub disk_schedule_locked : DiskQueue → Option ℕ
disk_schedule_locked q =
    if q.policy == disk_sched_fcfs
    then find_first (λ i. (q.reqs i).valid) max_disk_reqs 0
    else chosen_of (sstf_loop q.head q.reqs max_disk_reqs 0 none)

-- The statistics of the request's process: reads or writes, and the average over all requests.
unfoldable pub count_request : DiskReq → ℕ → ℕ → Proc → Proc
count_request req tl tr p = record p {
  disk_writes = if req.write then suc p.disk_writes else p.disk_writes;
  disk_reads = if req.write then p.disk_reads else suc p.disk_reads;
  avg_disk_latency = if tr == 0 then 0 else tl / tr;
}

-- Serving request `idx`: the latency, the new head, the totals and the statistics.
unfoldable pub serve : ℕ → SwapDisk → SwapDisk
serve idx s = record s { queue = q'; procs = procs' }
  where
    open s use {queue as q, procs}

    req : DiskReq
    req = q.reqs idx

    q' : DiskQueue
    q' = record q {
      reqs = update q.reqs idx (record req { valid = false });
      head = req.blockno;
      total_latency = q.total_latency + (seek q.head req.blockno + rotational_delay);
      total_requests = q.total_requests + 1;
    }

    procs' : ℕ → Proc
    procs' = elim req.proc [
      | none ↦ procs
      | some p ↦ update procs p (count_request req q'.total_latency q'.total_requests (procs p))
    ]

-- The queue with a request in `slot`.
unfoldable pub enqueue : ℕ → ℕ → Bool → ℕ → SwapDisk → SwapDisk
enqueue slot blockno write me s = record s {
  queue = record s.queue { reqs = update s.queue.reqs slot new };
}
  where
    new : DiskReq
    new = record {
      valid = true;
      blockno = blockno;
      write = write;
      proc = some me;
      priority = (s.procs me).cur_queue_lvl;
    }

dispatch : SwapDisk → SwapDisk
dispatch s = elim (disk_schedule_locked s.queue) [ none ↦ s | some idx ↦ serve idx s ]

-- A caller with no process makes myproc()->cur_queue_lvl a read through null.
unfoldable pub disk_submit_and_dispatch : ℕ → Bool → SwapDisk → Outcome SwapDisk
unfolding dispatch
disk_submit_and_dispatch blockno write s =
    elim (find_first (λ i. not (s.queue.reqs i).valid) max_disk_reqs 0) [
      | none ↦ panic Panic.queue_full
      | some slot ↦ elim s.current [
        | none ↦ panic Panic.null
        | some me ↦ ok (dispatch (enqueue slot blockno write me s))
      ]
    ]

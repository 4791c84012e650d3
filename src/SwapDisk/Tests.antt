-- ===== src/SwapDisk/Tests.antt =====
-- Runs of kernel/swap_disk.c on small inputs, and the theorems about it at such inputs.
use operating_systems_2_assi.Prelude.{
  ℕ, ◌+◌, ◌<◌, ◌≡◌, refl, ◌⊎◌, inl, inr, true, false, none, some, arith, Bytes, if◌then◌else◌, ltb,
  List, [], ◌∷◌, ok, panic, Panic, find_first, update,
}
use operating_systems_2_assi.Proc.State.{blank_proc}
use operating_systems_2_assi.SwapDisk.State.{
  DiskReq, DiskQueue, SwapDisk, raid_0, raid_1, raid_5, disk_sched_fcfs, disk_sched_sstf,
  max_disk_reqs, bsize,
}
use operating_systems_2_assi.SwapDisk.Queue.{disk_schedule_locked, sstf_loop, sstf_step}
use operating_systems_2_assi.SwapDisk.Queue.Choice.{sstf-IsNearest, IsNearest}
use operating_systems_2_assi.SwapDisk.Queue.Accounting.{IsIdle}
use operating_systems_2_assi.SwapDisk.Raid.{raid_write}
use operating_systems_2_assi.SwapDisk.Raid.Write.{Written, raid_write-Written}
use operating_systems_2_assi.SwapDisk.Pages.{swap_out_page, swap_in_page}
use operating_systems_2_assi.SwapDisk.Pages.Calls.{
  Call, page_out, page_in, slot_free, set_mode, set_sched, run, IsSound,
}
use operating_systems_2_assi.SwapDisk.Pages.In.{Holds}
use operating_systems_2_assi.SwapDisk.Pages.Out.{PageOut}
use operating_systems_2_assi.SwapDisk.Pages.History.{swap_isolated}
use operating_systems_2_assi.SwapDisk.Pages.Faults.{
  swap_out_page_total, servable, servable-SlotFits,
}
use operating_systems_2_assi.SwapDisk.Pages.Collisions.{raid_1_alias, raid_0_overwrites_raid_1}

abbrev no_req : DiskReq
no_req = record { valid = false; blockno = 0; write = false; proc = none; priority = 0 }

-- A request for a block by a process of a level.
abbrev req_at : ℕ → ℕ → DiskReq
req_at block level = record {
  valid = true;
  blockno = block;
  write = true;
  proc = some 1;
  priority = level;
}

-- Requests 2, 5 and 9 are pending; 5 and 9 are at distance 3 of the head.
abbrev three_reqs : ℕ → DiskReq
three_reqs = update (update (update (λ _. no_req) 2 (req_at 20 0)) 5 (req_at 13 2)) 9 (req_at 7 1)

abbrev queue_of : ℕ → DiskQueue
queue_of policy = record {
  reqs = three_reqs;
  head = 10;
  policy = policy;
  total_latency = 0;
  total_requests = 0;
}

-- FCFS takes the lowest index, SSTF the nearest and then the lowest level.
fcfs_choice : disk_schedule_locked (queue_of disk_sched_fcfs) ≡ some 2
unfolding disk_schedule_locked find_first
fcfs_choice = refl

sstf_choice : disk_schedule_locked (queue_of disk_sched_sstf) ≡ some 9
unfolding disk_schedule_locked sstf_loop sstf_step
sstf_choice = refl

sstf-IsNearest_example : IsNearest 10 three_reqs max_disk_reqs 9
sstf-IsNearest_example = sstf-IsNearest (queue_of disk_sched_sstf) 9 refl sstf_choice

-- Process 3 calls on idle, empty disks.
abbrev disk_in : ℕ → SwapDisk
disk_in mode = record {
  queue = record {
    reqs = λ _. no_req;
    head = 0;
    policy = 0;
    total_latency = 0;
    total_requests = 0;
  };
  disks = λ _ _ _. 0;
  raid_mode = mode;
  slot_mode = λ _. mode;
  procs = λ _. blank_proc;
  current = some 3;
}

disk_in-IsIdle : (mode : ℕ) → IsIdle 3 (disk_in mode)
disk_in-IsIdle mode = record { idle = λ i. refl; caller = refl }

abbrev letters : Bytes
letters q = q + 65

raid_write-Written_example :
    (t : SwapDisk) × (raid_write 11 letters 0 raid_5 (disk_in raid_5) ≡ ok t)
    × Written raid_5 11 letters 0 3 (disk_in raid_5) t
raid_write-Written_example =
    raid_write-Written raid_5 11 letters 0 3 (disk_in raid_5) (inr (inr refl)) (omega arith)
      (disk_in-IsIdle raid_5)

abbrev some_calls : List Call
some_calls =
    set_mode raid_1
    ∷ page_out (λ q. q) 8
    ∷ set_sched 1
    ∷ page_in (λ q. 0) 7
    ∷ set_mode raid_0
    ∷ page_out (λ q. 2) 6
    ∷ slot_free 8
    ∷ []

disk_5-IsSound : IsSound 3 (disk_in raid_5)
disk_5-IsSound = record {
  idle = disk_in-IsIdle raid_5;
  mode = inr (inr refl);
  modes = λ _. inr (inr refl);
}

swap_isolated_example :
    (t : SwapDisk) × (u : SwapDisk) × (out : Bytes) × (run
        (page_out letters 7 ∷ some_calls)
        (disk_in raid_5)
      ≡ ok t)
    × (swap_in_page (λ _. 0) 7 t ≡ ok (out, u))
    × ((q : ℕ) → out q ≡ (if ltb q 4096 then letters q else 0))
swap_isolated_example =
    swap_isolated letters (λ _. 0) 7 3 some_calls (disk_in raid_5) (omega arith) (omega arith)
      disk_5-IsSound

swap_out_page_total_example :
    ((servable raid_1 3600 ≡ true)
      × ((t : SwapDisk) × (swap_out_page letters 3600 (disk_in raid_1) ≡ ok t)
          × PageOut letters 3600 3 (disk_in raid_1) t))
    ⊎ ((servable raid_1 3600 ≡ false)
        × (swap_out_page letters 3600 (disk_in raid_1) ≡ panic Panic.phys_write))
swap_out_page_total_example =
    swap_out_page_total letters 3600 3 (disk_in raid_1) (inr (inl refl)) (omega arith)
      (disk_in-IsIdle raid_1)

raid_1_alias_example :
    (t : SwapDisk) × (u : SwapDisk) × (out : Bytes) × (swap_out_page letters 8197 (disk_in raid_1)
      ≡ ok t)
    × (swap_in_page (λ _. 0) 5 t ≡ ok (out, u))
    × ((q : ℕ) → q < 4096 → out q ≡ letters q)
raid_1_alias_example =
    raid_1_alias letters (λ _. 0) 5 3 (disk_in raid_1) (omega arith) refl refl
      (disk_in-IsIdle raid_1)

-- RAID 0 is the current mode; the slots were written in RAID 1.
abbrev mixed : SwapDisk
mixed = record (disk_in raid_1) { raid_mode = raid_0 }

raid_0_overwrites_raid_1_example :
    (t : SwapDisk) × (u : SwapDisk) × (out : Bytes) × (swap_out_page letters 2070 mixed ≡ ok t)
    × (swap_in_page (λ _. 0) 5 t ≡ ok (out, u))
    × ((b : ℕ) → b < bsize → out (2048 + b) ≡ letters b)
raid_0_overwrites_raid_1_example =
    raid_0_overwrites_raid_1 letters (λ _. 0) 5 2 3 mixed (omega arith) (omega arith) refl refl
      (record { idle = λ i. refl; caller = refl })

-- The empty disks hold the zero page in slot 7.
zero_page-Holds : Holds (λ _. 0) 7 (disk_in raid_5)
zero_page-Holds = record {
  in_table = omega arith;
  mode_ok = inr (inr refl);
  fits = servable-SlotFits raid_5 7 (inr (inr refl)) (omega arith) refl;
  stored = λ i b h k. refl;
}

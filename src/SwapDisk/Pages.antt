-- ===== src/SwapDisk/Pages.antt =====
-- kernel/swap_disk.c: whole pages out to a swap slot and back, freeing a slot, and the settings.
pub mod Out
pub mod In
pub mod Free
pub mod Calls
pub mod Isolation
pub mod History
pub mod Faults
pub mod Collisions
use operating_systems_2_assi.Prelude.{
  ℕ, zero, suc, ◌+◌, ◌*◌, ◌/◌, ◌%◌, ◌&&◌, not, Option, none, some, if◌then◌else◌, ltb, ◌==◌, Bytes,
  fill, update, update₂, Outcome, ok, Panic, ◌>>=◌, guard,
}
use operating_systems_2_assi.SwapDisk.State.{
  SwapDisk, raid_0, raid_1, raid_5, ndisks, bsize, blocks_per_page, max_swap_slots, disk_sched_fcfs,
  disk_sched_sstf,
}
use operating_systems_2_assi.SwapDisk.Raid.{
  raid_write, raid_read, pair_of, mirror_block, row_of, parity_disk, data_disk,
}

-- What swap_disk_init() sets; the locks have no state in the model, and the requests are left.
unfoldable pub swap_disk_init : SwapDisk → SwapDisk
swap_disk_init s = record s {
  queue = record s.queue {
    head = 0;
    policy = disk_sched_fcfs;
    total_latency = 0;
    total_requests = 0;
  };
  raid_mode = raid_0;
  disks = λ _ _ _. 0;
  slot_mode = λ _. 0;
}

-- for (i = ...; n rounds) raid_write(logical_block + i, page_data + i * BSIZE, mode)
unfoldable pub out_loop : ℕ → ℕ → ℕ → Bytes → ℕ → SwapDisk → Outcome SwapDisk
out_loop zero i lb page mode s = ok s
out_loop (suc n) i lb page mode s =
    raid_write (lb + i) page (i * bsize) mode s >>= out_loop n (suc i) lb page mode

unfoldable pub swap_out_page : Bytes → ℕ → SwapDisk → Outcome SwapDisk
unfolding out_loop
swap_out_page page slot s = guard (not (ltb slot max_swap_slots)) Panic.out_slot (
    out_loop blocks_per_page 0 (slot * blocks_per_page) page s.raid_mode
      (record s { slot_mode = update s.slot_mode slot s.raid_mode }))

-- for (i = ...; n rounds) raid_read(logical_block + i, page_data + i * BSIZE, mode)
unfoldable pub in_loop : ℕ → ℕ → ℕ → Bytes → ℕ → SwapDisk → Outcome (Bytes × SwapDisk)
in_loop zero i lb page mode s = ok (page, s)
in_loop (suc n) i lb page mode s =
    raid_read (lb + i) page (i * bsize) mode s >>= λ r. in_loop n (suc i) lb r.0 mode r.1

-- The third argument of swap_in_page() is unused: the mode is the one recorded for the slot.
unfoldable pub swap_in_page : Bytes → ℕ → SwapDisk → Outcome (Bytes × SwapDisk)
unfolding in_loop
swap_in_page page slot s =
    guard (not (ltb slot max_swap_slots)) Panic.in_slot
      (in_loop blocks_per_page 0 (slot * blocks_per_page) page (s.slot_mode slot) s)

-- memset(simulated_disks[disk][block], 0, BSIZE)
abbrev pub zero_block : ℕ → ℕ → (ℕ → ℕ → Bytes) → ℕ → ℕ → Bytes
zero_block disk block disks = update₂ disks disk block (fill (disks disk block) 0 0 bsize)

unfoldable pub free_block : ℕ → ℕ → (ℕ → ℕ → Bytes) → ℕ → ℕ → Bytes
free_block mode lb disks =
    if mode == raid_0
    then zero_block (lb % ndisks) (lb / ndisks) disks
    else if mode == raid_1
    then zero_block (pair_of lb * 2 + 1) (mirror_block lb + 2048)
        (zero_block (pair_of lb * 2) (mirror_block lb + 2048) disks)
    else if mode == raid_5
    then zero_block (parity_disk (row_of lb)) (row_of lb + 4096)
        (zero_block (data_disk lb) (row_of lb + 4096) disks)
    else disks

unfoldable pub free_loop : ℕ → ℕ → ℕ → (ℕ → ℕ → Bytes) → ℕ → ℕ → Bytes
free_loop zero lb mode disks = disks
free_loop (suc n) lb mode disks = free_loop n (lb + 1) mode (free_block mode lb disks)

unfoldable pub swap_disk_free_slot : ℕ → SwapDisk → SwapDisk
swap_disk_free_slot slot s = if not (ltb slot max_swap_slots) then s else record s {
  disks = free_loop blocks_per_page (slot * blocks_per_page) (s.slot_mode slot) s.disks;
  slot_mode = update s.slot_mode slot 0;
}

-- A setting that is refused returns -1, here `none`, and changes nothing.
unfoldable pub setdisksched : ℕ → SwapDisk → Option SwapDisk
setdisksched policy s =
    if not (policy == disk_sched_fcfs) && not (policy == disk_sched_sstf)
    then none
    else some (record s { queue = record s.queue { policy = policy } })

unfoldable pub setraidmode : ℕ → SwapDisk → Option SwapDisk
setraidmode mode s =
    if not (mode == raid_0) && not (mode == raid_1) && not (mode == raid_5)
    then none
    else some (record s { raid_mode = mode })

unfoldable pub disk_get_avg_latency : SwapDisk → ℕ
disk_get_avg_latency s =
    if s.queue.total_requests == 0 then 0 else s.queue.total_latency / s.queue.total_requests

unfoldable pub disk_get_total_requests : SwapDisk → ℕ
disk_get_total_requests s = s.queue.total_requests

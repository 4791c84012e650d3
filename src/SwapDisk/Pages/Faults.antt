-- ===== src/SwapDisk/Pages/Faults.antt =====
-- The slots that kernel/swap_disk.c cannot serve although they are in the table: where the layout of
-- a mode leaves the disks, and where two slots share a block.
use operating_systems_2_assi.Prelude.{
  ℕ, ◌+◌, ◌*◌, ◌/◌, ◌%◌, ◌<◌, ◌≤◌, ◌≡◌, refl, ◌⊎◌, inl, inr, Bool, false, true, arith, Bytes,
  update, ltb, ◌==◌, if◌then◌else◌, ok, panic, Panic, lt→ltb, Bool-cases,
}
use operating_systems_2_assi.SwapDisk.State.{
  SwapDisk, raid_0, raid_1, raid_5, ndisks, bsize, disk_blocks_per_disk, max_swap_slots,
}
use operating_systems_2_assi.SwapDisk.Queue.Accounting.{IsIdle, submit-Submitted}
use operating_systems_2_assi.SwapDisk.Raid.{
  phys_write, phys_block, raid_write, pair_of, mirror_block, row_of, data_disk,
}
use operating_systems_2_assi.SwapDisk.Raid.Layout.{IsMode, home_block}
use operating_systems_2_assi.SwapDisk.Pages.{out_loop, swap_out_page}
use operating_systems_2_assi.SwapDisk.Pages.Out.{SlotFits, PageOut, swap_out_page-PageOut}

phys_write_out :
    (disk block : ℕ) (src : Bytes) (off mode : ℕ) (s : SwapDisk)
    → disk_blocks_per_disk ≤ phys_block mode block
    → phys_write disk block src off mode s ≡ panic Panic.phys_write
unfolding phys_write
phys_write_out disk block src off mode s h = ground arith

-- A write whose place is past the end of the disks stops the machine.
raid_write_out :
    (mode lb : ℕ) (src : Bytes) (off me : ℕ) (s : SwapDisk)
    → IsMode mode
    → disk_blocks_per_disk ≤ home_block mode lb
    → IsIdle me s
    → raid_write lb src off mode s ≡ panic Panic.phys_write
unfolding raid_write
raid_write_out mode lb src off me s (inl m) h i =
    let (t, e, p) = submit-Submitted (lb / ndisks) true me s i in
    ground (arith, e, phys_write_out (lb % ndisks) (lb / ndisks) src off raid_0 t)
raid_write_out mode lb src off me s (inr (inl m)) h i =
    let (t, e, p) = submit-Submitted (mirror_block lb) true me s i in
    ground (arith, e, phys_write_out (pair_of lb * 2) (mirror_block lb) src off raid_1 t)
raid_write_out mode lb src off me s (inr (inr m)) h i =
    let (t, e, p) = submit-Submitted (row_of lb) true me s i in
    ground (arith, e, phys_write_out (data_disk lb) (row_of lb) src off raid_5 t)

-- The slots of the table that a mode can serve.
abbrev pub servable : ℕ → ℕ → Bool
servable mode slot =
    if mode == raid_0
    then true
    else if mode == raid_1
    then ltb (slot % 4096) 3584
    else ltb slot 9216

pub servable-SlotFits :
    (mode slot : ℕ)
    → IsMode mode
    → slot < max_swap_slots
    → servable mode slot ≡ true
    → SlotFits mode slot
servable-SlotFits mode slot m h e i a = ground arith

unservable_first :
    (mode slot : ℕ)
    → IsMode mode
    → servable mode slot ≡ false
    → disk_blocks_per_disk ≤ home_block mode (slot * 4 + 0)
unservable_first mode slot m e = ground arith

-- For a slot of the table, an accepted RAID mode and an idle queue, either the mode can serve the
-- slot (all slots in RAID 0, those with slot % 4096 < 3584 in RAID 1, those below 9216 in RAID 5)
-- and writing a page to it succeeds, or it cannot and the write stops the machine in
-- phys_write().
pub swap_out_page_total :
    (page : Bytes) (slot me : ℕ) (s : SwapDisk)
    → IsMode s.raid_mode
    → slot < max_swap_slots
    → IsIdle me s
    → ((servable s.raid_mode slot ≡ true)
        × ((t : SwapDisk) × (swap_out_page page slot s ≡ ok t) × PageOut page slot me s t))
      ⊎ ((servable s.raid_mode slot ≡ false) × (swap_out_page page slot s ≡ panic Panic.phys_write))
swap_out_page_total page slot me s m h idle = elim (Bool-cases (servable s.raid_mode slot)) [
  | inl e ↦
      inl (
        e,
        swap_out_page-PageOut page slot me s m h (servable-SlotFits s.raid_mode slot m h e) idle,
      )
  | inr e ↦ inr (
    e,
    unfold swap_out_page out_loop in
        rw
          (
            lt→ltb slot max_swap_slots h,
            raid_write_out s.raid_mode (slot * 4 + 0) page (0 * bsize) me
                (record s { slot_mode = update s.slot_mode slot s.raid_mode }) m
                (unservable_first s.raid_mode slot m e)
                (record { idle = idle.idle; caller = idle.caller }),
          )
          refl,
  )
]

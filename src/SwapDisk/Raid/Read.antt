-- ===== src/SwapDisk/Raid/Read.antt =====
-- What raid_read() of kernel/swap_disk.c returns, in each mode.
use operating_systems_2_assi.Prelude.{
  ℕ, ◌*◌, ◌/◌, ◌%◌, ◌<◌, ◌≡◌, inl, inr, Bool, false, arith, Bytes, copy, ok,
}
use operating_systems_2_assi.SwapDisk.State.{
  SwapDisk, raid_0, raid_1, raid_5, ndisks, disk_blocks_per_disk, bsize,
}
use operating_systems_2_assi.SwapDisk.Queue.Accounting.{IsIdle, Submitted, submit-Submitted}
use operating_systems_2_assi.SwapDisk.Raid.{
  pair_of, mirror_block, row_of, data_disk, phys_block, phys_read, raid_read,
}
use operating_systems_2_assi.SwapDisk.Raid.Layout.{IsMode, home_disk, home_block, Fits}

phys_read_lem :
    (disk block : ℕ) (dst : Bytes) (off mode : ℕ) (s : SwapDisk)
    → disk < ndisks
    → phys_block mode block < disk_blocks_per_disk
    → phys_read disk block dst off mode s
      ≡ ok (copy dst off (s.disks disk (phys_block mode block)) 0 bsize)
unfolding phys_read
phys_read_lem disk block dst off mode s h k = ground arith

-- A read changes no disk and no mode, and leaves the queue idle.
pub record Kept (me : ℕ) (s t : SwapDisk) : Type 0 where
  pub still_idle : IsIdle me t
  pub same_mode : t.raid_mode ≡ s.raid_mode
  pub same_slots : t.slot_mode ≡ s.slot_mode
  pub same_disks : t.disks ≡ s.disks

submit-Kept : {b me : ℕ} {w : Bool} {s t : SwapDisk} → Submitted b w me s t → Kept me s t
submit-Kept p = record {
  still_idle = p.still_idle;
  same_mode = p.same_mode;
  same_slots = p.same_slots;
  same_disks = p.same_disks;
}

-- A read of a block that fits returns the contents of its place, and otherwise keeps the disks.
pub raid_read-Kept :
    (mode lb : ℕ) (dst : Bytes) (off me : ℕ) (s : SwapDisk)
    → IsMode mode
    → Fits mode lb
    → IsIdle me s
    → (t : SwapDisk) × (raid_read lb dst off mode s
        ≡ ok (copy dst off (s.disks (home_disk mode lb) (home_block mode lb)) 0 bsize, t))
      × Kept me s t
unfolding raid_read
raid_read-Kept mode lb dst off me s (inl m) f i =
    let (t, e, p) = submit-Submitted (lb / ndisks) false me s i in
    (
      t,
      ground (
        arith,
        e,
        p.same_disks,
        phys_read_lem (lb % ndisks) (lb / ndisks) dst off raid_0 t (omega arith) (ground arith),
      ),
      submit-Kept p,
    )
raid_read-Kept mode lb dst off me s (inr (inl m)) f i =
    let (t, e, p) = submit-Submitted (mirror_block lb) false me s i in
    (
      t,
      ground (
        arith,
        e,
        p.same_disks,
        phys_read_lem (pair_of lb * 2) (mirror_block lb) dst off raid_1 t (omega arith)
            (ground arith),
      ),
      submit-Kept p,
    )
raid_read-Kept mode lb dst off me s (inr (inr m)) f i =
    let (t, e, p) = submit-Submitted (row_of lb) false me s i in
    (
      t,
      ground (
        arith,
        e,
        p.same_disks,
        phys_read_lem (data_disk lb) (row_of lb) dst off raid_5 t (ground arith) (ground arith),
      ),
      submit-Kept p,
    )

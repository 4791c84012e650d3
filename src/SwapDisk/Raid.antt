-- ===== src/SwapDisk/Raid.antt =====
-- kernel/swap_disk.c: physical block transfers and the RAID 0, 1 and 5 mappings.
pub mod Layout
pub mod Write
pub mod Read
use Prim.Native.Nat.{bit_xor}
use operating_systems_2_assi.Prelude.{
  ℕ, zero, suc, ◌+◌, ◌*◌, ◌/◌, ◌%◌, Bool, true, false, ◌&&◌, not, if◌then◌else◌, ltb, ◌==◌, Bytes,
  copy, update₂, Outcome, ok, Panic, ◌>>=◌, guard,
}
use operating_systems_2_assi.SwapDisk.State.{
  SwapDisk, raid_0, raid_1, raid_5, ndisks, disk_blocks_per_disk, bsize,
}
use operating_systems_2_assi.SwapDisk.Queue.{disk_submit_and_dispatch}

-- The offsets that keep the three layouts apart.
abbrev pub phys_block : ℕ → ℕ → ℕ
phys_block mode block =
    if mode == raid_1 then block + 2048 else if mode == raid_5 then block + 4096 else block

abbrev pub in_range : ℕ → ℕ → Bool
in_range disk block = ltb disk ndisks && ltb block disk_blocks_per_disk

-- `off` is the offset in `src` of the block to write.
unfoldable pub phys_write : ℕ → ℕ → Bytes → ℕ → ℕ → SwapDisk → Outcome SwapDisk
phys_write disk block src off mode s =
    guard (not (in_range disk b)) Panic.phys_write
      (ok (record s { disks = update₂ s.disks disk b (copy (s.disks disk b) 0 src off bsize) }))
  where
    b : ℕ
    b = phys_block mode block

-- The block goes to offset `off` of `dst`.
unfoldable pub phys_read : ℕ → ℕ → Bytes → ℕ → ℕ → SwapDisk → Outcome Bytes
phys_read disk block dst off mode s =
    guard (not (in_range disk b)) Panic.phys_read (ok (copy dst off (s.disks disk b) 0 bsize))
  where
    b : ℕ
    b = phys_block mode block

-- RAID 1: the mirror pair of a block, and its place in both disks of the pair.
abbrev pub pair_of : ℕ → ℕ
pair_of lb = lb / disk_blocks_per_disk % 2

abbrev pub mirror_block : ℕ → ℕ
mirror_block lb = lb % disk_blocks_per_disk

-- RAID 5: the row of a block, the row's parity disk, and the block's data disk.
abbrev pub row_of : ℕ → ℕ
row_of lb = lb / 3

abbrev pub parity_disk : ℕ → ℕ
parity_disk row = row % ndisks

abbrev pub data_disk : ℕ → ℕ
data_disk lb = if ltb (lb % 3) (parity_disk (row_of lb)) then lb % 3 else lb % 3 + 1

-- for (d = ...; n rounds) if (d != p) parity ^= simulated_disks[d][block], bytewise
unfoldable pub parity_loop : (ℕ → ℕ → Bytes) → ℕ → ℕ → ℕ → ℕ → Bytes → Bytes
parity_loop disks p block zero d acc = acc
parity_loop disks p block (suc n) d acc =
    parity_loop disks p block n (suc d)
      (if d == p then acc else λ b. bit_xor (acc b) (disks d block b))

unfoldable pub raid_write : ℕ → Bytes → ℕ → ℕ → SwapDisk → Outcome SwapDisk
raid_write lb src off mode s =
    if mode == raid_0
    then (disk_submit_and_dispatch (lb / ndisks) true s >>= λ s.
        phys_write (lb % ndisks) (lb / ndisks) src off mode s)
    else if mode == raid_1
    then (disk_submit_and_dispatch (mirror_block lb) true s
        >>= (λ s. phys_write (pair_of lb * 2) (mirror_block lb) src off mode s)
        >>= λ s. phys_write (pair_of lb * 2 + 1) (mirror_block lb) src off mode s)
    else if mode == raid_5
    then (disk_submit_and_dispatch (row_of lb) true s
        >>= (λ s. phys_write (data_disk lb) (row_of lb) src off mode s)
        >>= λ s.
            phys_write (parity_disk (row_of lb)) (row_of lb)
              (parity_loop s.disks (parity_disk (row_of lb)) (row_of lb + 4096) ndisks 0 (λ _. 0)) 0
              mode s)
    else ok s

-- Beside the buffer, a read returns the state, whose queue and statistics it changes.
unfoldable pub raid_read : ℕ → Bytes → ℕ → ℕ → SwapDisk → Outcome (Bytes × SwapDisk)
raid_read lb dst off mode s =
    if mode == raid_0
    then (disk_submit_and_dispatch (lb / ndisks) false s >>= λ s.
        read (lb % ndisks) (lb / ndisks) s)
    else if mode == raid_1
    then (disk_submit_and_dispatch (mirror_block lb) false s >>= λ s.
        read (pair_of lb * 2) (mirror_block lb) s)
    else if mode == raid_5
    then (disk_submit_and_dispatch (row_of lb) false s >>= λ s. read (data_disk lb) (row_of lb) s)
    else ok (dst, s)
  where
    read : ℕ → ℕ → SwapDisk → Outcome (Bytes × SwapDisk)
    read disk block s = phys_read disk block dst off mode s >>= λ dst. ok (dst, s)

-- ===== src/SwapDisk/Raid/Layout.antt =====
-- Where a logical block lives on the four disks, by RAID mode, as raid_write() and raid_read() of
-- kernel/swap_disk.c compute it, and when two blocks are kept apart.
use operating_systems_2_assi.Prelude.{
  ℕ, ◌+◌, ◌*◌, ◌/◌, ◌%◌, ◌<◌, ◌≡◌, ◌≢◌, ◌⊎◌, Bool, false, ◌&&◌, ◌||◌, arith, if◌then◌else◌, ◌==◌,
}
use operating_systems_2_assi.SwapDisk.State.{raid_0, raid_1, raid_5, ndisks, disk_blocks_per_disk}
use operating_systems_2_assi.SwapDisk.Raid.{pair_of, mirror_block, row_of, parity_disk, data_disk}

-- A mode that setraidmode() accepts.
abbrev pub IsMode : ℕ → Type 0
IsMode mode = (mode ≡ raid_0) ⊎ (mode ≡ raid_1) ⊎ (mode ≡ raid_5)

-- The disk and the physical block that a block is read from.
abbrev pub home_disk : ℕ → ℕ → ℕ
home_disk mode lb =
    if mode == raid_0 then lb % ndisks else if mode == raid_1 then pair_of lb * 2 else data_disk lb

abbrev pub home_block : ℕ → ℕ → ℕ
home_block mode lb =
    if mode == raid_0
    then lb / ndisks
    else if mode == raid_1
    then mirror_block lb + 2048
    else row_of lb + 4096

-- The second disk that a write changes: the mirror, or the row's parity disk.
abbrev pub extra_disk : ℕ → ℕ → ℕ
extra_disk mode lb =
    if mode == raid_0
    then lb % ndisks
    else if mode == raid_1
    then pair_of lb * 2 + 1
    else parity_disk (row_of lb)

-- The write of a block changes block `b` of disk `d`.
abbrev pub touches : ℕ → ℕ → ℕ → ℕ → Bool
touches mode lb d b = b == home_block mode lb && (d == home_disk mode lb || d == extra_disk mode lb)

-- The block's place lies on the disks.
abbrev pub Fits : ℕ → ℕ → Type 0
Fits mode lb = home_block mode lb < disk_blocks_per_disk

-- Writing the block `lb` in `mode` leaves what is read for `lb'` in `mode'`.
abbrev pub Apart : ℕ → ℕ → ℕ → ℕ → Type 0
Apart mode lb mode' lb' = touches mode lb (home_disk mode' lb') (home_block mode' lb') ≡ false

-- The blocks below which each mode alone keeps its blocks apart, and on the disks.
abbrev pub limit : ℕ → ℕ
limit mode = if mode == raid_0 then 65536 else if mode == raid_1 then 14336 else 36864

pub Fits-limit : (mode lb : ℕ) → IsMode mode → lb < limit mode → Fits mode lb
Fits-limit mode lb m h = ground arith

home_disk-lt : (mode lb : ℕ) → IsMode mode → lb < 65536 → home_disk mode lb < ndisks
home_disk-lt mode lb m h = ground arith

-- Below 2048 the three layouts share no block.
pub Apart-modes :
    (mode lb mode' lb' : ℕ)
    → IsMode mode
    → IsMode mode'
    → lb < 2048
    → lb' < 2048
    → lb ≢ lb'
    → Apart mode lb mode' lb'
Apart-modes mode lb mode' lb' m m' h h' n = ground arith

-- Below its limit a mode keeps its own blocks apart.
pub Apart-same :
    (mode lb lb' : ℕ)
    → IsMode mode
    → lb < limit mode
    → lb' < limit mode
    → lb ≢ lb'
    → Apart mode lb mode lb'
Apart-same mode lb lb' m h h' n = ground arith

-- The blocks of one page are apart in every mode.
pub Apart-page :
    (mode slot i j : ℕ)
    → IsMode mode
    → i < 4
    → j < 4
    → i ≢ j
    → Apart mode (slot * 4 + i) mode (slot * 4 + j)
Apart-page mode slot i j m h k n = ground arith

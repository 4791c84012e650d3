-- ===== src/Fs.antt =====
-- The file system, kernel/fs.c with kernel/fs.h: the free map, the blocks of an inode and its
-- contents. A bread() with the brelse() that follows it is a read of the contents of a block, and
-- with log_write() a change of them (Bcache and Log are about these calls). There is one device.
use operating_systems_2_assi.Prelude.{
  ℕ, zero, suc, ◌+◌, ◌-◌, ◌*◌, ◌/◌, ◌%◌, min, Bool, true, false, not, ◌||◌, Option, none, some, ltb,
  ◌==◌, if◌then◌else◌, Bytes, copy, update, Outcome, ok, panic, Panic, ◌>>=◌, guard, find_first,
  get_int, put_int,
}
use operating_systems_2_assi.SwapDisk.State.{bsize}
use operating_systems_2_assi.Fs.Bits.{bit, set_bit, clear_bit}
pub mod Bits
pub mod Content
pub mod FreeMap
pub mod Slots
pub mod Map
pub mod Bmap
pub mod Data
pub mod Reading
pub mod Writing
pub mod Saving
pub mod Dinode
pub mod Release
pub mod Freeing
pub mod Free
pub mod RoundTrip
pub mod Truncate
mod Tests

-- BPB
abbrev pub bpb : ℕ
bpb = 8192

abbrev pub ndirect : ℕ
ndirect = 12

abbrev pub nindirect : ℕ
nindirect = 256

abbrev pub maxfile : ℕ
maxfile = ndirect + nindirect

-- The superblock, as far as it is used, and the contents of the blocks.
pub record Fs : Type 0 where
  pub size : ℕ
  pub ninodes : ℕ
  pub inodestart : ℕ
  pub bmapstart : ℕ
  pub blocks : ℕ → Bytes

-- struct inode, less its reference count, its lock and ip->valid.
pub record Inode : Type 0 where
  pub inum : ℕ
  pub kind : ℕ
  pub major : ℕ
  pub minor : ℕ
  pub nlink : ℕ
  pub size : ℕ
  pub addrs : ℕ → ℕ

abbrev pub set_block : ℕ → Bytes → Fs → Fs
set_block b bytes s = record s { blocks = update s.blocks b bytes }

-- BBLOCK(b, sb)
abbrev pub bblock : ℕ → Fs → ℕ
bblock b s = b / bpb + s.bmapstart

-- memset(bp->data, 0, BSIZE)
unfoldable pub bzero : ℕ → Fs → Fs
bzero b s = set_block b (λ k. 0) s

-- (bp->data[bi/8] & m) != 0
abbrev pub is_marked : Bytes → ℕ → Bool
is_marked bytes bi = bit (bytes (bi / 8)) (bi % 8)

-- bp->data[bi/8] |= m
abbrev pub mark : Bytes → ℕ → Bytes
mark bytes bi = update bytes (bi / 8) (set_bit (bytes (bi / 8)) (bi % 8))

-- bp->data[bi/8] &= ~m
abbrev pub unmark : Bytes → ℕ → Bytes
unmark bytes bi = update bytes (bi / 8) (clear_bit (bytes (bi / 8)) (bi % 8))

-- The first free bit of the map block of `b`.
abbrev pub free_bit : ℕ → Fs → Option ℕ
free_bit b s =
    find_first (λ bi. not (is_marked (s.blocks (bblock b s)) bi)) (min bpb (s.size - b)) 0

unfoldable pub take_block : ℕ → ℕ → Fs → ℕ × Fs
take_block b bi s =
    (b + bi, bzero (b + bi) (set_block (bblock b s) (mark (s.blocks (bblock b s)) bi) s))

-- The end of the inner loop; `rest` is the next round of the outer loop.
unfoldable pub found_block : Option ℕ → ℕ → Fs → ℕ × Fs → ℕ × Fs
found_block none b s rest = rest
found_block (some bi) b s rest = take_block b bi s

-- The `n` rounds of the outer loop from `b` on.
unfoldable pub balloc_loop : ℕ → ℕ → Fs → ℕ × Fs
balloc_loop zero b s = (0, s)
balloc_loop (suc n) b s = found_block (free_bit b s) b s (balloc_loop n (b + bpb) s)

-- Block 0 stands for a full disk.
unfoldable pub balloc : Fs → ℕ × Fs
balloc s = balloc_loop ((s.size + (bpb - 1)) / bpb) 0 s

unfoldable pub bfree : ℕ → Fs → Outcome Fs
bfree b s =
    let bytes = s.blocks (bblock b s) in
    guard (not (is_marked bytes (b % bpb))) Panic.free_block
      (ok (set_block (bblock b s) (unmark bytes (b % bpb)) s))

abbrev pub set_addr : ℕ → ℕ → Inode → Inode
set_addr i addr ip = record ip { addrs = update ip.addrs i addr }

-- The entry `i` of ip->addrs, allocated if it is 0.
unfoldable pub own_block : ℕ → Inode → Fs → ℕ × Inode × Fs
own_block i ip s =
    let (addr, s') = balloc s in
    if ip.addrs i == 0
    then if addr == 0 then (0, ip, s') else (addr, set_addr i addr ip, s')
    else (ip.addrs i, ip, s)

-- The entry `i` of the indirect block `at`, allocated if it is 0.
unfoldable pub listed_block : ℕ → ℕ → Fs → ℕ × Fs
listed_block at i s =
    let (addr, s') = balloc s in
    if get_int (s.blocks at) (4 * i) == 0
    then if addr == 0
      then (0, s')
      else (addr, set_block at (put_int (s'.blocks at) (4 * i) addr) s')
    else (get_int (s.blocks at) (4 * i), s)

-- The part of bmap() after the indirect block is there.
unfoldable pub bmap_indirect : ℕ → ℕ × Inode × Fs → ℕ × Inode × Fs
bmap_indirect i r = let (addr, s) = listed_block r.0 i r.2 in if r.0 == 0 then r else (addr, r.1, s)

unfoldable pub bmap : ℕ → Inode → Fs → Outcome (ℕ × Inode × Fs)
bmap bn ip s =
    if ltb bn ndirect
    then ok (own_block bn ip s)
    else if ltb (bn - ndirect) nindirect
    then ok (bmap_indirect (bn - ndirect) (own_block ndirect ip s))
    else panic Panic.bmap

-- The rounds of itrunc() over ip->addrs, from `i` on.
unfoldable pub free_direct : ℕ → ℕ → Inode → Fs → Outcome (Inode × Fs)
free_direct zero i ip s = ok (ip, s)
free_direct (suc n) i ip s =
    if ip.addrs i == 0
    then free_direct n (suc i) ip s
    else bfree (ip.addrs i) s >>= λ s. free_direct n (suc i) (set_addr i 0 ip) s

-- The rounds over the entries of the indirect block, whose bytes are read once.
unfoldable pub free_listed : ℕ → ℕ → Bytes → Fs → Outcome Fs
free_listed zero j a s = ok s
free_listed (suc n) j a s =
    if get_int a (4 * j) == 0
    then free_listed n (suc j) a s
    else bfree (get_int a (4 * j)) s >>= λ s. free_listed n (suc j) a s

unfoldable pub free_indirect : Inode → Fs → Outcome (Inode × Fs)
free_indirect ip s =
    if ip.addrs ndirect == 0
    then ok (ip, s)
    else free_listed nindirect 0 (s.blocks (ip.addrs ndirect)) s >>= λ s.
        bfree (ip.addrs ndirect) s >>= λ s. ok (set_addr ndirect 0 ip, s)

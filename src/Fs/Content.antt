-- ===== src/Fs/Content.antt =====
-- The inodes on the disk (struct dinode), itrunc(), stati(), readi() and writei() of kernel/fs.c.
use operating_systems_2_assi.Prelude.{
  ℕ, zero, suc, ◌+◌, ◌-◌, ◌*◌, ◌/◌, ◌%◌, min, Bool, ◌||◌, Option, none, some, ltb, leb, ◌==◌,
  if◌then◌else◌, Bytes, copy, fill, Outcome, ok, Panic, ◌>>=◌, guard, find_first, get_int, put_int,
  get_short, put_short, put_ints,
}
use operating_systems_2_assi.SwapDisk.State.{bsize}
use operating_systems_2_assi.Fs.{
  Fs, Inode, set_block, ndirect, maxfile, bmap, free_direct, free_indirect,
}

-- IPB, and sizeof(struct dinode)
abbrev pub ipb : ℕ
ipb = 16

abbrev pub dinode_size : ℕ
dinode_size = 64

-- IBLOCK(inum, sb)
abbrev pub iblock : ℕ → Fs → ℕ
iblock inum s = inum / ipb + s.inodestart

-- (struct dinode *)bp->data + inum % IPB
abbrev pub dinode_at : ℕ → ℕ
dinode_at inum = inum % ipb * dinode_size

-- The fields of the dinode at `off`.
unfoldable pub put_dinode : Inode → ℕ → Bytes → Bytes
put_dinode ip off bytes = put_ints (off + 12) (ndirect + 1) 0 ip.addrs (
    put_int
      (put_short
        (put_short (put_short (put_short bytes off ip.kind) (off + 2) ip.major) (off + 4) ip.minor)
        (off + 6) ip.nlink)
      (off + 8) ip.size)

unfoldable pub iupdate : Inode → Fs → Fs
iupdate ip s =
    set_block (iblock ip.inum s) (put_dinode ip (dinode_at ip.inum) (s.blocks (iblock ip.inum s))) s

-- What ilock() reads for an inode that is not valid.
unfoldable pub get_dinode : ℕ → ℕ → Bytes → Inode
get_dinode inum off bytes = record {
  inum = inum;
  kind = get_short bytes off;
  major = get_short bytes (off + 2);
  minor = get_short bytes (off + 4);
  nlink = get_short bytes (off + 6);
  size = get_int bytes (off + 8);
  addrs = λ i. get_int bytes (off + 12 + 4 * i);
}

unfoldable pub read_inode : ℕ → Fs → Outcome Inode
read_inode inum s =
    let ip = get_dinode inum (dinode_at inum) (s.blocks (iblock inum s)) in
    guard (ip.kind == 0) Panic.ilock (ok ip)

-- The first inode of type 0 gets type `kind`; its number, or none.
unfoldable pub ialloc : ℕ → Fs → Option ℕ × Fs
ialloc kind s =
    elim (find_first (λ i. get_short (s.blocks (iblock i s)) (dinode_at i) == 0) (s.ninodes - 1)
      1) [
        | none ↦ (none, s)
        | some i ↦ (
          some i,
          set_block (iblock i s)
              (put_short (fill (s.blocks (iblock i s)) (dinode_at i) 0 dinode_size) (dinode_at i)
                kind)
              s,
        )
      ]

unfoldable pub itrunc : Inode → Fs → Outcome (Inode × Fs)
itrunc ip s = free_direct ndirect 0 ip s >>= λ r.
    free_indirect r.0 r.1 >>= λ r. let ip = record r.0 { size = 0 } in ok (ip, iupdate ip r.1)

-- struct stat
pub record Stat : Type 0 where
  pub dev : ℕ
  pub ino : ℕ
  pub kind : ℕ
  pub nlink : ℕ
  pub size : ℕ

unfoldable pub stati : ℕ → Inode → Stat
stati dev ip = record { dev = dev; ino = ip.inum; kind = ip.kind; nlink = ip.nlink; size = ip.size }

-- min(n - tot, BSIZE - off % BSIZE)
abbrev pub part : ℕ → ℕ → ℕ → ℕ
part n tot off = min (n - tot) (bsize - off % bsize)

-- off > size, or off + n overflows
abbrev pub bad_range : ℕ → ℕ → ℕ → Bool
bad_range size off n = ltb size off || ltb ((off + n) % 4294967296) off

-- What a read or a write returns: the bytes moved, or none for -1; the inode; the file system; and,
-- for a read, the memory.
-- `copyout dst m` is the number of bytes that either_copyout() of `m` bytes to `dst` copies before it
-- meets a page that it cannot write; it succeeds if that is all of them. Every round moves at least
-- one byte, so that `n` rounds are enough.
module _ (copyout : ℕ → ℕ → ℕ) where
  unfoldable pub read_loop :
      ℕ → ℕ → ℕ → ℕ → ℕ → Inode → Fs → Bytes → Outcome (Option ℕ × Inode × Fs × Bytes)
  read_loop zero tot n off dst ip s mem = ok (some tot, ip, s, mem)
  read_loop (suc fuel) tot n off dst ip s mem =
      if ltb tot n
      then (bmap (off / bsize) ip s >>= λ r.
          let m = part n tot off in
          if r.0 == 0
          then ok (some tot, r.1, r.2, mem)
          else if leb m (copyout dst m)
          then read_loop fuel (tot + m) n (off + m) (dst + m) r.1 r.2
              (copy mem dst (r.2.blocks r.0) (off % bsize) m)
          else ok (none, r.1, r.2, copy mem dst (r.2.blocks r.0) (off % bsize) (copyout dst m)))
      else ok (some tot, ip, s, mem)

  unfoldable pub readi : ℕ → ℕ → ℕ → Inode → Fs → Bytes → Outcome (Option ℕ × Inode × Fs × Bytes)
  readi dst off n ip s mem =
      if bad_range ip.size off n
      then ok (some 0, ip, s, mem)
      else let n' = if ltb ip.size (off + n) then ip.size - off else n in
        read_loop n' 0 n' off dst ip s mem

-- `copyin src m` is the number of bytes that either_copyin() of `m` bytes from `src` copies before it
-- meets a page that it cannot read; it succeeds if that is all of them. The part that a failed copy
-- leaves in the buffer is not logged; it is in the contents of the block as long as the buffer
-- stays in the cache, which is what the state shows.
module _ (copyin : ℕ → ℕ → ℕ) (mem : Bytes) where
  -- The bytes moved, the offset at the end, the inode and the file system.
  unfoldable pub write_loop : ℕ → ℕ → ℕ → ℕ → ℕ → Inode → Fs → Outcome (ℕ × ℕ × Inode × Fs)
  write_loop zero tot n off src ip s = ok (tot, off, ip, s)
  write_loop (suc fuel) tot n off src ip s =
      if ltb tot n
      then (bmap (off / bsize) ip s >>= λ r.
          let m = part n tot off in
          if r.0 == 0
          then ok (tot, off, r.1, r.2)
          else if leb m (copyin src m)
          then write_loop fuel (tot + m) n (off + m) (src + m) r.1
              (set_block r.0 (copy (r.2.blocks r.0) (off % bsize) mem src m) r.2)
          else ok (
            tot,
            off,
            r.1,
            set_block r.0 (copy (r.2.blocks r.0) (off % bsize) mem src (copyin src m)) r.2,
          ))
      else ok (tot, off, ip, s)

  unfoldable pub end_write : ℕ × ℕ × Inode × Fs → Option ℕ × Inode × Fs
  end_write (tot, off, ip, s) =
      let ip' = if ltb ip.size off then record ip { size = off } else ip in
      (some tot, ip', iupdate ip' s)

  unfoldable pub writei : ℕ → ℕ → ℕ → Inode → Fs → Outcome (Option ℕ × Inode × Fs)
  writei src off n ip s =
      if bad_range ip.size off n
      then ok (none, ip, s)
      else if ltb (maxfile * bsize) (off + n)
      then ok (none, ip, s)
      else write_loop n 0 n off src ip s >>= λ r. ok (end_write r)

-- ===== src/Log.antt =====
-- The log of the file system, kernel/log.c, over the buffer cache. The lock has no state. A round
-- of begin_op() is the part between two sleeps; the calls of wakeup() are those of Proc.Sleep.
use operating_systems_2_assi.Prelude.{
  ℕ, zero, suc, ◌+◌, ◌*◌, ◌%◌, Bool, true, false, ◌||◌, Option, none, some, ltb, leb, ◌==◌,
  if◌then◌else◌, Bytes, update, Outcome, ok, panic, Panic, ◌>>=◌, guard, find_first, get_int,
  put_int,
}
use operating_systems_2_assi.SwapDisk.State.{bsize}
use operating_systems_2_assi.Bcache.{
  Bcache, one_less, bread, bwrite, brelse, bpin, bunpin, set_bytes,
}
pub mod Header
pub mod Head
pub mod Install
pub mod Round
pub mod Recovery
pub mod WriteLog
pub mod Commit
pub mod Crash
pub mod Emptied
pub mod Reserve
mod Tests

-- MAXOPBLOCKS (kernel/param.h)
abbrev pub maxopblocks : ℕ
maxopblocks = 10

-- LOGBLOCKS (kernel/param.h)
abbrev pub logblocks : ℕ
logblocks = maxopblocks * 3

-- sizeof(struct logheader)
abbrev pub logheader_size : ℕ
logheader_size = 4 + 4 * logblocks

-- struct log, with its header `n` and `block`, and the buffer cache. `outstanding` is the bit
-- pattern of an int.
pub record Log : Type 0 where
  pub start : ℕ
  pub outstanding : ℕ
  pub committing : Bool
  pub dev : ℕ
  pub n : ℕ
  pub block : ℕ → ℕ
  pub cache : Bcache

abbrev pub is_negative : ℕ → Bool
is_negative i = leb 2147483648 i

-- memmove(to->data, from->data, BSIZE) copies all the bytes of a buffer.
abbrev pub move_block : ℕ → ℕ → Bcache → Bcache
move_block to from c = set_bytes to (c.bufs from).bytes c

-- The body of the loop of install_trans().
unfoldable pub install_block : Log → Bool → ℕ → Bcache → Outcome Bcache
install_block s recovering tail c = bread s.dev (s.start + tail + 1) c >>= λ l.
    bread s.dev (s.block tail) l.1 >>= λ d. bwrite d.0 (move_block d.0 l.0 d.1) >>= λ c.
    brelse l.0 (if recovering then c else bunpin d.0 c) >>= λ c. brelse d.0 c

-- The `n` rounds from `tail` on.
unfoldable pub install_loop : Log → Bool → ℕ → ℕ → Bcache → Outcome Bcache
install_loop s recovering zero tail c = ok c
install_loop s recovering (suc n) tail c =
    install_block s recovering tail c >>= λ c. install_loop s recovering n (suc tail) c

unfoldable pub install_trans : Bool → Log → Outcome Log
install_trans recovering s =
    install_loop s recovering s.n 0 s.cache >>= λ c. ok (record s { cache = c })

-- for (i = 0; i < log.lh.n; i++) log.lh.block[i] = lh->block[i]
unfoldable pub read_blocks : ℕ → ℕ → Bytes → (ℕ → ℕ) → ℕ → ℕ
read_blocks zero i bytes block = block
read_blocks (suc n) i bytes block =
    read_blocks n (suc i) bytes (update block i (get_int bytes (4 + 4 * i)))

-- A negative lh->n runs no loop, and recover_from_log() replaces it by 0.
abbrev pub count_of : Bytes → ℕ
count_of bytes = if is_negative (get_int bytes 0) then 0 else get_int bytes 0

unfoldable pub read_head : Log → Outcome Log
read_head s = bread s.dev s.start s.cache >>= λ r.
    let bytes = (r.1.bufs r.0).bytes in
    brelse r.0 r.1 >>= λ c. ok (record s {
      n = count_of bytes;
      block = read_blocks (count_of bytes) 0 bytes s.block;
      cache = c;
    })

-- for (i = 0; i < log.lh.n; i++) hb->block[i] = log.lh.block[i]
unfoldable pub put_blocks : ℕ → ℕ → (ℕ → ℕ) → Bytes → Bytes
put_blocks zero i block bytes = bytes
put_blocks (suc n) i block bytes = put_blocks n (suc i) block (put_int bytes (4 + 4 * i) (block i))

unfoldable pub header_bytes : ℕ → (ℕ → ℕ) → Bytes → Bytes
header_bytes n block bytes = put_blocks n 0 block (put_int bytes 0 n)

unfoldable pub write_head : Log → Outcome Log
write_head s = bread s.dev s.start s.cache >>= λ r.
    bwrite r.0 (set_bytes r.0 (header_bytes s.n s.block (r.1.bufs r.0).bytes) r.1) >>= λ c.
    brelse r.0 c >>= λ c. ok (record s { cache = c })

unfoldable pub recover_from_log : Log → Outcome Log
recover_from_log s =
    read_head s >>= λ s. install_trans true s >>= λ s. write_head (record s { n = 0 })

-- `logstart` is sb->logstart.
unfoldable pub initlog : ℕ → ℕ → Log → Outcome Log
initlog dev logstart s =
    guard (leb bsize logheader_size) Panic.big_logheader
      (recover_from_log (record s { start = logstart; dev = dev }))

-- Whether the log may run out of space for one more system call.
abbrev pub may_exhaust : Log → Bool
may_exhaust s =
    let others = (s.outstanding + 1) % 4294967296 in
    if is_negative others then false else ltb logblocks (s.n + others * maxopblocks)

-- A round of begin_op(); none where it sleeps.
unfoldable pub begin_op : Log → Option Log
begin_op s =
    if s.committing
    then none
    else if may_exhaust s
    then none
    else some (record s { outstanding = (s.outstanding + 1) % 4294967296 })

-- The body of the loop of write_log().
unfoldable pub write_block : Log → ℕ → Bcache → Outcome Bcache
write_block s tail c = bread s.dev (s.start + tail + 1) c >>= λ t.
    bread s.dev (s.block tail) t.1 >>= λ f.
    bwrite t.0 (move_block t.0 f.0 f.1) >>= λ c. brelse f.0 c >>= λ c. brelse t.0 c

unfoldable pub write_loop : Log → ℕ → ℕ → Bcache → Outcome Bcache
write_loop s zero tail c = ok c
write_loop s (suc n) tail c = write_block s tail c >>= λ c. write_loop s n (suc tail) c

unfoldable pub write_log : Log → Outcome Log
write_log s = write_loop s s.n 0 s.cache >>= λ c. ok (record s { cache = c })

-- The part of commit() for a header that is not empty.
unfoldable pub commit_blocks : Log → Outcome Log
commit_blocks s = write_log s >>= λ s.
    write_head s >>= λ s. install_trans false s >>= λ s. write_head (record s { n = 0 })

unfoldable pub commit : Log → Outcome Log
commit s = if ltb 0 s.n then commit_blocks s else ok s

-- The part of end_op() with do_commit set.
unfoldable pub end_last : Log → Outcome Log
end_last s = commit s >>= λ s. ok (record s { committing = false })

unfoldable pub end_op : Log → Outcome Log
end_op s =
    let left = one_less s.outstanding in
    guard s.committing Panic.committing (
      if left == 0
      then end_last (record s { outstanding = left; committing = true })
      else ok (record s { outstanding = left }))

-- The place of a block that the header does not have yet.
unfoldable pub enter_block : ℕ → ℕ → Option ℕ → Log → Log
enter_block b blockno (some i) s = record s { block = update s.block i blockno }
enter_block b blockno none s = record s {
  block = update s.block s.n blockno;
  n = s.n + 1;
  cache = bpin b s.cache;
}

unfoldable pub log_write : ℕ → Log → Outcome Log
log_write b s =
    let blockno = (s.cache.bufs b).blockno in
    guard (leb logblocks s.n) Panic.too_big (
      guard (s.outstanding == 0 || is_negative s.outstanding) Panic.outside_trans
        (ok (enter_block b blockno (find_first (λ i. s.block i == blockno) s.n 0) s)))

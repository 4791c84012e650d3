-- ===== src/Bcache.antt =====
-- The buffer cache, kernel/bio.c and struct buf of kernel/buf.h. The doubly linked list of the
-- buffers is the list of their indices from head.next on. A sleep lock is the flag that the caller
-- holds it: where acquiresleep() waits, the state is the one after the wait. The disk behind
-- virtio_disk_rw() holds whole blocks; `past` keeps what it held before each write, so that a
-- theorem can speak of a crash.
use operating_systems_2_assi.Prelude.{
  ℕ, zero, suc, ◌+◌, ◌-◌, Bool, true, false, not, ◌&&◌, Option, none, some, List, [], ◌∷◌, ◌==◌,
  if◌then◌else◌, Bytes, update, Outcome, ok, panic, Panic, ◌>>=◌, guard,
}
pub mod View
pub mod Change
pub mod Read
pub mod Release
pub mod Pair
pub mod Store
pub mod Copy
pub mod Boot
mod Tests

-- NBUF (kernel/param.h)
abbrev pub nbuf : ℕ
nbuf = 30

-- ROOTDEV (kernel/param.h)
abbrev pub rootdev : ℕ
rootdev = 1

-- struct buf
pub record Buf : Type 0 where
  pub valid : Bool
  pub dev : ℕ
  pub blockno : ℕ
  pub refcnt : ℕ
  pub bytes : Bytes
  pub locked : Bool

pub record Bcache : Type 0 where
  pub bufs : ℕ → Buf
  pub order : List ℕ
  pub disk : ℕ → Bytes
  pub past : List (ℕ → Bytes)

abbrev pub set_buf : ℕ → Buf → Bcache → Bcache
set_buf b v c = record c { bufs = update c.bufs b v }

-- virtio_disk_rw(b, 0)
unfoldable pub disk_read : ℕ → Bcache → Bcache
disk_read b c = set_buf b (record (c.bufs b) { bytes = c.disk (c.bufs b).blockno }) c

-- virtio_disk_rw(b, 1)
unfoldable pub disk_write : ℕ → Bcache → Bcache
disk_write b c = record c {
  disk = update c.disk (c.bufs b).blockno (c.bufs b).bytes;
  past = c.disk ∷ c.past;
}

-- The buffers from `n` - 1 down to 0.
unfoldable pub linked : ℕ → List ℕ
linked zero = []
linked (suc n) = n ∷ linked n

-- The static data is zero.
abbrev pub blank : Buf
blank = record { valid = false; dev = 0; blockno = 0; refcnt = 0; bytes = λ k. 0; locked = false }

-- The cache after binit(), over a disk.
unfoldable pub binit : (ℕ → Bytes) → Bcache
binit disk = record { bufs = λ b. blank; order = linked nbuf; disk = disk; past = [] }

-- for (b = head.next; b != &head; b = b->next) if (test(b)) ...
unfoldable pub find_next : (ℕ → Bool) → List ℕ → Option ℕ
find_next test [] = none
find_next test (b ∷ bs) = let rest = find_next test bs in if test b then some b else rest

-- for (b = head.prev; b != &head; b = b->prev) if (test(b)) ...
unfoldable pub find_prev : (ℕ → Bool) → List ℕ → Option ℕ
find_prev test [] = none
find_prev test (b ∷ bs) = elim (find_prev test bs) [
  | none ↦ if test b then some b else none
  | some b' ↦ some b'
]

abbrev pub is_block : ℕ → ℕ → Bcache → ℕ → Bool
is_block dev blockno c = λ b. (c.bufs b).dev == dev && (c.bufs b).blockno == blockno

abbrev pub has_no_refs : Bcache → ℕ → Bool
has_no_refs c b = (c.bufs b).refcnt == 0

-- b->refcnt++; acquiresleep(&b->lock)
unfoldable pub share : ℕ → Bcache → Bcache
share b c = set_buf b (record (c.bufs b) { refcnt = (c.bufs b).refcnt + 1; locked = true }) c

-- A buffer that nobody uses, for another block.
unfoldable pub recycle : ℕ → ℕ → ℕ → Bcache → Bcache
recycle dev blockno b c =
    set_buf b
      (record (c.bufs b) { dev = dev; blockno = blockno; valid = false; refcnt = 1; locked = true })
      c

unfoldable pub bget_new : ℕ → ℕ → Option ℕ → Bcache → Outcome (ℕ × Bcache)
bget_new dev blockno none c = panic Panic.no_buffers
bget_new dev blockno (some b) c = ok (b, recycle dev blockno b c)

unfoldable pub bget_from : ℕ → ℕ → Option ℕ → Bcache → Outcome (ℕ × Bcache)
bget_from dev blockno none c = bget_new dev blockno (find_prev (has_no_refs c) c.order) c
bget_from dev blockno (some b) c = ok (b, share b c)

unfoldable pub bget : ℕ → ℕ → Bcache → Outcome (ℕ × Bcache)
bget dev blockno c = bget_from dev blockno (find_next (is_block dev blockno c) c.order) c

unfoldable pub fetch : ℕ → Bcache → Bcache
fetch b c =
    if (c.bufs b).valid
    then c
    else set_buf b (record ((disk_read b c).bufs b) { valid = true }) (disk_read b c)

unfoldable pub bread : ℕ → ℕ → Bcache → Outcome (ℕ × Bcache)
bread dev blockno c = bget dev blockno c >>= λ r. ok (r.0, fetch r.0 r.1)

unfoldable pub bwrite : ℕ → Bcache → Outcome Bcache
bwrite b c = guard (not (c.bufs b).locked) Panic.bwrite (ok (disk_write b c))

-- The list without the buffer.
unfoldable pub unlink : ℕ → List ℕ → List ℕ
unlink b [] = []
unlink b (x ∷ xs) = let rest = unlink b xs in if x == b then rest else x ∷ rest

-- refcnt is unsigned: 0 is followed by 2^32 - 1.
abbrev pub one_less : ℕ → ℕ
one_less n = if n == 0 then 4294967295 else n - 1

-- b->refcnt--
unfoldable pub drop_ref : ℕ → Bcache → Bcache
drop_ref b c = set_buf b (record (c.bufs b) { refcnt = one_less (c.bufs b).refcnt }) c

-- A buffer that nobody waits for goes to the front.
unfoldable pub refresh : ℕ → Bcache → Bcache
refresh b c = if (c.bufs b).refcnt == 0 then record c { order = b ∷ unlink b c.order } else c

unfoldable pub releasesleep : ℕ → Bcache → Bcache
releasesleep b c = set_buf b (record (c.bufs b) { locked = false }) c

unfoldable pub brelse : ℕ → Bcache → Outcome Bcache
brelse b c =
    guard (not (c.bufs b).locked) Panic.brelse (ok (refresh b (drop_ref b (releasesleep b c))))

unfoldable pub bpin : ℕ → Bcache → Bcache
bpin b c = set_buf b (record (c.bufs b) { refcnt = (c.bufs b).refcnt + 1 }) c

unfoldable pub bunpin : ℕ → Bcache → Bcache
bunpin b c = drop_ref b c

-- The holder of a buffer writes `bytes` to b->data.
unfoldable pub set_bytes : ℕ → Bytes → Bcache → Bcache
set_bytes b bytes c = set_buf b (record (c.bufs b) { bytes = bytes }) c

-- ===== src/Log/Head.antt =====
-- read_head() and write_head() of kernel/log.c on the buffer cache.
use operating_systems_2_assi.Prelude.{
  update_self, same_or, ℕ, ◌≡◌, refl, sym, ◌∙◌, ap, ◌≢◌, inl, inr, ◌∷◌, arith, Bytes, update, ok,
}
use operating_systems_2_assi.Bcache.{Bcache, rootdev, bread, brelse}
use operating_systems_2_assi.Bcache.View.{IsCache, Holds, contents}
use operating_systems_2_assi.Bcache.Read.{BlockRead, IsFree, IsReadable, bread-BlockRead}
use operating_systems_2_assi.Bcache.Pair.{IsPinned, BlockRead-IsPinned}
use operating_systems_2_assi.Bcache.Store.{IsHeld, Released, brelse-Released, Stored, store-Stored}
use operating_systems_2_assi.Log.{Log, read_head, write_head, header_bytes, count_of, read_blocks}

-- Every buffer is as much in use as before, and the pinned ones are for the same blocks.
pub record Settled (c c' : Bcache) : Type 0 where
  pub refs : (i : ℕ) → (c'.bufs i).refcnt ≡ (c.bufs i).refcnt
  pub entries : (i j : ℕ) → IsPinned i j c → Holds i j c'

pub Settled-IsFree : {c c' : Bcache} {f : ℕ} → Settled c c' → IsFree f c → IsFree f c'
Settled-IsFree {f = f} s p = record { below = p.below; unused = s.refs f ∙ p.unused }

pub Settled-IsPinned : {c c' : Bcache} (i j : ℕ) → Settled c c' → IsPinned i j c → IsPinned i j c'
Settled-IsPinned i j s p = record {
  holds = s.entries i j p;
  used = λ z. p.used (sym (s.refs i) ∙ z);
}

-- A block read and released.
pub record Looked (c c' : Bcache) : Type 0 where
  pub cache : IsCache c'
  pub same_disk : c'.disk ≡ c.disk
  pub same_past : c'.past ≡ c.past
  pub same_contents : (j : ℕ) → contents c' j ≡ contents c j
  pub settled : Settled c c'

-- The buffer of a block that was just read.
read-IsHeld : {b k : ℕ} {c c' : Bcache} → BlockRead b k c c' → IsHeld b k c'
read-IsHeld {b} {k} {c} {c'} r = record {
  holds = r.holds;
  locked = r.locked;
  used = let e = r.one_more in λ z. omega arith;
  clean =
      λ z. r.bytes ∙ r.fresh (let e = r.one_more in omega arith) ∙ ap (λ d. d k) (sym r.same_disk);
}

Released-refs :
    {b k : ℕ} {c c₁ c₂ c' : Bcache}
    → BlockRead b k c c₁
    → (c₂.bufs b).refcnt ≡ (c₁.bufs b).refcnt
    → ((i : ℕ) → i ≢ b → c₂.bufs i ≡ c₁.bufs i)
    → Released b c₂ c'
    → (i : ℕ) → (c'.bufs i).refcnt ≡ (c.bufs i).refcnt
Released-refs {b} {k} {c} {c₁} {c₂} {c'} r e o q i = elim (same_or i b) [
  | inl d ↦
      ap (λ x. (c'.bufs x).refcnt) d
      ∙ (let f = r.one_more in let g = q.fewer in omega arith)
      ∙ ap (λ x. (c.bufs x).refcnt) (sym d)
  | inr n ↦ ap (λ x. x.refcnt) (q.others i n ∙ o i n ∙ r.others i n)
]

-- brelse() of a buffer that was just read.
look :
    {b k : ℕ} {c c₁ : Bcache}
    → BlockRead b k c c₁
    → (c' : Bcache) × (brelse b c₁ ≡ ok c') × Looked c c'
look {b} {k} {c} {c₁} r =
    let (c', e, q) = brelse-Released b k c₁ r.cache (read-IsHeld r) in
    (
      c',
      e,
      record {
        cache = q.cache;
        same_disk = q.same_disk ∙ r.same_disk;
        same_past = q.same_past ∙ r.same_past;
        same_contents = λ j. q.same_contents j ∙ r.same_contents j;
        settled = record {
          refs = Released-refs r refl (λ i n. refl) q;
          entries = λ i j p. q.entries i j (BlockRead-IsPinned r i j p).holds;
        };
      },
    )

-- The in-memory header is the one of the block.
pub read_head-Looked :
    (s : Log)
    → s.dev ≡ rootdev
    → IsCache s.cache
    → IsReadable s.start s.cache
    → (c' : Bcache) × (read_head s
        ≡ ok (record s {
          n = count_of (contents s.cache s.start);
          block =
              read_blocks
                (count_of (contents s.cache s.start))
                0
                (contents s.cache s.start)
                s.block;
          cache = c';
        }))
      × Looked s.cache c'
unfolding read_head
read_head-Looked s d w h =
    let (b, c₁, e, r) = bread-BlockRead s.start s.cache w h in
    let (c', e', q) = look r in
    (
      c',
      rw (ap (λ x. bread x s.start s.cache) d ∙ e, e')
          (ap
            (λ x. ok (record s {
              n = count_of x;
              block = read_blocks (count_of x) 0 x s.block;
              cache = c';
            }))
            r.bytes),
      q,
    )

-- The header is on the disk.
pub record HeadWritten (s : Log) (c' : Bcache) : Type 0 where
  pub cache : IsCache c'
  pub on_disk :
      c'.disk ≡ update s.cache.disk s.start (header_bytes s.n s.block (contents s.cache s.start))
  pub past : c'.past ≡ s.cache.disk ∷ s.cache.past
  pub same_contents : (j : ℕ) → j ≢ s.start → contents c' j ≡ contents s.cache j
  pub settled : Settled s.cache c'

pub write_head-HeadWritten :
    (s : Log)
    → s.dev ≡ rootdev
    → IsCache s.cache
    → IsReadable s.start s.cache
    → (c' : Bcache) × (write_head s ≡ ok (record s { cache = c' })) × HeadWritten s c'
unfolding write_head
write_head-HeadWritten s d w h =
    let (b, c₁, e, r) = bread-BlockRead s.start s.cache w h in
    let held = read-IsHeld r in
    let v = header_bytes s.n s.block (c₁.bufs b).bytes in
    let (c₂, e₂, t) = store-Stored b s.start v c₁ r.cache r.holds r.locked held.used in
    let (c', e', q) = brelse-Released b s.start c₂ t.cache (stored-IsHeld held t) in
    (
      c',
      rw (d, e, e₂, e') refl,
      record {
        cache = q.cache;
        on_disk =
            q.same_disk
            ∙ t.on_disk
            ∙ ap (λ x. update x s.start v) r.same_disk
            ∙ ap (λ x. update s.cache.disk s.start (header_bytes s.n s.block x)) r.bytes;
        past =
            q.same_past
            ∙ t.past
            ∙ ap (λ x. x ∷ c₁.past) r.same_disk
            ∙ ap (λ x. s.cache.disk ∷ x) r.same_past;
        same_contents = λ j n. q.same_contents j ∙ t.of_others j n ∙ r.same_contents j;
        settled = record {
          refs = Released-refs r t.same_refcnt t.others q;
          entries = λ i j p. q.entries i j (t.entries i j (BlockRead-IsPinned r i j p).holds);
        };
      },
    )
  where
    stored-IsHeld :
        {b k : ℕ} {v : Bytes} {c c' : Bcache} → IsHeld b k c → Stored b k v c c' → IsHeld b k c'
    stored-IsHeld {b} {k} {v} {c} h t = record {
      holds = t.entries b k h.holds;
      locked = t.same_locked ∙ h.locked;
      used = λ z. h.used (sym t.same_refcnt ∙ z);
      clean = λ z. t.bytes ∙ sym (ap (λ x. x k) t.on_disk ∙ update_self c.disk k v);
    }

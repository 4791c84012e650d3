-- ===== src/Bcache/View.antt =====
-- What the cache of kernel/bio.c holds for each block of the root device, and the invariant of
-- the cache.
use operating_systems_2_assi.Prelude.{
  ℕ, ◌<◌, ◌≡◌, refl, ◌≢◌, Bool, true, false, ◌||◌, Option, none, some, ◌⊎◌, inl, inr, List, [], ◌∷◌,
  ◌==◌, Bool-cases, Option-cases, arith, Bytes, find_first, find_first_only, find_first-miss,
  find_first-IsFirst, find_first-none,
}
use operating_systems_2_assi.Bcache.{Buf, Bcache, nbuf, rootdev, is_block}

abbrev pub has : List ℕ → ℕ → Bool
has [] b = false
has (x ∷ xs) b = x == b || has xs b

-- A buffer for block `k` of the root device.
pub record IsFor (k : ℕ) (v : Buf) : Type 0 where
  pub same_dev : v.dev ≡ rootdev
  pub same_block : v.blockno ≡ k

-- Buffer `b` is for block `k`.
pub record Holds (b k : ℕ) (c : Bcache) : Type 0 where
  pub below : b < nbuf
  pub entry : IsFor k (c.bufs b)

-- A buffer of the root device is valid, and has the contents of the disk when nobody uses it.
pub record IsSound (disk : ℕ → Bytes) (v : Buf) : Type 0 where
  pub valid : v.dev ≡ rootdev → v.valid ≡ true
  pub clean : v.dev ≡ rootdev → v.refcnt ≡ 0 → v.bytes ≡ disk v.blockno

pub record IsCache (c : Bcache) : Type 0 where
  pub all_linked : (b : ℕ) → b < nbuf → has c.order b ≡ true
  pub linked_below : (b : ℕ) → has c.order b ≡ true → b < nbuf
  pub sound : (b : ℕ) → b < nbuf → IsSound c.disk (c.bufs b)
  pub unique : (b b' k : ℕ) → Holds b k c → Holds b' k c → b ≡ b'

abbrev pub bytes_of : Option ℕ → (ℕ → Buf) → Bytes → Bytes
bytes_of none bufs on_disk = on_disk
bytes_of (some b) bufs on_disk = (bufs b).bytes

-- The contents of a block: those of its buffer, or those of the disk.
unfoldable pub contents : Bcache → ℕ → Bytes
contents c blockno =
    bytes_of (find_first (is_block rootdev blockno c) nbuf 0) c.bufs (c.disk blockno)

pub Holds-test :
    {b blockno : ℕ} {c : Bcache} → Holds b blockno c → is_block rootdev blockno c b ≡ true
Holds-test h = ground (arith, h.entry.same_dev, h.entry.same_block)

pub test-Holds :
    (b blockno : ℕ) (c : Bcache)
    → b < nbuf
    → is_block rootdev blockno c b ≡ true
    → Holds b blockno c
test-Holds b blockno c l h = record {
  below = l;
  entry = record { same_dev = ground arith; same_block = ground arith };
}

pub Holds-cases :
    (blockno : ℕ) (c : Bcache)
    → ((b : ℕ) × Holds b blockno c) ⊎ ((b : ℕ) → b < nbuf → is_block rootdev blockno c b ≡ false)
Holds-cases blockno c = elim (Option-cases (find_first (is_block rootdev blockno c) nbuf 0)) [
  | inl e ↦
      inr
        (λ b l. find_first-none (is_block rootdev blockno c) nbuf 0 e b (omega arith) (omega arith))
  | inr (b, e) ↦ inl (
    b,
    let f = find_first-IsFirst (is_block rootdev blockno c) nbuf 0 b e in
        test-Holds b blockno c (omega (arith, f.below)) f.hit,
  )
]

-- Another buffer does not hold the block.
other :
    {c : Bcache} {b blockno : ℕ}
    → IsCache c
    → Holds b blockno c
    → (b' : ℕ) → b' < nbuf
    → b' ≢ b
    → is_block rootdev blockno c b' ≡ false
other {c} {b} {blockno} w h b' l n = elim (Bool-cases (is_block rootdev blockno c b')) [
  | inl e ↦ absurd (n (w.unique b' b blockno (test-Holds b' blockno c l e) h))
  | inr e ↦ e
]

pub contents-hit :
    {c : Bcache} {b blockno : ℕ}
    → IsCache c
    → Holds b blockno c
    → contents c blockno ≡ (c.bufs b).bytes
unfolding contents
contents-hit {c} {b} {blockno} w h =
    rw
      (find_first_only (is_block rootdev blockno c) nbuf 0 b (omega arith) (omega (arith, h.below))
        (Holds-test h) (other w h))
      refl

pub contents-miss :
    (c : Bcache) (blockno : ℕ)
    → ((b : ℕ) → b < nbuf → is_block rootdev blockno c b ≡ false)
    → contents c blockno ≡ c.disk blockno
unfolding contents
contents-miss c blockno h =
    rw (find_first-miss (is_block rootdev blockno c) nbuf 0 (λ b a l. h b (omega arith))) refl

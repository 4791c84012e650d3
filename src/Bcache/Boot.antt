-- ===== src/Bcache/Boot.antt =====
-- The state of the cache of kernel/bio.c after binit(), and the two outcomes of bread().
use operating_systems_2_assi.Prelude.{
  ℕ, zero, suc, ◌<◌, ◌≡◌, refl, ◌≢◌, true, false, ◌⊎◌, inl, inr, Option-cases, arith, Bytes, ok,
  panic, Panic, find_first, find_first-none, find_first-IsFirst,
}
use operating_systems_2_assi.Bcache.{
  Bcache, nbuf, rootdev, is_block, has_no_refs, linked, binit, find_next, find_prev, bread, bget,
  bget_from, bget_new,
}
use operating_systems_2_assi.Bcache.View.{
  has, IsCache, Holds, Holds-test, Holds-cases, contents, contents-miss,
}
use operating_systems_2_assi.Bcache.Read.{
  find_next-hit, find_prev-hit, BlockRead, IsFree, IsReadable, bread-BlockRead,
}

linked-has : (n b : ℕ) → b < n → has (linked n) b ≡ true
unfolding linked
linked-has zero b h = absurd (omega arith)
linked-has (suc n) b h = ground (arith, linked-has n b)

has-linked : (n b : ℕ) → has (linked n) b ≡ true → b < n
unfolding linked
has-linked zero b h = absurd (cc)
has-linked (suc n) b h = ground (arith, has-linked n b)

pub no_block : (disk : ℕ → Bytes) (b k : ℕ) → ¬ Holds b k (binit disk)
unfolding binit
no_block disk b k h = let d = h.entry.same_dev in omega arith

-- At the start no block is cached, and every buffer is free.
pub binit-IsCache : (disk : ℕ → Bytes) → IsCache (binit disk)
unfolding binit
binit-IsCache disk = record {
  all_linked = λ b l. linked-has nbuf b l;
  linked_below = λ b h. has-linked nbuf b h;
  sound = λ b l. record { valid = λ d. absurd (omega arith); clean = λ d z. absurd (omega arith) };
  unique = λ b b' k h h'. absurd (no_block disk b k h);
}

pub binit-IsFree : (disk : ℕ → Bytes) (b : ℕ) → b < nbuf → IsFree b (binit disk)
unfolding binit
binit-IsFree disk b l = record { below = l; unused = refl }

pub contents-binit : (disk : ℕ → Bytes) (k : ℕ) → contents (binit disk) k ≡ disk k
unfolding binit
contents-binit disk k = contents-miss (binit disk) k (λ b l. refl)

exhausted :
    (k : ℕ) (c : Bcache)
    → ((b : ℕ) → has c.order b ≡ true → is_block rootdev k c b ≡ false)
    → ((b : ℕ) → has c.order b ≡ true → has_no_refs c b ≡ false)
    → bread rootdev k c ≡ panic Panic.no_buffers
unfolding bread bget bget_from bget_new
exhausted k c empty busy = elim (Option-cases (find_next (is_block rootdev k c) c.order)) [
  | inl e ↦ elim (Option-cases (find_prev (has_no_refs c) c.order)) [
    | inl f ↦ rw (e, f) refl
    | inr (b, f) ↦
        absurd (let (h, t) = find_prev-hit (has_no_refs c) c.order b f in let g = busy b h in cc)
  ]
  | inr (b, e) ↦
      absurd
        (let (h, t) = find_next-hit (is_block rootdev k c) c.order b e in let g = empty b h in cc)
]

-- A block is in no buffer, and every buffer is in use.
pub record IsExhausted (k : ℕ) (c : Bcache) : Type 0 where
  pub not_cached : (b : ℕ) → ¬ Holds b k c
  pub busy : (b : ℕ) → b < nbuf → (c.bufs b).refcnt ≢ 0

-- In a well-formed cache bread() either returns a locked buffer with the contents of the block,
-- and changes neither the disk nor the contents of any block, or the block is in no buffer and
-- every buffer is in use, and it stops the machine.
pub bread-Outcomes :
    (k : ℕ) (c : Bcache)
    → IsCache c
    → (IsReadable k c
        × ((b : ℕ) × (c' : Bcache) × (bread rootdev k c ≡ ok (b, c')) × BlockRead b k c c'))
      ⊎ (IsExhausted k c × (bread rootdev k c ≡ panic Panic.no_buffers))
bread-Outcomes k c w = elim (Holds-cases k c) [
  | inl h ↦ inl (inl h, bread-BlockRead k c w (inl h))
  | inr empty ↦ elim (Option-cases (find_first (has_no_refs c) nbuf 0)) [
    | inl e ↦
        let busy = find_first-none (has_no_refs c) nbuf 0 e in
        inr (
          record {
            not_cached = λ b h. let t = Holds-test h in let f = empty b h.below in cc;
            busy = λ b l z. let t = busy b (omega arith) (omega arith) in ground arith;
          },
          exhausted k c (λ b h. empty b (w.linked_below b h))
              (λ b h. busy b (omega arith) (let l = w.linked_below b h in omega arith)),
        )
    | inr (b, e) ↦
        let f = find_first-IsFirst (has_no_refs c) nbuf 0 b e in
        let free : IsFree b c = record {
          below = omega (arith, f.below);
          unused = let t = f.hit in ground arith;
        } in
        inl (inr (b, free), bread-BlockRead k c w (inr (b, free)))
  ]
]

pub bread-exhausted :
    (k : ℕ) (c : Bcache) → IsCache c → IsExhausted k c → bread rootdev k c ≡ panic Panic.no_buffers
bread-exhausted k c w h = elim (bread-Outcomes k c w) [
  | inl (r, found) ↦ elim r [
    | inl (b, g) ↦ absurd (h.not_cached b g)
    | inr (b, f) ↦ absurd (h.busy b f.below f.unused)
  ]
  | inr (g, e) ↦ e
]

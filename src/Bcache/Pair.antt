-- ===== src/Bcache/Pair.antt =====
-- Two buffers at a time: the log of kernel/log.c reads two blocks, copies one to the other, writes
-- that one to the disk, and releases both.
use operating_systems_2_assi.Prelude.{
  same_or, ℕ, ◌+◌, ◌≡◌, sym, ◌∙◌, ap, ◌≢◌, subst, true, inl, inr, arith,
}
use operating_systems_2_assi.Bcache.{Bcache}
use operating_systems_2_assi.Bcache.View.{IsCache, Holds, contents}
use operating_systems_2_assi.Bcache.Read.{BlockRead}

-- A block whose buffer is in use.
pub record IsPinned (b k : ℕ) (c : Bcache) : Type 0 where
  pub holds : Holds b k c
  pub used : (c.bufs b).refcnt ≢ 0

Holds-subst : {b k : ℕ} {c c' : Bcache} → c'.bufs b ≡ c.bufs b → Holds b k c → Holds b k c'
Holds-subst e h = record {
  below = h.below;
  entry = record {
    same_dev = ap (λ x. x.dev) e ∙ h.entry.same_dev;
    same_block = ap (λ x. x.blockno) e ∙ h.entry.same_block;
  };
}

-- A read of another block does not take a buffer that is in use.
pub BlockRead-IsPinned :
    {b k : ℕ} {c c' : Bcache} → BlockRead b k c c' → (i j : ℕ) → IsPinned i j c → IsPinned i j c'
BlockRead-IsPinned {b} {k} {c} {c'} r i j p = elim (same_or i b) [
  | inl e ↦
      subst (λ x. IsPinned x j c') (sym e)
        (record {
          holds =
              r.kept (λ z. p.used (ap (λ x. (c.bufs x).refcnt) e ∙ z)) j
                (subst (λ x. Holds x j c) e p.holds);
          used = let m = r.one_more in λ z. omega arith;
        })
  | inr n ↦ record {
    holds = Holds-subst (r.others i n) p.holds;
    used = λ z. p.used (ap (λ x. x.refcnt) (sym (r.others i n)) ∙ z);
  }
]

-- Buffers `a` and `b` hold blocks `k` and `m` after a read of both.
pub record TwoRead (a b k m : ℕ) (c c' : Bcache) : Type 0 where
  pub cache : IsCache c'
  pub first : Holds a k c'
  pub second : Holds b m c'
  pub distinct : a ≢ b
  pub first_locked : (c'.bufs a).locked ≡ true
  pub second_locked : (c'.bufs b).locked ≡ true
  pub first_bytes : (c'.bufs a).bytes ≡ contents c k
  pub second_bytes : (c'.bufs b).bytes ≡ contents c m
  pub same_contents : (j : ℕ) → contents c' j ≡ contents c j
  pub same_disk : c'.disk ≡ c.disk
  pub same_past : c'.past ≡ c.past
  pub first_more : (c'.bufs a).refcnt ≡ (c.bufs a).refcnt + 1
  pub second_more : (c'.bufs b).refcnt ≡ (c.bufs b).refcnt + 1
  pub first_fresh : (c.bufs a).refcnt ≡ 0 → contents c k ≡ c.disk k
  pub second_fresh : (c.bufs b).refcnt ≡ 0 → contents c m ≡ c.disk m
  pub others : (i : ℕ) → i ≢ a → i ≢ b → c'.bufs i ≡ c.bufs i
  pub pins : (i j : ℕ) → IsPinned i j c → IsPinned i j c'

pub two_reads :
    {a b k m : ℕ} {c c₁ c' : Bcache}
    → k ≢ m
    → BlockRead a k c c₁
    → BlockRead b m c₁ c'
    → TwoRead a b k m c c'
two_reads {a} {b} {k} {m} {c} {c₁} {c'} ne r q = record {
  cache = q.cache;
  first = kept.holds;
  second = q.holds;
  distinct = apart;
  first_locked = ap (λ x. x.locked) (q.others a apart) ∙ r.locked;
  second_locked = q.locked;
  first_bytes = ap (λ x. x.bytes) (q.others a apart) ∙ r.bytes;
  second_bytes = q.bytes ∙ r.same_contents m;
  same_contents = λ j. q.same_contents j ∙ r.same_contents j;
  same_disk = q.same_disk ∙ r.same_disk;
  same_past = q.same_past ∙ r.same_past;
  first_more = ap (λ x. x.refcnt) (q.others a apart) ∙ r.one_more;
  second_more = q.one_more ∙ ap (λ x. x.refcnt + 1) (r.others b (λ e. apart (sym e)));
  first_fresh = r.fresh;
  second_fresh = λ z.
      sym (r.same_contents m)
      ∙ q.fresh (ap (λ x. x.refcnt) (r.others b (λ e. apart (sym e))) ∙ z)
      ∙ ap (λ d. d m) r.same_disk;
  others = λ i n n'. q.others i n' ∙ r.others i n;
  pins = λ i j p. BlockRead-IsPinned q i j (BlockRead-IsPinned r i j p);
}
  where
    kept : IsPinned a k c'
    kept =
        BlockRead-IsPinned q a k
          (record { holds = r.holds; used = let e = r.one_more in λ z. omega arith })

    apart : a ≢ b
    apart e = ne (
        sym kept.holds.entry.same_block
        ∙ ap (λ x. (c'.bufs x).blockno) e
        ∙ q.holds.entry.same_block)

pub TwoRead-comm : {a b k m : ℕ} {c c' : Bcache} → TwoRead a b k m c c' → TwoRead b a m k c c'
TwoRead-comm t = record {
  cache = t.cache;
  first = t.second;
  second = t.first;
  distinct = λ e. t.distinct (sym e);
  first_locked = t.second_locked;
  second_locked = t.first_locked;
  first_bytes = t.second_bytes;
  second_bytes = t.first_bytes;
  same_contents = t.same_contents;
  same_disk = t.same_disk;
  same_past = t.same_past;
  first_more = t.second_more;
  second_more = t.first_more;
  first_fresh = t.second_fresh;
  second_fresh = t.first_fresh;
  others = λ i n n'. t.others i n' n;
  pins = t.pins;
}

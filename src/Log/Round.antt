-- ===== src/Log/Round.antt =====
-- The rounds of install_trans() of kernel/log.c.
use operating_systems_2_assi.Prelude.{
  update_self, update_ne, same_or, ℕ, zero, suc, ◌+◌, ◌<◌, ◌≡◌, refl, sym, ◌∙◌, ap, ◌≢◌, subst,
  Bool, true, false, ◌⊎◌, inl, inr, arith, Bytes, ok, All,
}
use operating_systems_2_assi.Bcache.{Bcache, rootdev}
use operating_systems_2_assi.Bcache.View.{contents}
use operating_systems_2_assi.Bcache.Read.{IsFree}
use operating_systems_2_assi.Bcache.Pair.{IsPinned}
use operating_systems_2_assi.Bcache.Copy.{Copied, copy-Copied}
use operating_systems_2_assi.Log.{Log, install_block, install_loop}
use operating_systems_2_assi.Log.Header.{IsHeader}
use operating_systems_2_assi.Log.Install.{
  IsHome, start-ne, log-ne, IsOneOf, HasBuffers, Installing, Installing-IsRecoverable, Reads,
  Reads-free, Reads-pinned, pin-used,
}

pub copied-IsFree :
    {b k m : ℕ} {c c' : Bcache} {keep : Bool} (f : ℕ)
    → Copied b k m keep c c'
    → (keep ≡ true) ⊎ ((c.bufs b).refcnt ≢ 0)
    → IsFree f c
    → IsFree f c'
copied-IsFree {b} {k} {m} {c} {c'} {keep} f h pin p = record {
  below = p.below;
  unused = elim (same_or f b) [
    | inl e ↦
        ap (λ x. (c'.bufs x).refcnt) e
        ∙ (let z = ap (λ x. (c.bufs x).refcnt) (sym e) ∙ p.unused in
            let r = h.refcnt in ground (arith, pin))
    | inr n ↦ h.others f n ∙ p.unused
  ];
}

-- A pinned block stays pinned, unless it is the one that is copied to and loses its pin.
pub copied-IsPinned :
    {b k m : ℕ} {c c' : Bcache} {keep : Bool} (p j : ℕ)
    → Copied b k m keep c c'
    → (keep ≡ true) ⊎ (p ≢ b)
    → IsPinned p j c
    → IsPinned p j c'
copied-IsPinned {b} {k} {m} {c} {c'} {keep} p j h safe q = record {
  holds = h.entries p j q;
  used = elim (same_or p b) [
    | inl e ↦ λ z. q.used (
        ap (λ x. (c.bufs x).refcnt) e
        ∙ (let y = ap (λ x. (c'.bufs x).refcnt) (sym e) ∙ z in
            let r = h.refcnt in ground (arith, safe, e)))
    | inr n ↦ λ z. q.used (sym (h.others p n) ∙ z)
  ];
}

reads :
    (keep : Bool) (s : Log) (old w : ℕ → Bytes) (tail : ℕ) (c : Bcache)
    → tail < s.n
    → Installing keep s old w tail c
    → Reads keep (s.start + tail + 1) (s.block tail) c
reads true s old w tail c l h =
    let (f, g, p, q, n) = h.buffers in
    Reads-free (s.start + tail + 1) (s.block tail) f g c h.cache
      (log-ne (h.home tail l) (omega (arith, h.fits))) p q n
reads false s old w tail c l h =
    let ((f, free), pins, distinct) = h.buffers in
    let (p, pinned) = pins tail (omega arith) l in
    Reads-pinned (s.start + tail + 1) (s.block tail) f p c h.cache
      (log-ne (h.home tail l) (omega (arith, h.fits))) free pinned

-- The block that a round writes, and the rest of the disk.
round-Installing :
    (keep : Bool) (s : Log) (old w : ℕ → Bytes) (tail b : ℕ) (c c' : Bcache)
    → tail < s.n
    → Installing keep s old w tail c
    → Copied b (s.start + tail + 1) (s.block tail) keep c c'
    → HasBuffers keep s (suc tail) c'
    → Installing keep s old w (suc tail) c'
round-Installing keep s old w tail b c c' l h r bufs = record {
  cache = r.cache;
  fits = h.fits;
  header = subst (IsHeader s.n s.block) (sym (away s.start (start-ne home))) h.header;
  home = h.home;
  seen = λ i m. r.of_others (s.start + i + 1) (log-ne home (omega (arith, h.fits))) ∙ h.seen i m;
  copies = λ i m. away (s.start + i + 1) (log-ne home (omega (arith, h.fits))) ∙ h.copies i m;
  installed = λ i m. elim (same_or (s.block i) (s.block tail)) [
    | inl e ↦ ap c'.disk e ∙ new ∙ ap w (sym e)
    | inr n ↦ away (s.block i) n ∙ h.installed i (omega_lt i m n)
  ];
  homes = λ k g. elim (same_or k (s.block tail)) [
    | inl e ↦ inl (ap c'.disk e ∙ new ∙ ap w (sym e))
    | inr n ↦ elim (h.homes k g) [ inl e ↦ inl (away k n ∙ e) | inr x ↦ inr x ]
  ];
  buffers = bufs;
  safe =
      subst (All (IsOneOf s.start old w)) (sym r.past) (inr (Installing-IsRecoverable h), h.safe);
}
  where
    home : IsHome s.start (s.block tail)
    home = h.home tail l

    away : (k : ℕ) → k ≢ s.block tail → c'.disk k ≡ c.disk k
    away k n =
        ap (λ d. d k) r.on_disk
        ∙ update_ne c.disk (s.block tail) k (contents c (s.start + tail + 1)) n

    new : c'.disk (s.block tail) ≡ w (s.block tail)
    new =
        ap (λ d. d (s.block tail)) r.on_disk
        ∙ update_self c.disk (s.block tail) (contents c (s.start + tail + 1))
        ∙ h.seen tail l

    omega_lt : (i : ℕ) → i < suc tail → s.block i ≢ s.block tail → i < tail
    omega_lt i m n = elim (same_or i tail) [
      | inl e ↦ absurd (n (ap s.block e))
      | inr d ↦ omega arith
    ]

-- A round leaves enough buffers for the next.
round-HasBuffers :
    (keep : Bool) (s : Log) (old w : ℕ → Bytes) (tail b : ℕ) (c c' : Bcache)
    → tail < s.n
    → Installing keep s old w tail c
    → Copied b (s.start + tail + 1) (s.block tail) keep c c'
    → (keep ≡ true) ⊎ IsPinned b (s.block tail) c
    → HasBuffers keep s (suc tail) c'
round-HasBuffers true s old w tail b c c' l h r pin =
    let (f, g, p, q, n) = h.buffers in
    (f, g, copied-IsFree f r (inl refl) p, copied-IsFree g r (inl refl) q, n)
round-HasBuffers false s old w tail b c c' l h r (inl e) = absurd (cc)
round-HasBuffers false s old w tail b c c' l h r (inr here) =
    let ((f, free), pins, distinct) = h.buffers in
    (
      (f, copied-IsFree f r (inr here.used) free),
      (λ i a m.
          let (p, q) = pins i (omega arith) m in
          (
            p,
            copied-IsPinned p (s.block i) r
                (inr (λ e. distinct tail i (omega arith) m (
                  sym here.holds.entry.same_block
                  ∙ ap (λ x. (c.bufs x).blockno) (sym e)
                  ∙ q.holds.entry.same_block)))
                q,
          )),
      distinct,
    )

-- A round of install_trans().
round :
    (keep : Bool) (s : Log) (old w : ℕ → Bytes) (tail : ℕ) (c : Bcache)
    → s.dev ≡ rootdev
    → tail < s.n
    → Installing keep s old w tail c
    → (c' : Bcache) × (install_block s keep tail c ≡ ok c') × Installing keep s old w (suc tail) c'
unfolding install_block
round keep s old w tail c d l h =
    let r = reads keep s old w tail c l h in
    let (c', e, p) =
      copy-Copied keep (log-ne (h.home tail l) (omega (arith, h.fits))) r.both (pin-used r.pin) in
    (
      c',
      rw (d, r.read_first, r.read_second) e,
      round-Installing keep s old w tail r.b c c' l h p
          (round-HasBuffers keep s old w tail r.b c c' l h p r.pin),
    )

-- The rounds from `tail` on.
pub rounds :
    (n : ℕ) (keep : Bool) (s : Log) (old w : ℕ → Bytes) (tail : ℕ) (c : Bcache)
    → s.dev ≡ rootdev
    → tail + n ≡ s.n
    → Installing keep s old w tail c
    → (c' : Bcache) × (install_loop s keep n tail c ≡ ok c') × Installing keep s old w s.n c'
unfolding install_loop
rounds zero keep s old w tail c d e h =
    (c, refl, subst (λ t. Installing keep s old w t c) (omega arith) h)
rounds (suc n) keep s old w tail c d e h =
    let (c₁, e₁, h₁) = round keep s old w tail c d (omega arith) h in
    let (c', e', h') = rounds n keep s old w (suc tail) c₁ d (omega arith) h₁ in (c', rw e₁ e', h')

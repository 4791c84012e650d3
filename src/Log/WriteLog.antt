-- ===== src/Log/WriteLog.antt =====
-- write_log() of kernel/log.c, the copy of the blocks of the transaction from the cache to the log.
use operating_systems_2_assi.Prelude.{
  update_self, update_ne, same_or, ℕ, zero, suc, ◌+◌, ◌≤◌, ◌<◌, ◌≡◌, refl, sym, ◌∙◌, ap, ◌≢◌, subst,
  true, inl, inr, arith, Bytes, ok, All,
}
use operating_systems_2_assi.Bcache.{Bcache, rootdev}
use operating_systems_2_assi.Bcache.View.{IsCache, contents}
use operating_systems_2_assi.Bcache.Read.{IsFree}
use operating_systems_2_assi.Bcache.Pair.{IsPinned, TwoRead-comm}
use operating_systems_2_assi.Bcache.Copy.{Copied, copy-Copied}
use operating_systems_2_assi.Log.{Log, logblocks, write_block, write_loop}
use operating_systems_2_assi.Log.Header.{IsHeader}
use operating_systems_2_assi.Log.Install.{IsHome, log-ne, IsOneOf, Reads-pinned}
use operating_systems_2_assi.Log.Round.{copied-IsFree, copied-IsPinned}
use operating_systems_2_assi.Log.Recovery.{IsClear, IsClear-IsRecoverable}

-- The state before round `tail`: the disk still has an empty log and the old blocks.
pub record Writing (s : Log) (old w : ℕ → Bytes) (tail : ℕ) (c : Bcache) : Type 0 where
  pub cache : IsCache c
  pub fits : s.n ≤ logblocks
  pub clear : IsClear s.start old c.disk
  pub home : (i : ℕ) → i < s.n → IsHome s.start (s.block i)
  pub new : (i : ℕ) → i < s.n → contents c (s.block i) ≡ w (s.block i)
  pub written : (i : ℕ) → i < tail → c.disk (s.start + i + 1) ≡ w (s.block i)
  pub seen : (i : ℕ) → i < tail → contents c (s.start + i + 1) ≡ w (s.block i)
  pub free : (f : ℕ) × IsFree f c
  pub pins : (i : ℕ) → i < s.n → (p : ℕ) × IsPinned p (s.block i) c
  pub safe : All (IsOneOf s.start old w) c.past

log-sep : (start i j : ℕ) → i ≢ j → start + i + 1 ≢ start + j + 1
log-sep start i j n = omega arith

write-Writing :
    (s : Log) (old w : ℕ → Bytes) (tail b : ℕ) (c c' : Bcache)
    → tail < s.n
    → Writing s old w tail c
    → Copied b (s.block tail) (s.start + tail + 1) true c c'
    → Writing s old w (suc tail) c'
write-Writing s old w tail b c c' l h r = record {
  cache = r.cache;
  fits = h.fits;
  clear = record {
    empty = subst (IsHeader 0 (λ i. 0)) (sym (away s.start (omega arith))) h.clear.empty;
    homes = λ k g. away k (λ e. log-ne g (omega (arith, h.fits)) (sym e)) ∙ h.clear.homes k g;
  };
  home = h.home;
  new = λ i m.
      r.of_others (s.block i) (λ e. log-ne (h.home i m) (omega (arith, h.fits)) (sym e))
      ∙ h.new i m;
  written = λ i m. elim (same_or i tail) [
    | inl e ↦
        ap (λ x. c'.disk (s.start + x + 1)) e
        ∙ ap (λ d. d (s.start + tail + 1)) r.on_disk
        ∙ update_self c.disk (s.start + tail + 1) (contents c (s.block tail))
        ∙ h.new tail l
        ∙ ap (λ x. w (s.block x)) (sym e)
    | inr n ↦ away (s.start + i + 1) (log-sep s.start i tail n) ∙ h.written i (omega arith)
  ];
  seen = λ i m. elim (same_or i tail) [
    | inl e ↦
        ap (λ x. contents c' (s.start + x + 1)) e
        ∙ r.of_block
        ∙ h.new tail l
        ∙ ap (λ x. w (s.block x)) (sym e)
    | inr n ↦ r.of_others (s.start + i + 1) (log-sep s.start i tail n) ∙ h.seen i (omega arith)
  ];
  free = let (f, p) = h.free in (f, copied-IsFree f r (inl refl) p);
  pins = λ i m. let (p, q) = h.pins i m in (p, copied-IsPinned p (s.block i) r (inl refl) q);
  safe =
      subst (All (IsOneOf s.start old w)) (sym r.past)
        (inl (IsClear-IsRecoverable h.clear), h.safe);
}
  where
    away : (k : ℕ) → k ≢ s.start + tail + 1 → c'.disk k ≡ c.disk k
    away k n =
        ap (λ d. d k) r.on_disk
        ∙ update_ne c.disk (s.start + tail + 1) k (contents c (s.block tail)) n

write_round :
    (s : Log) (old w : ℕ → Bytes) (tail : ℕ) (c : Bcache)
    → s.dev ≡ rootdev
    → tail < s.n
    → Writing s old w tail c
    → (c' : Bcache) × (write_block s tail c ≡ ok c') × Writing s old w (suc tail) c'
unfolding write_block
write_round s old w tail c d l h =
    let (f, free) = h.free in
    let (p, pin) = h.pins tail l in
    let ne = log-ne (h.home tail l) (omega (arith, h.fits)) in
    let r = Reads-pinned (s.start + tail + 1) (s.block tail) f p c h.cache ne free pin in
    let (c', e, q) = copy-Copied true (λ x. ne (sym x)) (TwoRead-comm r.both) (inl refl) in
    (c', rw (d, r.read_first, r.read_second) e, write-Writing s old w tail r.a c c' l h q)

pub write_rounds :
    (n : ℕ) (s : Log) (old w : ℕ → Bytes) (tail : ℕ) (c : Bcache)
    → s.dev ≡ rootdev
    → tail + n ≡ s.n
    → Writing s old w tail c
    → (c' : Bcache) × (write_loop s n tail c ≡ ok c') × Writing s old w s.n c'
unfolding write_loop
write_rounds zero s old w tail c d e h = (c, refl, subst (λ t. Writing s old w t c) (omega arith) h)
write_rounds (suc n) s old w tail c d e h =
    let (c₁, e₁, h₁) = write_round s old w tail c d (omega arith) h in
    let (c', e', h') = write_rounds n s old w (suc tail) c₁ d (omega arith) h₁ in (c', rw e₁ e', h')

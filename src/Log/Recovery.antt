-- ===== src/Log/Recovery.antt =====
-- initlog() of kernel/log.c after a crash.
use operating_systems_2_assi.Prelude.{
  update_self, update_ne, ℕ, ◌+◌, ◌*◌, ◌<◌, ◌≡◌, refl, sym, ◌∙◌, ap, subst, Bool, true, inl, inr,
  arith, Bytes, ok, ◌>>=◌, All, All-mono, get_int,
}
use operating_systems_2_assi.Bcache.{Bcache, rootdev, binit}
use operating_systems_2_assi.Bcache.View.{IsCache, contents}
use operating_systems_2_assi.Bcache.Read.{IsFree}
use operating_systems_2_assi.Bcache.Boot.{binit-IsCache, binit-IsFree, contents-binit}
use operating_systems_2_assi.Log.{
  Log, write_head, install_trans, recover_from_log, initlog, header_bytes, count_of, read_blocks,
}
use operating_systems_2_assi.Log.Header.{
  IsHeader, header_bytes-IsHeader, IsHeader-count_of, IsHeader-read_blocks,
}
use operating_systems_2_assi.Log.Head.{
  read_head-Looked, write_head-HeadWritten, Settled, Settled-IsFree,
}
use operating_systems_2_assi.Log.Install.{
  IsHome, start-ne, IsRecoverable, IsOneOf, HasBuffers, Installing, Installing-IsRecoverable,
}
use operating_systems_2_assi.Log.Round.{rounds}

-- A disk with an empty log and the blocks `w`.
pub record IsClear (start : ℕ) (w d : ℕ → Bytes) : Type 0 where
  pub empty : IsHeader 0 (λ i. 0) (d start)
  pub homes : (k : ℕ) → IsHome start k → d k ≡ w k

pub IsClear-IsRecoverable :
    {start : ℕ} {w d : ℕ → Bytes} → IsClear start w d → IsRecoverable start w d
IsClear-IsRecoverable h = record {
  n = 0;
  block = λ i. 0;
  fits = omega arith;
  header = h.empty;
  home = λ i l. absurd (omega arith);
  copies = λ i l. absurd (omega arith);
  homes = λ k g. inl (h.homes k g);
}

-- All blocks are at home.
pub record Installed (s : Log) (old w : ℕ → Bytes) (c : Bcache) : Type 0 where
  pub cache : IsCache c
  pub homes : (k : ℕ) → IsHome s.start k → c.disk k ≡ w k
  pub free : (f : ℕ) × IsFree f c
  pub safe : All (IsOneOf s.start old w) c.past
  pub now : IsRecoverable s.start w c.disk

-- The end of recover_from_log() and of commit(): the log is cleared.
pub record Cleared (s : Log) (old w : ℕ → Bytes) (c : Bcache) : Type 0 where
  pub cache : IsCache c
  pub clear : IsClear s.start w c.disk
  pub safe : All (IsOneOf s.start old w) c.past

pub clear-Cleared :
    (s : Log) (old w : ℕ → Bytes)
    → s.dev ≡ rootdev
    → s.n ≡ 0
    → Installed s old w s.cache
    → (c' : Bcache) × (write_head s ≡ ok (record s { cache = c' }))
      × Cleared s old w c'
      × Settled s.cache c'
clear-Cleared s old w d z h =
    let (f, free) = h.free in
    let (c', e, p) = write_head-HeadWritten s d h.cache (inr (f, free)) in
    (
      c',
      e,
      record {
        cache = p.cache;
        clear = record {
          empty =
              let old = contents s.cache s.start in
              let head =
                header_bytes-IsHeader s.n s.block old (omega (arith, z))
                  (λ i l. absurd (omega (arith, z))) in
              record {
                count =
                    ap (λ x. get_int (x s.start) 0) p.on_disk
                    ∙ ap (λ x. get_int x 0)
                        (update_self s.cache.disk s.start (header_bytes s.n s.block old))
                    ∙ head.count
                    ∙ z;
                entries = λ i l. absurd (omega arith);
              };
          homes = λ k g.
              ap (λ x. x k) p.on_disk
              ∙ update_ne s.cache.disk s.start k
                  (header_bytes s.n s.block (contents s.cache s.start)) (λ x. start-ne g (sym x))
              ∙ h.homes k g;
        };
        safe = subst (All (IsOneOf s.start old w)) (sym p.past) (inr h.now, h.safe);
      },
      p.settled,
    )

-- The header that read_head() has read from a recoverable disk.
read-Installing :
    (s : Log) (w : ℕ → Bytes) (c : Bcache) {d : ℕ → Bytes} (h : IsRecoverable s.start w d)
    → c.disk ≡ d
    → IsCache c
    → ((k : ℕ) → contents c k ≡ c.disk k)
    → s.n ≡ h.n
    → ((i : ℕ) → i < h.n → s.block i ≡ h.block i)
    → HasBuffers true s 0 c
    → All (IsOneOf s.start w w) c.past
    → Installing true s w w 0 c
read-Installing s w c {d} h same cache plain e f bufs safe = record {
  cache = cache;
  fits = omega (arith, h.fits);
  header = record {
    count = ap (λ x. get_int (x s.start) 0) same ∙ h.header.count ∙ sym e;
    entries = λ i l.
        ap (λ x. get_int (x s.start) (4 + 4 * i)) same
        ∙ h.header.entries i (omega arith)
        ∙ sym (f i (omega arith));
  };
  home = λ i l. subst (IsHome s.start) (sym (f i (omega arith))) (h.home i (omega arith));
  seen = λ i l. plain (s.start + i + 1) ∙ copy i (omega arith);
  copies = λ i l. copy i (omega arith);
  installed = λ i l. absurd (omega arith);
  homes = λ k g. elim (h.homes k g) [
    | inl q ↦ inl (ap (λ x. x k) same ∙ q)
    | inr (i, l, q) ↦ inr (i, omega arith, f i l ∙ q)
  ];
  buffers = bufs;
  safe = safe;
}
  where
    copy : (i : ℕ) → i < h.n → c.disk (s.start + i + 1) ≡ w (s.block i)
    copy i l = ap (λ x. x (s.start + i + 1)) same ∙ h.copies i l ∙ ap w (sym (f i l))

pub Installing-Installed :
    {keep : Bool} {s : Log} {old w : ℕ → Bytes} {c : Bcache}
    → Installing keep s old w s.n c
    → ((f : ℕ) × IsFree f c)
    → Installed s old w c
Installing-Installed {w = w} {c = c} h free = record {
  cache = h.cache;
  homes = λ k g. elim (h.homes k g) [
    | inl e ↦ e
    | inr (i, l, e) ↦ ap c.disk (sym e) ∙ h.installed i l ∙ ap w e
  ];
  free = free;
  safe = h.safe;
  now = Installing-IsRecoverable h;
}

-- What a recovery leaves: the blocks `w`, and an empty log. A second crash at any point of it
-- finds a disk that is still recoverable.
pub record Recovered (start : ℕ) (w : ℕ → Bytes) (s : Log) : Type 0 where
  pub same_start : s.start ≡ start
  pub same_dev : s.dev ≡ rootdev
  pub empty : s.n ≡ 0
  pub cache : IsCache s.cache
  pub clear : IsClear start w s.cache.disk
  pub safe : All (IsRecoverable start w) s.cache.past

-- The part of recover_from_log() after read_head().
finish :
    (s : Log) (w : ℕ → Bytes)
    → s.dev ≡ rootdev
    → Installing true s w w 0 s.cache
    → (c' : Bcache) × ((install_trans true s >>= λ s. write_head (record s { n = 0 }))
        ≡ ok (record s { n = 0; cache = c' }))
      × Cleared s w w c'
unfolding install_trans
finish s w d h =
    let (c, e, g) = rounds s.n true s w w 0 s.cache d (omega arith) h in
    let (f, f', free, free', n) = g.buffers in
    let i = Installing-Installed g (f, free) in
    let (c', e', p, q) =
      clear-Cleared (record s { n = 0; cache = c }) w w d refl
        (record { cache = i.cache; homes = i.homes; free = i.free; safe = i.safe; now = i.now }) in
    (c', rw (e, e') refl, record { cache = p.cache; clear = p.clear; safe = p.safe })

-- A cache that nobody uses yet, with the contents of the disk.
pub record IsFresh (c : Bcache) : Type 0 where
  pub cache : IsCache c
  pub plain : (k : ℕ) → contents c k ≡ c.disk k
  pub first : IsFree 0 c
  pub second : IsFree 1 c

recover-Recovered :
    (w : ℕ → Bytes) (s : Log)
    → s.dev ≡ rootdev
    → IsFresh s.cache
    → All (IsOneOf s.start w w) s.cache.past
    → IsRecoverable s.start w s.cache.disk
    → (t : Log) × (recover_from_log s ≡ ok t) × Recovered s.start w t
unfolding recover_from_log
recover-Recovered w s d fresh safe h =
    let (c, e, r) = read_head-Looked s d fresh.cache (inr (0, fresh.first)) in
    let (c', e', p) = finish (after c) w d (
      read-Installing (after c) w c h r.same_disk r.cache
        (λ k. r.same_contents k ∙ fresh.plain k ∙ ap (λ x. x k) (sym r.same_disk)) counted listed
        (
          0,
          1,
          Settled-IsFree r.settled fresh.first,
          Settled-IsFree r.settled fresh.second,
          (λ x. omega arith),
        )
        (subst (All (IsOneOf s.start w w)) (sym r.same_past) safe)) in
    (
      record (after c) { n = 0; cache = c' },
      rw e e',
      record {
        same_start = refl;
        same_dev = d;
        empty = refl;
        cache = p.cache;
        clear = p.clear;
        safe = All-mono either c'.past p.safe;
      },
    )
  where
    either : (d : ℕ → Bytes) → IsOneOf s.start w w d → IsRecoverable s.start w d
    either d (inl g) = g
    either d (inr g) = g

    head : Bytes
    head = contents s.cache s.start

    after : Bcache → Log
    after c = record s {
      n = count_of head;
      block = read_blocks (count_of head) 0 head s.block;
      cache = c;
    }

    counted : count_of head ≡ h.n
    counted = ap count_of (fresh.plain s.start) ∙ IsHeader-count_of h.fits h.header

    listed : (i : ℕ) → i < h.n → read_blocks (count_of head) 0 head s.block i ≡ h.block i
    listed i l =
        ap (λ x. read_blocks (count_of x) 0 x s.block i) (fresh.plain s.start)
        ∙ ap (λ n. read_blocks n 0 (s.cache.disk s.start) s.block i)
            (IsHeader-count_of h.fits h.header)
        ∙ IsHeader-read_blocks s.block h.header i l

-- From a disk whose log header says which home blocks the log blocks are copies of, initlog() on
-- the fresh cache succeeds, puts every block at home and clears the header; every disk that it
-- goes through is again such a disk for the same blocks, so that a second crash loses nothing.
pub initlog-Recovered :
    (start : ℕ) (w disk : ℕ → Bytes) (s : Log)
    → IsRecoverable start w disk
    → s.cache ≡ binit disk
    → (t : Log) × (initlog rootdev start s ≡ ok t) × Recovered start w t
unfolding initlog binit
initlog-Recovered start w disk s h e =
    recover-Recovered w (record s { start = start; dev = rootdev }) refl
      (subst IsFresh (sym e) fresh) (subst (λ c. All (IsOneOf start w w) c.past) (sym e) tt)
      (subst (λ c. IsRecoverable start w c.disk) (sym e) h)
  where
    fresh : IsFresh (binit disk)
    fresh = record {
      cache = binit-IsCache disk;
      plain = contents-binit disk;
      first = binit-IsFree disk 0 (omega arith);
      second = binit-IsFree disk 1 (omega arith);
    }

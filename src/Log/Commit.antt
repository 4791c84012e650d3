-- ===== src/Log/Commit.antt =====
-- commit() of kernel/log.c, and the disks that it goes through.
use operating_systems_2_assi.Prelude.{
  update_self, update_ne, same_or, ℕ, ◌+◌, ◌≤◌, ◌<◌, ◌≡◌, refl, sym, ◌∙◌, ap, ◌≢◌, subst, false,
  ◌⊎◌, inl, inr, lt→ltb, arith, Bytes, ok, All,
}
use operating_systems_2_assi.Bcache.{Bcache, rootdev}
use operating_systems_2_assi.Bcache.View.{IsCache, contents}
use operating_systems_2_assi.Bcache.Read.{IsFree}
use operating_systems_2_assi.Bcache.Pair.{IsPinned}
use operating_systems_2_assi.Log.{
  Log, logblocks, write_log, write_head, write_loop, install_loop, install_trans, commit,
  commit_blocks, header_bytes,
}
use operating_systems_2_assi.Log.Header.{IsHeader, header_bytes-IsHeader}
use operating_systems_2_assi.Log.Head.{
  HeadWritten, write_head-HeadWritten, Settled-IsFree, Settled-IsPinned,
}
use operating_systems_2_assi.Log.Install.{IsHome, start-ne, IsOneOf, Installing}
use operating_systems_2_assi.Log.Round.{rounds}
use operating_systems_2_assi.Log.Recovery.{
  IsClear, IsClear-IsRecoverable, Installing-Installed, clear-Cleared,
}
use operating_systems_2_assi.Log.WriteLog.{Writing, write_rounds}

-- A transaction that can be committed: the blocks of the header are different blocks outside the
-- log, their buffers are pinned and hold the new contents `w`, where `w` differs from the old
-- contents only there; the log on the disk is empty, and some buffer is free.
pub record IsReady (s : Log) (old w : ℕ → Bytes) : Type 0 where
  pub dev : s.dev ≡ rootdev
  pub fits : s.n ≤ logblocks
  pub small : (i : ℕ) → i < s.n → s.block i < 4294967296
  pub home : (i : ℕ) → i < s.n → IsHome s.start (s.block i)
  pub distinct : (i j : ℕ) → i < j → j < s.n → s.block i ≢ s.block j
  pub cache : IsCache s.cache
  pub pins : (i : ℕ) → i < s.n → (p : ℕ) × IsPinned p (s.block i) s.cache
  pub free : (f : ℕ) × IsFree f s.cache
  pub clear : IsClear s.start old s.cache.disk
  pub new : (i : ℕ) → i < s.n → contents s.cache (s.block i) ≡ w (s.block i)
  pub rest : (k : ℕ) → IsHome s.start k → (old k ≡ w k) ⊎ ((i : ℕ) × (i < s.n) × (s.block i ≡ k))

-- What commit() leaves, and what it went through.
pub record Committed (s : Log) (old w : ℕ → Bytes) (t : Log) : Type 0 where
  pub empty : t.n ≡ 0
  pub cache : IsCache t.cache
  pub clear : IsClear s.start w t.cache.disk
  pub safe : All (IsOneOf s.start old w) t.cache.past

ready-Writing :
    (s : Log) (old w : ℕ → Bytes)
    → IsReady s old w
    → All (IsOneOf s.start old w) s.cache.past
    → Writing s old w 0 s.cache
ready-Writing s old w h safe = record {
  cache = h.cache;
  fits = h.fits;
  clear = h.clear;
  home = h.home;
  new = h.new;
  written = λ i l. absurd (omega arith);
  seen = λ i l. absurd (omega arith);
  free = h.free;
  pins = h.pins;
  safe = safe;
}

-- The write of the header is the commit point.
head-Installing :
    (s : Log) (old w : ℕ → Bytes) (c c' : Bcache)
    → IsReady s old w
    → Writing s old w s.n c
    → HeadWritten (record s { cache = c }) c'
    → Installing false (record s { cache = c' }) old w 0 c'
head-Installing s old w c c' h g r = record {
  cache = r.cache;
  fits = h.fits;
  header =
      subst (IsHeader s.n s.block) (sym here)
        (header_bytes-IsHeader s.n s.block old_head h.fits h.small);
  home = h.home;
  seen = λ i l. r.same_contents (s.start + i + 1) (omega arith) ∙ g.seen i l;
  copies = λ i l. away (s.start + i + 1) (omega arith) ∙ g.written i l;
  installed = λ i l. absurd (omega arith);
  homes = λ k m. elim (h.rest k m) [
    | inl e ↦ inl (away k (λ x. start-ne m (sym x)) ∙ g.clear.homes k m ∙ e)
    | inr x ↦ inr x
  ];
  buffers = (
    (let (f, p) = g.free in (f, Settled-IsFree r.settled p)),
    (λ i a l. let (p, q) = g.pins i l in (p, Settled-IsPinned p (s.block i) r.settled q)),
    h.distinct,
  );
  safe =
      subst (All (IsOneOf s.start old w)) (sym r.past)
        (inl (IsClear-IsRecoverable g.clear), g.safe);
}
  where
    old_head : Bytes
    old_head = contents c s.start

    here : c'.disk s.start ≡ header_bytes s.n s.block old_head
    here =
        ap (λ d. d s.start) r.on_disk
        ∙ update_self c.disk s.start (header_bytes s.n s.block old_head)

    away : (k : ℕ) → k ≢ s.start → c'.disk k ≡ c.disk k
    away k n =
        ap (λ d. d k) r.on_disk ∙ update_ne c.disk s.start k (header_bytes s.n s.block old_head) n

-- The steps one after the other.
commit_steps :
    (s : Log) (c₁ c₂ c₃ c₄ : Bcache)
    → write_loop s s.n 0 s.cache ≡ ok c₁
    → write_head (record s { cache = c₁ }) ≡ ok (record s { cache = c₂ })
    → install_loop (record s { cache = c₂ }) false s.n 0 c₂ ≡ ok c₃
    → write_head (record s { n = 0; cache = c₃ }) ≡ ok (record s { n = 0; cache = c₄ })
    → commit_blocks s ≡ ok (record s { n = 0; cache = c₄ })
unfolding commit_blocks write_log install_trans
commit_steps s c₁ c₂ c₃ c₄ e₁ e₂ e₃ e₄ = rw (e₁, e₂, e₃) e₄

commit_blocks-Committed :
    (s : Log) (old w : ℕ → Bytes)
    → IsReady s old w
    → All (IsOneOf s.start old w) s.cache.past
    → (t : Log) × (commit_blocks s ≡ ok t) × Committed s old w t
commit_blocks-Committed s old w h safe =
    let (c₁, e₁, g₁) =
      write_rounds s.n s old w 0 s.cache h.dev (omega arith) (ready-Writing s old w h safe) in
    let (f, free) = g₁.free in
    let (c₂, e₂, g₂) =
      write_head-HeadWritten (record s { cache = c₁ }) h.dev g₁.cache (inr (f, free)) in
    let i₀ = head-Installing s old w c₁ c₂ h g₁ g₂ in
    let (c₃, e₃, g₃) =
      rounds s.n false (record s { cache = c₂ }) old w 0 c₂ h.dev (omega arith) i₀ in
    let (free₃, pins, distinct) = g₃.buffers in
    let i = Installing-Installed g₃ free₃ in
    let (c₄, e₄, g₄, settled) =
      clear-Cleared (record s { n = 0; cache = c₃ }) old w h.dev refl
        (record { cache = i.cache; homes = i.homes; free = i.free; safe = i.safe; now = i.now }) in
    (
      record s { n = 0; cache = c₄ },
      commit_steps s c₁ c₂ c₃ c₄ e₁ e₂ e₃ e₄,
      record { empty = refl; cache = g₄.cache; clear = g₄.clear; safe = g₄.safe },
    )

-- An empty transaction changes nothing.
empty-Committed :
    (s : Log) (old w : ℕ → Bytes)
    → s.n ≡ 0
    → IsReady s old w
    → All (IsOneOf s.start old w) s.cache.past
    → Committed s old w s
empty-Committed s old w z h safe = record {
  empty = z;
  cache = h.cache;
  clear = record {
    empty = h.clear.empty;
    homes = λ k g. elim (h.rest k g) [
      | inl e ↦ h.clear.homes k g ∙ e
      | inr (i, l, e) ↦ absurd (omega arith)
    ];
  };
  safe = safe;
}

-- commit() succeeds.
pub commit-Committed :
    (s : Log) (old w : ℕ → Bytes)
    → IsReady s old w
    → All (IsOneOf s.start old w) s.cache.past
    → (t : Log) × (commit s ≡ ok t) × Committed s old w t
unfolding commit
commit-Committed s old w h safe = elim (same_or s.n 0) [
  | inl z ↦ (s, ground arith, empty-Committed s old w z h safe)
  | inr n ↦
      let (t, e, g) = commit_blocks-Committed s old w h safe in
      (t, rw (lt→ltb 0 s.n (omega arith)) e, g)
]

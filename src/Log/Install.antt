-- ===== src/Log/Install.antt =====
-- install_trans() of kernel/log.c, after a commit and at a recovery, and the disks from which a
-- recovery can start.
use operating_systems_2_assi.Prelude.{
  same_or, ℕ, ◌+◌, ◌≤◌, ◌<◌, ◌≡◌, refl, sym, ◌∙◌, ap, ◌≢◌, subst, Bool, true, false, ◌⊎◌, inl, inr,
  arith, Bytes, ok, All,
}
use operating_systems_2_assi.Bcache.{Bcache, rootdev, bread}
use operating_systems_2_assi.Bcache.View.{IsCache, contents}
use operating_systems_2_assi.Bcache.Read.{BlockRead, IsFree, bread-BlockRead}
use operating_systems_2_assi.Bcache.Pair.{IsPinned, BlockRead-IsPinned, TwoRead, two_reads}
use operating_systems_2_assi.Log.{Log, logblocks}
use operating_systems_2_assi.Log.Header.{IsHeader}

-- A block outside the log.
abbrev pub IsHome : ℕ → ℕ → Type 0
IsHome start k = (k < start) ⊎ (start + logblocks < k)

pub start-ne : {start k : ℕ} → IsHome start k → start ≢ k
start-ne h = ground (arith, h)

pub log-ne : {start k i : ℕ} → IsHome start k → i < logblocks → start + i + 1 ≢ k
log-ne h l = ground (arith, h)

-- A disk from which a recovery makes the blocks `w`.
pub record IsRecoverable (start : ℕ) (w d : ℕ → Bytes) : Type 0 where
  pub n : ℕ
  pub block : ℕ → ℕ
  pub fits : n ≤ logblocks
  pub header : IsHeader n block (d start)
  pub home : (i : ℕ) → i < n → IsHome start (block i)
  pub copies : (i : ℕ) → i < n → d (start + i + 1) ≡ w (block i)
  pub homes : (k : ℕ) → IsHome start k → (d k ≡ w k) ⊎ ((i : ℕ) × (i < n) × (block i ≡ k))

-- A disk from which a recovery makes the blocks before a transaction or those after it.
abbrev pub IsOneOf : ℕ → (ℕ → Bytes) → (ℕ → Bytes) → (ℕ → Bytes) → Type 0
IsOneOf start old new d = IsRecoverable start old d ⊎ IsRecoverable start new d

-- The buffers that the rounds from `tail` on need: two that are free, or one and those of the
-- blocks of the transaction.
abbrev pub HasBuffers : Bool → Log → ℕ → Bcache → Type 0
HasBuffers true s tail c = (f g : ℕ) × IsFree f c × IsFree g c × (f ≢ g)
HasBuffers false s tail c =
    ((f : ℕ) × IsFree f c)
    × ((i : ℕ) → tail ≤ i → i < s.n → (p : ℕ) × IsPinned p (s.block i) c)
    × ((i j : ℕ) → i < j → j < s.n → s.block i ≢ s.block j)

-- The state before round `tail`.
pub record Installing (keep : Bool) (s : Log) (old w : ℕ → Bytes) (tail : ℕ) (c : Bcache)
    : Type 0 where
  pub cache : IsCache c
  pub fits : s.n ≤ logblocks
  pub header : IsHeader s.n s.block (c.disk s.start)
  pub home : (i : ℕ) → i < s.n → IsHome s.start (s.block i)
  pub seen : (i : ℕ) → i < s.n → contents c (s.start + i + 1) ≡ w (s.block i)
  pub copies : (i : ℕ) → i < s.n → c.disk (s.start + i + 1) ≡ w (s.block i)
  pub installed : (i : ℕ) → i < tail → c.disk (s.block i) ≡ w (s.block i)
  pub homes :
      (k : ℕ) → IsHome s.start k → (c.disk k ≡ w k) ⊎ ((i : ℕ) × (i < s.n) × (s.block i ≡ k))
  pub buffers : HasBuffers keep s tail c
  pub safe : All (IsOneOf s.start old w) c.past

pub Installing-IsRecoverable :
    {keep : Bool} {s : Log} {old w : ℕ → Bytes} {tail : ℕ} {c : Bcache}
    → Installing keep s old w tail c
    → IsRecoverable s.start w c.disk
Installing-IsRecoverable {s = s} h = record {
  n = s.n;
  block = s.block;
  fits = h.fits;
  header = h.header;
  home = h.home;
  copies = h.copies;
  homes = h.homes;
}

-- The reads of a round, and whether the home block was pinned.
pub record Reads (keep : Bool) (k m : ℕ) (c : Bcache) : Type 0 where
  pub a : ℕ
  pub b : ℕ
  pub c₁ : Bcache
  pub c₂ : Bcache
  pub read_first : bread rootdev k c ≡ ok (a, c₁)
  pub read_second : bread rootdev m c₁ ≡ ok (b, c₂)
  pub both : TwoRead a b k m c c₂
  pub pin : (keep ≡ true) ⊎ IsPinned b m c

IsFree-left :
    {l k f g : ℕ} {c c₁ : Bcache}
    → BlockRead l k c c₁
    → IsFree f c
    → IsFree g c
    → f ≢ g
    → (h : ℕ) × IsFree h c₁
IsFree-left {l} {k} {f} {g} r p q n = elim (same_or f l) [
  | inl e ↦ (
    g,
    record {
      below = q.below;
      unused = ap (λ x. x.refcnt) (r.others g (λ d. n (e ∙ sym d))) ∙ q.unused;
    },
  )
  | inr m ↦ (f, record { below = p.below; unused = ap (λ x. x.refcnt) (r.others f m) ∙ p.unused })
]

-- Two free buffers are enough for two reads.
pub Reads-free :
    (k m f g : ℕ) (c : Bcache)
    → IsCache c
    → k ≢ m
    → IsFree f c
    → IsFree g c
    → f ≢ g
    → Reads true k m c
Reads-free k m f g c w ne p q n =
    let (a, c₁, e, r) = bread-BlockRead k c w (inr (f, p)) in
    let (b, c₂, e', r') = bread-BlockRead m c₁ r.cache (inr (IsFree-left r p q n)) in
    record {
      a = a;
      b = b;
      c₁ = c₁;
      c₂ = c₂;
      read_first = e;
      read_second = e';
      both = two_reads ne r r';
      pin = inl refl;
    }

-- One free buffer is enough if the second block is pinned.
pub Reads-pinned :
    (k m f p : ℕ) (c : Bcache) → IsCache c → k ≢ m → IsFree f c → IsPinned p m c → Reads false k m c
Reads-pinned k m f p c w ne free pinned =
    let (a, c₁, e, r) = bread-BlockRead k c w (inr (f, free)) in
    let p₁ = BlockRead-IsPinned r p m pinned in
    let (b, c₂, e', r') = bread-BlockRead m c₁ r.cache (inl (p, p₁.holds)) in
    let p₂ = BlockRead-IsPinned r' p m p₁ in
    record {
      a = a;
      b = b;
      c₁ = c₁;
      c₂ = c₂;
      read_first = e;
      read_second = e';
      both = two_reads ne r r';
      pin = inr (subst (λ x. IsPinned x m c) (r'.cache.unique p b m p₂.holds r'.holds) pinned);
    }

pub pin-used :
    {keep : Bool} {b m : ℕ} {c : Bcache}
    → (keep ≡ true) ⊎ IsPinned b m c
    → (keep ≡ true) ⊎ ((c.bufs b).refcnt ≢ 0)
pin-used (inl e) = inl e
pin-used (inr p) = inr p.used

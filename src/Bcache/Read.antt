-- ===== src/Bcache/Read.antt =====
-- bread() of kernel/bio.c: the search of bget(), with its two ways to a buffer, and the read from
-- the disk.
use operating_systems_2_assi.Prelude.{
  update_ne, update_twice, ℕ, ◌+◌, ◌<◌, ◌≡◌, refl, sym, ◌∙◌, ap, ◌≢◌, true, false, Bool, ◌⊎◌, inl,
  inr, List, [], ◌∷◌, none, some, Bool-cases, Option-cases, arith, Bytes, update, ==-self, ok,
}
use operating_systems_2_assi.Bcache.{
  Buf, Bcache, nbuf, rootdev, set_buf, is_block, has_no_refs, find_next, find_prev, bread, bget,
  bget_from, bget_new, fetch, share, recycle, disk_read,
}
use operating_systems_2_assi.Bcache.View.{
  has, IsCache, Holds, IsFor, Holds-test, Holds-cases, test-Holds, contents, contents-hit,
  contents-miss,
}
use operating_systems_2_assi.Bcache.Change.{Holds-set_self, set_buf-IsCache, contents-set}

pub find_next-hit :
    (test : ℕ → Bool) (xs : List ℕ) (b : ℕ)
    → find_next test xs ≡ some b
    → (has xs b ≡ true) × (test b ≡ true)
unfolding find_next
find_next-hit test [] b e = absurd (cc)
find_next-hit test (x ∷ xs) b e = elim (Bool-cases (test x)) [
  | inl t ↦ ground arith
  | inr t ↦ let (h, t') = find_next-hit test xs b (ground arith) in ground arith
]

pub find_next-some :
    (test : ℕ → Bool) (xs : List ℕ) (b : ℕ)
    → has xs b ≡ true
    → test b ≡ true
    → (k : ℕ) × (find_next test xs ≡ some k)
unfolding find_next
find_next-some test [] b h t = absurd (cc)
find_next-some test (x ∷ xs) b h t = elim (Bool-cases (test x)) [
  | inl u ↦ (x, rw u refl)
  | inr u ↦ let (k, e) = find_next-some test xs b (ground arith) t in (k, rw u e)
]

pub find_prev-hit :
    (test : ℕ → Bool) (xs : List ℕ) (b : ℕ)
    → find_prev test xs ≡ some b
    → (has xs b ≡ true) × (test b ≡ true)
unfolding find_prev
find_prev-hit test [] b e = absurd (cc)
find_prev-hit test (x ∷ xs) b e = elim (Option-cases (find_prev test xs)) [
  | inl n ↦ ground arith
  | inr (k, s) ↦ let (h, t) = find_prev-hit test xs k s in ground arith
]

pub find_prev-some :
    (test : ℕ → Bool) (xs : List ℕ) (b : ℕ)
    → has xs b ≡ true
    → test b ≡ true
    → (k : ℕ) × (find_prev test xs ≡ some k)
unfolding find_prev
find_prev-some test [] b h t = absurd (cc)
find_prev-some test (x ∷ xs) b h t = elim (Option-cases (find_prev test xs)) [
  | inl n ↦ elim (Bool-cases (test x)) [
    | inl u ↦ (x, rw (n, u) refl)
    | inr u ↦ absurd (let (k, e) = find_prev-some test xs b (ground arith) t in cc)
  ]
  | inr (k, s) ↦ (k, rw s refl)
]

-- What a buffer of a block that was in none holds.
abbrev pub loaded : ℕ → Bytes → Buf
loaded k bytes = record {
  valid = true;
  dev = rootdev;
  blockno = k;
  refcnt = 1;
  bytes = bytes;
  locked = true;
}

fetch-recycle :
    (k b : ℕ) (c : Bcache) → fetch b (recycle rootdev k b c) ≡ set_buf b (loaded k (c.disk k)) c
unfolding fetch recycle disk_read
fetch-recycle k b c = rw (==-self b) (
    ap (λ f. record c { bufs = f })
      (update_twice (update c.bufs b first) b second (loaded k (c.disk k))
        ∙ update_twice c.bufs b first (loaded k (c.disk k))))
  where
    first : Buf
    first = record {
      valid = false;
      dev = rootdev;
      blockno = k;
      refcnt = 1;
      bytes = (c.bufs b).bytes;
      locked = true;
    }

    second : Buf
    second = record first { bytes = c.disk k }

-- The buffer of a block that is cached, with one user more.
abbrev pub shared : ℕ → Bcache → Buf
shared b c = record (c.bufs b) { refcnt = (c.bufs b).refcnt + 1; locked = true }

fetch-share :
    (k b : ℕ) (c : Bcache)
    → IsCache c
    → Holds b k c
    → fetch b (share b c) ≡ set_buf b (shared b c) c
unfolding fetch share
fetch-share k b c w h = rw (==-self b, (w.sound b h.below).valid h.entry.same_dev) refl

-- What bread() leaves: buffer `b` is locked and has the contents of block `k`.
pub record BlockRead (b k : ℕ) (c c' : Bcache) : Type 0 where
  pub cache : IsCache c'
  pub holds : Holds b k c'
  pub locked : (c'.bufs b).locked ≡ true
  pub bytes : (c'.bufs b).bytes ≡ contents c k
  pub same_contents : (j : ℕ) → contents c' j ≡ contents c j
  pub same_disk : c'.disk ≡ c.disk
  pub same_past : c'.past ≡ c.past
  pub one_more : (c'.bufs b).refcnt ≡ (c.bufs b).refcnt + 1
  pub others : (i : ℕ) → i ≢ b → c'.bufs i ≡ c.bufs i
  pub fresh : (c.bufs b).refcnt ≡ 0 → contents c k ≡ c.disk k
  pub kept : (c.bufs b).refcnt ≢ 0 → (j : ℕ) → Holds b j c → Holds b j c'

shared-BlockRead :
    (b k : ℕ) (c : Bcache) → IsCache c → Holds b k c → BlockRead b k c (set_buf b (shared b c) c)
shared-BlockRead b k c w h = record {
  cache = after;
  holds = Holds-set_self b (shared b c) c k h.below mine;
  locked = rw (==-self b) refl;
  bytes = rw (==-self b) (sym (contents-hit w h));
  same_contents = λ j.
      contents-set b (shared b c) c j w after h.below (λ f. sym (contents-hit w (was f)))
        (λ g n.
          absurd (n (record { same_dev = g.entry.same_dev; same_block = g.entry.same_block })));
  same_disk = refl;
  same_past = refl;
  one_more = rw (==-self b) refl;
  others = λ i n. update_ne c.bufs b i (shared b c) n;
  fresh = λ z.
      contents-hit w h
      ∙ (w.sound b h.below).clean h.entry.same_dev z
      ∙ ap c.disk h.entry.same_block;
  kept = λ n j g.
      Holds-set_self b (shared b c) c j h.below
        (record { same_dev = g.entry.same_dev; same_block = g.entry.same_block });
}
  where
    mine : IsFor k (shared b c)
    mine = record { same_dev = h.entry.same_dev; same_block = h.entry.same_block }

    was : {j : ℕ} → IsFor j (shared b c) → Holds b j c
    was f = record {
      below = h.below;
      entry = record { same_dev = f.same_dev; same_block = f.same_block };
    }

    after : IsCache (set_buf b (shared b c) c)
    after = set_buf-IsCache b (shared b c) c w (record {
      below = h.below;
      sound = record { valid = (w.sound b h.below).valid; clean = λ d z. absurd (omega arith) };
      alone = λ j f i g. w.unique i b j g (was f);
    })

loaded-BlockRead :
    (b k : ℕ) (c : Bcache)
    → IsCache c
    → b < nbuf
    → (c.bufs b).refcnt ≡ 0
    → ((i : ℕ) → i < nbuf → is_block rootdev k c i ≡ false)
    → BlockRead b k c (set_buf b (loaded k (c.disk k)) c)
loaded-BlockRead b k c w l z empty = record {
  cache = after;
  holds = Holds-set_self b (loaded k (c.disk k)) c k l mine;
  locked = rw (==-self b) refl;
  bytes = rw (==-self b) (sym (contents-miss c k empty));
  same_contents = λ j.
      contents-set b (loaded k (c.disk k)) c j w after l
        (λ f.
          ap c.disk f.same_block ∙ sym (contents-miss c j (λ i m. rw (← f.same_block) (empty i m))))
        (λ g n.
          contents-hit w g ∙ (w.sound b l).clean g.entry.same_dev z ∙ ap c.disk g.entry.same_block);
  same_disk = refl;
  same_past = refl;
  one_more = rw (==-self b, z) refl;
  others = λ i n. update_ne c.bufs b i (loaded k (c.disk k)) n;
  fresh = λ e. contents-miss c k empty;
  kept = λ n. absurd (n z);
}
  where
    mine : IsFor k (loaded k (c.disk k))
    mine = record { same_dev = refl; same_block = refl }

    after : IsCache (set_buf b (loaded k (c.disk k)) c)
    after = set_buf-IsCache b (loaded k (c.disk k)) c w (record {
      below = l;
      sound = record { valid = λ d. refl; clean = λ d n. absurd (omega arith) };
      alone = λ j f i g.
          absurd (let t = Holds-test g in let n = empty i g.below in ground (arith, f.same_block));
    })

-- A buffer that nobody uses.
pub record IsFree (b : ℕ) (c : Bcache) : Type 0 where
  pub below : b < nbuf
  pub unused : (c.bufs b).refcnt ≡ 0

-- A block that is cached, or for which there is a buffer.
abbrev pub IsReadable : ℕ → Bcache → Type 0
IsReadable k c = ((b : ℕ) × Holds b k c) ⊎ ((b : ℕ) × IsFree b c)

-- Where the block is in no buffer.
bread-loaded :
    (k b : ℕ) (c : Bcache)
    → IsCache c
    → IsFree b c
    → ((i : ℕ) → i < nbuf → is_block rootdev k c i ≡ false)
    → (b' : ℕ) × (c' : Bcache) × (bread rootdev k c ≡ ok (b', c')) × BlockRead b' k c c'
unfolding bread bget bget_from bget_new
bread-loaded k b c w f empty =
    let (b', e) =
      find_prev-some (has_no_refs c) c.order b (w.all_linked b f.below) (rw (f.unused) refl) in
    let (h, t) = find_prev-hit (has_no_refs c) c.order b' e in
    (
      b',
      set_buf b' (loaded k (c.disk k)) c,
      rw (none_next, e) (ap (λ x. ok (b', x)) (fetch-recycle k b' c)),
      loaded-BlockRead b' k c w (w.linked_below b' h) (ground arith) empty,
    )
  where
    none_next : find_next (is_block rootdev k c) c.order ≡ none
    none_next = elim (Option-cases (find_next (is_block rootdev k c) c.order)) [
      | inl n ↦ n
      | inr (i, e) ↦ absurd (
          let (h, t) = find_next-hit (is_block rootdev k c) c.order i e in
          let g = empty i (w.linked_below i h) in cc)
    ]

-- Reading a block that is cached, or with a free buffer, succeeds: the result is a locked buffer
-- with the contents of the block.
pub bread-BlockRead :
    (k : ℕ) (c : Bcache)
    → IsCache c
    → IsReadable k c
    → (b : ℕ) × (c' : Bcache) × (bread rootdev k c ≡ ok (b, c')) × BlockRead b k c c'
unfolding bread bget bget_from
bread-BlockRead k c w r = elim (Holds-cases k c) [
  | inl (b, h) ↦
      let (b', e) =
        find_next-some (is_block rootdev k c) c.order b (w.all_linked b h.below) (Holds-test h) in
      let (l, t) = find_next-hit (is_block rootdev k c) c.order b' e in
      let g = test-Holds b' k c (w.linked_below b' l) t in
      (
        b',
        set_buf b' (shared b' c) c,
        rw e (ap (λ x. ok (b', x)) (fetch-share k b' c w g)),
        shared-BlockRead b' k c w g,
      )
  | inr empty ↦ elim r [
    | inl (b, h) ↦ absurd (let t = Holds-test h in let g = empty b h.below in cc)
    | inr (b, f) ↦ bread-loaded k b c w f empty
  ]
]

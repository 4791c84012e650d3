-- ===== src/Bcache/Copy.antt =====
-- The copy of one block to another through the cache, with the write to the disk and the release
-- of both buffers, as install_trans() and write_log() of kernel/log.c do it.
use operating_systems_2_assi.Prelude.{
  update_self, update_ne, same_or, ℕ, ◌+◌, ◌-◌, ◌≡◌, sym, ◌∙◌, ap, ◌≢◌, true, ◌⊎◌, inl, inr, ◌∷◌,
  if◌then◌else◌, Bool, arith, update, ok, ◌>>=◌,
}
use operating_systems_2_assi.Bcache.{Bcache, bwrite, brelse, bunpin, set_bytes}
use operating_systems_2_assi.Bcache.View.{IsCache, Holds, contents}
use operating_systems_2_assi.Bcache.Pair.{TwoRead, IsPinned}
use operating_systems_2_assi.Bcache.Store.{
  IsHeld, Released, release_both, Stored, store-Stored, Unpinned, unpin-Unpinned,
}

-- Block `m` is a copy of block `k`, in the cache and on the disk. Buffer `b` has lost its pin,
-- unless `keep`.
pub record Copied (b k m : ℕ) (keep : Bool) (c c' : Bcache) : Type 0 where
  pub cache : IsCache c'
  pub on_disk : c'.disk ≡ update c.disk m (contents c k)
  pub past : c'.past ≡ c.disk ∷ c.past
  pub of_block : contents c' m ≡ contents c k
  pub of_others : (j : ℕ) → j ≢ m → contents c' j ≡ contents c j
  pub refcnt : (c'.bufs b).refcnt ≡ (if keep then (c.bufs b).refcnt else (c.bufs b).refcnt - 1)
  pub others : (i : ℕ) → i ≢ b → (c'.bufs i).refcnt ≡ (c.bufs i).refcnt
  pub entries : (i j : ℕ) → IsPinned i j c → Holds i j c'

module _ {a b k m : ℕ} {c c₁ c₂ : Bcache} (ne : k ≢ m) (t : TwoRead a b k m c c₁)
    (s : Stored b m (c₁.bufs a).bytes c₁ c₂) where
  stored_used : (c₂.bufs b).refcnt ≡ (c.bufs b).refcnt + 1
  stored_used = s.same_refcnt ∙ t.second_more

  stored_clean : (c₂.bufs b).bytes ≡ c₂.disk m
  stored_clean = s.bytes ∙ sym (ap (λ d. d m) s.on_disk ∙ update_self c₁.disk m (c₁.bufs a).bytes)

  module _ {keep : Bool} {c₃ : Bcache} (u : Unpinned b keep c₂ c₃) where
    source-bufs : c₃.bufs a ≡ c₁.bufs a
    source-bufs = u.others a t.distinct ∙ s.others a t.distinct

    source-IsHeld : IsHeld a k c₃
    source-IsHeld = record {
      holds = u.entries a k (s.entries a k t.first);
      locked = ap (λ x. x.locked) source-bufs ∙ t.first_locked;
      used = let e = ap (λ x. x.refcnt) source-bufs ∙ t.first_more in λ z. omega arith;
      clean = λ z.
          ap (λ x. x.bytes) source-bufs
          ∙ t.first_bytes
          ∙ t.first_fresh (let e = ap (λ x. x.refcnt) source-bufs ∙ t.first_more in omega arith)
          ∙ sym (
              ap (λ d. d k) (u.same_disk ∙ s.on_disk)
              ∙ update_ne c₁.disk m k (c₁.bufs a).bytes ne
              ∙ ap (λ d. d k) t.same_disk);
    }

    target-IsHeld : (keep ≡ true) ⊎ ((c.bufs b).refcnt ≢ 0) → IsHeld b m c₃
    target-IsHeld pin = record {
      holds = u.entries b m (s.entries b m t.second);
      locked = u.same_locked ∙ s.same_locked ∙ t.second_locked;
      used = let e = stored_used in let f = u.refcnt in λ z. ground (arith, pin);
      clean = λ z. u.same_bytes ∙ stored_clean ∙ ap (λ d. d m) (sym u.same_disk);
    }

    copied :
        {c₄ c' : Bcache}
        → Released a c₃ c₄
        → Released b c₄ c'
        → (keep ≡ true) ⊎ ((c.bufs b).refcnt ≢ 0)
        → Copied b k m keep c c'
    copied {c₄} {c'} r q pin = record {
      cache = q.cache;
      on_disk =
          q.same_disk
          ∙ r.same_disk
          ∙ u.same_disk
          ∙ s.on_disk
          ∙ ap (λ d. update d m (c₁.bufs a).bytes) t.same_disk
          ∙ ap (update c.disk m) t.first_bytes;
      past =
          q.same_past
          ∙ r.same_past
          ∙ u.same_past
          ∙ s.past
          ∙ ap (λ d. d ∷ c₁.past) t.same_disk
          ∙ ap (λ p. c.disk ∷ p) t.same_past;
      of_block =
          q.same_contents m ∙ r.same_contents m ∙ u.same_contents m ∙ s.of_block ∙ t.first_bytes;
      of_others = λ j n.
          q.same_contents j
          ∙ r.same_contents j
          ∙ u.same_contents j
          ∙ s.of_others j n
          ∙ t.same_contents j;
      refcnt =
          let e = stored_used in
          let f = u.refcnt in
          let g = ap (λ x. x.refcnt) (r.others b (λ x. t.distinct (sym x))) in
          let h = q.fewer in ground (arith, pin);
      others = λ i n. elim (same_or i a) [
        | inl e ↦
            ap (λ x. (c'.bufs x).refcnt) e
            ∙ (let f = ap (λ x. x.refcnt) source-bufs ∙ t.first_more in
                let g = ap (λ x. x.refcnt) (q.others a t.distinct) in
                let h = r.fewer in omega arith)
            ∙ ap (λ x. (c.bufs x).refcnt) (sym e)
        | inr n' ↦
            ap (λ x. x.refcnt)
              (q.others i n ∙ r.others i n' ∙ u.others i n ∙ s.others i n ∙ t.others i n' n)
      ];
      entries = λ i j p.
          q.entries i j (r.entries i j (u.entries i j (s.entries i j (t.pins i j p).holds)));
    }

pub copy-Copied :
    {a b k m : ℕ} {c c₁ : Bcache} (keep : Bool)
    → k ≢ m
    → TwoRead a b k m c c₁
    → (keep ≡ true) ⊎ ((c.bufs b).refcnt ≢ 0)
    → (c' : Bcache) × ((bwrite b (set_bytes b (c₁.bufs a).bytes c₁) >>= λ x.
          brelse a (if keep then x else bunpin b x) >>= λ x. brelse b x)
        ≡ ok c')
      × Copied b k m keep c c'
copy-Copied {a} {b} {k} {m} {c} {c₁} keep ne t pin =
    let (c₂, e, s) =
      store-Stored b m (c₁.bufs a).bytes c₁ t.cache t.second t.second_locked
        (let q = t.second_more in λ z. omega arith) in
    let u =
      unpin-Unpinned b m keep c₂ s.cache (s.entries b m t.second)
        (let q = stored_used ne t s in λ z. omega arith) (stored_clean ne t s) in
    let (c₄, c', d, r, q) =
      release_both a b k m (if keep then c₂ else bunpin b c₂) u.cache t.distinct
        (source-IsHeld ne t s u) (target-IsHeld ne t s u pin) in
    (
      c',
      ap (λ x. x >>= λ c. brelse a (if keep then c else bunpin b c) >>= λ c. brelse b c) e ∙ d,
      copied ne t s u r q pin,
    )

-- ===== src/Bcache/Store.antt =====
-- The releases of buffers of kernel/bio.c, and a change of the bytes of a locked buffer that is
-- written to the disk.
use operating_systems_2_assi.Prelude.{
  ℕ, ◌-◌, ◌≡◌, refl, sym, ◌∙◌, ap, ◌≢◌, subst, true, false, ◌∷◌, if◌then◌else◌, Bool, Bytes, update,
  ok, ◌>>=◌,
}
use operating_systems_2_assi.Bcache.{Bcache, bwrite, brelse, bunpin, set_bytes}
use operating_systems_2_assi.Bcache.View.{IsCache, Holds, IsFor, contents}
use operating_systems_2_assi.Bcache.Release.{
  set_bytes-Changed, bunpin-Changed, brelse-Changed, bwrite-Written, Changed-self, Changed-other,
  Changed-Holds, Changed-contents,
}

-- Buffer `a`, held for block `k`, is locked and in use.
pub record IsHeld (a k : ℕ) (c : Bcache) : Type 0 where
  pub holds : Holds a k c
  pub locked : (c.bufs a).locked ≡ true
  pub used : (c.bufs a).refcnt ≢ 0
  pub clean : (c.bufs a).refcnt ≡ 1 → (c.bufs a).bytes ≡ c.disk k

-- What the release of buffer `a` leaves.
pub record Released (a : ℕ) (c c' : Bcache) : Type 0 where
  pub cache : IsCache c'
  pub same_disk : c'.disk ≡ c.disk
  pub same_past : c'.past ≡ c.past
  pub same_contents : (j : ℕ) → contents c' j ≡ contents c j
  pub fewer : (c'.bufs a).refcnt ≡ (c.bufs a).refcnt - 1
  pub others : (i : ℕ) → i ≢ a → c'.bufs i ≡ c.bufs i
  pub entries : (i j : ℕ) → Holds i j c → Holds i j c'

pub brelse-Released :
    (a k : ℕ) (c : Bcache)
    → IsCache c
    → IsHeld a k c
    → (c' : Bcache) × (brelse a c ≡ ok c') × Released a c c'
brelse-Released a k c w h =
    let (c', e, g) = brelse-Changed a k c w h.holds h.locked h.used h.clean in
    (
      c',
      e,
      record {
        cache = g.cache;
        same_disk = g.same_disk;
        same_past = g.same_past;
        same_contents = Changed-contents g w h.holds refl;
        fewer = ap (λ x. x.refcnt) (Changed-self g);
        others = Changed-other g;
        entries = Changed-Holds g refl refl;
      },
    )

-- The release of a buffer leaves another one held.
Released-IsHeld :
    {a b k : ℕ} {c c' : Bcache} → b ≢ a → Released a c c' → IsHeld b k c → IsHeld b k c'
Released-IsHeld {a} {b} {k} n r h =
    let e = r.others b n in
    record {
      holds = r.entries b k h.holds;
      locked = ap (λ x. x.locked) e ∙ h.locked;
      used = λ z. h.used (ap (λ x. x.refcnt) (sym e) ∙ z);
      clean = λ z.
          ap (λ x. x.bytes) e
          ∙ h.clean (ap (λ x. x.refcnt) (sym e) ∙ z)
          ∙ ap (λ d. d k) (sym r.same_disk);
    }

-- Both releases.
pub release_both :
    (a b k m : ℕ) (c : Bcache)
    → IsCache c
    → a ≢ b
    → IsHeld a k c
    → IsHeld b m c
    → (c₁ c₂ : Bcache) × ((brelse a c >>= brelse b) ≡ ok c₂) × Released a c c₁ × Released b c₁ c₂
release_both a b k m c w n h g =
    let (c₁, e, r) = brelse-Released a k c w h in
    let (c₂, d, q) = brelse-Released b m c₁ r.cache (Released-IsHeld (λ x. n (sym x)) r g) in
    (c₁, c₂, rw (e, d) refl, r, q)

-- Buffer `b` for block `m` has the bytes `v` and they are on the disk; all else is as in `c`.
pub record Stored (b m : ℕ) (v : Bytes) (c c' : Bcache) : Type 0 where
  pub cache : IsCache c'
  pub bytes : (c'.bufs b).bytes ≡ v
  pub same_locked : (c'.bufs b).locked ≡ (c.bufs b).locked
  pub same_refcnt : (c'.bufs b).refcnt ≡ (c.bufs b).refcnt
  pub on_disk : c'.disk ≡ update c.disk m v
  pub past : c'.past ≡ c.disk ∷ c.past
  pub of_block : contents c' m ≡ v
  pub of_others : (j : ℕ) → j ≢ m → contents c' j ≡ contents c j
  pub others : (i : ℕ) → i ≢ b → c'.bufs i ≡ c.bufs i
  pub entries : (i j : ℕ) → Holds i j c → Holds i j c'

-- The bytes of a locked buffer, changed and written.
pub store-Stored :
    (b m : ℕ) (v : Bytes) (c : Bcache)
    → IsCache c
    → Holds b m c
    → (c.bufs b).locked ≡ true
    → (c.bufs b).refcnt ≢ 0
    → (c' : Bcache) × (bwrite b (set_bytes b v c) ≡ ok c') × Stored b m v c c'
store-Stored b m v c w h l n =
    let c₁ = set_bytes b v c in
    let g = set_bytes-Changed b m v c w h n in
    let self = Changed-self g in
    let h₁ = Changed-Holds g refl refl b m h in
    let (c', e, r) = bwrite-Written b m c₁ g.cache h₁ (ap (λ x. x.locked) self ∙ l) in
    let bufs = λ (i : ℕ). ap (λ f. f i) r.same_bufs in
    (
      c',
      e,
      record {
        cache = r.cache;
        bytes = ap (λ x. x.bytes) (bufs b ∙ self);
        same_locked = ap (λ x. x.locked) (bufs b ∙ self);
        same_refcnt = ap (λ x. x.refcnt) (bufs b ∙ self);
        on_disk =
            r.on_disk
            ∙ ap (λ x. update c₁.disk m x.bytes) self
            ∙ ap (λ d. update d m v) g.same_disk;
        past = r.past ∙ ap (λ d. d ∷ c₁.past) g.same_disk ∙ ap (λ p. c.disk ∷ p) g.same_past;
        of_block = r.same_contents m ∙ g.of_block;
        of_others = λ j q. r.same_contents j ∙ g.of_others j q;
        others = λ i q. bufs i ∙ Changed-other g i q;
        entries = λ i j p.
            let t = Changed-Holds g refl refl i j p in
            record {
              below = t.below;
              entry = subst (λ f. IsFor j (f i)) (sym r.same_bufs) t.entry;
            };
      },
    )

-- The same after a bunpin() of the buffer, if there is one.
pub record Unpinned (b : ℕ) (keep : Bool) (c c' : Bcache) : Type 0 where
  pub cache : IsCache c'
  pub same_disk : c'.disk ≡ c.disk
  pub same_past : c'.past ≡ c.past
  pub same_contents : (j : ℕ) → contents c' j ≡ contents c j
  pub refcnt : (c'.bufs b).refcnt ≡ (if keep then (c.bufs b).refcnt else (c.bufs b).refcnt - 1)
  pub same_locked : (c'.bufs b).locked ≡ (c.bufs b).locked
  pub same_bytes : (c'.bufs b).bytes ≡ (c.bufs b).bytes
  pub others : (i : ℕ) → i ≢ b → c'.bufs i ≡ c.bufs i
  pub entries : (i j : ℕ) → Holds i j c → Holds i j c'

pub unpin-Unpinned :
    (b m : ℕ) (keep : Bool) (c : Bcache)
    → IsCache c
    → Holds b m c
    → (c.bufs b).refcnt ≢ 0
    → (c.bufs b).bytes ≡ c.disk m
    → Unpinned b keep c (if keep then c else bunpin b c)
unpin-Unpinned b m true c w h n e = record {
  cache = w;
  same_disk = refl;
  same_past = refl;
  same_contents = λ j. refl;
  refcnt = refl;
  same_locked = refl;
  same_bytes = refl;
  others = λ i q. refl;
  entries = λ i j p. p;
}
unpin-Unpinned b m false c w h n e =
    let g = bunpin-Changed b m c w h n (λ z. e) in
    record {
      cache = g.cache;
      same_disk = g.same_disk;
      same_past = g.same_past;
      same_contents = Changed-contents g w h refl;
      refcnt = ap (λ x. x.refcnt) (Changed-self g);
      same_locked = ap (λ x. x.locked) (Changed-self g);
      same_bytes = ap (λ x. x.bytes) (Changed-self g);
      others = Changed-other g;
      entries = Changed-Holds g refl refl;
    }

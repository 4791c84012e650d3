-- ===== src/Bcache/Release.antt =====
-- bwrite(), brelse(), bpin() and bunpin() of kernel/bio.c, and a write to the bytes of a buffer.
use operating_systems_2_assi.Prelude.{
  update_self, update_ne, update_twice, same_or, ℕ, ◌+◌, ◌-◌, ◌<◌, ◌≡◌, refl, sym, ◌∙◌, ap, ◌≢◌,
  subst, true, false, inl, inr, ◌∷◌, List, ◌==◌, Bool-cases, arith, Bytes, update, ==-ne, ==-self,
  ok, [],
}
use operating_systems_2_assi.Bcache.{
  Buf, Bcache, nbuf, rootdev, set_buf, is_block, disk_write, bwrite, unlink, drop_ref, refresh,
  releasesleep, brelse, bpin, bunpin, set_bytes,
}
use operating_systems_2_assi.Bcache.View.{
  has, IsCache, Holds, IsFor, Holds-test, Holds-cases, contents, contents-hit, contents-miss,
}
use operating_systems_2_assi.Bcache.Change.{
  set-Holds_self, set_buf-IsCache, contents-set_self, contents-set_ne,
}

-- A change of buffer `b`, for block `k`, that keeps what identifies it.
pub record Changed (b k : ℕ) (v : Buf) (c c' : Bcache) : Type 0 where
  pub cache : IsCache c'
  pub bufs : c'.bufs ≡ update c.bufs b v
  pub same_disk : c'.disk ≡ c.disk
  pub same_past : c'.past ≡ c.past
  pub of_block : contents c' k ≡ v.bytes
  pub of_others : (j : ℕ) → j ≢ k → contents c' j ≡ contents c j

-- A buffer of the same block that is in use, or as the disk has it.
set-Changed :
    (b k : ℕ) (v : Buf) (c : Bcache)
    → IsCache c
    → Holds b k c
    → IsFor k v
    → v.valid ≡ true
    → (v.refcnt ≡ 0 → v.bytes ≡ c.disk k)
    → Changed b k v c (set_buf b v c)
set-Changed b k v c w h f val clean = record {
  cache = after;
  bufs = refl;
  same_disk = refl;
  same_past = refl;
  of_block = contents-set_self b v c k after h.below f;
  of_others = λ j n.
      contents-set_ne b v c j w after (λ g. n (sym g.entry.same_block ∙ h.entry.same_block))
        (λ g. n (sym (set-Holds_self b v c j g).same_block ∙ f.same_block));
}
  where
    after : IsCache (set_buf b v c)
    after = set_buf-IsCache b v c w (record {
      below = h.below;
      sound = record { valid = λ d. val; clean = λ d z. clean z ∙ ap c.disk (sym f.same_block) };
      alone = λ j g i p.
          w.unique i b j p (subst (λ x. Holds b x c) (sym f.same_block ∙ g.same_block) h);
    })

pub set_bytes-Changed :
    (b k : ℕ) (bytes : Bytes) (c : Bcache)
    → IsCache c
    → Holds b k c
    → (c.bufs b).refcnt ≢ 0
    → Changed b k (record (c.bufs b) { bytes = bytes }) c (set_bytes b bytes c)
unfolding set_bytes
set_bytes-Changed b k bytes c w h n =
    set-Changed b k (record (c.bufs b) { bytes = bytes }) c w h
      (record { same_dev = h.entry.same_dev; same_block = h.entry.same_block })
      ((w.sound b h.below).valid h.entry.same_dev) (λ z. absurd (n z))

pub bpin-Changed :
    (b k : ℕ) (c : Bcache)
    → IsCache c
    → Holds b k c
    → Changed b k (record (c.bufs b) { refcnt = (c.bufs b).refcnt + 1 }) c (bpin b c)
unfolding bpin
bpin-Changed b k c w h =
    set-Changed b k (record (c.bufs b) { refcnt = (c.bufs b).refcnt + 1 }) c w h
      (record { same_dev = h.entry.same_dev; same_block = h.entry.same_block })
      ((w.sound b h.below).valid h.entry.same_dev) (λ z. absurd (omega arith))

-- The reference may be the last one only of a block that is on the disk.
pub bunpin-Changed :
    (b k : ℕ) (c : Bcache)
    → IsCache c
    → Holds b k c
    → (c.bufs b).refcnt ≢ 0
    → ((c.bufs b).refcnt ≡ 1 → (c.bufs b).bytes ≡ c.disk k)
    → Changed b k (record (c.bufs b) { refcnt = (c.bufs b).refcnt - 1 }) c (bunpin b c)
unfolding bunpin drop_ref
bunpin-Changed b k c w h n last = rw (==-ne (c.bufs b).refcnt 0 n) (
    set-Changed b k (record (c.bufs b) { refcnt = (c.bufs b).refcnt - 1 }) c w h
      (record { same_dev = h.entry.same_dev; same_block = h.entry.same_block })
      ((w.sound b h.below).valid h.entry.same_dev) (λ z. last (omega arith)))

has-unlink : (b i : ℕ) (xs : List ℕ) → i ≢ b → has (unlink b xs) i ≡ has xs i
unfolding unlink
has-unlink b i [] n = refl
has-unlink b i (x ∷ xs) n = ground (arith, has-unlink b i xs n)

front-IsCache :
    (b : ℕ) (c : Bcache)
    → IsCache c
    → b < nbuf
    → IsCache (record c { order = b ∷ unlink b c.order })
front-IsCache b c w l = record {
  all_linked = λ i m. elim (same_or i b) [
    | inl e ↦ ground arith
    | inr n ↦ let h = w.all_linked i m in ground (arith, has-unlink b i c.order n)
  ];
  linked_below = λ i m. elim (same_or i b) [
    | inl e ↦ ground arith
    | inr n ↦ w.linked_below i (ground (arith, has-unlink b i c.order n))
  ];
  sound = w.sound;
  unique = λ i j k p q.
      w.unique i j k (record { below = p.below; entry = p.entry })
        (record { below = q.below; entry = q.entry });
}

-- The order of the list is not seen from outside.
refresh-Changed :
    (b k : ℕ) (v : Buf) (c c' : Bcache)
    → b < nbuf
    → Changed b k v c c'
    → Changed b k v c (refresh b c')
unfolding refresh contents
refresh-Changed b k v c c' l h = elim (Bool-cases ((c'.bufs b).refcnt == 0)) [
  | inl e ↦ rw e (record {
    cache = front-IsCache b c' h.cache l;
    bufs = h.bufs;
    same_disk = h.same_disk;
    same_past = h.same_past;
    of_block = h.of_block;
    of_others = h.of_others;
  })
  | inr e ↦ rw e h
]

-- The reference may be the last one only of a block that is on the disk.
pub brelse-Changed :
    (b k : ℕ) (c : Bcache)
    → IsCache c
    → Holds b k c
    → (c.bufs b).locked ≡ true
    → (c.bufs b).refcnt ≢ 0
    → ((c.bufs b).refcnt ≡ 1 → (c.bufs b).bytes ≡ c.disk k)
    → (c' : Bcache) × (brelse b c ≡ ok c')
      × Changed b k (record (c.bufs b) { refcnt = (c.bufs b).refcnt - 1; locked = false }) c c'
unfolding brelse drop_ref releasesleep
brelse-Changed b k c w h l n last = (
  refresh b (drop_ref b (releasesleep b c)),
  rw l refl,
  refresh-Changed b k v c (drop_ref b (releasesleep b c)) h.below (
      subst (Changed b k v c) (sym both) (
        set-Changed b k v c w h
          (record { same_dev = h.entry.same_dev; same_block = h.entry.same_block })
          ((w.sound b h.below).valid h.entry.same_dev) (λ z. last (omega arith)))),
)
  where
    v : Buf
    v = record (c.bufs b) { refcnt = (c.bufs b).refcnt - 1; locked = false }

    both : drop_ref b (releasesleep b c) ≡ set_buf b v c
    both =
        rw (==-self b, ==-ne (c.bufs b).refcnt 0 n)
          (ap (λ f. record c { bufs = f })
            (update_twice c.bufs b (record (c.bufs b) { locked = false }) v))

-- What bwrite() leaves: the block is on the disk.
pub record Written (b k : ℕ) (c c' : Bcache) : Type 0 where
  pub cache : IsCache c'
  pub same_bufs : c'.bufs ≡ c.bufs
  pub on_disk : c'.disk ≡ update c.disk k (c.bufs b).bytes
  pub past : c'.past ≡ c.disk ∷ c.past
  pub same_contents : (j : ℕ) → contents c' j ≡ contents c j

pub bwrite-Written :
    (b k : ℕ) (c : Bcache)
    → IsCache c
    → Holds b k c
    → (c.bufs b).locked ≡ true
    → (c' : Bcache) × (bwrite b c ≡ ok c') × Written b k c c'
unfolding bwrite disk_write
bwrite-Written b k c w h l = (
  c',
  rw (l, h.entry.same_block) refl,
  record {
    cache = after;
    same_bufs = refl;
    on_disk = refl;
    past = refl;
    same_contents = λ j. elim (Holds-cases j c) [
      | inl (i, g) ↦ contents-hit after (there g) ∙ sym (contents-hit w g)
      | inr empty ↦
          contents-miss c' j empty
          ∙ update_ne c.disk k j (c.bufs b).bytes (missed j empty)
          ∙ sym (contents-miss c j empty)
    ];
  },
)
  where
    c' : Bcache
    c' = record c { disk = update c.disk k (c.bufs b).bytes; past = c.disk ∷ c.past }

    there : {i j : ℕ} → Holds i j c → Holds i j c'
    there g = record { below = g.below; entry = g.entry }

    missed : (j : ℕ) → ((i : ℕ) → i < nbuf → is_block rootdev j c i ≡ false) → j ≢ k
    missed j empty = λ e. let t = Holds-test h in let f = empty b h.below in ground (arith, e)

    after : IsCache c'
    after = record {
      all_linked = w.all_linked;
      linked_below = w.linked_below;
      sound = λ i m. record {
        valid = (w.sound i m).valid;
        clean = λ d z. elim (same_or (c.bufs i).blockno k) [
          | inl e ↦ ground (
            arith,
            w.unique i b k (record { below = m; entry = record { same_dev = d; same_block = e } })
                h,
          )
          | inr n ↦
              (w.sound i m).clean d z
              ∙ sym (update_ne c.disk k (c.bufs i).blockno (c.bufs b).bytes n)
        ];
      };
      unique = λ i j q p r.
          w.unique i j q (record { below = p.below; entry = p.entry })
            (record { below = r.below; entry = r.entry });
    }

module _ {b k : ℕ} {v : Buf} {c c' : Bcache} (h : Changed b k v c c') where
  pub Changed-self : c'.bufs b ≡ v
  Changed-self = ap (λ f. f b) h.bufs ∙ update_self c.bufs b v

  pub Changed-other : (i : ℕ) → i ≢ b → c'.bufs i ≡ c.bufs i
  Changed-other i n = ap (λ f. f i) h.bufs ∙ update_ne c.bufs b i v n

  -- A buffer that stays for the same block.
  pub Changed-Holds :
      v.dev ≡ (c.bufs b).dev
      → v.blockno ≡ (c.bufs b).blockno
      → (i j : ℕ) → Holds i j c
      → Holds i j c'
  Changed-Holds d e i j g = record {
    below = g.below;
    entry = elim (same_or i b) [
      | inl q ↦
          subst (λ x. IsFor j (c'.bufs x)) (sym q)
            (record {
              same_dev =
                  ap (λ x. x.dev) Changed-self
                  ∙ d
                  ∙ ap (λ x. (c.bufs x).dev) (sym q)
                  ∙ g.entry.same_dev;
              same_block =
                  ap (λ x. x.blockno) Changed-self
                  ∙ e
                  ∙ ap (λ x. (c.bufs x).blockno) (sym q)
                  ∙ g.entry.same_block;
            })
      | inr n ↦ subst (IsFor j) (sym (Changed-other i n)) g.entry
    ];
  }

  -- A change that leaves the bytes of the block leaves all contents.
  pub Changed-contents :
      IsCache c → Holds b k c → v.bytes ≡ (c.bufs b).bytes → (j : ℕ) → contents c' j ≡ contents c j
  Changed-contents w g e j = elim (same_or j k) [
    | inl q ↦ ap (contents c') q ∙ h.of_block ∙ e ∙ sym (contents-hit w g) ∙ ap (contents c) (sym q)
    | inr n ↦ h.of_others j n
  ]

-- ===== src/Fs/Bmap.antt =====
-- The outcomes of bmap() of kernel/fs.c.
use operating_systems_2_assi.Prelude.{
  ℕ, ◌+◌, ◌-◌, ◌*◌, ◌/◌, ◌≤◌, ◌<◌, ◌≡◌, refl, sym, ◌∙◌, ap, ◌≢◌, ◌⊎◌, inl, inr, ltb, leb, ◌==◌,
  if◌then◌else◌, arith, same_or, get_int, Bool-cases, ok, panic, Panic, ==-ne,
}
use operating_systems_2_assi.SwapDisk.State.{bsize}
use operating_systems_2_assi.Fs.{
  Fs, Inode, ndirect, nindirect, maxfile, set_addr, own_block, listed_block, bmap_indirect, bmap,
}
use operating_systems_2_assi.Fs.FreeMap.{IsFull, balloc-Taken}
use operating_systems_2_assi.Fs.Slots.{
  slot, data_slot, IsLaidOut, IsUsed, IsFile, file_byte, Grow, Grow-IsLaidOut, Grow-IsFile,
  Grow-file_byte,
}
use operating_systems_2_assi.Fs.Map.{Taken-IsUsed, own-Grow, listed, listed-Grow}

-- The file is the same, and still well formed.
pub record Kept (ip : Inode) (s : Fs) (ip' : Inode) (s' : Fs) : Type 0 where
  pub laid : IsLaidOut s'
  pub file : IsFile ip' s'
  pub bytes : (off : ℕ) → off / bsize < maxfile → file_byte ip' s' off ≡ file_byte ip s off
  pub same_inode : (ip'.size ≡ ip.size) × (ip'.inum ≡ ip.inum) × (ip'.kind ≡ ip.kind)
  pub same_size : (s'.size ≡ s.size) × (s'.ninodes ≡ s.ninodes)

pub Kept-refl : {ip : Inode} {s : Fs} → IsLaidOut s → IsFile ip s → Kept ip s ip s
Kept-refl l h = record {
  laid = l;
  file = h;
  bytes = λ off r. refl;
  same_inode = (refl, refl, refl);
  same_size = (refl, refl);
}

pub Kept-trans :
    {ip ip' ip₂ : Inode} {s s' s₂ : Fs} → Kept ip s ip' s' → Kept ip' s' ip₂ s₂ → Kept ip s ip₂ s₂
Kept-trans a b = record {
  laid = b.laid;
  file = b.file;
  bytes = λ off r. b.bytes off r ∙ a.bytes off r;
  same_inode =
      let (x, y, z) = a.same_inode in let (u, v, w) = b.same_inode in (u ∙ x, v ∙ y, w ∙ z);
  same_size = let (x, y) = a.same_size in let (u, v) = b.same_size in (u ∙ x, v ∙ y);
}

Grow-Kept :
    {i x : ℕ} {ip ip' : Inode} {s s' : Fs}
    → IsLaidOut s
    → IsFile ip s
    → Grow i x ip s ip' s'
    → Kept ip s ip' s'
Grow-Kept l h g = record {
  laid = Grow-IsLaidOut g l;
  file = Grow-IsFile g h;
  bytes = Grow-file_byte g h;
  same_inode = g.same_inode;
  same_size = let (p, q, r, t) = g.same_layout in (p, q);
}

-- `a` is in slot `i`, and is 0 only if no block is free.
pub record Found (i a : ℕ) (ip : Inode) (s : Fs) (ip' : Inode) (s' : Fs) : Type 0 where
  pub kept : Kept ip s ip' s'
  pub in_slot : slot i ip' s' ≡ a
  pub full : a ≡ 0 → IsFull s'

used-ne : {x : ℕ} {t : Fs} → IsUsed x t → x ≢ 0
used-ne u e = u.data_block (inl e)

own_block-Found :
    (i : ℕ) (ip : Inode) (s : Fs)
    → i ≤ ndirect
    → IsLaidOut s
    → IsFile ip s
    → (a : ℕ) × (ip' : Inode) × (s' : Fs) × (own_block i ip s ≡ (a, ip', s'))
      × Found i a ip s ip' s'
unfolding own_block slot
own_block-Found i ip s low l h = elim (same_or (ip.addrs i) 0) [
  | inl z ↦ elim (balloc-Taken s) [
    | inl (f, e) ↦ (
      0,
      ip,
      s,
      rw (e, z) refl,
      record { kept = Kept-refl l h; in_slot = ground (arith, low, z); full = λ y. f },
    )
    | inr (t, x, e, k) ↦
        let (free, u) = Taken-IsUsed l k in
        let g = own-Grow i x ip s t h k low z free u in
        (
          x,
          set_addr i x ip,
          t,
          rw (e, z, ==-ne x 0 (used-ne u)) refl,
          record { kept = Grow-Kept l h g; in_slot = g.now; full = λ y. absurd (used-ne u y) },
        )
  ]
  | inr n ↦ (
    ip.addrs i,
    ip,
    s,
    rw (==-ne (ip.addrs i) 0 n) refl,
    record { kept = Kept-refl l h; in_slot = ground (arith, low); full = λ y. absurd (n y) },
  )
]

listed_block-Found :
    (i : ℕ) (ip : Inode) (s : Fs)
    → i < nindirect
    → IsLaidOut s
    → IsFile ip s
    → ip.addrs ndirect ≢ 0
    → (a : ℕ) × (s' : Fs) × (listed_block (ip.addrs ndirect) i s ≡ (a, s'))
      × Found (i + 13) a ip s ip s'
unfolding listed_block slot
listed_block-Found i ip s low l h there =
    elim (same_or (get_int (s.blocks (ip.addrs ndirect)) (4 * i)) 0) [
      | inl z ↦ elim (balloc-Taken s) [
        | inl (f, e) ↦ (
          0,
          s,
          rw (e, z) refl,
          record { kept = Kept-refl l h; in_slot = entry ∙ z; full = λ y. f },
        )
        | inr (t, x, e, k) ↦
            let (free, u) = Taken-IsUsed l k in
            let g = listed-Grow i x ip s t l h k low there z free u in
            (
              x,
              listed i x ip t,
              rw (e, z, ==-ne x 0 (used-ne u)) refl,
              record { kept = Grow-Kept l h g; in_slot = g.now; full = λ y. absurd (used-ne u y) },
            )
      ]
      | inr n ↦ (
        get_int (s.blocks (ip.addrs ndirect)) (4 * i),
        s,
        rw (==-ne (get_int (s.blocks (ip.addrs ndirect)) (4 * i)) 0 n) refl,
        record { kept = Kept-refl l h; in_slot = entry; full = λ y. absurd (n y) },
      )
    ]
  where
    entry :
        (if leb (i + 13) ndirect
          then ip.addrs (i + 13)
          else if ip.addrs ndirect == 0
          then 0
          else get_int (s.blocks (ip.addrs ndirect)) (4 * (i + 13 - 13)))
        ≡ get_int (s.blocks (ip.addrs ndirect)) (4 * i)
    entry =
        let r : i + 13 - 13 ≡ i = omega arith in
        rw (r, ==-ne (ip.addrs ndirect) 0 there) (ground arith)

-- The entry of an indirect block, where own_block() has returned `b` for the indirect block.
bmap_indirect-Found :
    (i b : ℕ) (ip ip₁ : Inode) (s s₁ : Fs)
    → i < nindirect
    → Found ndirect b ip s ip₁ s₁
    → (a : ℕ) × (ip' : Inode) × (s' : Fs) × (bmap_indirect i (b, ip₁, s₁) ≡ (a, ip', s'))
      × Found (i + 13) a ip s ip' s'
unfolding bmap_indirect slot
bmap_indirect-Found i b ip ip₁ s s₁ low f = elim (same_or b 0) [
  | inl z ↦ (
    0,
    ip₁,
    s₁,
    rw z refl,
    record {
      kept = f.kept;
      in_slot = let e : ip₁.addrs ndirect ≡ 0 = f.in_slot ∙ z in ground (arith, e);
      full = λ y. f.full z;
    },
  )
  | inr n ↦
      let e : ip₁.addrs ndirect ≡ b = f.in_slot in
      let (a, s', q, g) =
        listed_block-Found i ip₁ s₁ low f.kept.laid f.kept.file (λ y. n (sym e ∙ y)) in
      (
        a,
        ip₁,
        s',
        rw (==-ne b 0 n, ap (λ x. listed_block x i s₁) (sym e) ∙ q) refl,
        record { kept = Kept-trans f.kept g.kept; in_slot = g.in_slot; full = g.full },
      )
]

-- For a well-formed file and free map, bmap() stops the machine beyond MAXFILE; below it, it
-- returns the number in the slot of the block, which is 0 only if no block is free; the blocks of
-- the file stay distinct data blocks that are in use, and the bytes of the file do not change.
pub bmap-Found :
    (bn : ℕ) (ip : Inode) (s : Fs)
    → IsLaidOut s
    → IsFile ip s
    → ((bn < maxfile)
        × ((a : ℕ) × (ip' : Inode) × (s' : Fs) × (bmap bn ip s ≡ ok (a, ip', s'))
            × Found (data_slot bn) a ip s ip' s'))
      ⊎ ((maxfile ≤ bn) × (bmap bn ip s ≡ panic Panic.bmap))
unfolding bmap
bmap-Found bn ip s l h = elim (Bool-cases (ltb bn ndirect)) [
  | inl e ↦
      let (a, ip', s', q, f) = own_block-Found bn ip s (ground arith) l h in
      inl (ground arith, (a, ip', s', rw (e, q) refl, rw e f))
  | inr e ↦ elim (Bool-cases (ltb (bn - ndirect) nindirect)) [
    | inl d ↦
        let (b, ip₁, s₁, q, f) = own_block-Found ndirect ip s (omega arith) l h in
        let (a, ip', s', r, g) =
          bmap_indirect-Found (bn - ndirect) b ip ip₁ s s₁ (ground arith) f in
        let j : bn - ndirect + 13 ≡ bn + 1 = ground arith in
        inl (
          ground arith,
          (a, ip', s', rw (e, d) (ap ok (ap (bmap_indirect (bn - ndirect)) q ∙ r)), rw (e, ← j) g),
        )
    | inr d ↦ inr (ground arith, rw (e, d) refl)
  ]
]

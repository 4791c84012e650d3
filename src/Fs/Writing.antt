-- ===== src/Fs/Writing.antt =====
-- The loop of writei() of kernel/fs.c, and the bytes of the file that it writes.
use operating_systems_2_assi.Prelude.{
  ℕ, zero, suc, ◌+◌, ◌-◌, ◌*◌, ◌/◌, ◌%◌, ◌≤◌, ◌<◌, ◌≡◌, refl, sym, ◌∙◌, ap, ap₂, ◌≢◌, subst, ◌&&◌,
  ◌⊎◌, inl, inr, ltb, leb, if◌then◌else◌, arith, Bytes, copy, same_or, Bool-cases, ok, Outcome,
  ==-ne,
}
use operating_systems_2_assi.SwapDisk.State.{bsize}
use operating_systems_2_assi.Fs.{Fs, Inode, ndirect, maxfile, set_block}
use operating_systems_2_assi.Fs.Content.{part, write_loop}
use operating_systems_2_assi.Fs.FreeMap.{IsFull, IsMapBlock}
use operating_systems_2_assi.Fs.Slots.{
  nslots, slot, data_slot, IsLaidOut, IsUsed, IsFile, file_byte,
}
use operating_systems_2_assi.Fs.Bmap.{Kept, Kept-refl, Found, bmap-Found}
use operating_systems_2_assi.Fs.Data.{set-IsLaidOut, set-IsFile, set-file_byte}

-- The end of a write that counts `k` bytes, with `j` more in the file: all `n` bytes are written, or
-- no block is free, or the copy of the bytes after those `k` failed after `j` of them.
abbrev pub WriteEnd : (ℕ → ℕ → ℕ) → ℕ → ℕ → ℕ → ℕ → ℕ → Fs → Type 0
WriteEnd copyin src tot n k j s' =
    ((j ≡ 0) × ((tot + k ≡ n) ⊎ IsFull s'))
    ⊎ ((m : ℕ) × (copyin (src + k) m ≡ j) × (j < m) × (tot + k + m ≤ n))

-- The file after `k` bytes from `src` were written from `off` on.
pub record WroteIn (off src k : ℕ) (mem : Bytes) (ip : Inode) (s : Fs) (ip' : Inode) (s' : Fs)
    : Type 0 where
  pub laid : IsLaidOut s'
  pub file : IsFile ip' s'
  pub bytes :
      (o : ℕ)
      → o / bsize < maxfile
      → file_byte ip' s' o
        ≡ (if leb off o && ltb o (off + k) then mem (src + (o - off)) else file_byte ip s o)
  pub same_inode : (ip'.size ≡ ip.size) × (ip'.inum ≡ ip.inum) × (ip'.kind ≡ ip.kind)
  pub same_size : (s'.size ≡ s.size) × (s'.ninodes ≡ s.ninodes)

Kept-WroteIn :
    (off src : ℕ) (mem : Bytes) {ip ip' : Inode} {s s' : Fs}
    → Kept ip s ip' s'
    → WroteIn off src 0 mem ip s ip' s'
Kept-WroteIn off src mem k = record {
  laid = k.laid;
  file = k.file;
  bytes = λ o r. let b = k.bytes o r in ground (arith, b);
  same_inode = k.same_inode;
  same_size = k.same_size;
}

-- The bytes of the block of an offset.
at_bytes :
    (a o : ℕ) (ip : Inode) (s : Fs)
    → slot (data_slot (o / bsize)) ip s ≡ a
    → a ≢ 0
    → file_byte ip s o ≡ s.blocks a (o % bsize)
unfolding file_byte
at_bytes a o ip s e n = rw (e, ==-ne a 0 n) refl

-- A write to the block of offset `off`.
module _ (off src m a : ℕ) (mem : Bytes) (ip ip₁ : Inode) (s s₁ : Fs)
    (f : Found (data_slot (off / bsize)) a ip s ip₁ s₁) (nz : a ≢ 0) (low : off / bsize < maxfile)
    (part : off % bsize + m ≤ bsize) where
  slot_small : data_slot (off / bsize) < nslots
  slot_small = ground arith

  abbrev new : Bytes
  new = copy (s₁.blocks a) (off % bsize) mem src m

  a-IsUsed : IsUsed a s₁
  a-IsUsed =
      subst (λ k. IsUsed k s₁) f.in_slot
        (f.kept.file.used (data_slot (off / bsize)) slot_small (λ z. nz (sym f.in_slot ∙ z)))

  not_map : ¬ IsMapBlock a s₁
  not_map x = a-IsUsed.data_block (inr (inl x))

  indirect-ne : ip₁.addrs ndirect ≢ a
  unfolding slot
  indirect-ne e =
      f.kept.file.apart (data_slot (off / bsize)) ndirect slot_small (omega arith) (ground arith)
        (λ z. nz (sym f.in_slot ∙ z)) (f.in_slot ∙ sym e)

  round_bytes :
      (o : ℕ)
      → o / bsize < maxfile
      → file_byte ip₁ (set_block a new s₁) o
        ≡ (if leb off o && ltb o (off + m) then mem (src + (o - off)) else file_byte ip s o)
  round_bytes o r =
      let w =
        set-file_byte a new s₁ not_map ip₁ indirect-ne (data_slot (off / bsize)) slot_small nz
          f.in_slot f.kept.file o r in
      let b = f.kept.bytes o r in
      elim (same_or (o / bsize) (off / bsize)) [
        | inl e ↦
            let at = at_bytes a o ip₁ s₁ (ap (λ x. slot (data_slot x) ip₁ s₁) e ∙ f.in_slot) nz in
            elim (Bool-cases (leb off o && ltb o (off + m))) [
              | inl c ↦
                  let q : o % bsize - off % bsize ≡ o - off = ground arith in
                  let v = ap (λ x. mem (src + x)) q in ground (arith, w, e, c, v)
              | inr c ↦ ground (arith, w, b, at, e, c)
            ]
        | inr n ↦ ground (arith, w, b, n)
      ]

  round-WroteIn : WroteIn off src m mem ip s ip₁ (set_block a new s₁)
  round-WroteIn = record {
    laid = set-IsLaidOut a new s₁ not_map f.kept.laid;
    file = set-IsFile a new s₁ not_map ip₁ indirect-ne f.kept.file;
    bytes = round_bytes;
    same_inode = f.kept.same_inode;
    same_size = f.kept.same_size;
  }

-- One stretch after another.
wrote_trans :
    {off src k j : ℕ} {mem : Bytes} {ip ip₁ ip' : Inode} {s s₁ s' : Fs}
    → WroteIn off src k mem ip s ip₁ s₁
    → WroteIn (off + k) (src + k) j mem ip₁ s₁ ip' s'
    → WroteIn off src (k + j) mem ip s ip' s'
wrote_trans {off} {src} {k} {j} {mem} {ip} {ip₁} {ip'} {s} {s₁} {s'} a b = record {
  laid = b.laid;
  file = b.file;
  bytes = λ o r.
      let x = a.bytes o r in
      let y = b.bytes o r in
      elim (Bool-cases (leb (off + k) o && ltb o (off + k + j))) [
        | inl e ↦
            let q : src + k + (o - (off + k)) ≡ src + (o - off) = ground arith in
            let v = ap mem q in ground (arith, y, e, v)
        | inr e ↦ ground (arith, x, y, e)
      ];
  same_inode =
      let (x, y, z) = a.same_inode in let (u, v, w) = b.same_inode in (u ∙ x, v ∙ y, w ∙ z);
  same_size = let (x, y) = a.same_size in let (u, v) = b.same_size in (u ∙ x, v ∙ y);
}

abbrev ends : ℕ → ℕ → Inode → Fs → Outcome (ℕ × ℕ × Inode × Fs)
ends tot off ip s = ok (tot, off, ip, s)

same_ends : (tot off : ℕ) (ip : Inode) (s : Fs) → ends tot off ip s ≡ ends (tot + 0) (off + 0) ip s
same_ends tot off ip s = ap₂ (λ x y. ends x y ip s) (omega arith) (omega arith)

pub write_loop-WroteIn :
    (copyin : ℕ → ℕ → ℕ) (mem : Bytes) (fuel tot n off src : ℕ) (ip : Inode) (s : Fs)
    → IsLaidOut s
    → IsFile ip s
    → tot ≤ n
    → n ≤ tot + fuel
    → off + (n - tot) ≤ maxfile * bsize
    → (k : ℕ) × (j : ℕ) × (ip' : Inode) × (s' : Fs) × (write_loop copyin mem fuel tot n off src ip s
        ≡ ok (tot + k, off + k, ip', s'))
      × WroteIn off src (k + j) mem ip s ip' s'
      × (tot + (k + j) ≤ n)
      × WriteEnd copyin src tot n k j s'
unfolding write_loop
write_loop-WroteIn copyin mem zero tot n off src ip s l h t c big = (
  0,
  0,
  ip,
  s,
  same_ends tot off ip s,
  Kept-WroteIn off src mem (Kept-refl l h),
  omega arith,
  inl (refl, inl (omega arith)),
)
write_loop-WroteIn copyin mem (suc fuel) tot n off src ip s l h t c big =
    elim (Bool-cases (ltb tot n)) [
      | inl e ↦ elim (bmap-Found (off / bsize) ip s l h) [
        | inl (low, (a, ip₁, s₁, q, f)) ↦ elim (same_or a 0) [
          | inl z ↦ (
            0,
            0,
            ip₁,
            s₁,
            rw (e, q, z) (same_ends tot off ip₁ s₁),
            Kept-WroteIn off src mem f.kept,
            omega arith,
            inl (refl, inr (f.full z)),
          )
          | inr nz ↦ elim (Bool-cases (leb (part n tot off) (copyin src (part n tot off)))) [
            | inl g ↦
                let m = part n tot off in
                let s₂ = set_block a (copy (s₁.blocks a) (off % bsize) mem src m) s₁ in
                let w = round-WroteIn off src m a mem ip ip₁ s s₁ f nz low (omega arith) in
                let (k, j, ip', s', q', w', fit, end) =
                  write_loop-WroteIn copyin mem fuel (tot + m) n (off + m) (src + m) ip₁ s₂ w.laid
                    w.file (omega arith) (ground arith) (ground arith) in
                (
                  m + k,
                  j,
                  ip',
                  s',
                  rw (e, q, ==-ne a 0 nz, g) (q' ∙ add_ends tot off m k ip' s'),
                  let e' : m + (k + j) ≡ m + k + j = omega arith in
                      subst (λ x. WroteIn off src x mem ip s ip' s') e' (wrote_trans w w'),
                  omega arith,
                  later_end src tot m k j s' end,
                )
            | inr g ↦ (
              0,
              j₀,
              ip₁,
              set_block a (copy (s₁.blocks a) (off % bsize) mem src j₀) s₁,
              rw (e, q, ==-ne a 0 nz, g)
                  (same_ends tot off ip₁
                    (set_block a (copy (s₁.blocks a) (off % bsize) mem src j₀) s₁)),
              let z : j₀ ≡ 0 + j₀ = omega arith in
                  let s₂ = set_block a (copy (s₁.blocks a) (off % bsize) mem src j₀) s₁ in
                  subst (λ x. WroteIn off src x mem ip s ip₁ s₂) z
                    (round-WroteIn off src j₀ a mem ip ip₁ s s₁ f nz low (ground (arith, g))),
              ground (arith, g),
              inr (
                part n tot off,
                let z : src + 0 ≡ src = omega arith in ap (λ x. copyin x (part n tot off)) z,
                ground (arith, g),
                omega arith,
              ),
            )
          ]
        ]
        | inr (high, q) ↦ absurd (ground arith)
      ]
      | inr e ↦ (
        0,
        0,
        ip,
        s,
        rw e (same_ends tot off ip s),
        Kept-WroteIn off src mem (Kept-refl l h),
        omega arith,
        inl (refl, inl (ground arith)),
      )
    ]
  where
    -- What a failed copy of this round would leave.
    j₀ : ℕ
    j₀ = copyin src (part n tot off)

    later_end :
        (src tot m k j : ℕ) (s' : Fs)
        → WriteEnd copyin (src + m) (tot + m) n k j s'
        → WriteEnd copyin src tot n (m + k) j s'
    later_end src tot m k j s' (inl (z, inl y)) = inl (z, inl (omega arith))
    later_end src tot m k j s' (inl (z, inr y)) = inl (z, inr y)
    later_end src tot m k j s' (inr (i, y, l, t)) =
        let q : src + (m + k) ≡ src + m + k = omega arith in
        inr (i, ap (λ x. copyin x i) q ∙ y, l, omega arith)

    add_ends :
        (tot off m k : ℕ) (ip : Inode) (s : Fs)
        → ends (tot + m + k) (off + m + k) ip s ≡ ends (tot + (m + k)) (off + (m + k)) ip s
    add_ends tot off m k ip s = ap₂ (λ x y. ends x y ip s) (omega arith) (omega arith)

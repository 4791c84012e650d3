-- ===== src/Fs/Reading.antt =====
-- readi() of kernel/fs.c.
use operating_systems_2_assi.Prelude.{
  ℕ, zero, suc, ◌+◌, ◌-◌, ◌*◌, ◌/◌, ◌%◌, ◌≤◌, ◌<◌, ◌≡◌, refl, ◌∙◌, ap, ◌≢◌, false, ◌&&◌, ◌⊎◌, inl,
  inr, Option, none, some, ltb, leb, if◌then◌else◌, arith, Bytes, copy, same_or, Bool-cases, ok,
  ==-ne,
}
use operating_systems_2_assi.SwapDisk.State.{bsize}
use operating_systems_2_assi.Fs.{Fs, Inode, maxfile}
use operating_systems_2_assi.Fs.Content.{part, bad_range, read_loop, readi}
use operating_systems_2_assi.Fs.FreeMap.{IsFull}
use operating_systems_2_assi.Fs.Slots.{slot, data_slot, IsLaidOut, IsFile, file_byte}
use operating_systems_2_assi.Fs.Bmap.{Kept, Kept-refl, Kept-trans, Found, bmap-Found}

-- The end of a read that moved `k` bytes: all `n` bytes, or no free block for a hole, or a copy that
-- failed, after `i` bytes of the copies before it, with what it had copied till then.
abbrev pub ReadEnd : (ℕ → ℕ → ℕ) → ℕ → ℕ → ℕ → ℕ → Fs → Option ℕ → Type 0
ReadEnd copyout dst tot n k s' r =
    ((r ≡ some (tot + k)) × ((tot + k ≡ n) ⊎ IsFull s'))
    ⊎ ((r ≡ none)
        × ((i m : ℕ) × (k ≡ i + copyout (dst + i) m)
            × (copyout (dst + i) m < m)
            × (tot + i + m ≤ n)))

-- `moved` bytes of the file from `off` on are in memory at `dst`, and nothing else has changed.
pub record MovedOut (moved tot n off dst : ℕ) (ip : Inode) (s : Fs) (mem : Bytes) (ip' : Inode)
    (s' : Fs) (mem' : Bytes) : Type 0 where
  pub kept : Kept ip s ip' s'
  pub fits : tot + moved ≤ n
  pub stored :
      (x : ℕ)
      → mem' x
        ≡ (if leb dst x && ltb x (dst + moved) then file_byte ip s (off + (x - dst)) else mem x)

-- A read that returns `r`.
pub record ReadOut (copyout : ℕ → ℕ → ℕ) (tot n off dst : ℕ) (ip : Inode) (s : Fs) (mem : Bytes)
    (r : Option ℕ) (ip' : Inode) (s' : Fs) (mem' : Bytes) : Type 0 where
  pub moved : ℕ
  pub out : MovedOut moved tot n off dst ip s mem ip' s' mem'
  pub ended : ReadEnd copyout dst tot n moved s' r

nothing_out :
    {tot n off dst : ℕ} {ip : Inode} {s : Fs} {mem : Bytes} {ip' : Inode} {s' : Fs}
    → Kept ip s ip' s'
    → tot ≤ n
    → MovedOut 0 tot n off dst ip s mem ip' s' mem
nothing_out k l = record { kept = k; fits = omega arith; stored = λ x. ground arith }

stop :
    {copyout : ℕ → ℕ → ℕ} {tot n off dst : ℕ} {ip : Inode} {s : Fs} {mem : Bytes} {r : Option ℕ}
    {ip' : Inode} {s' : Fs}
    → Kept ip s ip' s'
    → tot ≤ n
    → ReadEnd copyout dst tot n 0 s' r
    → ReadOut copyout tot n off dst ip s mem r ip' s' mem
stop k l e = record { moved = 0; out = nothing_out k l; ended = e }

-- The bytes of one block.
block_bytes :
    (a off j : ℕ) (ip : Inode) (s : Fs)
    → slot (data_slot (off / bsize)) ip s ≡ a
    → a ≢ 0
    → off % bsize + j < bsize
    → s.blocks a (off % bsize + j) ≡ file_byte ip s (off + j)
unfolding file_byte
block_bytes a off j ip s e n l =
    let q : (off + j) / bsize ≡ off / bsize = omega arith in
    let r : (off + j) % bsize ≡ off % bsize + j = omega arith in rw (q, r, e, ==-ne a 0 n) refl

-- A round that copies `m` bytes.
longer :
    {tot n off dst a : ℕ} (m k : ℕ) {ip ip₁ ip' : Inode} {s s₁ s' : Fs} {mem mem' : Bytes}
    → Found (data_slot (off / bsize)) a ip s ip₁ s₁
    → a ≢ 0
    → off % bsize + m ≤ bsize
    → off + (n - tot) ≤ maxfile * bsize
    → tot + m ≤ n
    → MovedOut k
        (tot + m)
        n
        (off + m)
        (dst + m)
        ip₁
        s₁
        (copy mem dst (s₁.blocks a) (off % bsize) m)
        ip'
        s'
        mem'
    → MovedOut (m + k) tot n off dst ip s mem ip' s' mem'
longer {tot} {n} {off} {dst} {a} m k {ip} {ip₁} {ip'} {s} {s₁} {s'} {mem} {mem'} f nz l big fit h =
    record {
      kept = Kept-trans f.kept h.kept;
      fits = omega (arith, h.fits);
      stored = λ x. elim (Bool-cases (leb dst x && ltb x (dst + (m + k)))) [
        | inl e ↦ elim (Bool-cases (ltb x (dst + m))) [
          | inl d ↦
              let b = block_bytes a off (x - dst) ip₁ s₁ f.in_slot nz (ground arith) in
              let c = f.kept.bytes (off + (x - dst)) (let q = h.fits in ground arith) in
              let st = h.stored x in ground (arith, b, c, st, e, d)
          | inr d ↦
              let q : off + m + (x - (dst + m)) ≡ off + (x - dst) = ground arith in
              let c = f.kept.bytes (off + (x - dst)) (let q = h.fits in ground arith) in
              let st =
                h.stored x
                ∙ ap
                    (λ y.
                      if leb (dst + m) x && ltb x (dst + m + k)
                      then file_byte ip₁ s₁ y
                      else copy mem dst (s₁.blocks a) (off % bsize) m x)
                    q in
              ground (arith, c, st, e, d)
        ]
        | inr e ↦ let st = h.stored x in ground (arith, st, e)
      ];
    }

later_end :
    (copyout : ℕ → ℕ → ℕ) (dst tot n m k : ℕ) (s' : Fs) (r : Option ℕ)
    → ReadEnd copyout (dst + m) (tot + m) n k s' r
    → ReadEnd copyout dst tot n (m + k) s' r
later_end copyout dst tot n m k s' r (inl (e, y)) =
    inl (e ∙ ap some (omega arith), elim y [ inl z ↦ inl (omega arith) | inr z ↦ inr z ])
later_end copyout dst tot n m k s' r (inr (e, (i, j, q, l, t))) =
    let z : dst + m + i ≡ dst + (m + i) = omega arith in
    let c = ap (λ x. copyout x j) z in inr (e, (m + i, j, omega arith, omega arith, omega arith))

-- The part that a copy that failed has moved.
part_out :
    {copyout : ℕ → ℕ → ℕ} {tot n off dst a m : ℕ} {ip ip₁ : Inode} {s s₁ : Fs} {mem : Bytes}
    → Found (data_slot (off / bsize)) a ip s ip₁ s₁
    → a ≢ 0
    → off % bsize + m ≤ bsize
    → off + (n - tot) ≤ maxfile * bsize
    → tot + m ≤ n
    → copyout dst m < m
    → ReadOut copyout tot n off dst ip s mem none ip₁ s₁
        (copy mem dst (s₁.blocks a) (off % bsize) (copyout dst m))
part_out {copyout} {tot} {n} {off} {dst} {a} {m} f nz l big fit lt =
    let z : dst + 0 ≡ dst = omega arith in
    let c = ap (λ x. copyout x m) z in
    record {
      moved = copyout dst m + 0;
      out =
          longer (copyout dst m) 0 f nz (omega arith) big (omega arith)
            (nothing_out (Kept-refl f.kept.laid f.kept.file) (omega arith));
      ended = inr (refl, (0, m, omega arith, omega arith, omega arith));
    }

read_loop-ReadOut :
    (copyout : ℕ → ℕ → ℕ) (fuel tot n off dst : ℕ) (ip : Inode) (s : Fs) (mem : Bytes)
    → IsLaidOut s
    → IsFile ip s
    → tot ≤ n
    → n ≤ tot + fuel
    → off + (n - tot) ≤ maxfile * bsize
    → (r : Option ℕ) × (ip' : Inode) × (s' : Fs) × (mem' : Bytes) × (read_loop copyout fuel tot n
          off dst ip s mem
        ≡ ok (r, ip', s', mem'))
      × ReadOut copyout tot n off dst ip s mem r ip' s' mem'
unfolding read_loop
read_loop-ReadOut copyout zero tot n off dst ip s mem l h t c big = (
  some tot,
  ip,
  s,
  mem,
  refl,
  stop (Kept-refl l h) t (inl (ap some (omega arith), inl (omega arith))),
)
read_loop-ReadOut copyout (suc fuel) tot n off dst ip s mem l h t c big =
    elim (Bool-cases (ltb tot n)) [
      | inl e ↦ elim (bmap-Found (off / bsize) ip s l h) [
        | inl (low, (a, ip₁, s₁, q, f)) ↦ elim (same_or a 0) [
          | inl z ↦ (
            some tot,
            ip₁,
            s₁,
            mem,
            rw (e, q, z) refl,
            stop f.kept t (inl (ap some (omega arith), inr (f.full z))),
          )
          | inr nz ↦ elim (Bool-cases (leb (part n tot off) (copyout dst (part n tot off)))) [
            | inl g ↦
                let m = part n tot off in
                let (r, ip', s', mem', q', w) =
                  read_loop-ReadOut copyout fuel (tot + m) n (off + m) (dst + m) ip₁ s₁
                    (copy mem dst (s₁.blocks a) (off % bsize) m) f.kept.laid f.kept.file
                    (omega arith) (ground arith) (ground arith) in
                (
                  r,
                  ip',
                  s',
                  mem',
                  rw (e, q, ==-ne a 0 nz, g) q',
                  record {
                    moved = m + w.moved;
                    out = longer m w.moved f nz (omega arith) big (ground arith) w.out;
                    ended = later_end copyout dst tot n m w.moved s' r w.ended;
                  },
                )
            | inr g ↦ (
              none,
              ip₁,
              s₁,
              copy mem dst (s₁.blocks a) (off % bsize) (copyout dst (part n tot off)),
              rw (e, q, ==-ne a 0 nz, g) refl,
              part_out f nz (omega arith) big (ground arith) (ground (arith, g)),
            )
          ]
        ]
        | inr (high, q) ↦ absurd (ground arith)
      ]
      | inr e ↦ (
        some tot,
        ip,
        s,
        mem,
        rw e refl,
        stop (Kept-refl l h) t (inl (ap some (omega arith), inl (ground arith))),
      )
    ]

-- The number of bytes that a read of `n` from `off` on may give.
abbrev pub readable : ℕ → ℕ → ℕ → ℕ
readable size off n = if ltb size (off + n) then size - off else n

-- For a well-formed file no larger than the largest one and a range below 2^32, readi() reads
-- nothing where the range starts beyond the end; otherwise it copies out bytes of the file from
-- the offset on, and changes neither the file nor other memory. It returns their number, which is
-- that of the range cut at the end of the file unless it meets a hole when no block is free; or a
-- copy failed, it returns -1, and the bytes copied are those of the copies before and those that
-- this copy had moved till then.
pub readi-ReadOut :
    (copyout : ℕ → ℕ → ℕ) (dst off n : ℕ) (ip : Inode) (s : Fs) (mem : Bytes)
    → IsLaidOut s
    → IsFile ip s
    → ip.size ≤ maxfile * bsize
    → off + n < 4294967296
    → ((ip.size < off) × (readi copyout dst off n ip s mem ≡ ok (some 0, ip, s, mem)))
      ⊎ ((off ≤ ip.size)
          × ((r : Option ℕ) × (ip' : Inode) × (s' : Fs) × (mem' : Bytes) × (readi copyout dst off n
                  ip s mem
                ≡ ok (r, ip', s', mem'))
              × ReadOut copyout 0 (readable ip.size off n) off dst ip s mem r ip' s' mem'))
unfolding readi
readi-ReadOut copyout dst off n ip s mem l h size small = elim (Bool-cases (ltb ip.size off)) [
  | inl e ↦ inl (ground arith, rw e refl)
  | inr e ↦
      let fine : bad_range ip.size off n ≡ false = ground arith in
      let m = readable ip.size off n in
      let (r, ip', s', mem', q, w) =
        read_loop-ReadOut copyout m 0 m off dst ip s mem l h (omega arith) (omega arith)
          (ground arith) in
      inr (
        ground arith,
        (
          r,
          ip',
          s',
          mem',
          ap (λ b. if b then ok (some 0, ip, s, mem) else read_loop copyout m 0 m off dst ip s mem)
                fine
              ∙ q,
          w,
        ),
      )
]

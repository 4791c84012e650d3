-- ===== src/Fs/RoundTrip.antt =====
-- A read of what was written, readi() after writei() of kernel/fs.c.
use operating_systems_2_assi.Prelude.{
  ℕ, ◌+◌, ◌-◌, ◌*◌, ◌≤◌, ◌<◌, ◌≡◌, ◌∙◌, ap, ◌⊎◌, inl, inr, some, arith, Bytes, ok,
}
use operating_systems_2_assi.SwapDisk.State.{bsize}
use operating_systems_2_assi.Fs.{Fs, Inode, maxfile}
use operating_systems_2_assi.Fs.Content.{writei, readi}
use operating_systems_2_assi.Fs.FreeMap.{IsFull}
use operating_systems_2_assi.Fs.Slots.{IsLaidOut, IsFile, file_byte}
use operating_systems_2_assi.Fs.Reading.{readi-ReadOut}
use operating_systems_2_assi.Fs.Saving.{writei-Written}

-- For a well-formed file and free map, a write of n bytes that starts within the file and ends
-- within the largest file, with copies that succeed, returns n unless no block is free; reading
-- those bytes back returns as many as were written unless no block is free, and they are the
-- bytes that were written.
pub readi-writei :
    (mem : Bytes) (src off n dst : ℕ) (ip : Inode) (s : Fs) (mem₁ : Bytes)
    → IsLaidOut s
    → IsFile ip s
    → ip.inum < s.ninodes
    → off ≤ ip.size
    → ip.size ≤ maxfile * bsize
    → off + n ≤ maxfile * bsize
    → (k : ℕ) × (ip' : Inode) × (s' : Fs) × (writei (λ a m. m) mem src off n ip s
        ≡ ok (some k, ip', s'))
      × ((k ≡ n) ⊎ IsFull s')
      × ((j : ℕ) × (ip₂ : Inode) × (s₂ : Fs) × (mem₂ : Bytes) × (readi
              (λ a m. m)
              dst
              off
              k
              ip'
              s'
              mem₁
            ≡ ok (some j, ip₂, s₂, mem₂))
          × ((j ≡ k) ⊎ IsFull s₂)
          × ((x : ℕ) → x < j → mem₂ (dst + x) ≡ mem (src + x)))
readi-writei mem src off n dst ip s mem₁ l h low here size fit =
    elim (writei-Written (λ a m. m) mem src off n ip s l h low (omega arith)) [
      | inl (bad, e) ↦ absurd (elim bad [ inl b ↦ omega arith | inr b ↦ omega arith ])
      | inr (a, b, (k, ip', s', e, w)) ↦
          let big : k ≤ n = let f = w.fits in omega arith in
          elim (readi-ReadOut (λ a m. m) dst off k ip' s' mem₁ w.laid w.file
            (let z = w.size in omega arith) (omega arith)) [
              | inl (c, q) ↦ absurd (let z = w.size in omega arith)
              | inr (c, (r, ip₂, s₂, mem₂, q, v)) ↦ elim v.ended [
                | inl (d, end) ↦ (
                  k,
                  ip',
                  s',
                  e,
                  elim w.ended [
                    | inl (z, inl y) ↦ inl (omega arith)
                    | inl (z, inr y) ↦ inr y
                    | inr (m, y, b, t) ↦ absurd (omega arith)
                  ],
                  (
                    v.moved,
                    ip₂,
                    s₂,
                    mem₂,
                    q ∙ ap (λ y. ok (y, ip₂, s₂, mem₂)) (d ∙ ap some (omega arith)),
                    elim end [ inl y ↦ inl (let z = w.size in ground arith) | inr y ↦ inr y ],
                    λ x m.
                        let st = v.out.stored (dst + x) in
                        let fi = v.out.fits in
                        let z = w.size in
                        let j : off + (dst + x - dst) ≡ off + x = omega arith in
                        let at = ap (file_byte ip' s') j in
                        let by = w.bytes (off + x) (ground arith) in
                        let o : src + (off + x - off) ≡ src + x = omega arith in
                        let va = ap mem o in ground (arith, st, at, by, va, m, fi, z),
                  ),
                )
                | inr (d, (i, m, y, t, u)) ↦ absurd (omega arith)
              ]
            ]
    ]

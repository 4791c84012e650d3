-- ===== src/Fs/Saving.antt =====
-- iupdate() and the whole of writei() of kernel/fs.c.
use operating_systems_2_assi.Prelude.{
  ℕ, ◌+◌, ◌-◌, ◌*◌, ◌/◌, ◌≤◌, ◌<◌, max, ◌≡◌, refl, sym, ◌∙◌, ap, ◌≢◌, false, ◌&&◌, ◌⊎◌, inl, inr,
  Option, none, some, ltb, leb, if◌then◌else◌, arith, Bytes, Bool-cases, ok, Outcome, ◌>>=◌,
  same_or,
}
use operating_systems_2_assi.SwapDisk.State.{bsize}
use operating_systems_2_assi.Fs.{Fs, Inode, ndirect, maxfile}
use operating_systems_2_assi.Fs.Content.{
  bad_range, write_loop, end_write, writei, iupdate, iblock, put_dinode, dinode_at,
}
use operating_systems_2_assi.Fs.FreeMap.{IsFull}
use operating_systems_2_assi.Fs.Slots.{nslots, slot, IsLaidOut, IsFile, file_byte}
use operating_systems_2_assi.Fs.Data.{set-IsLaidOut, set-IsFile, set-file_byte_ne, set-in_use}
use operating_systems_2_assi.Fs.Writing.{WriteEnd, WroteIn, write_loop-WroteIn}

-- The same blocks in an inode of another size.
resized-IsFile :
    (size : ℕ) (ip : Inode) (s : Fs) → IsFile ip s → IsFile (record ip { size = size }) s
unfolding slot
resized-IsFile size ip s h = record { used = h.used; apart = h.apart }

file_byte-resized :
    (size : ℕ) (ip : Inode) (s : Fs) (o : ℕ)
    → file_byte (record ip { size = size }) s o ≡ file_byte ip s o
unfolding file_byte slot
file_byte-resized size ip s o = refl

-- The file after its inode was written to the disk.
pub record Saved (ip : Inode) (s t : Fs) : Type 0 where
  pub laid : IsLaidOut t
  pub file : IsFile ip t
  pub bytes : (o : ℕ) → o / bsize < maxfile → file_byte ip t o ≡ file_byte ip s o
  pub full : IsFull s → IsFull t

pub iupdate-Saved :
    (ip : Inode) (s : Fs)
    → ip.inum < s.ninodes
    → IsLaidOut s
    → IsFile ip s
    → Saved ip s (iupdate ip s)
unfolding iupdate slot
iupdate-Saved ip s low l h = record {
  laid = set-IsLaidOut a v s not_map l;
  file = set-IsFile a v s not_map ip other h;
  bytes = set-file_byte_ne a v s not_map ip other away;
  full = λ f j m. set-in_use a v s not_map j m ∙ f j m;
}
  where
    a : ℕ
    a = iblock ip.inum s

    v : Bytes
    v = put_dinode ip (dinode_at ip.inum) (s.blocks (iblock ip.inum s))

    not_map : ¬ ((b : ℕ) × (b < s.size) × (b / 8192 + s.bmapstart ≡ iblock ip.inum s))
    not_map = l.disjoint ip.inum low

    away : (i : ℕ) → i < nslots → slot i ip s ≢ 0 → slot i ip s ≢ iblock ip.inum s
    away i m n e = (h.used i m n).data_block (inr (inr (ip.inum, low, sym e)))

    other : ip.addrs ndirect ≢ iblock ip.inum s
    other e = elim (same_or (ip.addrs ndirect) 0) [
      | inl z ↦ l.above ip.inum low (sym e ∙ z)
      | inr n ↦ away ndirect (omega arith) (λ y. n (at y)) (back e)
    ]
      where
        at : slot ndirect ip s ≡ 0 → ip.addrs ndirect ≡ 0
        at y = y

        back : ip.addrs ndirect ≡ iblock ip.inum s → slot ndirect ip s ≡ iblock ip.inum s
        back y = y

-- What writei() leaves that returns `k` for `n` bytes; `partial` more bytes are in the file after a
-- copy that failed.
pub record Written (copyin : ℕ → ℕ → ℕ) (mem : Bytes) (src off n k : ℕ) (ip : Inode) (s : Fs)
    (ip' : Inode) (s' : Fs) : Type 0 where
  pub partial : ℕ
  pub laid : IsLaidOut s'
  pub file : IsFile ip' s'
  pub bytes :
      (o : ℕ)
      → o / bsize < maxfile
      → file_byte ip' s' o ≡ (
          if leb off o && ltb o (off + (k + partial))
          then mem (src + (o - off))
          else file_byte ip s o)
  pub size : ip'.size ≡ max ip.size (off + k)
  pub fits : k + partial ≤ n
  pub ended : WriteEnd copyin src 0 n k partial s'

-- The end of writei() for an inode whose size is now `z`.
saved-Written :
    (copyin : ℕ → ℕ → ℕ) (mem : Bytes) (src off n k j z : ℕ) (ip ip' : Inode) (s s' : Fs)
    → ip.inum < s.ninodes
    → WroteIn off src (k + j) mem ip s ip' s'
    → k + j ≤ n
    → WriteEnd copyin src 0 n k j s'
    → z ≡ max ip.size (off + k)
    → Written copyin mem src off n k ip s
        (record ip' { size = z })
        (iupdate (record ip' { size = z }) s')
saved-Written copyin mem src off n k j z ip ip' s s' low w fit e q =
    let (x, y, y') = w.same_inode in
    let (u, v) = w.same_size in
    let t =
      iupdate-Saved (record ip' { size = z }) s' (omega arith) w.laid
        (resized-IsFile z ip' s' w.file) in
    record {
      partial = j;
      laid = t.laid;
      file = t.file;
      bytes = λ o r. t.bytes o r ∙ file_byte-resized z ip' s' o ∙ w.bytes o r;
      size = q;
      fits = omega arith;
      ended = elim e [
        | inl (d, y) ↦ inl (d, elim y [ inl z ↦ inl z | inr f ↦ inr (t.full f) ])
        | inr d ↦ inr d
      ];
    }

end_write-Written :
    (copyin : ℕ → ℕ → ℕ) (mem : Bytes) (src off n k j : ℕ) (ip ip' : Inode) (s s' : Fs)
    → ip.inum < s.ninodes
    → WroteIn off src (k + j) mem ip s ip' s'
    → k + j ≤ n
    → WriteEnd copyin src 0 n k j s'
    → (ip₂ : Inode) × (s₂ : Fs) × (end_write copyin mem (0 + k, off + k, ip', s')
        ≡ (some k, ip₂, s₂))
      × Written copyin mem src off n k ip s ip₂ s₂
unfolding end_write
end_write-Written copyin mem src off n k j ip ip' s s' low w fit e =
    let (x, y, y') = w.same_inode in
    elim (Bool-cases (ltb ip'.size (off + k))) [
      | inl l ↦ (
        record ip' { size = off + k },
        iupdate (record ip' { size = off + k }) s',
        rw l (
            ap
              (λ j.
                (some j, record ip' { size = off + k }, iupdate (record ip' { size = off + k }) s'))
              (omega arith)),
        saved-Written copyin mem src off n k j (off + k) ip ip' s s' low w fit e (ground arith),
      )
      | inr l ↦ (
        ip',
        iupdate ip' s',
        ap
              (λ b. (
                some (0 + k),
                (if b then record ip' { size = off + k } else ip'),
                iupdate (if b then record ip' { size = off + k } else ip') s',
              ))
              l
            ∙ ap (λ j. (some j, ip', iupdate ip' s')) (omega arith),
        saved-Written copyin mem src off n k j ip'.size ip ip' s s' low w fit e (ground arith),
      )
    ]

-- For a well-formed file and free map and a range below 2^32, writei() fails without a change
-- where the range starts beyond the end or ends beyond the largest file; otherwise it returns
-- some k, the first k of the n bytes are in the file, the size is the larger of the old size and
-- the end of those bytes, and the file stays well formed. If k is not n, then no block is free,
-- or the copy of the bytes after those k failed; in that case the bytes that this copy had moved
-- till then are in the file as well. No other byte of the file changes.
pub writei-Written :
    (copyin : ℕ → ℕ → ℕ) (mem : Bytes) (src off n : ℕ) (ip : Inode) (s : Fs)
    → IsLaidOut s
    → IsFile ip s
    → ip.inum < s.ninodes
    → off + n < 4294967296
    → (((ip.size < off) ⊎ (maxfile * bsize < off + n))
        × (writei copyin mem src off n ip s ≡ ok (none, ip, s)))
      ⊎ ((off ≤ ip.size)
          × (off + n ≤ maxfile * bsize)
          × ((k : ℕ) × (ip' : Inode) × (s' : Fs) × (writei copyin mem src off n ip s
                ≡ ok (some k, ip', s'))
              × Written copyin mem src off n k ip s ip' s'))
unfolding writei
writei-Written copyin mem src off n ip s l h low small = elim (Bool-cases (ltb ip.size off)) [
  | inl e ↦ inl (inl (ground arith), rw e refl)
  | inr e ↦
      let fine : bad_range ip.size off n ≡ false = ground arith in
      elim (Bool-cases (ltb (maxfile * bsize) (off + n))) [
        | inl d ↦ inl (
          inr (ground arith),
          ap (λ b. if b then ok (none, ip, s) else rest) fine
              ∙ ap (λ b. if b then ok (none, ip, s) else whole) d,
        )
        | inr d ↦
            let (k, j, ip₁, s₁, q, w, fit, end) =
              write_loop-WroteIn copyin mem n 0 n off src ip s l h (omega arith) (omega arith)
                (ground arith) in
            let (ip', s', q', v) =
              end_write-Written copyin mem src off n k j ip ip₁ s s₁ low w (omega arith) end in
            inr (
              ground arith,
              ground arith,
              (
                k,
                ip',
                s',
                ap (λ b. if b then ok (none, ip, s) else rest) fine
                    ∙ ap (λ b. if b then ok (none, ip, s) else whole) d
                    ∙ ap (λ x. x >>= λ r. ok (end_write copyin mem r)) q
                    ∙ ap ok q',
                v,
              ),
            )
      ]
]
  where
    whole : Outcome (Option ℕ × Inode × Fs)
    whole = write_loop copyin mem n 0 n off src ip s >>= λ r. ok (end_write copyin mem r)

    rest : Outcome (Option ℕ × Inode × Fs)
    rest = if ltb (maxfile * bsize) (off + n) then ok (none, ip, s) else whole

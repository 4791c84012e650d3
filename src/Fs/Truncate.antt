-- ===== src/Fs/Truncate.antt =====
-- itrunc() of kernel/fs.c.
use operating_systems_2_assi.Prelude.{
  ℕ, ◌+◌, ◌*◌, ◌%◌, ◌≤◌, ◌<◌, ◌≡◌, refl, sym, ◌∙◌, ap, ◌≢◌, false, ◌⊎◌, inl, inr, leb, arith,
  same_or, get_int, ok, update, ltb, Bool-cases, update_self, update_ne,
}
use operating_systems_2_assi.Fs.{Fs, Inode, ndirect, bblock, bpb, is_marked}
use operating_systems_2_assi.Fs.Content.{itrunc, iupdate, iblock, put_dinode, dinode_at}
use operating_systems_2_assi.Fs.FreeMap.{in_use}
use operating_systems_2_assi.Fs.Slots.{nslots, slot, IsReserved, IsLaidOut, IsFile}
use operating_systems_2_assi.Fs.Release.{
  Released, IsOwned, join_Released, same_Released, Released-IsOwned, IsOwned-sub,
}
use operating_systems_2_assi.Fs.Freeing.{free_direct-Released, free_indirect-Released}

-- The file is empty, its blocks are free, and its dinode says so.
pub record Truncated (ip : Inode) (s : Fs) (ip' : Inode) (s' : Fs) : Type 0 where
  pub gone : (i : ℕ) → i < nslots → slot i ip s ≢ 0 → in_use (slot i ip s) s' ≡ false
  pub others :
      (b : ℕ)
      → b < s.size
      → ((i : ℕ) → i < nslots → slot i ip s ≢ 0 → slot i ip s ≢ b)
      → in_use b s' ≡ in_use b s
  pub same_blocks : (k : ℕ) → ¬ IsReserved k s → s'.blocks k ≡ s.blocks k
  pub empty : (i : ℕ) → i < nslots → slot i ip' s' ≡ 0
  pub no_size : ip'.size ≡ 0
  pub same_inode : (ip'.inum ≡ ip.inum) × (ip'.kind ≡ ip.kind) × (ip'.nlink ≡ ip.nlink)
  pub saved :
      s'.blocks (iblock ip.inum s)
      ≡ put_dinode ip' (dinode_at ip.inum) (s.blocks (iblock ip.inum s))

-- The blocks of a file.
file_blocks : (ip : Inode) (s : Fs) → IsFile ip s → IsOwned (λ i. i < nslots) (λ i. slot i ip s) s
file_blocks ip s h = record {
  below = λ i l n. (h.used i l n).below;
  used = λ i l n. (h.used i l n).marked;
  apart = λ i j l m. h.apart i j l m;
}

no_slots :
    (ip : Inode) (s : Fs) → ((j : ℕ) → j ≤ ndirect → ip.addrs j ≡ 0) → (i : ℕ) → slot i ip s ≡ 0
unfolding slot
no_slots ip s z i = elim (Bool-cases (leb i ndirect)) [
  | inl e ↦ rw (e, z i (ground arith)) refl
  | inr e ↦ rw (e, z ndirect (omega arith)) refl
]

module _ (ip : Inode) (s : Fs) (l : IsLaidOut s) (h : IsFile ip s) (low : ip.inum < s.ninodes) where
  low_slot : (j : ℕ) → j ≤ ndirect → ip.addrs j ≡ slot j ip s
  unfolding slot
  low_slot j m = ground (arith, m)

  slot-listed :
      (k : ℕ)
      → slot ndirect ip s ≢ 0
      → get_int (s.blocks (slot ndirect ip s)) (4 * k) ≡ slot (13 + k) ip s
  unfolding slot
  slot-listed k n = ground (arith, n)

  no_slot : (k : ℕ) → slot ndirect ip s ≡ 0 → slot (13 + k) ip s ≡ 0
  unfolding slot
  no_slot k z = ground (arith, z)

  -- All the blocks are released before the inode is saved.
  blocks-Released :
      (addrs : ℕ → ℕ) × (t : Fs) × (itrunc ip s
        ≡ ok (
          record ip { addrs = addrs; size = 0 },
          iupdate (record ip { addrs = addrs; size = 0 }) t,
        ))
      × ((j : ℕ) → j ≤ ndirect → addrs j ≡ 0)
      × Released (λ i. i < nslots) (λ i. slot i ip s) s t
  unfolding itrunc
  blocks-Released =
      let f = file_blocks ip s h in
      let (addrs₁, s₁, q₁, z₁, r₁) =
        free_direct-Released (λ i. slot i ip s) ndirect 0 ip s
          (λ j (a, b). low_slot j (omega arith)) (IsOwned-sub (λ i (a, b). omega arith) f) in
      let (addrs, t, q, z, r) =
        free_indirect-Released (λ i. slot i ip s) (record ip { addrs = addrs₁ }) s₁
          (z₁.others ndirect (λ (a, b). omega arith) ∙ low_slot ndirect (omega arith))
          (λ k m n.
            ap (λ bytes. get_int bytes (4 * k))
              (r₁.same_blocks (slot ndirect ip s)
                (λ m'. (h.used ndirect (omega arith) n).data_block (inr (inl m'))))
            ∙ slot-listed k n)
          (λ k m z. no_slot k z)
          (Released-IsOwned {R = λ i. i < nslots} (λ i (a, b). omega arith)
            (λ i (a, b). omega arith) (λ i j (a, b) (c, d) e. omega arith) f r₁) in
      (
        addrs,
        t,
        rw (q₁, q) refl,
        (λ j m. elim (same_or j ndirect) [
          | inl e ↦ z.zero j e
          | inr n ↦ z.others j n ∙ z₁.zero j (omega arith, omega arith)
        ]),
        same_Released (λ j c. elim c [ inl (a, b) ↦ omega arith | inr (a, b) ↦ omega arith ])
            (λ j m. elim (leb_or j) [
              | inl a ↦ inl (omega arith, omega arith)
              | inr a ↦ inr (omega arith, omega arith)
            ])
            (join_Released
              (λ i j (a, b) (c, d) nz.
                f.apart j i (omega arith) (omega arith) (λ e. omega arith) nz)
              r₁ r),
      )
    where
      leb_or : (j : ℕ) → (j < ndirect) ⊎ (ndirect ≤ j)
      leb_or j = elim (Bool-cases (ltb j ndirect)) [
        | inl e ↦ inl (ground arith)
        | inr e ↦ inr (ground arith)
      ]

  -- What saving an inode leaves of the free map.
  in_use-iupdate :
      (ip' : Inode) (t : Fs)
      → ip'.inum ≡ ip.inum
      → (t.inodestart ≡ s.inodestart) × (t.bmapstart ≡ s.bmapstart)
      → (b : ℕ) → b < s.size
      → in_use b (iupdate ip' t) ≡ in_use b t
  unfolding iupdate
  in_use-iupdate ip' t e (x, y) b m =
      let v = put_dinode ip' (dinode_at ip'.inum) (t.blocks (iblock ip'.inum t)) in
      ap (λ bytes. is_marked bytes (b % bpb))
        (update_ne t.blocks (iblock ip'.inum t) (bblock b t) v
          (λ d. l.disjoint ip.inum low (b, m, omega arith)))

  -- For a well-formed file and free map and an inode number of the disk, itrunc() succeeds; every
  -- block of the file, the indirect one included, is free afterwards, and no other mark changes;
  -- no data block changes; the inode has size 0 and no blocks, and its dinode on the disk is
  -- written from it.
  pub itrunc-Truncated :
      (ip' : Inode) × (s' : Fs) × (itrunc ip s ≡ ok (ip', s')) × Truncated ip s ip' s'
  unfolding iupdate
  itrunc-Truncated =
      let (addrs, t, q, z, r) = blocks-Released in
      let (x, y, u, w) = r.same_layout in
      let ip' : Inode = record ip { addrs = addrs; size = 0 } in
      let at : iblock ip.inum t ≡ iblock ip.inum s = omega arith in
      let old : t.blocks (iblock ip.inum s) ≡ s.blocks (iblock ip.inum s) =
        r.same_blocks (iblock ip.inum s) (l.disjoint ip.inum low) in
      let v = put_dinode ip' (dinode_at ip.inum) (t.blocks (iblock ip.inum t)) in
      (
        ip',
        iupdate ip' t,
        q,
        record {
          gone = λ i m n.
              in_use-iupdate ip' t refl (u, w) (slot i ip s) (h.used i m n).below ∙ r.gone i m n;
          others = λ b m g. in_use-iupdate ip' t refl (u, w) b m ∙ r.others b g;
          same_blocks = λ k m.
              update_ne t.blocks (iblock ip.inum t) k v
                (λ e. m (inr (inr (ip.inum, low, sym at ∙ sym e))))
              ∙ r.same_blocks k (λ c. m (inr (inl c)));
          empty = λ i m. no_slots ip' (iupdate ip' t) z i;
          no_size = refl;
          same_inode = (refl, refl, refl);
          saved =
              ap (update t.blocks (iblock ip.inum t) v) (sym at)
              ∙ update_self t.blocks (iblock ip.inum t) v
              ∙ ap (λ k. put_dinode ip' (dinode_at ip.inum) (t.blocks k)) at
              ∙ ap (put_dinode ip' (dinode_at ip.inum)) old;
        },
      )

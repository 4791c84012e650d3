-- ===== src/Fs/Slots.antt =====
-- The block numbers of an inode of kernel/fs.c and the bytes of its file.
use operating_systems_2_assi.Prelude.{
  ℕ, ◌+◌, ◌-◌, ◌*◌, ◌/◌, ◌%◌, ◌≤◌, ◌<◌, ◌≡◌, sym, ◌∙◌, ap, ◌≢◌, subst, true, false, ◌⊎◌, inl, inr,
  ltb, leb, ◌==◌, if◌then◌else◌, arith, same_or, get_int,
}
use operating_systems_2_assi.SwapDisk.State.{bsize}
use operating_systems_2_assi.Fs.{Fs, Inode, ndirect, maxfile}
use operating_systems_2_assi.Fs.Content.{iblock}
use operating_systems_2_assi.Fs.FreeMap.{in_use, IsMapBlock}

-- Slot 12 is the indirect block; the slots after it are its entries.
abbrev pub nslots : ℕ
nslots = maxfile + 1

unfoldable pub slot : ℕ → Inode → Fs → ℕ
slot i ip s =
    if leb i ndirect
    then ip.addrs i
    else if ip.addrs ndirect == 0
    then 0
    else get_int (s.blocks (ip.addrs ndirect)) (4 * (i - 13))

-- The slot of block `bn` of the file.
abbrev pub data_slot : ℕ → ℕ
data_slot bn = if ltb bn ndirect then bn else bn + 1

-- Blocks that are not for data: the boot block, the free map and the inodes.
abbrev pub IsReserved : ℕ → Fs → Type 0
IsReserved k s = (k ≡ 0) ⊎ IsMapBlock k s ⊎ ((inum : ℕ) × (inum < s.ninodes) × (iblock inum s ≡ k))

-- A layout in which the reserved blocks are in use.
pub record IsLaidOut (s : Fs) : Type 0 where
  pub small : s.size ≤ 4294967296
  pub reserved : (k : ℕ) → IsReserved k s → (k < s.size) × (in_use k s ≡ true)
  pub disjoint : (inum : ℕ) → inum < s.ninodes → ¬ IsMapBlock (iblock inum s) s
  pub above : (inum : ℕ) → inum < s.ninodes → iblock inum s ≢ 0

-- A data block that is in use.
pub record IsUsed (k : ℕ) (s : Fs) : Type 0 where
  pub below : k < s.size
  pub marked : in_use k s ≡ true
  pub data_block : ¬ IsReserved k s

-- The blocks of a file are data blocks in use, each of them once.
pub record IsFile (ip : Inode) (s : Fs) : Type 0 where
  pub used : (i : ℕ) → i < nslots → slot i ip s ≢ 0 → IsUsed (slot i ip s) s
  pub apart :
      (i j : ℕ) → i < nslots → j < nslots → i ≢ j → slot i ip s ≢ 0 → slot i ip s ≢ slot j ip s

-- The byte at an offset of the file; a hole reads as 0.
unfoldable pub file_byte : Inode → Fs → ℕ → ℕ
file_byte ip s off =
    let a = slot (data_slot (off / bsize)) ip s in if a == 0 then 0 else s.blocks a (off % bsize)

-- Slot `i`, which was empty, gets the fresh block `x`, which is all zeros.
pub record Grow (i x : ℕ) (ip : Inode) (s : Fs) (ip' : Inode) (s' : Fs) : Type 0 where
  pub was_empty : slot i ip s ≡ 0
  pub now : slot i ip' s' ≡ x
  pub others : (j : ℕ) → j < nslots → j ≢ i → slot j ip' s' ≡ slot j ip s
  pub fresh : in_use x s ≡ false
  pub used : IsUsed x s'
  pub cleared : s'.blocks x ≡ (λ k. 0)
  pub kept : (k : ℕ) → ¬ IsReserved k s → k ≢ x → k ≢ slot ndirect ip s → s'.blocks k ≡ s.blocks k
  pub marks : (j : ℕ) → j < s.size → j ≢ x → in_use j s' ≡ in_use j s
  pub same_layout :
      (s'.size ≡ s.size)
      × (s'.ninodes ≡ s.ninodes)
      × (s'.inodestart ≡ s.inodestart)
      × (s'.bmapstart ≡ s.bmapstart)
  pub same_inode : (ip'.size ≡ ip.size) × (ip'.inum ≡ ip.inum) × (ip'.kind ≡ ip.kind)

module _ {i x : ℕ} {ip ip' : Inode} {s s' : Fs} (g : Grow i x ip s ip' s') where
  Grow-IsReserved : (k : ℕ) → IsReserved k s' → IsReserved k s
  Grow-IsReserved k (inl e) = inl e
  Grow-IsReserved k (inr (inl (b, l, e))) =
      let (p, q, r, t) = g.same_layout in inr (inl (b, omega arith, omega arith))
  Grow-IsReserved k (inr (inr (inum, l, e))) =
      let (p, q, r, t) = g.same_layout in inr (inr (inum, omega arith, omega arith))

  IsReserved-Grow : (k : ℕ) → IsReserved k s → IsReserved k s'
  IsReserved-Grow k (inl e) = inl e
  IsReserved-Grow k (inr (inl (b, l, e))) =
      let (p, q, r, t) = g.same_layout in inr (inl (b, omega arith, omega arith))
  IsReserved-Grow k (inr (inr (inum, l, e))) =
      let (p, q, r, t) = g.same_layout in inr (inr (inum, omega arith, omega arith))

  -- A block in use is not the fresh one.
  not_fresh : (k : ℕ) → in_use k s ≡ true → k ≢ x
  not_fresh k u e = let f = g.fresh in absurd (let v = ap (λ y. in_use y s) e in cc)

  pub Grow-IsLaidOut : IsLaidOut s → IsLaidOut s'
  Grow-IsLaidOut h = record {
    small = let (p, q, r', t) = g.same_layout in let l = h.small in omega arith;
    reserved = λ k r.
        let (l, u) = h.reserved k (Grow-IsReserved k r) in
        let (p, q, r', t) = g.same_layout in (omega arith, g.marks k l (not_fresh k u) ∙ u);
    disjoint = λ inum l (b, m, e).
        let (p, q, r', t) = g.same_layout in
        h.disjoint inum (omega arith) (b, omega arith, omega arith);
    above =
        λ inum l e. let (p, q, r', t) = g.same_layout in h.above inum (omega arith) (omega arith);
  }

  pub Grow-IsUsed : (k : ℕ) → IsUsed k s → IsUsed k s'
  Grow-IsUsed k u = record {
    below = let (p, q, r', t) = g.same_layout in let l = u.below in omega arith;
    marked = g.marks k u.below (not_fresh k u.marked) ∙ u.marked;
    data_block = λ r. u.data_block (Grow-IsReserved k r);
  }

  pub Grow-IsFile : IsFile ip s → IsFile ip' s'
  Grow-IsFile h = record {
    used = λ j l n. elim (same_or j i) [
      | inl e ↦
          subst (λ k. IsUsed (slot k ip' s') s') (sym e)
            (subst (λ k. IsUsed k s') (sym g.now) g.used)
      | inr m ↦
          let o = g.others j l m in
          subst (λ k. IsUsed k s') (sym o) (Grow-IsUsed (slot j ip s) (h.used j l (λ z. n (o ∙ z))))
    ];
    apart = λ j k l m n z e. elim (same_or j i) [
      | inl c ↦ elim (same_or k i) [
        | inl d ↦ n (c ∙ sym d)
        | inr d ↦
            let o = g.others k m d in
            let v = ap (λ y. slot y ip' s') c ∙ g.now in
            let u = h.used k m (λ y. z (e ∙ o ∙ y)) in
            not_fresh (slot k ip s) u.marked (sym o ∙ sym e ∙ v)
      ]
      | inr c ↦
          let o = g.others j l c in
          let nonzero = λ (y : slot j ip s ≡ 0). z (o ∙ y) in
          elim (same_or k i) [
            | inl d ↦
                let v = ap (λ y. slot y ip' s') d ∙ g.now in
                not_fresh (slot j ip s) (h.used j l nonzero).marked (sym o ∙ e ∙ v)
            | inr d ↦ h.apart j k l m n nonzero (sym o ∙ e ∙ g.others k m d)
          ]
    ];
  }

  -- The bytes of the file do not change: the new block stands where a hole was.
  pub Grow-file_byte :
      IsFile ip s → (off : ℕ) → off / bsize < maxfile → file_byte ip' s' off ≡ file_byte ip s off
  unfolding file_byte
  Grow-file_byte h off l = elim (same_or j i) [
    | inl e ↦
        let now = ap (λ y. slot y ip' s') e ∙ g.now in
        let before = ap (λ y. slot y ip s) e ∙ g.was_empty in
        let zero_byte = ap (λ f. f (off % bsize)) (ap s'.blocks now ∙ g.cleared) in
        ground (arith, now, before, zero_byte)
    | inr n ↦
        let o = g.others j in_range n in
        elim (same_or (slot j ip s) 0) [
          | inl z ↦ ground (arith, o, z)
          | inr nz ↦
              let u = h.used j in_range nz in
              let same =
                ap (λ f. f (off % bsize))
                  (ap s'.blocks o
                    ∙ g.kept (slot j ip s) u.data_block (not_fresh (slot j ip s) u.marked)
                        (h.apart j ndirect in_range (omega arith) (ground arith) nz)) in
              ground (arith, o, nz, same)
        ]
  ]
    where
      j : ℕ
      j = data_slot (off / bsize)

      in_range : data_slot (off / bsize) < nslots
      in_range = ground arith

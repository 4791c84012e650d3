-- ===== src/Fs/Data.antt =====
-- A write to a block of the file system of kernel/fs.c that is not in the free map: to a data block
-- of a file, and to a block of inodes (iupdate()).
use operating_systems_2_assi.Prelude.{
  ℕ, ◌-◌, ◌*◌, ◌/◌, ◌%◌, ◌<◌, ◌≡◌, sym, ◌∙◌, ap, ◌≢◌, subst, inl, inr, leb, ◌==◌, if◌then◌else◌,
  arith, Bytes, update, update_self, update_ne, same_or, get_int,
}
use operating_systems_2_assi.SwapDisk.State.{bsize}
use operating_systems_2_assi.Fs.{Fs, Inode, ndirect, maxfile, set_block, bblock, bpb, is_marked}
use operating_systems_2_assi.Fs.FreeMap.{in_use, IsMapBlock}
use operating_systems_2_assi.Fs.Slots.{
  nslots, slot, data_slot, IsReserved, IsLaidOut, IsUsed, IsFile, file_byte,
}

module _ (a : ℕ) (v : Bytes) (s : Fs) (not_map : ¬ IsMapBlock a s) where
  pub set-in_use : (j : ℕ) → j < s.size → in_use j (set_block a v s) ≡ in_use j s
  set-in_use j l =
      ap (λ f. is_marked f (j % bpb)) (update_ne s.blocks a (bblock j s) v (λ e. not_map (j, l, e)))

  set-IsReserved : (k : ℕ) → IsReserved k (set_block a v s) → IsReserved k s
  set-IsReserved k (inl e) = inl e
  set-IsReserved k (inr (inl x)) = inr (inl x)
  set-IsReserved k (inr (inr x)) = inr (inr x)

  pub set-IsLaidOut : IsLaidOut s → IsLaidOut (set_block a v s)
  set-IsLaidOut h = record {
    small = h.small;
    reserved = λ k r. let (l, u) = h.reserved k (set-IsReserved k r) in (l, set-in_use k l ∙ u);
    disjoint = h.disjoint;
    above = h.above;
  }

  pub set-IsUsed : (k : ℕ) → IsUsed k s → IsUsed k (set_block a v s)
  set-IsUsed k u = record {
    below = u.below;
    marked = set-in_use k u.below ∙ u.marked;
    data_block = λ r. u.data_block (set-IsReserved k r);
  }

  -- The slots do not change if the indirect block does not.
  module _ (ip : Inode) (other : ip.addrs ndirect ≢ a) where
    pub set-slot : (i : ℕ) → slot i ip (set_block a v s) ≡ slot i ip s
    unfolding slot
    set-slot i =
        ap
          (λ f.
            if leb i ndirect
            then ip.addrs i
            else if ip.addrs ndirect == 0
            then 0
            else get_int f (4 * (i - 13)))
          (update_ne s.blocks a (ip.addrs ndirect) v other)

    pub set-IsFile : IsFile ip s → IsFile ip (set_block a v s)
    set-IsFile h = record {
      used = λ i l n.
          subst (λ k. IsUsed k (set_block a v s)) (sym (set-slot i))
            (set-IsUsed (slot i ip s) (h.used i l (λ z. n (set-slot i ∙ z))));
      apart = λ i j l m n z e.
          h.apart i j l m n (λ y. z (set-slot i ∙ y)) (sym (set-slot i) ∙ e ∙ set-slot j);
    }

    -- The bytes of a file whose slot `i` is the block.
    pub set-file_byte :
        (i : ℕ)
        → i < nslots
        → a ≢ 0
        → slot i ip s ≡ a
        → IsFile ip s
        → (o : ℕ) → o / bsize < maxfile
        → file_byte ip (set_block a v s) o
          ≡ (if data_slot (o / bsize) == i then v (o % bsize) else file_byte ip s o)
    unfolding file_byte
    set-file_byte i l z e h o r = elim (same_or j i) [
      | inl d ↦
          let at = set-slot j ∙ ap (λ x. slot x ip s) d ∙ e in
          let byte =
            ap (λ f. f (o % bsize)) (ap (update s.blocks a v) at ∙ update_self s.blocks a v) in
          ground (arith, d, at, z, byte)
      | inr n ↦
          let at = set-slot j in
          let away = λ (y : slot j ip s ≡ a).
            h.apart i j l in_range (λ x. n (sym x)) (λ x. z (sym e ∙ x)) (e ∙ sym y) in
          let byte =
            ap (λ f. f (o % bsize))
              (ap (update s.blocks a v) at ∙ update_ne s.blocks a (slot j ip s) v away) in
          ground (arith, n, at, byte)
    ]
      where
        j : ℕ
        j = data_slot (o / bsize)

        in_range : data_slot (o / bsize) < nslots
        in_range = ground arith

    -- The bytes of a file that does not have the block.
    pub set-file_byte_ne :
        ((i : ℕ) → i < nslots → slot i ip s ≢ 0 → slot i ip s ≢ a)
        → (o : ℕ) → o / bsize < maxfile
        → file_byte ip (set_block a v s) o ≡ file_byte ip s o
    unfolding file_byte
    set-file_byte_ne away o r = elim (same_or (slot j ip s) 0) [
      | inl z ↦ let at = set-slot j in ground (arith, at, z)
      | inr n ↦
          let at = set-slot j in
          let byte =
            ap (λ f. f (o % bsize))
              (ap (update s.blocks a v) at
                ∙ update_ne s.blocks a (slot j ip s) v (away j in_range n)) in
          ground (arith, n, at, byte)
    ]
      where
        j : ℕ
        j = data_slot (o / bsize)

        in_range : data_slot (o / bsize) < nslots
        in_range = ground arith

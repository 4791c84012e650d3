-- ===== src/Fs/Map.antt =====
-- The steps of bmap() of kernel/fs.c that give a block to a slot of the inode.
use operating_systems_2_assi.Prelude.{
  ℕ, ◌+◌, ◌-◌, ◌*◌, ◌%◌, ◌≤◌, ◌<◌, ◌≡◌, refl, sym, ◌∙◌, ap, ◌≢◌, true, false, ◌⊎◌, inl, inr, leb,
  arith, Bytes, update_self, update_ne, same_or, get_int, put_int, get_int-put_int_self,
  get_int-put_int_ne, Bool-cases, ==-ne,
}
use operating_systems_2_assi.Fs.{
  Fs, Inode, ndirect, nindirect, bblock, bpb, is_marked, set_addr, set_block,
}
use operating_systems_2_assi.Fs.FreeMap.{in_use, Taken}
use operating_systems_2_assi.Fs.Slots.{nslots, slot, IsReserved, IsLaidOut, IsUsed, IsFile, Grow}

-- A fresh block is a data block.
pub Taken-IsUsed : {x : ℕ} {s t : Fs} → IsLaidOut s → Taken x s t → (¬ IsReserved x s) × IsUsed x t
Taken-IsUsed {x} {s} {t} h k =
    let (p, q, r', w) = k.same_layout in
    (
      free,
      record {
        below = let l = k.below in omega arith;
        marked = k.now_used (λ m. free (inr (inl m)));
        data_block = λ r. free (back r);
      },
    )
  where
    free : ¬ IsReserved x s
    free r = let (l, u) = h.reserved x r in let f = k.was_free in cc

    back : IsReserved x t → IsReserved x s
    back (inl e) = inl e
    back (inr (inl (b, l, e))) =
        let (p, q, r', w) = k.same_layout in inr (inl (b, omega arith, omega arith))
    back (inr (inr (i, l, e))) =
        let (p, q, r', w) = k.same_layout in inr (inr (i, omega arith, omega arith))

zero_entry : (f : Bytes) (k : ℕ) → f ≡ (λ j. 0) → get_int f k ≡ 0
unfolding get_int
zero_entry f k e = rw e refl

-- The entries of the inode itself.
module _ (i x : ℕ) (ip : Inode) (s t : Fs) (h : IsFile ip s) (k : Taken x s t) (low : i ≤ ndirect)
    (empty : ip.addrs i ≡ 0) (data_block : ¬ IsReserved x s) where
  own_slot : slot i (set_addr i x ip) t ≡ x
  unfolding slot
  own_slot = ground (arith, low)

  own_others : (j : ℕ) → j < nslots → j ≢ i → slot j (set_addr i x ip) t ≡ slot j ip s
  unfolding slot
  own_others j l n = elim (Bool-cases (leb j ndirect)) [
    | inl e ↦ ground (arith, e, n)
    | inr e ↦ elim (same_or i ndirect) [
      | inl d ↦
          let zeros = zero_entry (t.blocks x) (4 * (j - 13)) k.cleared in
          ground (arith, e, d, empty, zeros)
      | inr d ↦ elim (same_or (ip.addrs ndirect) 0) [
        | inl z ↦ ground (arith, e, d, z)
        | inr nz ↦
            let u = h.used ndirect (omega arith) (λ y. nz (own_indirect y)) in
            let same =
              k.same_blocks (ip.addrs ndirect) (ne u.marked) (λ m. u.data_block (inr (inl m))) in
            let entry = ap (λ f. get_int f (4 * (j - 13))) same in ground (arith, e, d, nz, entry)
      ]
    ]
  ]
    where
      own_indirect : slot ndirect ip s ≡ 0 → ip.addrs ndirect ≡ 0
      own_indirect y = ground (arith, y)

      ne : in_use (ip.addrs ndirect) s ≡ true → ip.addrs ndirect ≢ x
      ne u e = let f = k.was_free in let v = ap (λ y. in_use y s) e in cc

  pub own-Grow : IsUsed x t → Grow i x ip s (set_addr i x ip) t
  unfolding slot
  own-Grow u = record {
    was_empty = own_was_empty;
    now = own_slot;
    others = own_others;
    fresh = k.was_free;
    used = u;
    cleared = k.cleared;
    kept = λ b r n m. k.same_blocks b n (λ y. r (inr (inl y)));
    marks = λ j l n. k.others (λ y. data_block (inr (inl y))) j l n;
    same_layout = k.same_layout;
    same_inode = (refl, refl, refl);
  }
    where
      own_was_empty : slot i ip s ≡ 0
      own_was_empty = ground (arith, low, empty)

-- The entries of the indirect block.
abbrev pub listed : ℕ → ℕ → Inode → Fs → Fs
listed i x ip t = set_block (ip.addrs ndirect) (put_int (t.blocks (ip.addrs ndirect)) (4 * i) x) t

module _ (i x : ℕ) (ip : Inode) (s t : Fs) (laid : IsLaidOut s) (h : IsFile ip s) (k : Taken x s t)
    (low : i < nindirect) (there : ip.addrs ndirect ≢ 0)
    (empty : get_int (s.blocks (ip.addrs ndirect)) (4 * i) ≡ 0)
    (data_block : ¬ IsReserved x s) where
  at-IsUsed : IsUsed (ip.addrs ndirect) s
  unfolding slot
  at-IsUsed = h.used ndirect (omega arith) there

  at-ne : ip.addrs ndirect ≢ x
  at-ne e =
      let f = k.was_free in
      let u = at-IsUsed.marked in let v = ap (λ y. in_use y s) e in absurd (cc)

  at_same : t.blocks (ip.addrs ndirect) ≡ s.blocks (ip.addrs ndirect)
  at_same = k.same_blocks (ip.addrs ndirect) at-ne (λ m. at-IsUsed.data_block (inr (inl m)))

  entry_of :
      (j : ℕ)
      → get_int ((listed i x ip t).blocks (ip.addrs ndirect)) (4 * j)
        ≡ get_int (put_int (t.blocks (ip.addrs ndirect)) (4 * i) x) (4 * j)
  entry_of j =
      ap (λ f. get_int f (4 * j))
        (update_self t.blocks (ip.addrs ndirect) (put_int (t.blocks (ip.addrs ndirect)) (4 * i) x))

  small : x < 4294967296
  small = let l = k.below in let m = laid.small in omega arith

  slot-listed : slot (i + 13) ip (listed i x ip t) ≡ x
  unfolding slot
  slot-listed =
      let e = entry_of i in
      let v = get_int-put_int_self (t.blocks (ip.addrs ndirect)) (4 * i) x small in
      let r : i + 13 - 13 ≡ i = omega arith in
      rw (r, ==-ne (ip.addrs ndirect) 0 there) (ground (arith, e, v))

  listed_others : (j : ℕ) → j < nslots → j ≢ i + 13 → slot j ip (listed i x ip t) ≡ slot j ip s
  unfolding slot
  listed_others j l n = elim (Bool-cases (leb j ndirect)) [
    | inl e ↦ ground (arith, e)
    | inr e ↦
        let a = entry_of (j - 13) in
        let v =
          get_int-put_int_ne (t.blocks (ip.addrs ndirect)) (4 * i) (4 * (j - 13)) x (sides j n e) in
        let w = ap (λ f. get_int f (4 * (j - 13))) at_same in
        rw (e, ==-ne (ip.addrs ndirect) 0 there) (a ∙ v ∙ w)
  ]
    where
      sides :
          (j : ℕ)
          → j ≢ i + 13
          → leb j ndirect ≡ false
          → (4 * i + 4 ≤ 4 * (j - 13)) ⊎ (4 * (j - 13) + 4 ≤ 4 * i)
      sides j n e = ground (arith, n, e)

  listed_marks : (j : ℕ) → j < s.size → in_use j (listed i x ip t) ≡ in_use j t
  listed_marks j l =
      ap (λ f. is_marked f (j % bpb))
        (update_ne t.blocks (ip.addrs ndirect) (bblock j t)
          (put_int (t.blocks (ip.addrs ndirect)) (4 * i) x)
          (λ e.
            at-IsUsed.data_block
              (inr (inl (j, l, let (p, q, r, w) = k.same_layout in omega arith)))))

  pub listed-Grow : IsUsed x t → Grow (i + 13) x ip s ip (listed i x ip t)
  unfolding slot
  listed-Grow u = record {
    was_empty = listed_empty;
    now = slot-listed;
    others = listed_others;
    fresh = k.was_free;
    used = record {
      below = u.below;
      marked = listed_marks x k.below ∙ u.marked;
      data_block = u.data_block;
    };
    cleared =
        update_ne t.blocks (ip.addrs ndirect) x (put_int (t.blocks (ip.addrs ndirect)) (4 * i) x)
          (λ e. at-ne (sym e))
        ∙ k.cleared;
    kept = λ b r n m.
        update_ne t.blocks (ip.addrs ndirect) b (put_int (t.blocks (ip.addrs ndirect)) (4 * i) x)
          (indirect-ne b m)
        ∙ k.same_blocks b n (λ y. r (inr (inl y)));
    marks = λ j l n. listed_marks j l ∙ k.others (λ y. data_block (inr (inl y))) j l n;
    same_layout = k.same_layout;
    same_inode = (refl, refl, refl);
  }
    where
      indirect-ne : (b : ℕ) → b ≢ slot ndirect ip s → b ≢ ip.addrs ndirect
      indirect-ne b m = m

      listed_empty : slot (i + 13) ip s ≡ 0
      listed_empty =
          let r : i + 13 - 13 ≡ i = omega arith in
          rw (r, ==-ne (ip.addrs ndirect) 0 there) (ground (arith, empty))

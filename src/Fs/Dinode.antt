-- ===== src/Fs/Dinode.antt =====
-- iupdate() of kernel/fs.c and the read of an inode by ilock().
use operating_systems_2_assi.Prelude.{
  ℕ, ◌+◌, ◌*◌, ◌≤◌, ◌<◌, ◌≡◌, sym, ◌∙◌, ap, ◌≢◌, subst, ◌⊎◌, inl, inr, arith, Bytes, update,
  update_self, update_ne, same_or, put_int, put_short, put_ints, get_int-put_int_self, get_int-cong,
  put_int_ne, put_short_ne, put_ints_ne, get_short-put_short_self, get_short-cong, get_int-put_ints,
}
use operating_systems_2_assi.Fs.{Fs, Inode, ndirect}
use operating_systems_2_assi.Fs.Content.{
  dinode_size, iblock, dinode_at, put_dinode, get_dinode, iupdate,
}

-- An inode whose fields fit their types.
pub record IsSmall (ip : Inode) : Type 0 where
  pub kind : ip.kind < 65536
  pub major : ip.major < 65536
  pub minor : ip.minor < 65536
  pub nlink : ip.nlink < 65536
  pub size : ip.size < 4294967296
  pub addrs : (i : ℕ) → i ≤ ndirect → ip.addrs i < 4294967296

-- The same fields.
pub record SameInode (ip jp : Inode) : Type 0 where
  pub kind : ip.kind ≡ jp.kind
  pub major : ip.major ≡ jp.major
  pub minor : ip.minor ≡ jp.minor
  pub nlink : ip.nlink ≡ jp.nlink
  pub size : ip.size ≡ jp.size
  pub addrs : (i : ℕ) → i ≤ ndirect → ip.addrs i ≡ jp.addrs i

module _ (ip : Inode) (off : ℕ) (bytes : Bytes) where
  abbrev with_kind : Bytes
  with_kind = put_short bytes off ip.kind

  abbrev with_major : Bytes
  with_major = put_short with_kind (off + 2) ip.major

  abbrev with_minor : Bytes
  with_minor = put_short with_major (off + 4) ip.minor

  abbrev with_nlink : Bytes
  with_nlink = put_short with_minor (off + 6) ip.nlink

  abbrev with_size : Bytes
  with_size = put_int with_nlink (off + 8) ip.size

  abbrev done : Bytes
  done = put_ints (off + 12) (ndirect + 1) 0 ip.addrs with_size

  done_size : (k : ℕ) → k < off + 12 → done k ≡ with_size k
  done_size k l = put_ints_ne (off + 12) (ndirect + 1) 0 ip.addrs with_size k (inl (omega arith))

  done_nlink : (k : ℕ) → k < off + 8 → done k ≡ with_nlink k
  done_nlink k l = done_size k (omega arith) ∙ put_int_ne with_nlink (off + 8) ip.size k (inl l)

  done_minor : (k : ℕ) → k < off + 6 → done k ≡ with_minor k
  done_minor k l = done_nlink k (omega arith) ∙ put_short_ne with_minor (off + 6) ip.nlink k (inl l)

  done_major : (k : ℕ) → k < off + 4 → done k ≡ with_major k
  done_major k l = done_minor k (omega arith) ∙ put_short_ne with_major (off + 4) ip.minor k (inl l)

  done_kind : (k : ℕ) → k < off + 2 → done k ≡ with_kind k
  done_kind k l = done_major k (omega arith) ∙ put_short_ne with_kind (off + 2) ip.major k (inl l)

  -- Only the bytes of the dinode change.
  pub put_dinode_ne :
      (k : ℕ) → (k < off) ⊎ (off + dinode_size ≤ k) → put_dinode ip off bytes k ≡ bytes k
  unfolding put_dinode
  put_dinode_ne k (inl l) = done_kind k (omega arith) ∙ put_short_ne bytes off ip.kind k (inl l)
  put_dinode_ne k (inr l) =
      put_ints_ne (off + 12) (ndirect + 1) 0 ip.addrs with_size k (inr (omega arith))
      ∙ put_int_ne with_nlink (off + 8) ip.size k (inr (omega arith))
      ∙ put_short_ne with_minor (off + 6) ip.nlink k (inr (omega arith))
      ∙ put_short_ne with_major (off + 4) ip.minor k (inr (omega arith))
      ∙ put_short_ne with_kind (off + 2) ip.major k (inr (omega arith))
      ∙ put_short_ne bytes off ip.kind k (inr (omega arith))

  pub get-put_dinode :
      (inum : ℕ) → IsSmall ip → SameInode (get_dinode inum off (put_dinode ip off bytes)) ip
  unfolding get_dinode put_dinode
  get-put_dinode inum h = record {
    kind =
        get_short-cong done with_kind off (done_kind off (omega arith))
          (done_kind (off + 1) (omega arith))
        ∙ get_short-put_short_self bytes off ip.kind h.kind;
    major =
        get_short-cong done with_major (off + 2) (done_major (off + 2) (omega arith))
          (done_major (off + 2 + 1) (omega arith))
        ∙ get_short-put_short_self with_kind (off + 2) ip.major h.major;
    minor =
        get_short-cong done with_minor (off + 4) (done_minor (off + 4) (omega arith))
          (done_minor (off + 4 + 1) (omega arith))
        ∙ get_short-put_short_self with_major (off + 4) ip.minor h.minor;
    nlink =
        get_short-cong done with_nlink (off + 6) (done_nlink (off + 6) (omega arith))
          (done_nlink (off + 6 + 1) (omega arith))
        ∙ get_short-put_short_self with_minor (off + 6) ip.nlink h.nlink;
    size =
        get_int-cong done with_size (off + 8) (λ k a b. done_size k (omega arith))
        ∙ get_int-put_int_self with_nlink (off + 8) ip.size h.size;
    addrs = λ i l.
        get_int-put_ints (off + 12) (ndirect + 1) 0 ip.addrs with_size i (h.addrs i l) (omega arith)
          (omega arith);
  }

-- An inode reads back as it was written, and the others stay as they are.
get_dinode-cong :
    (inum off : ℕ) (a b : Bytes)
    → ((k : ℕ) → off ≤ k → k < off + dinode_size → a k ≡ b k)
    → SameInode (get_dinode inum off a) (get_dinode inum off b)
unfolding get_dinode
get_dinode-cong inum off a b h = record {
  kind =
      get_short-cong a b off (h off (omega arith) (omega arith))
        (h (off + 1) (omega arith) (omega arith));
  major =
      get_short-cong a b (off + 2) (h (off + 2) (omega arith) (omega arith))
        (h (off + 2 + 1) (omega arith) (omega arith));
  minor =
      get_short-cong a b (off + 4) (h (off + 4) (omega arith) (omega arith))
        (h (off + 4 + 1) (omega arith) (omega arith));
  nlink =
      get_short-cong a b (off + 6) (h (off + 6) (omega arith) (omega arith))
        (h (off + 6 + 1) (omega arith) (omega arith));
  size = get_int-cong a b (off + 8) (λ k l m. h k (omega arith) (omega arith));
  addrs = λ i l. get_int-cong a b (off + 12 + 4 * i) (λ k x y. h k (omega arith) (omega arith));
}

-- The dinode of inode `j` in a file system.
abbrev pub on_disk : ℕ → Fs → Inode
on_disk j s = get_dinode j (dinode_at j) (s.blocks (iblock j s))

-- After iupdate() of an inode whose fields fit their types, the disk has its fields as its
-- dinode, and every other dinode is as before.
pub iupdate-SameInode :
    (ip : Inode) (s : Fs)
    → IsSmall ip
    → SameInode (on_disk ip.inum (iupdate ip s)) ip
      × ((j : ℕ) → j ≢ ip.inum → SameInode (on_disk j (iupdate ip s)) (on_disk j s))
unfolding iupdate
iupdate-SameInode ip s h = (own, other)
  where
    at : ℕ
    at = iblock ip.inum s

    new : Bytes
    new = put_dinode ip (dinode_at ip.inum) (s.blocks (iblock ip.inum s))

    own :
        SameInode
          (get_dinode ip.inum
            (dinode_at ip.inum)
            (update s.blocks (iblock ip.inum s) new (iblock ip.inum s)))
          ip
    own =
        subst (λ f. SameInode (get_dinode ip.inum (dinode_at ip.inum) f) ip)
          (sym (update_self s.blocks at new))
          (get-put_dinode ip (dinode_at ip.inum) (s.blocks (iblock ip.inum s)) ip.inum h)

    other :
        (j : ℕ)
        → j ≢ ip.inum
        → SameInode
            (get_dinode j (dinode_at j) (update s.blocks (iblock ip.inum s) new (iblock j s)))
            (get_dinode j (dinode_at j) (s.blocks (iblock j s)))
    other j n =
        get_dinode-cong j (dinode_at j) (update s.blocks at new (iblock j s))
          (s.blocks (iblock j s))
          (λ k l m. elim (same_or (iblock j s) (iblock ip.inum s)) [
            | inl e ↦
                ap (λ x. update s.blocks at new x k) e
                ∙ ap (λ f. f k) (update_self s.blocks at new)
                ∙ put_dinode_ne ip (dinode_at ip.inum) (s.blocks (iblock ip.inum s)) k
                    (outside j k n e l m)
                ∙ ap (λ x. s.blocks x k) (sym e)
            | inr d ↦ ap (λ f. f k) (update_ne s.blocks at (iblock j s) new d)
          ])
      where
        outside :
            (j k : ℕ)
            → j ≢ ip.inum
            → iblock j s ≡ iblock ip.inum s
            → dinode_at j ≤ k
            → k < dinode_at j + dinode_size
            → (k < dinode_at ip.inum) ⊎ (dinode_at ip.inum + dinode_size ≤ k)
        outside j k n e l m = omega arith

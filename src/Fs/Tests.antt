-- ===== src/Fs/Tests.antt =====
-- Tests and examples of the file system of kernel/fs.c.
use operating_systems_2_assi.Prelude.{
  ℕ, ◌+◌, ◌*◌, ◌≤◌, ◌<◌, ◌≡◌, refl, ◌⊎◌, inl, inr, Option, some, none, true, Bytes, ok, Outcome,
  panic, Panic, arith, find_first, ◌≢◌, ap, ◌∙◌, ◌==◌, ◌&&◌, sym, subst, if◌then◌else◌,
}
use operating_systems_2_assi.SwapDisk.State.{bsize}
use operating_systems_2_assi.Fs.{
  Fs, Inode, maxfile, balloc, balloc_loop, found_block, take_block, bmap, bzero, own_block,
}
use operating_systems_2_assi.Fs.Content.{
  itrunc, writei, readi, iupdate, read_loop, write_loop, end_write,
}
use operating_systems_2_assi.Fs.FreeMap.{in_use, IsFull, Taken, balloc-Taken}
use operating_systems_2_assi.Fs.Slots.{slot, IsReserved, IsLaidOut, IsUsed, IsFile}
use operating_systems_2_assi.Fs.Truncate.{Truncated, itrunc-Truncated}
use operating_systems_2_assi.Fs.Bmap.{Found, bmap-Found}
use operating_systems_2_assi.Fs.Reading.{readable, ReadOut, readi-ReadOut}
use operating_systems_2_assi.Fs.Saving.{Written, writei-Written}
use operating_systems_2_assi.Fs.RoundTrip.{readi-writei}
use operating_systems_2_assi.Fs.Dinode.{IsSmall, SameInode, on_disk, iupdate-SameInode}

-- 20 blocks: block 1 has the inodes, block 2 the free map, whose first byte is `marks`; block 3 is
-- full of the byte 5.
abbrev disk_with : ℕ → Fs
disk_with marks = record {
  size = 20;
  ninodes = 16;
  inodestart = 1;
  bmapstart = 2;
  blocks = λ b k. if b == 2 && k == 0 then marks else if b == 3 then 5 else 0;
}

-- Blocks 0, 1 and 2 are in use.
abbrev small_disk : Fs
small_disk = disk_with 7

-- Block 3 is in use as well, for a file of one block.
abbrev used_disk : Fs
used_disk = disk_with 15

abbrev empty_file : Inode
empty_file = record {
  inum = 3;
  kind = 2;
  major = 0;
  minor = 0;
  nlink = 1;
  size = 0;
  addrs = λ i. 0;
}

abbrev sevens : Bytes
sevens k = 7

abbrev taken_of : ℕ × Fs → ℕ
taken_of r = r.0

-- The first free block is block 3.
first_free : taken_of (balloc small_disk) ≡ 3
unfolding balloc balloc_loop found_block take_block bzero find_first
first_free = refl

module _ (marks : ℕ) (boot : in_use 0 (disk_with marks) ≡ true)
    (inodes : in_use 1 (disk_with marks) ≡ true) (map : in_use 2 (disk_with marks) ≡ true) where
  at :
      (k j : ℕ)
      → k ≡ j
      → j < 20
      → in_use j (disk_with marks) ≡ true
      → (k < 20) × (in_use k (disk_with marks) ≡ true)
  at k j e l u = (omega arith, ap (λ x. in_use x (disk_with marks)) e ∙ u)

  reserved :
      (k : ℕ) → IsReserved k (disk_with marks) → (k < 20) × (in_use k (disk_with marks) ≡ true)
  reserved k (inl e) = at k 0 e (omega arith) boot
  reserved k (inr (inl (b, l, e))) = at k 2 (omega arith) (omega arith) map
  reserved k (inr (inr (inum, l, e))) = at k 1 (omega arith) (omega arith) inodes

  disk_with-IsLaidOut : IsLaidOut (disk_with marks)
  disk_with-IsLaidOut = record {
    small = omega arith;
    reserved = reserved;
    disjoint = λ inum l (b, m, e). omega arith;
    above = λ inum l e. omega arith;
  }

small_disk-IsLaidOut : IsLaidOut small_disk
small_disk-IsLaidOut = disk_with-IsLaidOut 7 refl refl refl

empty_slot : (i : ℕ) → slot i empty_file small_disk ≡ 0
unfolding slot
empty_slot i = ground arith

empty_file-IsFile : IsFile empty_file small_disk
empty_file-IsFile = record {
  used = λ i l n. absurd (n (empty_slot i));
  apart = λ i j l m d n e. n (empty_slot i);
}

empty_file-IsSmall : IsSmall empty_file
empty_file-IsSmall = record {
  kind = omega arith;
  major = omega arith;
  minor = omega arith;
  nlink = omega arith;
  size = omega arith;
  addrs = λ i l. omega arith;
}

balloc-Taken_example :
    (IsFull small_disk × (balloc small_disk ≡ (0, small_disk)))
    ⊎ ((t : Fs) × (x : ℕ) × (balloc small_disk ≡ (x, t)) × Taken x small_disk t)
balloc-Taken_example = balloc-Taken small_disk

bmap-Found_example :
    ((5 < maxfile)
      × ((a : ℕ) × (ip' : Inode) × (s' : Fs) × (bmap 5 empty_file small_disk ≡ ok (a, ip', s'))
          × Found 5 a empty_file small_disk ip' s'))
    ⊎ ((maxfile ≤ 5) × (bmap 5 empty_file small_disk ≡ panic Panic.bmap))
bmap-Found_example = bmap-Found 5 empty_file small_disk small_disk-IsLaidOut empty_file-IsFile

writei-Written_example :
    (((0 < 0) ⊎ (maxfile * bsize < 2000))
      × (writei (λ d m. m) sevens 0 0 2000 empty_file small_disk
          ≡ ok (none, empty_file, small_disk)))
    ⊎ ((0 ≤ 0)
        × (2000 ≤ maxfile * bsize)
        × ((k : ℕ) × (ip' : Inode) × (s' : Fs) × (writei
                (λ d m. m)
                sevens
                0
                0
                2000
                empty_file
                small_disk
              ≡ ok (some k, ip', s'))
            × Written (λ d m. m) sevens 0 0 2000 k empty_file small_disk ip' s'))
writei-Written_example =
    writei-Written (λ d m. m) sevens 0 0 2000 empty_file small_disk small_disk-IsLaidOut
      empty_file-IsFile (omega arith) (omega arith)

readi-writei_example :
    (k : ℕ) × (ip' : Inode) × (s' : Fs) × (writei (λ a m. m) sevens 0 0 2000 empty_file small_disk
      ≡ ok (some k, ip', s'))
    × ((k ≡ 2000) ⊎ IsFull s')
    × ((j : ℕ) × (ip₂ : Inode) × (s₂ : Fs) × (mem₂ : Bytes) × (readi
            (λ a m. m)
            50
            0
            k
            ip'
            s'
            (λ x. 1)
          ≡ ok (some j, ip₂, s₂, mem₂))
        × ((j ≡ k) ⊎ IsFull s₂)
        × ((x : ℕ) → x < j → mem₂ (50 + x) ≡ sevens (0 + x)))
readi-writei_example =
    readi-writei sevens 0 0 2000 50 empty_file small_disk (λ x. 1) small_disk-IsLaidOut
      empty_file-IsFile (omega arith) (omega arith) (omega arith) (omega arith)

iupdate-SameInode_example :
    SameInode (on_disk 3 (iupdate empty_file small_disk)) empty_file
    × ((j : ℕ)
        → j ≢ 3
        → SameInode (on_disk j (iupdate empty_file small_disk)) (on_disk j small_disk))
iupdate-SameInode_example = iupdate-SameInode empty_file small_disk empty_file-IsSmall

abbrev one_block : Inode
one_block = record empty_file { size = 9; addrs = λ i. if i == 0 then 3 else 0 }

one_slot : (i : ℕ) → slot i one_block used_disk ≢ 0 → (i ≡ 0) × (slot i one_block used_disk ≡ 3)
unfolding slot
one_slot i n = ground (arith, n)

block_3-IsUsed : IsUsed 3 used_disk
block_3-IsUsed = record { below = omega arith; marked = refl; data_block = free }
  where
    free : ¬ IsReserved 3 used_disk
    free (inl e) = omega arith
    free (inr (inl (b, l, e))) = omega arith
    free (inr (inr (inum, l, e))) = omega arith

one_block-IsFile : IsFile one_block used_disk
one_block-IsFile = record {
  used =
      λ i l n. let (z, e) = one_slot i n in subst (λ k. IsUsed k used_disk) (sym e) block_3-IsUsed;
  apart = λ i j l m d n e.
      let (z, a) = one_slot i n in let (z', b) = one_slot j (λ y. n (e ∙ y)) in omega arith;
}

itrunc-Truncated_example :
    (ip' : Inode) × (s' : Fs) × (itrunc one_block used_disk ≡ ok (ip', s'))
    × Truncated one_block used_disk ip' s'
itrunc-Truncated_example =
    itrunc-Truncated one_block used_disk (disk_with-IsLaidOut 15 refl refl refl) one_block-IsFile
      (omega arith)

-- A read of the file of one block, whose copy fails after 4 of the 9 bytes.
readi-ReadOut_example :
    ((9 < 0)
      × (readi (λ d m. 4) 20 0 100 one_block used_disk sevens
          ≡ ok (some 0, one_block, used_disk, sevens)))
    ⊎ ((0 ≤ 9)
        × ((r : Option ℕ) × (ip' : Inode) × (s' : Fs) × (mem' : Bytes) × (readi
                (λ d m. 4)
                20
                0
                100
                one_block
                used_disk
                sevens
              ≡ ok (r, ip', s', mem'))
            × ReadOut
                (λ d m. 4)
                0
                (readable 9 0 100)
                0
                20
                one_block
                used_disk
                sevens
                r
                ip'
                s'
                mem'))
readi-ReadOut_example =
    readi-ReadOut (λ d m. 4) 20 0 100 one_block used_disk sevens
      (disk_with-IsLaidOut 15 refl refl refl) one_block-IsFile (omega arith) (omega arith)

-- The result of a read, and the bytes before and behind the place where its copy stops.
seen : Outcome (Option ℕ × Inode × Fs × Bytes) → Option ℕ × ℕ × ℕ
seen (ok (r, ip, s, mem)) = (r, mem 23, mem 24)
seen (panic p) = (none, 0, 0)

-- With a copy that fails, and with one that does not.
read_part : seen (readi (λ d m. 4) 20 0 100 one_block used_disk sevens) ≡ (none, 5, 7)
unfolding seen readi read_loop bmap own_block
read_part = refl

read_whole : seen (readi (λ d m. m) 20 0 100 one_block used_disk sevens) ≡ (some 9, 5, 5)
unfolding seen readi read_loop bmap own_block
read_whole = refl

-- The count of a write, and the first bytes of block 3 after it.
put_in : Outcome (Option ℕ × Inode × Fs) → Option ℕ × ℕ × ℕ
put_in (ok (r, ip, s)) = (r, s.blocks 3 1, s.blocks 3 2)
put_in (panic p) = (none, 0, 0)

-- A write of 4 bytes whose copy fails after 2 of them.
write_part : put_in (writei (λ d m. 2) sevens 0 0 4 one_block used_disk) ≡ (some 0, 7, 5)
unfolding put_in writei write_loop end_write iupdate bmap own_block
write_part = refl

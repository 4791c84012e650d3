-- ===== src/SwapDisk/Raid/Write.antt =====
-- What raid_write() of kernel/swap_disk.c leaves on the disks, in each mode.
use operating_systems_2_assi.Prelude.{
  ℕ, zero, suc, ◌+◌, ◌*◌, ◌/◌, ◌%◌, ◌<◌, ◌≡◌, refl, inl, inr, true, false, arith, ◌==◌, Bytes, copy,
  update₂, ok, bit_xor, Bool-cases, ltb, if◌then◌else◌, sym, ◌∙◌, ap,
}
use Prim.Native.Nat.{bit_xor-bitwise}
use operating_systems_2_assi.SwapDisk.State.{
  SwapDisk, raid_0, raid_1, raid_5, ndisks, disk_blocks_per_disk, bsize,
}
use operating_systems_2_assi.SwapDisk.Queue.Accounting.{IsIdle, submit-Submitted}
use operating_systems_2_assi.SwapDisk.Raid.{
  pair_of, mirror_block, row_of, parity_disk, data_disk, phys_block, phys_write, raid_write,
  parity_loop,
}
use operating_systems_2_assi.SwapDisk.Raid.Layout.{
  IsMode, home_disk, home_block, extra_disk, touches, Fits,
}

-- The disks after a write of `n` bytes' worth of block at one place.
abbrev pub put : (ℕ → ℕ → Bytes) → ℕ → ℕ → Bytes → ℕ → ℕ → ℕ → Bytes
put disks d b src off = update₂ disks d b (copy (disks d b) 0 src off bsize)

phys_write_lem :
    (disk block : ℕ) (src : Bytes) (off mode : ℕ) (s : SwapDisk)
    → disk < ndisks
    → phys_block mode block < disk_blocks_per_disk
    → phys_write disk block src off mode s
      ≡ ok (record s { disks = put s.disks disk (phys_block mode block) src off })
unfolding phys_write
phys_write_lem disk block src off mode s h k = ground arith

-- The XOR of the three data blocks of a row, which lie where its blocks are read from.
abbrev pub data_xor : (ℕ → ℕ → Bytes) → ℕ → ℕ → ℕ → ℕ
data_xor disks row b k =
    bit_xor (bit_xor (disks (data_disk (row * 3)) b k) (disks (data_disk (row * 3 + 1)) b k))
      (disks (data_disk (row * 3 + 2)) b k)

-- What a write leaves, from `s` to `t`: the block is in its place, no other place has changed but
-- the mirror or the parity block, and the modes and the idle queue are kept.
pub record Written (mode lb : ℕ) (src : Bytes) (off me : ℕ) (s t : SwapDisk) : Type 0 where
  pub still_idle : IsIdle me t
  pub same_mode : t.raid_mode ≡ s.raid_mode
  pub same_slots : t.slot_mode ≡ s.slot_mode
  pub home :
      (k : ℕ) → k < bsize → t.disks (home_disk mode lb) (home_block mode lb) k ≡ src (off + k)
  pub mirror :
      mode ≡ raid_1
      → (k : ℕ) → k < bsize
      → t.disks (extra_disk mode lb) (home_block mode lb) k ≡ src (off + k)
  pub parity :
      mode ≡ raid_5
      → (k : ℕ) → k < bsize
      → t.disks (extra_disk mode lb) (home_block mode lb) k
        ≡ data_xor t.disks (row_of lb) (home_block mode lb) k
  pub elsewhere : (d b : ℕ) → touches mode lb d b ≡ false → t.disks d b ≡ s.disks d b
  pub count : t.queue.total_requests ≡ s.queue.total_requests + 1

zero-bit_xor : (x : ℕ) → bit_xor 0 x ≡ x
zero-bit_xor x = bit_xor-bitwise 0 x

-- The `j`-th disk other than the parity disk `p`.
abbrev lane : ℕ → ℕ → ℕ
lane p j = if ltb j p then j else j + 1

parity_loop-lane :
    (disks : ℕ → ℕ → Bytes) (p b k : ℕ)
    → p < ndisks
    → parity_loop disks p b ndisks 0 (λ _. 0) k
      ≡ bit_xor (bit_xor (disks (lane p 0) b k) (disks (lane p 1) b k)) (disks (lane p 2) b k)
unfolding parity_loop
parity_loop-lane disks zero b k h = rw zero-bit_xor refl
parity_loop-lane disks (suc zero) b k h = rw zero-bit_xor refl
parity_loop-lane disks (suc (suc zero)) b k h = rw zero-bit_xor refl
parity_loop-lane disks (suc (suc (suc zero))) b k h = rw zero-bit_xor refl
parity_loop-lane disks (suc (suc (suc (suc p)))) b k h = absurd (omega arith)

data_disk-lane : (row j : ℕ) → j < 3 → data_disk (row * 3 + j) ≡ lane (parity_disk row) j
data_disk-lane row j h = ground arith

parity_loop-data_xor :
    (disks : ℕ → ℕ → Bytes) (row b k : ℕ)
    → parity_loop disks (parity_disk row) b ndisks 0 (λ _. 0) k ≡ data_xor disks row b k
parity_loop-data_xor disks row b k =
    let e : data_disk (row * 3) ≡ lane (parity_disk row) 0 = ground arith in
    rw (e, data_disk-lane row 1 (omega arith), data_disk-lane row 2 (omega arith))
      (parity_loop-lane disks (parity_disk row) b k (omega arith))

-- The parity of a row does not depend on what its parity disk holds.
parity_loop-put :
    (disks : ℕ → ℕ → Bytes) (p b : ℕ) (src : Bytes) (n d : ℕ) (acc : Bytes)
    → parity_loop (put disks p b src 0) p b n d acc ≡ parity_loop disks p b n d acc
unfolding parity_loop
parity_loop-put disks p b src zero d acc = refl
parity_loop-put disks p b src (suc n) d acc = elim (Bool-cases (d == p)) [
  | inl e ↦ rw e (parity_loop-put disks p b src n (suc d) acc)
  | inr e ↦ rw e (parity_loop-put disks p b src n (suc d) (λ k. bit_xor (acc k) (disks d b k)))
]

module _ (lb : ℕ) (src : Bytes) (off me : ℕ) (s : SwapDisk) (idle : IsIdle me s) where
  write_0 :
      Fits raid_0 lb
      → (t : SwapDisk) × (raid_write lb src off raid_0 s ≡ ok t) × Written raid_0 lb src off me s t
  unfolding raid_write
  write_0 fits =
      let (t, e, p) = submit-Submitted (lb / ndisks) true me s idle in
      (
        record t { disks = put t.disks (lb % ndisks) (lb / ndisks) src off },
        rw e (phys_write_lem (lb % ndisks) (lb / ndisks) src off raid_0 t (omega arith) fits),
        record {
          still_idle = record { idle = p.still_idle.idle; caller = p.still_idle.caller };
          same_mode = p.same_mode;
          same_slots = p.same_slots;
          home = λ k h. ground arith;
          mirror = λ m. absurd (omega arith);
          parity = λ m. absurd (omega arith);
          elsewhere = λ d b h. ground (arith, p.same_disks);
          count = p.requests;
        },
      )

  write_1 :
      Fits raid_1 lb
      → (t : SwapDisk) × (raid_write lb src off raid_1 s ≡ ok t) × Written raid_1 lb src off me s t
  unfolding raid_write
  write_1 fits =
      let (t, e, p) = submit-Submitted (mirror_block lb) true me s idle in
      let d = put t.disks (pair_of lb * 2) (mirror_block lb + 2048) src off in
      (
        record t { disks = put d (pair_of lb * 2 + 1) (mirror_block lb + 2048) src off },
        ground (
          arith,
          e,
          phys_write_lem (pair_of lb * 2) (mirror_block lb) src off raid_1 t (omega arith) fits,
          phys_write_lem (pair_of lb * 2 + 1) (mirror_block lb) src off raid_1
              (record t { disks = d }) (omega arith) fits,
        ),
        record {
          still_idle = record { idle = p.still_idle.idle; caller = p.still_idle.caller };
          same_mode = p.same_mode;
          same_slots = p.same_slots;
          home = λ k h. ground arith;
          mirror = λ m k h. ground arith;
          parity = λ m. absurd (omega arith);
          elsewhere = λ d b h. ground (arith, p.same_disks);
          count = p.requests;
        },
      )

  write_5 :
      Fits raid_5 lb
      → (t : SwapDisk) × (raid_write lb src off raid_5 s ≡ ok t) × Written raid_5 lb src off me s t
  unfolding raid_write
  write_5 fits =
      let (t, e, p) = submit-Submitted (row_of lb) true me s idle in
      let b : ℕ = row_of lb + 4096 in
      let d = put t.disks (data_disk lb) b src off in
      let par = parity_loop d (parity_disk (row_of lb)) b ndisks 0 (λ _. 0) in
      (
        record t { disks = put d (parity_disk (row_of lb)) b par 0 },
        ground (
          arith,
          e,
          phys_write_lem (data_disk lb) (row_of lb) src off raid_5 t (ground arith) fits,
          phys_write_lem (parity_disk (row_of lb)) (row_of lb) par 0 raid_5 (record t { disks = d })
              (omega arith) fits,
        ),
        record {
          still_idle = record { idle = p.still_idle.idle; caller = p.still_idle.caller };
          same_mode = p.same_mode;
          same_slots = p.same_slots;
          home = λ k h. ground arith;
          mirror = λ m. absurd (omega arith);
          parity = λ m k h.
              let q =
                ap (λ f. f k)
                  (parity_loop-put d (parity_disk (row_of lb)) b par ndisks 0 (λ _. 0)) in
              let after = put d (parity_disk (row_of lb)) b par 0 in
              let stored : after (parity_disk (row_of lb)) b k ≡ par k = ground arith in
              stored ∙ sym q ∙ parity_loop-data_xor after (row_of lb) b k;
          elsewhere = λ d b h. ground (arith, p.same_disks);
          count = p.requests;
        },
      )

-- A block write in a mode that fits the disks, with an idle queue, succeeds, puts the block in
-- its place, mirrors it in RAID 1, makes the parity block of the row the XOR of the three blocks
-- that are read as its data in RAID 5, and changes no other block.
pub raid_write-Written :
    (mode lb : ℕ) (src : Bytes) (off me : ℕ) (s : SwapDisk)
    → IsMode mode
    → Fits mode lb
    → IsIdle me s
    → (t : SwapDisk) × (raid_write lb src off mode s ≡ ok t) × Written mode lb src off me s t
raid_write-Written mode lb src off me s (inl m) f i = rw m (write_0 lb src off me s i (rw m at f))
raid_write-Written mode lb src off me s (inr (inl m)) f i =
    rw m (write_1 lb src off me s i (rw m at f))
raid_write-Written mode lb src off me s (inr (inr m)) f i =
    rw m (write_5 lb src off me s i (rw m at f))

-- ===== src/SwapDisk/Pages/Collisions.antt =====
-- Slots of kernel/swap_disk.c that share blocks of the disks, so that writing one destroys the page
-- that is stored for the other.
use operating_systems_2_assi.Prelude.{
  ℕ, ◌+◌, ◌*◌, ◌/◌, ◌%◌, ◌<◌, ◌≡◌, ◌≢◌, refl, inl, inr, arith, Bytes, ◌∙◌, ap, ap₂, ltb,
  if◌then◌else◌, ok, lt→ltb, ==-ne,
}
use operating_systems_2_assi.SwapDisk.State.{
  SwapDisk, raid_0, raid_1, bsize, blocks_per_page, max_swap_slots,
}
use operating_systems_2_assi.SwapDisk.Queue.Accounting.{IsIdle}
use operating_systems_2_assi.SwapDisk.Raid.Layout.{IsMode, home_disk, home_block}
use operating_systems_2_assi.SwapDisk.Pages.{swap_out_page, swap_in_page}
use operating_systems_2_assi.SwapDisk.Pages.Out.{SlotFits, swap_out_page-PageOut}
use operating_systems_2_assi.SwapDisk.Pages.In.{slot_block, page_of, swap_in_page-filled}
use operating_systems_2_assi.SwapDisk.Pages.Faults.{servable-SlotFits}

-- Slot `k` in mode `m` and slot `l` in mode `m'` put block `i` and block `j` in one place.
record Shares (m k i m' l j : ℕ) : Type 0 where
  disk : home_disk m (k * 4 + i) ≡ home_disk m' (l * 4 + j)
  block : home_block m (k * 4 + i) ≡ home_block m' (l * 4 + j)

-- Byte `b` of block `i` of a buffer that holds the page of some blocks.
byte_of_block :
    (block : ℕ → Bytes) (dst out : Bytes) (i b : ℕ)
    → i < 4
    → b < bsize
    → ((q : ℕ) → out q ≡ (if ltb q (blocks_per_page * bsize) then page_of block q else dst q))
    → out (i * bsize + b) ≡ block i b
byte_of_block block dst out i b hi hb h =
    let q : ℕ = i * bsize + b in
    let e : q / bsize ≡ i = omega arith in
    let f : q % bsize ≡ b = omega arith in
    h q ∙ rw (lt→ltb q (blocks_per_page * bsize) (omega arith), e, f)

module _ (page : Bytes) (dst : Bytes) (k l me m : ℕ) (s : SwapDisk) where
  -- After a page went to `l` in the current mode, reading `k`, recorded in mode `m`, returns block
  -- `j` of that page for each block `i` of `k` that shares its place.
  reads_other :
      IsMode s.raid_mode
      → l < max_swap_slots
      → SlotFits s.raid_mode l
      → IsIdle me s
      → k < max_swap_slots
      → k ≢ l
      → s.slot_mode k ≡ m
      → IsMode m
      → SlotFits m k
      → (t : SwapDisk) × (u : SwapDisk) × (out : Bytes) × (swap_out_page page l s ≡ ok t)
        × (swap_in_page dst k t ≡ ok (out, u))
        × ((i j b : ℕ)
            → i < 4
            → j < 4
            → Shares m k i s.raid_mode l j
            → b < bsize
            → out (i * bsize + b) ≡ page (j * bsize + b))
  reads_other mm hl fl idle hk n e m' fk =
      let (t, f, p) = swap_out_page-PageOut page l me s mm hl fl idle in
      let r : t.slot_mode k ≡ m = rw (p.recorded, ==-ne k l n) e in
      let (out, u, g, x, y) = swap_in_page-filled dst k me t (rw r m') hk (rw r fk) p.still_idle in
      (
        t,
        u,
        out,
        f,
        g,
        λ i j b hi hj sh hb.
            byte_of_block (slot_block (t.slot_mode k) k t.disks) dst out i b hi hb x
            ∙ rw r (ap₂ (λ (d c : ℕ). t.disks d c b) sh.disk sh.block ∙ p.stored j b hj hb),
      )

mirror-Shares : (k i : ℕ) → k < 4096 → i < 4 → Shares raid_1 k i raid_1 (k + 8192) i
mirror-Shares k i h a = record { disk = omega arith; block = omega arith }

-- Two buffers that agree on each byte of each block agree on the page.
byte_at :
    (out page : Bytes)
    → ((i b : ℕ) → i < 4 → b < bsize → out (i * bsize + b) ≡ page (i * bsize + b))
    → (q : ℕ) → q < 4096
    → out q ≡ page q
byte_at out page h q hq =
    let e : q / bsize * bsize + q % bsize ≡ q = omega arith in
    rw e at (h (q / bsize) (q % bsize) (omega arith) (omega arith))

-- With the current mode RAID 1 and an idle queue, slot k and slot k + 8192 are the same blocks of
-- the same disks, for every k below 3584 that was written in RAID 1: a page swapped out to the
-- second is what the first reads back.
pub raid_1_alias :
    (page dst : Bytes) (k me : ℕ) (s : SwapDisk)
    → k < 3584
    → s.raid_mode ≡ raid_1
    → s.slot_mode k ≡ raid_1
    → IsIdle me s
    → (t : SwapDisk) × (u : SwapDisk) × (out : Bytes) × (swap_out_page page (k + 8192) s ≡ ok t)
      × (swap_in_page dst k t ≡ ok (out, u))
      × ((q : ℕ) → q < 4096 → out q ≡ page q)
raid_1_alias page dst k me s h m e idle =
    let (t, u, out, f, g, x) =
      reads_other page dst k (k + 8192) me raid_1 s (inr (inl m)) (omega arith)
        (rw m (servable-SlotFits raid_1 (k + 8192) (inr (inl refl)) (omega arith) (ground arith)))
        idle (omega arith) (omega arith) e (inr (inl refl))
        (servable-SlotFits raid_1 k (inr (inl refl)) (omega arith) (ground arith)) in
    (
      t,
      u,
      out,
      f,
      g,
      λ q hq.
          byte_at out page (λ i b a c. x i i b a a (rw m (mirror-Shares k i (omega arith) a)) c) q
            hq,
    )

stripe-Shares : (k i : ℕ) → k < 3584 → i < 4 → Shares raid_1 k i raid_0 (k * 4 + i + 2048) 0
stripe-Shares k i h a = record { disk = omega arith; block = omega arith }

-- With the current mode RAID 0 and an idle queue, a page swapped out to slot 4 k + i + 2048
-- replaces block i of the page that slot k holds in RAID 1, for every k below 3584.
pub raid_0_overwrites_raid_1 :
    (page dst : Bytes) (k i me : ℕ) (s : SwapDisk)
    → k < 3584
    → i < 4
    → s.raid_mode ≡ raid_0
    → s.slot_mode k ≡ raid_1
    → IsIdle me s
    → (t : SwapDisk) × (u : SwapDisk) × (out : Bytes) × (swap_out_page page (k * 4 + i + 2048) s
        ≡ ok t)
      × (swap_in_page dst k t ≡ ok (out, u))
      × ((b : ℕ) → b < bsize → out (i * bsize + b) ≡ page b)
raid_0_overwrites_raid_1 page dst k i me s h a m e idle =
    let (t, u, out, f, g, x) =
      reads_other page dst k (k * 4 + i + 2048) me raid_1 s (inl m) (omega arith)
        (rw m (servable-SlotFits raid_0 (k * 4 + i + 2048) (inl refl) (omega arith) refl)) idle
        (omega arith) (omega arith) e (inr (inl refl))
        (servable-SlotFits raid_1 k (inr (inl refl)) (omega arith) (ground arith)) in
    (
      t,
      u,
      out,
      f,
      g,
      λ b hb. x i 0 b a (omega arith) (rw m (stripe-Shares k i h a)) hb ∙ ap page (omega arith),
    )

-- ===== src/SwapDisk/Pages/In.antt =====
-- What swap_in_page() of kernel/swap_disk.c returns, and that it undoes swap_out_page().
use operating_systems_2_assi.Prelude.{
  ℕ, zero, suc, ◌+◌, ◌*◌, ◌/◌, ◌%◌, ◌<◌, ◌≤◌, ◌≡◌, refl, inl, inr, arith, Bytes, ok, copy, ◌∙◌, ap,
  lt→ltb, ltb→lt, Bool-cases, ==-self, if◌then◌else◌, ltb,
}
use operating_systems_2_assi.SwapDisk.State.{SwapDisk, bsize, blocks_per_page, max_swap_slots}
use operating_systems_2_assi.SwapDisk.Queue.Accounting.{IsIdle}
use operating_systems_2_assi.SwapDisk.Raid.Layout.{IsMode, home_disk, home_block}
use operating_systems_2_assi.SwapDisk.Raid.Read.{Kept, raid_read-Kept}
use operating_systems_2_assi.SwapDisk.Pages.{in_loop, swap_in_page, swap_out_page}
use operating_systems_2_assi.SwapDisk.Pages.Out.{SlotFits, PageOut, swap_out_page-PageOut}

-- Block `j` of the page that the disks hold for a slot in a mode, and the page's bytes.
abbrev pub slot_block : ℕ → ℕ → (ℕ → ℕ → Bytes) → ℕ → Bytes
slot_block mode slot disks j =
    disks (home_disk mode (slot * 4 + j)) (home_block mode (slot * 4 + j))

abbrev pub page_of : (ℕ → Bytes) → Bytes
page_of block q = block (q / bsize) (q % bsize)

-- The buffer with the bytes of the blocks from `i` on, `n` of them, and otherwise as it was.
abbrev pub filled : (ℕ → Bytes) → ℕ → ℕ → Bytes → Bytes
filled block i n dst q =
    if ltb q (i * bsize) then dst q else if ltb q ((i + n) * bsize) then page_of block q else dst q

filled-cons :
    (block : ℕ → Bytes) (i n : ℕ) (dst : Bytes) (q : ℕ)
    → filled block (suc i) n (copy dst (i * bsize) (block i) 0 bsize) q
      ≡ filled block i (suc n) dst q
filled-cons block i n dst q = ground arith

Kept-trans : {me : ℕ} {s t u : SwapDisk} → Kept me s t → Kept me t u → Kept me s u
Kept-trans p q = record {
  still_idle = q.still_idle;
  same_mode = q.same_mode ∙ p.same_mode;
  same_slots = q.same_slots ∙ p.same_slots;
  same_disks = q.same_disks ∙ p.same_disks;
}

module _ (mode slot me : ℕ) (m : IsMode mode) (fits : SlotFits mode slot) where
  in_loop-filled :
      (n i : ℕ) (dst : Bytes) (s : SwapDisk)
      → i + n ≤ 4
      → IsIdle me s
      → (out : Bytes) × (t : SwapDisk) × (in_loop n i (slot * 4) dst mode s ≡ ok (out, t))
        × ((q : ℕ) → out q ≡ filled (slot_block mode slot s.disks) i n dst q)
        × Kept me s t
  unfolding in_loop
  in_loop-filled zero i dst s h idle = (
    dst,
    s,
    refl,
    λ q. ground arith,
    record { still_idle = idle; same_mode = refl; same_slots = refl; same_disks = refl },
  )
  in_loop-filled (suc n) i dst s h idle =
      let (t, e, w) =
        raid_read-Kept mode (slot * 4 + i) dst (i * bsize) me s m (fits i (omega arith)) idle in
      let block = slot_block mode slot s.disks in
      let (out, u, f, g, r) =
        in_loop-filled n (suc i) (copy dst (i * bsize) (block i) 0 bsize) t (omega arith)
          w.still_idle in
      (
        out,
        u,
        rw e f,
        λ q. (rw w.same_disks at (g q)) ∙ filled-cons block i n dst q,
        Kept-trans w r,
      )

-- Reading a slot that fits succeeds, whatever the current mode: the first 4096 bytes of the buffer
-- become the page that the disks hold for the slot in its recorded mode, the rest of the buffer is
-- kept, and so are the disks and the modes.
pub swap_in_page-filled :
    (dst : Bytes) (slot me : ℕ) (s : SwapDisk)
    → IsMode (s.slot_mode slot)
    → slot < max_swap_slots
    → SlotFits (s.slot_mode slot) slot
    → IsIdle me s
    → (out : Bytes) × (t : SwapDisk) × (swap_in_page dst slot s ≡ ok (out, t))
      × ((q : ℕ)
          → out q ≡ (
              if ltb q (blocks_per_page * bsize)
              then page_of (slot_block (s.slot_mode slot) slot s.disks) q
              else dst q))
      × Kept me s t
unfolding swap_in_page
swap_in_page-filled dst slot me s m h fits idle =
    let (out, t, e, f, k) =
      in_loop-filled (s.slot_mode slot) slot me m fits 4 0 dst s (omega arith) idle in
    (out, t, rw (lt→ltb slot max_swap_slots h) e, λ q. f q ∙ ground arith, k)

-- The disks hold a page for a slot, in the mode recorded for it.
pub record Holds (page : Bytes) (slot : ℕ) (s : SwapDisk) : Type 0 where
  pub in_table : slot < max_swap_slots
  pub mode_ok : IsMode (s.slot_mode slot)
  pub fits : SlotFits (s.slot_mode slot) slot
  pub stored :
      (i k : ℕ)
      → i < 4
      → k < bsize
      → slot_block (s.slot_mode slot) slot s.disks i k ≡ page (i * bsize + k)

stored-page :
    (block : ℕ → Bytes) (page dst : Bytes)
    → ((i k : ℕ) → i < 4 → k < bsize → block i k ≡ page (i * bsize + k))
    → (q : ℕ)
    → (if ltb q 4096 then page_of block q else dst q) ≡ (if ltb q 4096 then page q else dst q)
stored-page block page dst h q = elim (Bool-cases (ltb q 4096)) [
  | inl e ↦
      let l : q < 4096 = ltb→lt q 4096 e in
      rw e (h (q / bsize) (q % bsize) (omega arith) (omega arith) ∙ ap page (omega arith))
  | inr e ↦ rw e
]

-- Reading a slot for which the disks hold a page succeeds and returns that page; the buffer beyond
-- it is kept, and so are the disks and the modes.
pub swap_in_page-Holds :
    (page dst : Bytes) (slot me : ℕ) (s : SwapDisk)
    → Holds page slot s
    → IsIdle me s
    → (out : Bytes) × (t : SwapDisk) × (swap_in_page dst slot s ≡ ok (out, t))
      × ((q : ℕ) → out q ≡ (if ltb q 4096 then page q else dst q))
      × Kept me s t
swap_in_page-Holds page dst slot me s p idle =
    let (out, t, e, f, k) = swap_in_page-filled dst slot me s p.mode_ok p.in_table p.fits idle in
    (
      out,
      t,
      e,
      λ q. f q ∙ stored-page (slot_block (s.slot_mode slot) slot s.disks) page dst p.stored q,
      k,
    )

pub PageOut-Holds :
    (page : Bytes) (slot me : ℕ) (s t : SwapDisk)
    → IsMode s.raid_mode
    → slot < max_swap_slots
    → SlotFits s.raid_mode slot
    → PageOut page slot me s t
    → Holds page slot t
PageOut-Holds page slot me s t m h fits p =
    let r : t.slot_mode slot ≡ s.raid_mode = rw (p.recorded, ==-self slot) in
    record { in_table = h; mode_ok = rw r m; fits = rw r fits; stored = rw r p.stored }

-- A page written to a slot that fits in the current RAID mode, with an idle queue, and read back
-- at once, with any mode set in between, is the same page; the rest of the buffer is kept.
pub swap_in_page-swap_out_page :
    (page dst : Bytes) (slot me mode : ℕ) (s : SwapDisk)
    → IsMode s.raid_mode
    → slot < max_swap_slots
    → SlotFits s.raid_mode slot
    → IsIdle me s
    → (t : SwapDisk) × (u : SwapDisk) × (out : Bytes) × (swap_out_page page slot s ≡ ok t)
      × (swap_in_page dst slot (record t { raid_mode = mode }) ≡ ok (out, u))
      × ((q : ℕ) → out q ≡ (if ltb q 4096 then page q else dst q))
swap_in_page-swap_out_page page dst slot me mode s m h fits idle =
    let (t, e, p) = swap_out_page-PageOut page slot me s m h fits idle in
    let held = PageOut-Holds page slot me s t m h fits p in
    let (out, u, f, g, k) =
      swap_in_page-Holds page dst slot me (record t { raid_mode = mode })
        (record { in_table = h; mode_ok = held.mode_ok; fits = held.fits; stored = held.stored })
        (record { idle = p.still_idle.idle; caller = p.still_idle.caller }) in
    (t, u, out, e, f, g)

-- ===== src/SwapDisk/Pages/Free.antt =====
-- What swap_disk_free_slot() of kernel/swap_disk.c clears.
use operating_systems_2_assi.Prelude.{
  ℕ, zero, suc, ◌+◌, ◌-◌, ◌*◌, ◌<◌, ◌≤◌, ◌≡◌, refl, ◌⊎◌, inl, inr, false, arith, Bytes, update, ◌∙◌,
  ap, lt→ltb, ltb, ==-self, Bool-cases,
}
use operating_systems_2_assi.SwapDisk.State.{SwapDisk, bsize, max_swap_slots}
use operating_systems_2_assi.SwapDisk.Queue.Accounting.{IsIdle}
use operating_systems_2_assi.SwapDisk.Raid.Layout.{
  IsMode, home_disk, home_block, touches, Apart-page,
}
use operating_systems_2_assi.SwapDisk.Pages.{free_block, free_loop, swap_disk_free_slot}
use operating_systems_2_assi.SwapDisk.Pages.In.{slot_block}

free_block-elsewhere :
    (mode lb : ℕ) (disks : ℕ → ℕ → Bytes) (d b : ℕ)
    → IsMode mode
    → touches mode lb d b ≡ false
    → free_block mode lb disks d b ≡ disks d b
unfolding free_block
free_block-elsewhere mode lb disks d b m h = ground arith

free_block-home :
    (mode lb : ℕ) (disks : ℕ → ℕ → Bytes) (k : ℕ)
    → IsMode mode
    → k < bsize
    → free_block mode lb disks (home_disk mode lb) (home_block mode lb) k ≡ 0
unfolding free_block
free_block-home mode lb disks k (inl m) h = rw m (ground arith)
free_block-home mode lb disks k (inr (inl m)) h = rw m (ground arith)
free_block-home mode lb disks k (inr (inr m)) h = rw m (ground arith)

free_loop-elsewhere :
    (n lb mode : ℕ) (disks : ℕ → ℕ → Bytes) (d b : ℕ)
    → IsMode mode
    → ((j : ℕ) → lb ≤ j → j < lb + n → touches mode j d b ≡ false)
    → free_loop n lb mode disks d b ≡ disks d b
unfolding free_loop
free_loop-elsewhere zero lb mode disks d b m h = refl
free_loop-elsewhere (suc n) lb mode disks d b m h =
    free_loop-elsewhere n (lb + 1) mode (free_block mode lb disks) d b m
      (λ j a c. h j (omega arith) (omega arith))
    ∙ free_block-elsewhere mode lb disks d b m (h lb (omega arith) (omega arith))

-- Freeing a slot in the table leaves every place that the slot's blocks do not touch in the slot's
-- recorded mode, and the recorded modes of the other slots.
pub free_slot-elsewhere :
    (slot : ℕ) (s : SwapDisk) (d b : ℕ)
    → IsMode (s.slot_mode slot)
    → ((i : ℕ) → i < 4 → touches (s.slot_mode slot) (slot * 4 + i) d b ≡ false)
    → (swap_disk_free_slot slot s).disks d b ≡ s.disks d b
unfolding swap_disk_free_slot
free_slot-elsewhere slot s d b m h =
    ground (arith, free_loop-elsewhere 4 (slot * 4) (s.slot_mode slot) s.disks d b m at_index)
  where
    at_index : (j : ℕ) → slot * 4 ≤ j → j < slot * 4 + 4 → touches (s.slot_mode slot) j d b ≡ false
    at_index j a c =
        let e : slot * 4 + (j - slot * 4) ≡ j = omega arith in
        rw e at (h (j - slot * 4) (omega arith))

block_cases : (lb j n : ℕ) → lb ≤ j → j < lb + suc n → (j ≡ lb) ⊎ (lb + 1 ≤ j)
block_cases lb j n a b = grind arith

free_loop-home :
    (n mode slot i j : ℕ) (disks : ℕ → ℕ → Bytes) (k : ℕ)
    → IsMode mode
    → i + n ≤ 4
    → i ≤ j
    → j < i + n
    → k < bsize
    → (lb : ℕ) → lb ≡ slot * 4 + i
    → slot_block mode slot (free_loop n lb mode disks) j k ≡ 0
unfolding free_loop
free_loop-home zero mode slot i j disks k m h a b c lb e = absurd (omega arith)
free_loop-home (suc n) mode slot i j disks k m h a b c lb e = elim (block_cases i j n a b) [
  | inl q ↦
      rw (q, ← e)
        (ap (λ (f : Bytes). f k)
            (free_loop-elsewhere n (lb + 1) mode (free_block mode lb disks) (home_disk mode lb)
              (home_block mode lb) m later)
          ∙ free_block-home mode lb disks k m c)
  | inr l ↦
      free_loop-home n mode slot (i + 1) j (free_block mode lb disks) k m (omega arith) l
        (omega arith) c (lb + 1) (omega arith)
]
  where
    later :
        (p : ℕ)
        → lb + 1 ≤ p
        → p < lb + 1 + n
        → touches mode p (home_disk mode lb) (home_block mode lb) ≡ false
    later p a' b' =
        let f : slot * 4 + (p - slot * 4) ≡ p = omega arith in
        rw (← e, f) at
          (Apart-page mode slot (p - slot * 4) i m (omega arith) (omega arith) (omega arith))

-- Freeing a slot of the table that was written in an accepted mode clears all the bytes that were
-- stored for it, and forgets its mode.
pub free_slot-cleared :
    (slot j k : ℕ) (s : SwapDisk)
    → slot < max_swap_slots
    → IsMode (s.slot_mode slot)
    → j < 4
    → k < bsize
    → (slot_block (s.slot_mode slot) slot (swap_disk_free_slot slot s).disks j k ≡ 0)
      × ((swap_disk_free_slot slot s).slot_mode slot ≡ 0)
unfolding swap_disk_free_slot
free_slot-cleared slot j k s h m b c =
    rw (lt→ltb slot max_swap_slots h, ==-self slot)
      (
        free_loop-home 4 (s.slot_mode slot) slot 0 j s.disks k m (omega arith) (omega arith) b c
            (slot * 4) (omega arith),
        refl,
      )

pub slot_mode-free_slot :
    (slot j : ℕ) (s : SwapDisk)
    → slot < max_swap_slots
    → (swap_disk_free_slot slot s).slot_mode j ≡ update s.slot_mode slot 0 j
unfolding swap_disk_free_slot
slot_mode-free_slot slot j s h = rw (lt→ltb slot max_swap_slots h)

pub raid_mode-free_slot :
    (slot : ℕ) (s : SwapDisk) → (swap_disk_free_slot slot s).raid_mode ≡ s.raid_mode
unfolding swap_disk_free_slot
raid_mode-free_slot slot s = ground arith

pub free_slot-IsIdle :
    (slot : ℕ) {me : ℕ} {s : SwapDisk} → IsIdle me s → IsIdle me (swap_disk_free_slot slot s)
unfolding swap_disk_free_slot
free_slot-IsIdle slot {me} {s} h = elim (Bool-cases (ltb slot max_swap_slots)) [
  | inl e ↦ rw e (record { idle = h.idle; caller = h.caller })
  | inr e ↦ rw e h
]

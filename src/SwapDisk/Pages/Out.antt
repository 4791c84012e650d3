-- ===== src/SwapDisk/Pages/Out.antt =====
-- What swap_out_page() of kernel/swap_disk.c leaves on the disks.
use operating_systems_2_assi.Prelude.{
  ℕ, zero, suc, ◌+◌, ◌*◌, ◌<◌, ◌≤◌, ◌≡◌, refl, ◌⊎◌, inl, inr, false, arith, Bytes, ok, update, ◌∙◌,
  ap, lt→ltb,
}
use operating_systems_2_assi.SwapDisk.State.{SwapDisk, bsize, max_swap_slots}
use operating_systems_2_assi.SwapDisk.Queue.Accounting.{IsIdle}
use operating_systems_2_assi.SwapDisk.Raid.Layout.{
  IsMode, home_disk, home_block, touches, Fits, Apart-page,
}
use operating_systems_2_assi.SwapDisk.Raid.Write.{Written, raid_write-Written}
use operating_systems_2_assi.SwapDisk.Pages.{out_loop, swap_out_page}

-- The four blocks of a slot lie on the disks.
abbrev pub SlotFits : ℕ → ℕ → Type 0
SlotFits mode slot = (i : ℕ) → i < 4 → Fits mode (slot * 4 + i)

-- The blocks from `i` on of a page are in their places, `n` of them, and no others have changed.
record Out (mode slot : ℕ) (page : Bytes) (me i n : ℕ) (s t : SwapDisk) : Type 0 where
  still_idle : IsIdle me t
  same_mode : t.raid_mode ≡ s.raid_mode
  same_slots : t.slot_mode ≡ s.slot_mode
  home :
      (j k : ℕ)
      → i ≤ j
      → j < i + n
      → k < bsize
      → t.disks (home_disk mode (slot * 4 + j)) (home_block mode (slot * 4 + j)) k
        ≡ page (j * bsize + k)
  elsewhere :
      (d b : ℕ)
      → ((j : ℕ) → i ≤ j → j < i + n → touches mode (slot * 4 + j) d b ≡ false)
      → t.disks d b ≡ s.disks d b

split_first : (i j : ℕ) → i ≤ j → (j ≡ i) ⊎ (suc i ≤ j)
split_first i j h = grind arith

module _ (mode slot : ℕ) (page : Bytes) (me : ℕ) (m : IsMode mode) (fits : SlotFits mode slot) where
  Out-cons :
      (i n : ℕ) {s t u : SwapDisk}
      → i + suc n ≤ 4
      → Written mode (slot * 4 + i) page (i * bsize) me s t
      → Out mode slot page me (suc i) n t u
      → Out mode slot page me i (suc n) s u
  Out-cons i n {s} {t} {u} h w r = record {
    still_idle = r.still_idle;
    same_mode = r.same_mode ∙ w.same_mode;
    same_slots = r.same_slots ∙ w.same_slots;
    home = λ j k a b c. elim (split_first i j a) [
      | inl e ↦ rw e (here k c)
      | inr l ↦ r.home j k l (omega arith) c
    ];
    elsewhere = λ d b f.
        r.elsewhere d b (λ j a c. f j (omega arith) (omega arith))
        ∙ w.elsewhere d b (f i (omega arith) (omega arith));
  }
    where
      here :
          (k : ℕ)
          → k < bsize
          → u.disks (home_disk mode (slot * 4 + i)) (home_block mode (slot * 4 + i)) k
            ≡ page (i * bsize + k)
      here k c =
          ap (λ (f : Bytes). f k)
            (r.elsewhere (home_disk mode (slot * 4 + i)) (home_block mode (slot * 4 + i))
              (λ j a b. Apart-page mode slot j i m (omega arith) (omega arith) (omega arith)))
          ∙ w.home k c

  out_loop-Out :
      (n i : ℕ) (s : SwapDisk)
      → i + n ≤ 4
      → IsIdle me s
      → (t : SwapDisk) × (out_loop n i (slot * 4) page mode s ≡ ok t)
        × Out mode slot page me i n s t
  unfolding out_loop
  out_loop-Out zero i s h idle = (
    s,
    refl,
    record {
      still_idle = idle;
      same_mode = refl;
      same_slots = refl;
      home = λ j k a b c. absurd (omega arith);
      elsewhere = λ d b f. refl;
    },
  )
  out_loop-Out (suc n) i s h idle =
      let (t, e, w) =
        raid_write-Written mode (slot * 4 + i) page (i * bsize) me s m (fits i (omega arith))
          idle in
      let (u, f, r) = out_loop-Out n (suc i) t (omega arith) w.still_idle in
      (u, rw e f, Out-cons i n h w r)

-- What writing a page to a slot leaves, from `s` to `t`.
pub record PageOut (page : Bytes) (slot me : ℕ) (s t : SwapDisk) : Type 0 where
  pub still_idle : IsIdle me t
  pub same_mode : t.raid_mode ≡ s.raid_mode
  pub recorded : t.slot_mode ≡ update s.slot_mode slot s.raid_mode
  pub stored :
      (i k : ℕ)
      → i < 4
      → k < bsize
      → t.disks (home_disk s.raid_mode (slot * 4 + i)) (home_block s.raid_mode (slot * 4 + i)) k
        ≡ page (i * bsize + k)
  pub elsewhere :
      (d b : ℕ)
      → ((i : ℕ) → i < 4 → touches s.raid_mode (slot * 4 + i) d b ≡ false)
      → t.disks d b ≡ s.disks d b

-- Writing a page to a slot that fits succeeds: the four blocks are in the places of the current
-- mode, the mode is recorded for the slot, and only the places that those writes touch change.
pub swap_out_page-PageOut :
    (page : Bytes) (slot me : ℕ) (s : SwapDisk)
    → IsMode s.raid_mode
    → slot < max_swap_slots
    → SlotFits s.raid_mode slot
    → IsIdle me s
    → (t : SwapDisk) × (swap_out_page page slot s ≡ ok t) × PageOut page slot me s t
unfolding swap_out_page
swap_out_page-PageOut page slot me s m h fits idle =
    let s' : SwapDisk = record s { slot_mode = update s.slot_mode slot s.raid_mode } in
    let (t, e, r) =
      out_loop-Out s.raid_mode slot page me m fits 4 0 s' (omega arith)
        (record { idle = idle.idle; caller = idle.caller }) in
    (
      t,
      rw (lt→ltb slot max_swap_slots h) e,
      record {
        still_idle = r.still_idle;
        same_mode = r.same_mode;
        recorded = r.same_slots;
        stored = λ i k a b. r.home i k (omega arith) (omega arith) b;
        elsewhere = λ d b f. r.elsewhere d b (λ j a c. f j (omega arith));
      },
    )

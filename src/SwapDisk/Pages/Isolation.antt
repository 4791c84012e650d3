-- ===== src/SwapDisk/Pages/Isolation.antt =====
-- What calls of kernel/swap_disk.c keep of a page that was swapped out to another slot.
use operating_systems_2_assi.Prelude.{
  ℕ, ◌+◌, ◌*◌, ◌<◌, ◌≡◌, ◌≢◌, refl, ◌⊎◌, inl, inr, false, arith, Bytes, ◌∙◌, ap, sym, ==-ne, ok,
}
use operating_systems_2_assi.SwapDisk.State.{SwapDisk}
use operating_systems_2_assi.SwapDisk.Raid.Layout.{
  IsMode, home_disk, home_block, touches, Apart-modes, Fits-limit,
}
use operating_systems_2_assi.SwapDisk.Pages.{
  swap_out_page, swap_disk_free_slot, setraidmode, setdisksched,
}
use operating_systems_2_assi.SwapDisk.Pages.Out.{SlotFits, swap_out_page-PageOut}
use operating_systems_2_assi.SwapDisk.Pages.In.{slot_block, Holds, swap_in_page-filled}
use operating_systems_2_assi.SwapDisk.Pages.Free.{
  free_slot-elsewhere, free_slot-IsIdle, slot_mode-free_slot, raid_mode-free_slot,
}
use operating_systems_2_assi.SwapDisk.Pages.Calls.{
  Call, page_out, page_in, slot_free, set_mode, set_sched, step, IsSound, shared_slots, Spares,
  settle,
}

pub SlotFits-shared : (mode slot : ℕ) → IsMode mode → slot < shared_slots → SlotFits mode slot
SlotFits-shared mode slot m h i a = Fits-limit mode (slot * 4 + i) m (ground arith)

setraidmode-cases :
    (mode : ℕ) (s : SwapDisk)
    → (settle s (setraidmode mode s) ≡ s)
      ⊎ (IsMode mode × (settle s (setraidmode mode s) ≡ record s { raid_mode = mode }))
unfolding setraidmode
setraidmode-cases mode s = ground arith

setdisksched-cases :
    (policy : ℕ) (s : SwapDisk)
    → (settle s (setdisksched policy s) ≡ s)
      ⊎ (settle s (setdisksched policy s) ≡ record s { queue = record s.queue { policy = policy } })
unfolding setdisksched
setdisksched-cases policy s = ground arith

-- Neither slot's blocks are touched by writing the other, in any two modes.
slots_apart :
    (mode slot mode' slot' i j : ℕ)
    → IsMode mode
    → IsMode mode'
    → slot < shared_slots
    → slot' < shared_slots
    → slot ≢ slot'
    → i < 4
    → j < 4
    → touches mode
        (slot * 4 + i)
        (home_disk mode' (slot' * 4 + j))
        (home_block mode' (slot' * 4 + j))
      ≡ false
slots_apart mode slot mode' slot' i j m m' h h' n a b =
    Apart-modes mode (slot * 4 + i) mode' (slot' * 4 + j) m m' (omega arith) (omega arith)
      (omega arith)

-- What a call leaves, for a slot that it spares.
pub record Spared (k me : ℕ) (page : Bytes) (t : SwapDisk) : Type 0 where
  pub sound : IsSound me t
  pub holds : Holds page k t

module _ (k me : ℕ) (page : Bytes) (small : k < shared_slots) (s : SwapDisk) (v : IsSound me s)
    (p : Holds page k s) where
  -- The disks and the mode recorded for `k` decide what is held for it.
  Holds-keep :
      {t : SwapDisk}
      → t.slot_mode k ≡ s.slot_mode k
      → ((i : ℕ)
          → i < 4
          → slot_block (s.slot_mode k) k t.disks i ≡ slot_block (s.slot_mode k) k s.disks i)
      → Holds page k t
  Holds-keep e f = record {
    in_table = p.in_table;
    mode_ok = rw e p.mode_ok;
    fits = rw e p.fits;
    stored = rw e (λ i q a b. ap (λ (g : Bytes). g q) (f i a) ∙ p.stored i q a b);
  }

  step_out :
      (q : Bytes) (slot : ℕ)
      → slot < shared_slots
      → slot ≢ k
      → (t : SwapDisk) × (swap_out_page q slot s ≡ ok t) × Spared k me page t
  step_out q slot h n =
      let (t, e, o) =
        swap_out_page-PageOut q slot me s v.mode (omega arith)
          (SlotFits-shared s.raid_mode slot v.mode h) v.idle in
      (
        t,
        e,
        record {
          sound = record {
            idle = o.still_idle;
            mode = rw o.same_mode v.mode;
            modes = rw o.recorded (λ j. ground (arith, v.modes j, v.mode));
          };
          holds = Holds-keep (rw (o.recorded, ==-ne k slot (λ x. n (sym x)))) (λ i a.
              o.elsewhere (home_disk (s.slot_mode k) (k * 4 + i))
                (home_block (s.slot_mode k) (k * 4 + i))
                (λ j b.
                  slots_apart s.raid_mode slot (s.slot_mode k) k j i v.mode p.mode_ok h small n b
                    a));
        },
      )

  step_in :
      (dst : Bytes) (slot : ℕ)
      → slot < shared_slots
      → (t : SwapDisk) × (step (page_in dst slot) s ≡ ok t) × Spared k me page t
  unfolding step
  step_in dst slot h =
      let (out, t, e, f, g) =
        swap_in_page-filled dst slot me s (v.modes slot) (omega arith)
          (SlotFits-shared (s.slot_mode slot) slot (v.modes slot) h) v.idle in
      (
        t,
        rw e,
        record {
          sound = record {
            idle = g.still_idle;
            mode = rw g.same_mode v.mode;
            modes = rw g.same_slots v.modes;
          };
          holds = Holds-keep (rw g.same_slots) (λ i a. rw g.same_disks);
        },
      )

  step_free :
      (slot : ℕ) → slot < shared_slots → slot ≢ k → Spared k me page (swap_disk_free_slot slot s)
  step_free slot h n = record {
    sound = record {
      idle = free_slot-IsIdle slot v.idle;
      mode = rw (raid_mode-free_slot slot s) v.mode;
      modes = λ j. ground (arith, slot_mode-free_slot slot j s (omega arith), v.modes j);
    };
    holds =
        Holds-keep (slot_mode-free_slot slot k s (omega arith) ∙ rw (==-ne k slot (λ x. n (sym x))))
          (λ i a.
            free_slot-elsewhere slot s (home_disk (s.slot_mode k) (k * 4 + i))
              (home_block (s.slot_mode k) (k * 4 + i)) (v.modes slot)
              (λ j b.
                slots_apart (s.slot_mode slot) slot (s.slot_mode k) k j i (v.modes slot) p.mode_ok h
                  small n b a));
  }

  step_set_mode : (mode : ℕ) → Spared k me page (settle s (setraidmode mode s))
  step_set_mode mode = elim (setraidmode-cases mode s) [
    | inl e ↦ rw e (record { sound = v; holds = p })
    | inr (m, e) ↦ rw e (record {
      sound = record {
        idle = record { idle = v.idle.idle; caller = v.idle.caller };
        mode = m;
        modes = v.modes;
      };
      holds = Holds-keep refl (λ i a. refl);
    })
  ]

  step_set_sched : (policy : ℕ) → Spared k me page (settle s (setdisksched policy s))
  step_set_sched policy = elim (setdisksched-cases policy s) [
    | inl e ↦ rw e (record { sound = v; holds = p })
    | inr e ↦ rw e (record {
      sound = record {
        idle = record { idle = v.idle.idle; caller = v.idle.caller };
        mode = v.mode;
        modes = v.modes;
      };
      holds = Holds-keep refl (λ i a. refl);
    })
  ]

  pub step-Spared :
      (c : Call) → Spares k c → (t : SwapDisk) × (step c s ≡ ok t) × Spared k me page t
  unfolding step
  step-Spared (page_out q slot) h = step_out q slot h.0 h.1
  step-Spared (page_in dst slot) h = step_in dst slot h
  step-Spared (slot_free slot) h = (swap_disk_free_slot slot s, refl, step_free slot h.1 h.0)
  step-Spared (set_mode mode) h = (settle s (setraidmode mode s), refl, step_set_mode mode)
  step-Spared (set_sched policy) h = (settle s (setdisksched policy s), refl, step_set_sched policy)

-- ===== src/Frames/Table/Full.antt =====
-- What frametable_alloc() of kernel/kalloc.c does when every entry is taken, and what it leaves
-- otherwise.
use operating_systems_2_assi.Prelude.{
  ℕ, suc, ◌≡◌, refl, ◌⊎◌, inl, inr, true, false, not, Option, ◌==◌, IsFirst, NoneIn,
  find_first-IsFirst, find_first-none, ok, panic, Panic, Option-cases,
}
use operating_systems_2_assi.Frames.State.{Memory, max_frames, release_framelock}
use operating_systems_2_assi.Frames.Clock.{clock_evict}
use operating_systems_2_assi.Frames.Table.{find_free, take_frame, frametable_alloc}

-- clock_evict() takes the lock itself.
clock_evict-locked : (m : Memory) → m.framelock ≡ true → clock_evict m ≡ panic Panic.acquire
unfolding clock_evict
clock_evict-locked m h = rw h refl

-- Entering a page that is not null, by a caller that does not hold the lock, takes the first free
-- entry of the frame table; when no entry is free the call stops the machine, as clock_evict()
-- acquires the lock that is already held. One unit of fuel is enough for both.
pub frametable_alloc-full :
    (kernel_end fuel pa : ℕ) (p : Option ℕ) (va : ℕ) (m : Memory)
    → m.framelock ≡ false
    → (pa == 0) ≡ false
    → ((i : ℕ) × IsFirst (λ j. not (m.frames j).used) max_frames 0 i
        × (frametable_alloc kernel_end (suc fuel) pa p va m
            ≡ ok (release_framelock (take_frame i pa p va (record m { framelock = true })))))
      ⊎ (NoneIn (λ j. not (m.frames j).used) max_frames 0
          × (frametable_alloc kernel_end (suc fuel) pa p va m ≡ panic Panic.acquire))
unfolding frametable_alloc
frametable_alloc-full kernel_end fuel pa p va m l n =
    let locked : Memory = record m { framelock = true } in
    elim (Option-cases (find_free locked)) [
      | inl e ↦ inr (
        find_first-none (λ j. not (m.frames j).used) max_frames 0 e,
        rw (l, n, e, clock_evict-locked locked refl) refl,
      )
      | inr (i, e) ↦
          inl
            (i, find_first-IsFirst (λ j. not (m.frames j).used) max_frames 0 i e, rw (l, n, e) refl)
    ]

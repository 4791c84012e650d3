-- ===== src/Frames/Clock/Victim.antt =====
-- The victim of clock_evict() in kernel/kalloc.c.
use operating_systems_2_assi.Prelude.{
  ℕ, zero, suc, ◌+◌, ◌≤◌, ◌<◌, ◌≡◌, refl, ◌⊎◌, inl, inr, true, false, Option, none, some, arith,
  ◌∙◌, ap, Bool-cases,
}
use operating_systems_2_assi.Frames.State.{Memory, max_frames}
use operating_systems_2_assi.Frames.Clock.{
  Candidate, Scan, inspect, advance, scan, any_frame, chosen, choose,
}
use operating_systems_2_assi.Frames.Clock.Round.{evictable, level_of, Swept, Swept-refl}
use operating_systems_2_assi.Frames.Clock.Priority.{Covers, IsCandidate, two_sweeps}

scan_add : (a b : ℕ) (s : Scan) → scan (a + b) s ≡ scan b (scan a s)
unfolding scan
scan_add zero b s = let q : 0 + b ≡ b = omega arith in ap (λ (n : ℕ). scan n s) q
scan_add (suc a) b s =
    let q : suc a + b ≡ suc (a + b) = omega arith in
    ap (λ (n : ℕ). scan n s) q ∙ scan_add a b (advance (inspect s))

-- Frame `k` can be evicted, and no frame that can be is of a higher level, which is a lower priority.
pub record IsVictim (m : Memory) (k : ℕ) : Type 0 where
  pub in_table : k < max_frames
  pub can_go : evictable m (m.frames k) ≡ true
  pub lowest_priority :
      (j : ℕ)
      → j < max_frames
      → evictable m (m.frames j) ≡ true
      → level_of m (m.frames j) ≤ level_of m (m.frames k)

choose_lem :
    (m : Memory)
    → choose m
      ≡ (let s = scan 64 (scan 64 (record { memory = m; best = none })) in chosen s.best s.memory)
unfolding choose
choose_lem m =
    ap (λ (s : Scan). chosen s.best s.memory) (scan_add 64 64 (record { memory = m; best = none }))

module _ (m : Memory) where
  abbrev IsChoice : Option ℕ × Memory → Type 0
  IsChoice r =
      Swept m r.1
      × (((k : ℕ) × (r.0 ≡ some k) × IsVictim m k)
          ⊎ ((r.0 ≡ any_frame r.1) × ((j : ℕ) → j < max_frames → evictable m (m.frames j) ≡ false)))

  chosen-IsChoice :
      (best : Option Candidate) (m' : Memory)
      → Swept m m'
      → IsCandidate m best
      → ((j : ℕ) → j < 64 → evictable m (m.frames j) ≡ true → Covers best (level_of m (m.frames j)))
      → IsChoice (chosen best m')
  chosen-IsChoice none m' w c b = (
    w,
    inr (
      refl,
      λ j h. elim (Bool-cases (evictable m (m.frames j))) [ inl e ↦ absurd (b j h e) | inr e ↦ e ],
    ),
  )
  chosen-IsChoice (some c) m' w (h, (e, l)) b = (
    w,
    inl (
      c.index,
      refl,
      record { in_table = h; can_go = e; lowest_priority = λ j k f. rw (← l) (b j k f) },
    ),
  )

  pub choose-IsVictim :
      m.clock_hand < max_frames
      → Swept m (choose m).1
        × (((k : ℕ) × ((choose m).0 ≡ some k) × IsVictim m k)
            ⊎ (((choose m).0 ≡ any_frame (choose m).1)
                × ((j : ℕ) → j < max_frames → evictable m (m.frames j) ≡ false)))
  choose-IsVictim h =
      let start : Scan = record { memory = m; best = none } in
      let (v, b) = two_sweeps m start h (record { swept = Swept-refl m; candidate = tt }) in
      rw (choose_lem m) (
        chosen-IsChoice (scan 64 (scan 64 start)).best (scan 64 (scan 64 start)).memory v.swept
          v.candidate b)

-- ===== src/Frames/Clock/Priority.antt =====
-- Which frame the two sweeps of clock_evict() in kernel/kalloc.c choose.
use operating_systems_2_assi.Prelude.{
  ℕ, zero, suc, ◌+◌, ◌-◌, ◌%◌, ◌≤◌, ◌<◌, ◌≡◌, refl, ◌⊎◌, inl, inr, true, false, Option, none, some,
  arith, ltb, ◌∙◌, sym, ltb→lt, Bool-cases, subst,
}
use operating_systems_2_assi.Frames.State.{Memory, Frame, max_frames}
use operating_systems_2_assi.Frames.Clock.{Candidate, better, Scan, inspect, advance, scan}
use operating_systems_2_assi.Frames.Clock.Round.{
  evictable, used_lately, level_of, Swept, Inspected, skipped, cleared, considered,
  inspect-Inspected, Swept-trans, Swept-move, evictable-Swept, level_of-Swept, used_lately-Swept,
  Inspected-Swept, Inspected-hand,
}

-- One round with the move of the hand.
abbrev next : Scan → Scan
next s = advance (inspect s)

abbrev hand : Scan → ℕ
hand s = s.memory.clock_hand

next-hand : (s : Scan) → hand (next s) ≡ (hand s + 1) % max_frames
next-hand s = rw (Inspected-hand (inspect-Inspected s)) refl

-- A property of the scan that a round keeps, and one of the frames that it brings about for the frame
-- under the hand and keeps for the others.
module _ (Inv : Scan → Type 0) (P : Scan → ℕ → Type 0)
    (step : (s : Scan) → hand s < 64 → Inv s → Inv (next s) × P (next s) (hand s))
    (keep : (s : Scan) (j : ℕ) → Inv s → P s j → P (next s) j) where
  record Sweep (n h : ℕ) (s : Scan) : Type 0 where
    inv : Inv s
    in_table : hand s < 64
    seen : (i : ℕ) → i < n → P s ((h + i) % 64)

  scan-keep : (n : ℕ) (s : Scan) (j : ℕ) → hand s < 64 → Inv s → P s j → P (scan n s) j
  unfolding scan
  scan-keep zero s j h v p = p
  scan-keep (suc n) s j h v p =
      scan-keep n (next s) j (let e = next-hand s in omega (arith, e)) (step s h v).0 (keep s j v p)

  scan-Sweep : (n : ℕ) (s : Scan) → hand s < 64 → Inv s → Sweep n (hand s) (scan n s)
  unfolding scan
  scan-Sweep zero s h v = record { inv = v; in_table = h; seen = λ i b. absurd (omega arith) }
  scan-Sweep (suc n) s h v =
      let e = next-hand s in
      let h' : hand (next s) < 64 = omega (arith, e) in
      let w = step s h v in
      let r = scan-Sweep n (next s) h' w.0 in
      record {
        inv = r.inv;
        in_table = r.in_table;
        seen = λ i b. elim (zero_or_suc i) [
          | inl z ↦
              let q : (hand s + i) % 64 ≡ hand s = omega arith in
              rw q (scan-keep n (next s) (hand s) h' w.0 w.1)
          | inr (k, z) ↦
              let q : (hand (next s) + k) % 64 ≡ (hand s + i) % 64 = omega (arith, e) in
              rw (← q) (r.seen k (omega arith))
        ];
      }
    where
      zero_or_suc : (i : ℕ) → (i ≡ 0) ⊎ ((k : ℕ) × (i ≡ suc k))
      zero_or_suc zero = inl refl
      zero_or_suc (suc k) = inr (k, refl)

  -- A sweep over the whole table has seen every frame.
  full_sweep :
      (s : Scan)
      → hand s < 64
      → Inv s
      → Inv (scan 64 s) × (hand (scan 64 s) < 64) × ((j : ℕ) → j < 64 → P (scan 64 s) j)
  full_sweep s h v =
      let r = scan-Sweep 64 s h v in
      (
        r.inv,
        r.in_table,
        λ j b.
            let q : (hand s + (j + 64 - hand s) % 64) % 64 ≡ j = omega arith in
            subst (P (scan 64 s)) q (r.seen ((j + 64 - hand s) % 64) (omega arith)),
      )

-- A candidate of at least a level.
abbrev pub Covers : Option Candidate → ℕ → Type 0
Covers none l = ⊥
Covers (some c) l = l ≤ c.level

Covers-better :
    (i l l' : ℕ) (best : Option Candidate) → Covers best l' → Covers (better i l best) l'
Covers-better i l l' none h = elim h [ ]
Covers-better i l l' (some c) h = elim (Bool-cases (ltb c.level l)) [
  | inl e ↦ rw e (let q = ltb→lt c.level l e in omega arith)
  | inr e ↦ rw e h
]

better-Covers : (i l : ℕ) (best : Option Candidate) → Covers (better i l best) l
better-Covers i l none = omega arith
better-Covers i l (some c) = elim (Bool-cases (ltb c.level l)) [
  | inl e ↦ rw e (omega arith)
  | inr e ↦ rw e (ground (arith, e))
]

module _ (m : Memory) where
  abbrev pub frame_of : ℕ → Frame
  frame_of j = m.frames j

  abbrev pub IsCandidate : Option Candidate → Type 0
  IsCandidate none = Unit
  IsCandidate (some c) =
      (c.index < 64)
      × ((evictable m (frame_of c.index) ≡ true) × (c.level ≡ level_of m (frame_of c.index)))

  -- What every round keeps.
  pub record Kept (s : Scan) : Type 0 where
    pub swept : Swept m s.memory
    pub candidate : IsCandidate s.best

  abbrev Rested : Scan → ℕ → Type 0
  Rested s j = evictable m (frame_of j) ≡ true → used_lately s.memory (frame_of j) ≡ false

  abbrev pub Beaten : Scan → ℕ → Type 0
  Beaten s j = evictable m (frame_of j) ≡ true → Covers s.best (level_of m (frame_of j))

  at_hand : (s : Scan) → Kept s → Inspected (frame_of (hand s)) s (inspect s)
  at_hand s v =
      subst (λ (g : ℕ → Frame). Inspected (g (hand s)) s (inspect s)) v.swept.same_frames
        (inspect-Inspected s)

  better-IsCandidate :
      (i l : ℕ) (best : Option Candidate)
      → i < 64
      → evictable m (frame_of i) ≡ true
      → l ≡ level_of m (frame_of i)
      → IsCandidate best
      → IsCandidate (better i l best)
  better-IsCandidate i l none h e q k = (h, (e, q))
  better-IsCandidate i l (some c) h e q k = elim (Bool-cases (ltb c.level l)) [
    | inl t ↦ rw t (h, (e, q))
    | inr t ↦ rw t k
  ]

  hand-IsCandidate :
      (s t : Scan) → hand s < 64 → Kept s → Inspected (frame_of (hand s)) s t → IsCandidate t.best
  hand-IsCandidate s t h v (skipped e q) = rw q v.candidate
  hand-IsCandidate s t h v (cleared e u w k x b) = rw b v.candidate
  hand-IsCandidate s t h v (considered e u q b) = rw b (
      better-IsCandidate (hand s) (level_of s.memory (frame_of (hand s))) s.best h
        (sym (evictable-Swept v.swept (frame_of (hand s))) ∙ e)
        (level_of-Swept v.swept (frame_of (hand s))) v.candidate)

  next-Kept : (s : Scan) → hand s < 64 → Kept s → Kept (next s)
  next-Kept s h v =
      let r = at_hand s v in
      record {
        swept =
            Swept-move ((hand (inspect s) + 1) % max_frames)
              (Swept-trans v.swept (Inspected-Swept r));
        candidate = hand-IsCandidate s (inspect s) h v r;
      }

  -- The first sweep: a round leaves the PTE_A of its frame clear.
  hand-Rested : (s t : Scan) → Kept s → Inspected (frame_of (hand s)) s t → Rested t (hand s)
  hand-Rested s t v (skipped e q) k =
      let f = evictable-Swept v.swept (frame_of (hand s)) in absurd (cc)
  hand-Rested s t v (cleared e u w h x b) k = x
  hand-Rested s t v (considered e u q b) k = rw q u

  next-Rested : (s : Scan) (j : ℕ) → Kept s → Rested s j → Rested (next s) j
  next-Rested s j v p k = used_lately-Swept (Inspected-Swept (at_hand s v)) (frame_of j) (p k)

  -- The second sweep: a frame whose PTE_A is clear is considered.
  record AllRested (s : Scan) : Type 0 where
    kept : Kept s
    rested : (j : ℕ) → j < 64 → Rested s j

  hand-Beaten :
      (s t : Scan)
      → Kept s
      → Rested s (hand s)
      → Inspected (frame_of (hand s)) s t
      → Beaten t (hand s)
  hand-Beaten s t v p (skipped e q) k =
      let f = evictable-Swept v.swept (frame_of (hand s)) in absurd (cc)
  hand-Beaten s t v p (cleared e u w h x b) k = absurd (let f = p k in cc)
  hand-Beaten s t v p (considered e u q b) k =
      rw (b, level_of-Swept v.swept (frame_of (hand s)))
        (better-Covers (hand s) (level_of m (frame_of (hand s))) s.best)

  next-Beaten : (s t : Scan) (j : ℕ) → Inspected (frame_of (hand s)) s t → Beaten s j → Beaten t j
  next-Beaten s t j (skipped e q) p k = rw q (p k)
  next-Beaten s t j (cleared e u w h x b) p k = rw b (p k)
  next-Beaten s t j (considered e u q b) p k =
      rw b (Covers-better (hand s) (level_of s.memory (frame_of (hand s))) _ s.best (p k))

  pub two_sweeps :
      (s : Scan)
      → hand s < 64
      → Kept s
      → Kept (scan 64 (scan 64 s)) × ((j : ℕ) → j < 64 → Beaten (scan 64 (scan 64 s)) j)
  two_sweeps s h v =
      let (a, b, c) =
        full_sweep Kept Rested
          (λ s h v. (next-Kept s h v, hand-Rested s (inspect s) v (at_hand s v))) next-Rested s h
          v in
      let (d, e, f) =
        full_sweep AllRested Beaten
          (λ s h v. (
            record {
              kept = next-Kept s h v.kept;
              rested = λ j b. next-Rested s j v.kept (v.rested j b);
            },
            hand-Beaten s (inspect s) v.kept (v.rested (hand s) h) (at_hand s v.kept),
          ))
          (λ s j v. next-Beaten s (inspect s) j (at_hand s v.kept)) (scan 64 s) b
          (record { kept = a; rested = c }) in
      (d.kept, f)

-- ===== src/Proc/Scheduler/First.antt =====
-- The first process that a pass of scheduler() switches to.
use operating_systems_2_assi.Prelude.{
  ℕ, zero, suc, ◌+◌, ◌≤◌, ◌<◌, ◌≡◌, refl, ◌⊎◌, inl, inr, true, false, arith, List, [], ◌∷◌, ◌++◌,
  Bool-cases,
}
use operating_systems_2_assi.Proc.State.{Proc, nproc}
use operating_systems_2_assi.Proc.Scheduler.{
  Pick, is_eligible, Pass, visit, scan_level, scan_levels, scheduler_pass, found,
}

-- No process is runnable at a level below `l`, nor at `l` below index `i`.
abbrev pub NoneBefore : ℕ → ℕ → (ℕ → Proc) → Type 0
NoneBefore l i procs =
    (l' i' : ℕ) → i' < nproc → (l' < l) ⊎ ((l' ≡ l) × (i' < i)) → is_eligible l' (procs i') ≡ false

-- A process of the table that is runnable at the lowest level at which any is, and the first there.
pub record IsBest (procs : ℕ → Proc) (p : Pick) : Type 0 where
  pub in_table : p.index < nproc
  pub eligible : is_eligible p.level (procs p.index) ≡ true
  pub best : NoneBefore p.level p.index procs

-- Nothing was picked before the point (l, i) and nothing has changed, or the first pick is the best.
data First (procs : ℕ → Proc) (l i : ℕ) (s : Pass) : Type 0 where
  nothing : s ≡ record { procs = procs; picks = [] } → NoneBefore l i procs → First procs l i s
  picked : (p : Pick) (ps : List Pick) → s.picks ≡ p ∷ ps → IsBest procs p → First procs l i s

before_suc :
    (l i l' i' : ℕ)
    → (l' < l) ⊎ ((l' ≡ l) × (i' < suc i))
    → ((l' < l) ⊎ ((l' ≡ l) × (i' < i))) ⊎ ((l' ≡ l) × (i' ≡ i))
before_suc l i l' i' h = grind arith

before_level :
    (l l' i' : ℕ)
    → i' < nproc
    → (l' < suc l) ⊎ ((l' ≡ suc l) × (i' < 0))
    → (l' < l) ⊎ ((l' ≡ l) × (i' < nproc))
before_level l l' i' b h = grind arith

module _ (others : ℕ → (ℕ → Proc) → ℕ → Proc) (procs : ℕ → Proc) where
  visit-First :
      (l i : ℕ) (s : Pass)
      → i < nproc
      → First procs l i s
      → First procs l (suc i) (visit others l i s)
  unfolding visit
  visit-First l i s b (nothing e h) = elim (Bool-cases (is_eligible l (procs i))) [
    | inl t ↦
        rw (e, t)
          (picked (record { level = l; index = i }) [] refl
            (record { in_table = b; eligible = t; best = h }))
    | inr t ↦
        rw (e, t)
          (nothing refl (λ l' i' b' k. elim (before_suc l i l' i' k) [
            | inl k' ↦ h l' i' b' k'
            | inr (p, q) ↦ rw (p, q) t
          ]))
  ]
  visit-First l i s b (picked p ps e h) = elim (Bool-cases (is_eligible l (s.procs i))) [
    | inl t ↦ rw t (picked p (ps ++ record { level = l; index = i } ∷ []) (rw e) h)
    | inr t ↦ rw t (picked p ps e h)
  ]

  scan_level-First :
      (l n i m : ℕ) (s : Pass)
      → i + n ≡ m
      → m ≤ nproc
      → First procs l i s
      → First procs l m (scan_level others l n i s)
  unfolding scan_level
  scan_level-First l zero i m s e b h = let f : i ≡ m = omega arith in rw (← f) h
  scan_level-First l (suc n) i m s e b h =
      scan_level-First l n (suc i) m (visit others l i s) (omega arith) b
        (visit-First l i s (omega arith) h)

  next_level : (l : ℕ) (s : Pass) → First procs l nproc s → First procs (suc l) 0 s
  next_level l s (nothing e h) = nothing e (λ l' i' b k. h l' i' b (before_level l l' i' b k))
  next_level l s (picked p ps e h) = picked p ps e h

  scan_levels-First :
      (n l m : ℕ) (s : Pass)
      → l + n ≡ m
      → First procs l 0 s
      → First procs m 0 (scan_levels others n l s)
  unfolding scan_levels
  scan_levels-First zero l m s e h = let f : l ≡ m = omega arith in rw (← f) h
  scan_levels-First (suc n) l m s e h =
      scan_levels-First n (suc l) m (scan_level others l nproc 0 s) (omega arith) (
        next_level l (scan_level others l nproc 0 s)
          (scan_level-First l nproc 0 nproc s (omega arith) (omega arith) h))

  pass-First : First procs 4 0 (scheduler_pass others procs)
  unfolding scheduler_pass
  pass-First =
      scan_levels-First 4 0 4 (record { procs = procs; picks = [] }) (omega arith)
        (nothing refl (λ l' i' b k. absurd (omega arith)))

  -- A scheduler pass either finds no runnable process at the levels 0 to 3 and changes nothing,
  -- or it first switches to the first process of the lowest level at which any is runnable,
  -- whatever happens later in the pass.
  pub pass_first :
      ((found (scheduler_pass others procs) ≡ false)
        × ((scheduler_pass others procs).procs ≡ procs)
        × NoneBefore 4 0 procs)
      ⊎ ((p : Pick) × (ps : List Pick) × (found (scheduler_pass others procs) ≡ true)
          × ((scheduler_pass others procs).picks ≡ p ∷ ps)
          × IsBest procs p)
  pass_first = cases (scheduler_pass others procs) pass-First
    where
      cases :
          (s : Pass)
          → First procs 4 0 s
          → ((found s ≡ false) × (s.procs ≡ procs) × NoneBefore 4 0 procs)
            ⊎ ((p : Pick) × (ps : List Pick) × (found s ≡ true)
                × (s.picks ≡ p ∷ ps)
                × IsBest procs p)
      cases s (nothing e h) = inl (unfold found in rw e refl, rw e refl, h)
      cases s (picked p ps e h) = inr (p, ps, unfold found in rw e refl, e, h)

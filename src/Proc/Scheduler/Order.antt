-- ===== src/Proc/Scheduler/Order.antt =====
-- In which order one pass of scheduler() switches to processes.
use operating_systems_2_assi.Prelude.{
  ℕ, zero, suc, ◌+◌, ◌≤◌, ◌<◌, ◌≡◌, refl, ◌⊎◌, inl, inr, arith, List, [], ◌∷◌, ◌++◌, All,
  Bool-cases, true, false, update, ◌≢◌, ◌==◌, ==-self, ap,
}
use operating_systems_2_assi.Proc.State.{Proc, is_runnable, nproc}
use operating_systems_2_assi.Proc.Scheduler.{
  Pick, start_running, is_eligible, Pass, visit, scan_level, scan_levels, scheduler_pass,
}

-- `p` comes before the point (level, index) of the scan.
abbrev pub Precedes : Pick → ℕ → ℕ → Type 0
Precedes p level index = (p.level < level) ⊎ ((p.level ≡ level) × (p.index < index))

-- Each pick lies before the next one: by level, and at one level by index.
abbrev pub IsOrdered : List Pick → Type 0
IsOrdered [] = Unit
IsOrdered (p ∷ ps) = All (λ q. Precedes p q.level q.index) ps × IsOrdered ps

Precedes-trans :
    (l i l' i' : ℕ)
    → (l < l') ⊎ ((l ≡ l') × (i ≤ i'))
    → (p : Pick) → Precedes p l i
    → Precedes p l' i'
Precedes-trans l i l' i' k p h = grind arith

All-snoc : (P : Pick → Type 0) (ps : List Pick) (q : Pick) → All P ps → P q → All P (ps ++ q ∷ [])
All-snoc P [] q h k = (k, tt)
All-snoc P (p ∷ ps) q h k = (h.0, All-snoc P ps q h.1 k)

All-mono : (P Q : Pick → Type 0) (ps : List Pick) → ((p : Pick) → P p → Q p) → All P ps → All Q ps
All-mono P Q [] f h = tt
All-mono P Q (p ∷ ps) f h = (f p h.0, All-mono P Q ps f h.1)

-- A pick that all the others precede may be added.
IsOrdered-snoc :
    (ps : List Pick) (q : Pick)
    → IsOrdered ps
    → All (λ p. Precedes p q.level q.index) ps
    → IsOrdered (ps ++ q ∷ [])
IsOrdered-snoc [] q o h = (tt, tt)
IsOrdered-snoc (p ∷ ps) q o h = (All-snoc _ ps q o.0 h.0, IsOrdered-snoc ps q o.1 h.1)

module _ (others : ℕ → (ℕ → Proc) → ℕ → Proc) where
  -- A pass that starts with `procs` and stands at (level, index), the switches so far and the table
  -- after them. A process is switched to if it is runnable and of the level at that moment, and
  -- passed over if not.
  pub data Switches (procs : ℕ → Proc) : ℕ → ℕ → List Pick → (ℕ → Proc) → Type 0 where
    start : Switches procs 0 0 [] procs
    skip :
        {l i : ℕ} {ps : List Pick} {t : ℕ → Proc}
        → Switches procs l i ps t
        → i < nproc
        → (is_runnable (t i).state ≡ false) ⊎ ((t i).cur_queue_lvl ≢ l)
        → Switches procs l (suc i) ps t
    switch :
        {l i : ℕ} {ps : List Pick} {t : ℕ → Proc}
        → Switches procs l i ps t
        → i < nproc
        → is_runnable (t i).state ≡ true
        → (t i).cur_queue_lvl ≡ l
        → Switches procs l
            (suc i)
            (ps ++ record { level = l; index = i } ∷ [])
            (others i (update t i (start_running (t i))))
    next_level :
        {l : ℕ} {ps : List Pick} {t : ℕ → Proc}
        → Switches procs l nproc ps t
        → Switches procs (suc l) 0 ps t

-- What has been picked when the scan stands at (level, index).
record Scanned (level index : ℕ) (s : Pass) : Type 0 where
  ordered : IsOrdered s.picks
  behind : All (λ p. Precedes p level index) s.picks

later :
    (l i l' i' : ℕ) (s : Pass) → (l < l') ⊎ ((l ≡ l') × (i ≤ i')) → Scanned l i s → Scanned l' i' s
later l i l' i' s k h = record {
  ordered = h.ordered;
  behind = All-mono _ _ s.picks (Precedes-trans l i l' i' k) h.behind;
}

module _ (others : ℕ → (ℕ → Proc) → ℕ → Proc) (procs : ℕ → Proc) where
  abbrev IsRun : ℕ → ℕ → Pass → Type 0
  IsRun l i s = Switches others procs l i s.picks s.procs

  missed :
      (l : ℕ) (p : Proc)
      → is_eligible l p ≡ false
      → (is_runnable p.state ≡ false) ⊎ (p.cur_queue_lvl ≢ l)
  missed l p e = elim (Bool-cases (is_runnable p.state)) [
    | inl r ↦ inr (λ d.
        absurd (let c = ==-self l in let q = ap (λ x. x == l) d in ground (arith, e, r, q, c)))
    | inr r ↦ inl r
  ]

  visit-Scanned :
      (l i : ℕ) (s : Pass)
      → i < nproc
      → Scanned l i s × IsRun l i s
      → Scanned l (suc i) (visit others l i s) × IsRun l (suc i) (visit others l i s)
  unfolding visit
  visit-Scanned l i s b (h, r) = elim (Bool-cases (is_eligible l (s.procs i))) [
    | inl e ↦ rw e (
      record {
        ordered = IsOrdered-snoc s.picks here h.ordered h.behind;
        behind =
            All-snoc _ s.picks here
              (All-mono _ _ s.picks (Precedes-trans l i l (suc i) (inr (refl, omega arith)))
                h.behind)
              (inr (refl, omega arith));
      },
      Switches.switch r b (ground (arith, e)) (ground (arith, e)),
    )
    | inr e ↦ rw e (
      later l i l (suc i) s (inr (refl, omega arith)) h,
      Switches.skip r b (missed l (s.procs i) e),
    )
  ]
    where
      here : Pick
      here = record { level = l; index = i }

  scan_level-Scanned :
      (l n i : ℕ) (s : Pass)
      → i + n ≡ nproc
      → Scanned l i s × IsRun l i s
      → Scanned l nproc (scan_level others l n i s) × IsRun l nproc (scan_level others l n i s)
  unfolding scan_level
  scan_level-Scanned l zero i s e h = let f : i ≡ nproc = omega arith in rw (← f) h
  scan_level-Scanned l (suc n) i s e h =
      scan_level-Scanned l n (suc i) (visit others l i s) (omega arith)
        (visit-Scanned l i s (omega arith) h)

  scan_levels-Scanned :
      (n l m : ℕ) (s : Pass)
      → l + n ≡ m
      → Scanned l 0 s × IsRun l 0 s
      → Scanned m 0 (scan_levels others n l s) × IsRun m 0 (scan_levels others n l s)
  unfolding scan_levels
  scan_levels-Scanned zero l m s e h = let f : l ≡ m = omega arith in rw (← f) h
  scan_levels-Scanned (suc n) l m s e h =
      let t = scan_level others l nproc 0 s in
      let (k, r) = scan_level-Scanned l nproc 0 s (omega arith) h in
      scan_levels-Scanned n (suc l) m t (omega arith)
        (later l nproc (suc l) 0 t (inl (omega arith)) k, Switches.next_level r)

  -- Whatever the processes and the other CPUs do during a scheduler pass, it looks at every
  -- process of the table once for each of the levels 0 to 3, switches to it if it is runnable and
  -- of that level at that moment, and passes over it if not; the pass itself changes only the
  -- process that it switches to; and it never goes back to a lower level: each process is picked
  -- after those of lower levels, and at one level after those of lower indices.
  pub pass-IsOrdered :
      IsOrdered (scheduler_pass others procs).picks
      × Switches others procs 4 0
          (scheduler_pass others procs).picks
          (scheduler_pass others procs).procs
  unfolding scheduler_pass
  pass-IsOrdered =
      let (h, r) =
        scan_levels-Scanned 4 0 4 (record { procs = procs; picks = [] }) (omega arith)
          (record { ordered = tt; behind = tt }, Switches.start) in
      (h.ordered, r)

-- ===== src/SwapDisk/Queue/Choice.antt =====
-- Which request disk_schedule_locked() of kernel/swap_disk.c chooses.
use operating_systems_2_assi.Prelude.{
  ℕ, zero, suc, ◌+◌, ◌≤◌, ◌<◌, ◌≡◌, refl, ◌⊎◌, inl, inr, Bool, true, false, ◌&&◌, ◌||◌, Option,
  none, some, arith, ltb, ◌==◌, subst, Bool-cases, IsFirst, NoneIn, find_first-IsFirst,
  find_first-none,
}
use operating_systems_2_assi.SwapDisk.State.{DiskReq, DiskQueue, max_disk_reqs, disk_sched_fcfs}
use operating_systems_2_assi.SwapDisk.Queue.{
  seek, Best, sstf_step, sstf_loop, disk_schedule_locked, chosen_of,
}

-- With the FCFS policy the chosen request is the valid one of the lowest index.
pub fcfs-IsFirst :
    (q : DiskQueue) (k : ℕ)
    → q.policy ≡ disk_sched_fcfs
    → disk_schedule_locked q ≡ some k
    → IsFirst (λ i. (q.reqs i).valid) max_disk_reqs 0 k
unfolding disk_schedule_locked
fcfs-IsFirst q k p e = find_first-IsFirst (λ i. (q.reqs i).valid) max_disk_reqs 0 k (rw p at e)

-- Request `k` is no farther from the head than `j`, and of no worse priority at the same distance.
abbrev NotAfter : ℕ → (ℕ → DiskReq) → ℕ → ℕ → Type 0
NotAfter head reqs k j =
    (seek head (reqs k).blockno ≤ seek head (reqs j).blockno)
    × (seek head (reqs j).blockno ≡ seek head (reqs k).blockno
        → (reqs k).priority ≤ (reqs j).priority)

-- The same, and strictly better in one of the two.
abbrev pub Before : ℕ → (ℕ → DiskReq) → ℕ → ℕ → Type 0
Before head reqs k j =
    (seek head (reqs k).blockno ≤ seek head (reqs j).blockno)
    × (seek head (reqs j).blockno ≡ seek head (reqs k).blockno
        → (reqs k).priority < (reqs j).priority)

-- `k` is the nearest of the valid requests below `n`, the first of those that tie.
pub record IsNearest (head : ℕ) (reqs : ℕ → DiskReq) (n k : ℕ) : Type 0 where
  pub below : k < n
  pub is_valid : (reqs k).valid ≡ true
  pub nearest : (j : ℕ) → j < n → (reqs j).valid ≡ true → NotAfter head reqs k j
  pub first : (j : ℕ) → j < k → (reqs j).valid ≡ true → Before head reqs k j

-- What the loop variables stand for after the requests below `i`.
abbrev Seen : ℕ → (ℕ → DiskReq) → ℕ → Option Best → Type 0
Seen head reqs i none = (j : ℕ) → j < i → (reqs j).valid ≡ false
Seen head reqs i (some b) =
    IsNearest head reqs i b.chosen
    × (b.min_dist ≡ seek head (reqs b.chosen).blockno)
    × (b.best_pri ≡ (reqs b.chosen).priority)

lt_suc : (j i : ℕ) → j < suc i → (j ≡ i) ⊎ (j < i)
lt_suc j i h = grind arith

module _ (head : ℕ) (reqs : ℕ → DiskReq) where
  -- A request that nothing before it equals becomes the nearest.
  new-IsNearest :
      (i : ℕ)
      → (reqs i).valid ≡ true
      → ((j : ℕ) → j < i → (reqs j).valid ≡ true → Before head reqs i j)
      → IsNearest head reqs (suc i) i
  new-IsNearest i v h = record {
    below = omega arith;
    is_valid = v;
    nearest = λ j b w. elim (lt_suc j i b) [
      | inl e ↦ rw e (omega arith)
      | inr l ↦ (let p = h j l w in omega arith)
    ];
    first = h;
  }

  -- One that does not come before the nearest so far leaves it.
  keep-IsNearest :
      (i k : ℕ)
      → IsNearest head reqs i k
      → ((reqs i).valid ≡ true → NotAfter head reqs k i)
      → IsNearest head reqs (suc i) k
  keep-IsNearest i k p h = record {
    below = omega (arith, p.below);
    is_valid = p.is_valid;
    nearest =
        λ j b w. elim (lt_suc j i b) [ inl e ↦ rw e (h (rw e at w)) | inr l ↦ p.nearest j l w ];
    first = p.first;
  }

  -- The test by which a valid request replaces the best so far.
  abbrev beats : ℕ → Best → Bool
  beats i b =
      ltb (seek head (reqs i).blockno) b.min_dist
      || (seek head (reqs i).blockno == b.min_dist && ltb (reqs i).priority b.best_pri)

  beats-true :
      (i : ℕ) (b : Best)
      → beats i b ≡ true
      → (seek head (reqs i).blockno ≤ b.min_dist)
        × (seek head (reqs i).blockno ≡ b.min_dist → (reqs i).priority < b.best_pri)
  beats-true i b t = ground arith

  beats-false :
      (i : ℕ) (b : Best)
      → beats i b ≡ false
      → (b.min_dist ≤ seek head (reqs i).blockno)
        × (seek head (reqs i).blockno ≡ b.min_dist → b.best_pri ≤ (reqs i).priority)
  beats-false i b t = ground arith

  sstf_step-Seen :
      (i : ℕ) (best : Option Best)
      → Seen head reqs i best
      → Seen head reqs (suc i) (sstf_step head i (reqs i) best)
  unfolding sstf_step
  sstf_step-Seen i none h = elim (Bool-cases (reqs i).valid) [
    | inl v ↦ rw v (new-IsNearest i v (λ j b w. absurd (let e = h j b in cc)), refl, refl)
    | inr v ↦ rw v (λ j b. elim (lt_suc j i b) [ inl e ↦ rw e v | inr l ↦ h j l ])
  ]
  sstf_step-Seen i (some b) h = elim (Bool-cases (reqs i).valid) [
    | inr v ↦ rw v (keep-IsNearest i b.chosen h.0 (λ w. absurd (cc)), h.1, h.2)
    | inl v ↦ elim (Bool-cases (beats i b)) [
      | inl t ↦
          rw (v, t)
            (
              new-IsNearest i v (λ j l w.
                  let p = h.0.nearest j l w in
                  let q = beats-true i b t in omega (arith, p, q, h.1, h.2)),
              refl,
              refl,
            )
      | inr t ↦
          rw (v, t)
            (
              keep-IsNearest i b.chosen h.0
                  (λ _. let q = beats-false i b t in omega (arith, q, h.1, h.2)),
              h.1,
              h.2,
            )
    ]
  ]

  sstf_loop-Seen :
      (n i m : ℕ) (best : Option Best)
      → i + n ≡ m
      → Seen head reqs i best
      → Seen head reqs m (sstf_loop head reqs n i best)
  unfolding sstf_loop
  sstf_loop-Seen zero i m best e h = let e' : i ≡ m = omega arith in rw (← e') h
  sstf_loop-Seen (suc n) i m best e h =
      sstf_loop-Seen n (suc i) m (sstf_step head i (reqs i) best) (omega arith)
        (sstf_step-Seen i best h)

chosen-IsNearest :
    (q : DiskQueue) (k : ℕ) (best : Option Best)
    → Seen q.head q.reqs max_disk_reqs best
    → chosen_of best ≡ some k
    → IsNearest q.head q.reqs max_disk_reqs k
chosen-IsNearest q k none h e = absurd (cc)
chosen-IsNearest q k (some b) h e =
    let e' : b.chosen ≡ k = ground arith in subst (IsNearest q.head q.reqs max_disk_reqs) e' h.0

-- With a policy other than FCFS the chosen request is the valid one nearest to the head; at equal
-- distance the one of the lowest MLFQ level, and among those the one of the lowest index.
pub sstf-IsNearest :
    (q : DiskQueue) (k : ℕ)
    → (q.policy == disk_sched_fcfs) ≡ false
    → disk_schedule_locked q ≡ some k
    → IsNearest q.head q.reqs max_disk_reqs k
unfolding disk_schedule_locked
sstf-IsNearest q k p e =
    chosen-IsNearest q k (sstf_loop q.head q.reqs max_disk_reqs 0 none)
      (sstf_loop-Seen q.head q.reqs max_disk_reqs 0 max_disk_reqs none (omega arith)
        (λ j b. absurd (omega arith)))
      (rw p at e)

chosen_none :
    (q : DiskQueue) (best : Option Best)
    → Seen q.head q.reqs max_disk_reqs best
    → chosen_of best ≡ none
    → NoneIn (λ i. (q.reqs i).valid) max_disk_reqs 0
chosen_none q none h e = λ j a b. h j (omega arith)
chosen_none q (some b) h e = absurd (cc)

-- Under either policy no request is chosen only when no request of the table is valid.
schedule-none :
    (q : DiskQueue) → disk_schedule_locked q ≡ none → NoneIn (λ i. (q.reqs i).valid) max_disk_reqs 0
unfolding disk_schedule_locked
schedule-none q e = elim (Bool-cases (q.policy == disk_sched_fcfs)) [
  | inl p ↦ find_first-none (λ i. (q.reqs i).valid) max_disk_reqs 0 (rw p at e)
  | inr p ↦
      chosen_none q (sstf_loop q.head q.reqs max_disk_reqs 0 none)
        (sstf_loop-Seen q.head q.reqs max_disk_reqs 0 max_disk_reqs none (omega arith)
          (λ j a. absurd (omega arith)))
        (rw p at e)
]

-- ===== src/Proc/Lifecycle/Alloc.antt =====
-- What allocproc() and kfork() of kernel/proc.c set up.
use operating_systems_2_assi.Prelude.{
  ℕ, ◌+◌, ◌≤◌, ◌≡◌, ◌≢◌, refl, ◌⊎◌, inl, inr, true, Option, none, some, arith, ◌==◌, update,
  find_first-IsFirst, find_first-none, subst, Option-cases, Bool-cases, ==-self, ==-ne, IsFirst,
  NoneIn,
}
use operating_systems_2_assi.Proc.State.{ProcState, is_unused, nproc}
use operating_systems_2_assi.Proc.Lifecycle.{Table, freeproc, init_proc, find_unused, allocproc}

-- A successful allocation takes the first unused entry and gives it the next id and an empty history
-- at level 0; no other entry changes.
pub record Allocated (t : Table) (i : ℕ) (t' : Table) : Type 0 where
  pub first : IsFirst (λ j. is_unused (t.procs j).state) nproc 0 i
  pub in_use : (t'.procs i).state ≡ ProcState.used
  pub pid : (t'.procs i).pid ≡ t.nextpid
  pub next : t'.nextpid ≡ t.nextpid + 1
  pub same_init : t'.initproc ≡ t.initproc
  pub queue :
      ((t'.procs i).cur_queue_lvl ≡ 0)
      × ((t'.procs i).ticks_each_level ≡ 0)
      × ((t'.procs i).temp ≡ 0)
      × ((t'.procs i).syscount ≡ 0)
      × ((l : ℕ) → l ≤ 3 → (t'.procs i).ticks l ≡ 0)
  pub others : (j : ℕ) → j ≢ i → t'.procs j ≡ t.procs j

ticks_cleared :
    (f : ℕ → ℕ) (l : ℕ) → l ≤ 3 → update (update (update (update f 0 0) 1 0) 2 0) 3 0 l ≡ 0
ticks_cleared f l h = ground arith

-- Of the three outcomes, the table is full and nothing changes; memory runs out, and the first unused
-- entry is unused again; or the allocation succeeds.
pub data Outcomes (frame pagetable : ℕ) (t : Table) (r : Option ℕ × Table) : Type 0 where
  full :
      NoneIn (λ j. is_unused (t.procs j).state) nproc 0
      → r ≡ (none, t)
      → Outcomes frame pagetable t r
  no_memory :
      (i : ℕ)
      → (frame ≡ 0) ⊎ (pagetable ≡ 0)
      → r.0 ≡ none
      → is_unused (r.1.procs i).state ≡ true
      → ((j : ℕ) → j ≢ i → r.1.procs j ≡ t.procs j)
      → Outcomes frame pagetable t r
  done :
      (i : ℕ)
      → frame ≢ 0
      → pagetable ≢ 0
      → r.0 ≡ some i
      → Allocated t i r.1
      → Outcomes frame pagetable t r

-- An allocation has three outcomes: the table is full and nothing changes; memory runs out, the
-- result is null, an entry is unused and no other entry has changed; or both memory allocations
-- succeed, the first unused entry has the next id and an empty history at level 0, and no other
-- entry has changed.
pub allocproc-Outcomes :
    (frame pagetable : ℕ) (t : Table) → Outcomes frame pagetable t (allocproc frame pagetable t)
unfolding allocproc freeproc init_proc
allocproc-Outcomes frame pagetable t = elim (Option-cases (find_unused t)) [
  | inl e ↦ rw (e, allocproc) (full (find_first-none _ nproc 0 e) refl)
  | inr (i, e) ↦ elim (Bool-cases (frame == 0)) [
    | inl f ↦
        rw (e, allocproc, f)
          (no_memory i (inl (ground arith)) refl (rw (==-self i)) (λ j n. rw (==-ne j i n)))
    | inr f ↦ elim (Bool-cases (pagetable == 0)) [
      | inl g ↦
          rw (e, allocproc, f, g)
            (no_memory i (inr (ground arith)) refl (rw (==-self i)) (λ j n. rw (==-ne j i n)))
      | inr g ↦
          rw (e, allocproc, f, g)
            (done i (ground arith) (ground arith) refl (record {
              first = find_first-IsFirst _ nproc 0 i e;
              in_use = rw (==-self i);
              pid = rw (==-self i);
              next = refl;
              same_init = refl;
              queue = rw (==-self i) (refl, refl, refl, refl, ticks_cleared (t.procs i).ticks);
              others = λ j n. rw (==-ne j i n);
            }))
    ]
  ]
]

pub allocproc-Allocated :
    (frame pagetable : ℕ) (t : Table) (i : ℕ)
    → (allocproc frame pagetable t).0 ≡ some i
    → Allocated t i (allocproc frame pagetable t).1
allocproc-Allocated frame pagetable t i h =
    cases (allocproc frame pagetable t) (allocproc-Outcomes frame pagetable t) h
  where
    cases : (r : Option ℕ × Table) → Outcomes frame pagetable t r → r.0 ≡ some i → Allocated t i r.1
    cases r (full a e) h = absurd (ground arith)
    cases r (no_memory k a e b c) h = absurd (cc)
    cases r (done k a b e c) h =
        let q : k ≡ i = ground arith in subst (λ (x : ℕ). Allocated t x r.1) q c

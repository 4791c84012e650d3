-- ===== src/Proc/Lifecycle/Pids.antt =====
-- The process ids of kernel/proc.c: live entries have distinct ids, all below nextpid.
use operating_systems_2_assi.Prelude.{
  ℕ, ◌+◌, ◌≤◌, ◌<◌, ◌≡◌, ◌≢◌, refl, inl, inr, Bool, true, false, arith, ◌==◌, update, ap,
  Option-cases, Bool-cases, ==_iff, ok,
}
use operating_systems_2_assi.Proc.State.{Proc, ℤ, is_unused}
use operating_systems_2_assi.Proc.Sleep.{is_me}
use operating_systems_2_assi.Proc.Lifecycle.Exit.{Exited, kexit-Exited}
use operating_systems_2_assi.Proc.Lifecycle.Alloc.{allocproc-Allocated}
use operating_systems_2_assi.Proc.Lifecycle.{
  Table, freeproc, init_proc, find_unused, allocproc, forked, kfork, kexit, kwait_round, reaped,
  find_zombie,
}

-- An entry that is not unused has a positive id below nextpid, no two of them share one, and an
-- unused entry has id 0.
pub record IsTable (t : Table) : Type 0 where
  pub next_pos : 0 < t.nextpid
  pub pid_fresh :
      (i : ℕ)
      → is_unused (t.procs i).state ≡ false
      → (0 < (t.procs i).pid) × ((t.procs i).pid < t.nextpid)
  pub pid_distinct :
      (i j : ℕ)
      → i ≢ j
      → is_unused (t.procs i).state ≡ false
      → is_unused (t.procs j).state ≡ false
      → (t.procs i).pid ≢ (t.procs j).pid
  pub free_blank : (i : ℕ) → is_unused (t.procs i).state ≡ true → (t.procs i).pid ≡ 0

-- Two tables that agree on the ids and on which entries are unused.
abbrev SamePids : (ℕ → Proc) → (ℕ → Proc) → Type 0
SamePids procs procs' =
    (i : ℕ)
    → ((procs' i).pid ≡ (procs i).pid) × (is_unused (procs' i).state ≡ is_unused (procs i).state)

SamePids-IsTable :
    (t t' : Table) → t'.nextpid ≡ t.nextpid → SamePids t.procs t'.procs → IsTable t → IsTable t'
SamePids-IsTable t t' e s h = record {
  next_pos = rw e h.next_pos;
  pid_fresh = λ i u. rw ((s i).0, e) (h.pid_fresh i (rw (s i).1 at u));
  pid_distinct =
      λ i j n u w. rw ((s i).0, (s j).0) (h.pid_distinct i j n (rw (s i).1 at u) (rw (s j).1 at w));
  free_blank = λ i u. rw (s i).0 (h.free_blank i (rw (s i).1 at u));
}

-- An entry that becomes unused with id 0; the next id may grow.
freed-IsTable :
    (t : Table) (i m : ℕ) (p : Proc)
    → is_unused p.state ≡ true
    → p.pid ≡ 0
    → t.nextpid ≤ m
    → IsTable t
    → IsTable (record t { procs = update t.procs i p; nextpid = m })
freed-IsTable t i m p u z l h = record {
  next_pos = omega (arith, h.next_pos);
  pid_fresh = λ j w. ground (arith, h.pid_fresh j);
  pid_distinct = λ j k n w x. ground (arith, h.pid_distinct j k n);
  free_blank = λ j w. ground (arith, h.free_blank j);
}

-- A new entry takes the next id.
new-IsTable :
    (t : Table) (i : ℕ) (p : Proc)
    → is_unused p.state ≡ false
    → p.pid ≡ t.nextpid
    → IsTable t
    → IsTable (record t { procs = update t.procs i p; nextpid = t.nextpid + 1 })
new-IsTable t i p u e h = record {
  next_pos = omega arith;
  pid_fresh = λ j w. ground (arith, h.pid_fresh j, h.next_pos);
  pid_distinct = λ j k n w x. ground (arith, h.pid_distinct j k n, h.pid_fresh j, h.pid_fresh k);
  free_blank = λ j w. ground (arith, h.free_blank j);
}

-- An allocation, whether it succeeds or runs out of entries or memory, keeps the process table
-- well formed.
pub allocproc-IsTable :
    (frame pagetable : ℕ) (t : Table) → IsTable t → IsTable (allocproc frame pagetable t).1
unfolding allocproc init_proc freeproc
allocproc-IsTable frame pagetable t h = elim (Option-cases (find_unused t)) [
  | inl e ↦ rw (e, allocproc) h
  | inr (i, e) ↦ elim (Bool-cases (frame == 0)) [
    | inl f ↦ rw (e, allocproc, f) (freed-IsTable t i (t.nextpid + 1) _ refl refl (omega arith) h)
    | inr f ↦ elim (Bool-cases (pagetable == 0)) [
      | inl g ↦
          rw (e, allocproc, f, g) (freed-IsTable t i (t.nextpid + 1) _ refl refl (omega arith) h)
      | inr g ↦ rw (e, allocproc, f, g) (new-IsTable t i _ refl refl h)
    ]
  ]
]

-- A fork, whether or not it succeeds, keeps the process table well formed: live entries have
-- distinct positive ids below nextpid, and unused ones have id 0.
pub kfork-IsTable :
    (me frame pagetable : ℕ) (copied : Bool) (t : Table)
    → IsTable t
    → IsTable (kfork me frame pagetable copied t).1
unfolding kfork freeproc
kfork-IsTable me frame pagetable copied t h =
    let t' : Table = (allocproc frame pagetable t).1 in
    let h' = allocproc-IsTable frame pagetable t h in
    elim (Option-cases (allocproc frame pagetable t).0) [
      | inl e ↦ rw (e, kfork) h'
      | inr (i, e) ↦ elim (Bool-cases copied) [
        | inl c ↦
            rw (e, kfork, c)
              (SamePids-IsTable t'
                (record t' { procs = update t'.procs i (forked me (t'.procs me) (t'.procs i)) })
                refl
                (λ j.
                  ground (arith, ap is_unused (allocproc-Allocated frame pagetable t i e).in_use))
                h')
        | inr c ↦
            rw (e, kfork, c)
              (freed-IsTable t' i t'.nextpid (freeproc (t'.procs i)) refl refl (omega arith) h')
      ]
    ]

Exited-IsTable :
    (addr : ℕ → ℕ) (status : ℤ) (me : ℕ) (t t' : Table)
    → is_unused (t.procs me).state ≡ false
    → Exited addr status me t t'
    → IsTable t
    → IsTable t'
Exited-IsTable addr status me t t' u x h =
    SamePids-IsTable t t' x.same_next.0
      (λ j. elim (Bool-cases (j == me)) [
        | inl e ↦ rw ((==_iff j me).0 e) (x.same_pid, rw (x.is_dead, u))
        | inr e ↦ (let n = x.others j (λ q. let r = (==_iff j me).1 q in cc) in (n.pid, n.is_free))
      ])
      h

-- An exit of a live process that does not stop the machine keeps the process table well formed.
pub kexit-IsTable :
    (addr : ℕ → ℕ) (status : ℤ) (me : ℕ) (t t' : Table)
    → is_unused (t.procs me).state ≡ false
    → kexit addr status me t ≡ ok t'
    → IsTable t
    → IsTable t'
unfolding kexit
kexit-IsTable addr status me t t' u e h = elim (Bool-cases (is_me t.initproc me)) [
  | inl i ↦ absurd (ground (arith, i, e))
  | inr i ↦
      let (t'', f, x) = kexit-Exited addr status me t i in
      let q : t'' ≡ t' = cc in rw (← q) (Exited-IsTable addr status me t t'' u x h)
]

reaped_entry :
    (me pid : ℕ) (status : ℤ) (wanted copied : Bool) (t t' : Table)
    → kwait_round me wanted copied t ≡ reaped pid status t'
    → (i : ℕ) × (t' ≡ record t { procs = update t.procs i (freeproc (t.procs i)) })
unfolding kwait_round
reaped_entry me pid status wanted copied t t' e = elim (Option-cases (find_zombie me t)) [
  | inl n ↦ absurd (ground (arith, n))
  | inr (i, n) ↦ (i, ground (arith, n))
]

-- A round of wait() that reaps a child keeps the process table well formed.
pub kwait_round-IsTable :
    (me pid : ℕ) (status : ℤ) (wanted copied : Bool) (t t' : Table)
    → kwait_round me wanted copied t ≡ reaped pid status t'
    → IsTable t
    → IsTable t'
unfolding freeproc
kwait_round-IsTable me pid status wanted copied t t' e h =
    let (i, q) = reaped_entry me pid status wanted copied t t' e in
    rw q (freed-IsTable t i t.nextpid (freeproc (t.procs i)) refl refl (omega arith) h)

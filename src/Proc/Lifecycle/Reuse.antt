-- ===== src/Proc/Lifecycle/Reuse.antt =====
-- What an entry of the process table keeps from one process to the next.
use operating_systems_2_assi.Prelude.{
  ℕ, ◌<◌, ◌≡◌, inl, inr, Bool, true, some, arith, ◌==◌, update, ap, fun_ext, ◌∙◌, find_first,
  Option-cases, Bool-cases,
}
use operating_systems_2_assi.Proc.State.{Proc, is_unused, nproc}
use operating_systems_2_assi.Proc.Sleep.{kkill, kill_one}
use operating_systems_2_assi.Proc.Lifecycle.{Table, init_proc, find_unused, allocproc}
use operating_systems_2_assi.Proc.Lifecycle.Pids.{IsTable}

-- When an allocation succeeds, the new process has the disk statistics that its entry had before.
pub allocproc-disk_stats :
    (frame pagetable i : ℕ) (t : Table)
    → (allocproc frame pagetable t).0 ≡ some i
    → (((allocproc frame pagetable t).1.procs i).disk_reads ≡ (t.procs i).disk_reads)
      × (((allocproc frame pagetable t).1.procs i).disk_writes ≡ (t.procs i).disk_writes)
      × (((allocproc frame pagetable t).1.procs i).avg_disk_latency ≡ (t.procs i).avg_disk_latency)
unfolding allocproc init_proc
allocproc-disk_stats frame pagetable i t h = elim (Option-cases (find_unused t)) [
  | inl e ↦ absurd (ground (arith, e))
  | inr (k, e) ↦ ground (arith, e)
]

-- Where the ids are those of a well-formed table, id 0 marks the unused entries.
pid-is_unused :
    (t : Table)
    → IsTable t
    → ◌≡◌ {A = ℕ → Bool} (λ j. (t.procs j).pid == 0) (λ j. is_unused (t.procs j).state)
pid-is_unused t h = fun_ext λ j. elim (Bool-cases (is_unused (t.procs j).state)) [
  | inl u ↦ rw u (ground (arith, h.free_blank j u))
  | inr u ↦ rw u (ground (arith, h.pid_fresh j u))
]

-- Killing leaves the unused entries unused.
is_unused-kill :
    (procs : ℕ → Proc) (i : ℕ)
    → ◌≡◌ {A = ℕ → Bool}
        (λ j. is_unused (update procs i (kill_one (procs i)) j).state)
        (λ j. is_unused (procs j).state)
is_unused-kill procs i = fun_ext λ j. ground arith

-- In a well-formed table with an unused entry kill(0) hits the first of them: it succeeds, and
-- the next process, if there is memory for it, is allocated there and born killed.
pub kkill_zero :
    (frame pagetable i : ℕ) (t : Table)
    → IsTable t
    → find_unused t ≡ some i
    → 0 < frame
    → 0 < pagetable
    → (procs' : ℕ → Proc) × (kkill 0 t.procs ≡ some procs')
      × ((allocproc frame pagetable (record t { procs = procs' })).0 ≡ some i)
      × (((allocproc frame pagetable (record t { procs = procs' })).1.procs i).killed ≡ true)
unfolding kkill allocproc init_proc
kkill_zero frame pagetable i t h e f g =
    let procs' : ℕ → Proc = update t.procs i (kill_one (t.procs i)) in
    let k : find_first (λ j. (t.procs j).pid == 0) nproc 0 ≡ some i =
      ap (λ (test : ℕ → Bool). find_first test nproc 0) (pid-is_unused t h) ∙ e in
    let u : find_first (λ j. is_unused (procs' j).state) nproc 0 ≡ some i =
      ap (λ (test : ℕ → Bool). find_first test nproc 0) (is_unused-kill t.procs i) ∙ e in
    (procs', ground (arith, k), ground (arith, u), ground (arith, u))

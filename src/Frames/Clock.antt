-- ===== src/Frames/Clock.antt =====
-- kernel/kalloc.c: clock_evict().
pub mod Round
pub mod Priority
pub mod Victim
pub mod Evict
use operating_systems_2_assi.Prelude.{
  ℕ, zero, suc, ◌+◌, ◌%◌, Bool, true, false, not, ◌&&◌, ◌||◌, Option, none, some, if◌then◌else◌,
  ◌==◌, ltb, update, update₂, find_first, Outcome, ok, panic, Panic, ◌>>=◌,
}
use operating_systems_2_assi.Proc.State.{Proc, is_running, decr}
use operating_systems_2_assi.Proc.Sleep.{is_me}
use operating_systems_2_assi.Frames.State.{
  Memory, Pte, Frame, max_frames, pgsize, pte_at, set_pte, procs_of, with_proc, acquire_framelock,
  release_framelock,
}
use operating_systems_2_assi.Frames.Swap.{swapout}

-- p->state == RUNNING && p != myproc()
abbrev pub runs_elsewhere : Memory → ℕ → Bool
runs_elsewhere m p = is_running (procs_of m p).state && not (is_me m.disk.current p)

-- best_idx and best_level, once a candidate was found.
pub record Candidate : Type 0 where
  pub index : ℕ
  pub level : ℕ

-- best_idx == -1 || best_level < p->cur_queue_lvl
abbrev pub better : ℕ → ℕ → Option Candidate → Option Candidate
better index level none = some (record { index = index; level = level })
better index level (some c) =
    if ltb c.level level then some (record { index = index; level = level }) else some c

-- The loop variables: the memory, whose clock hand moves and whose PTE_A flags are cleared, and the
-- candidate.
pub record Scan : Type 0 where
  pub memory : Memory
  pub best : Option Candidate

abbrev pub advance : Scan → Scan
advance s = record s {
  memory = record s.memory { clock_hand = (s.memory.clock_hand + 1) % max_frames };
}

-- What one round does with the frame under the hand when its process `p` may lose it.
unfoldable pub consider : ℕ → ℕ → Scan → Scan
consider p va s = elim (pte_at s.memory (procs_of s.memory p).pagetable va) [
  | none ↦ s
  | some e ↦
      if not e.v
      then s
      else if e.a
      then record s {
        memory = set_pte (procs_of s.memory p).pagetable va (record e { a = false }) s.memory;
      }
      else record s { best = better s.memory.clock_hand (procs_of s.memory p).cur_queue_lvl s.best }
]

unfoldable pub inspect : Scan → Scan
inspect s = elim frame.proc [
  | none ↦ s
  | some p ↦ if runs_elsewhere s.memory p then s else consider p frame.va s
]
  where
    frame : Frame
    frame = s.memory.frames s.memory.clock_hand

-- while (loops < MAX_FRAMES * 2): every round counts one and moves the hand.
unfoldable pub scan : ℕ → Scan → Scan
scan zero s = s
scan (suc n) s = scan n (advance (inspect s))

-- The first frame of a process that does not run elsewhere, if the scan found no candidate.
unfoldable pub any_frame : Memory → Option ℕ
any_frame m = find_first (λ i. may_lose (m.frames i).proc) max_frames 0
  where
    may_lose : Option ℕ → Bool
    may_lose none = false
    may_lose (some p) = not (runs_elsewhere m p)

-- best_idx after the two loops, with the memory that they leave.
abbrev pub chosen : Option Candidate → Memory → Option ℕ × Memory
chosen none m = (any_frame m, m)
chosen (some c) m = (some c.index, m)

unfoldable pub choose : Memory → Option ℕ × Memory
choose m = pick (scan (max_frames + max_frames) (record { memory = m; best = none }))
  where
    pick : Scan → Option ℕ × Memory
    pick s = chosen s.best s.memory

-- The statistics of the process that lost a page.
abbrev pub count_eviction : Proc → Proc
count_eviction p = record p {
  pages_evicted = suc p.pages_evicted;
  pages_swapped_out = suc p.pages_swapped_out;
  resident_pages = decr p.resident_pages;
}

abbrev pub set_frame : ℕ → Frame → Memory → Memory
set_frame i f m = record m { frames = update m.frames i f }

-- Evicting frame `i` of process `p`, from the lock's release on: the frame is hidden while the page is
-- written, and given back if that fails.
unfoldable pub evict : ℕ → ℕ → Memory → Outcome (ℕ × Memory)
evict i p m =
    let f : Frame = m.frames i in
    let hidden : Memory = release_framelock (set_frame i (record f { proc = none }) m) in
    swapout (procs_of m p).pagetable f.va hidden >>= λ r. elim r.0 [
      | none ↦ acquire_framelock r.1 >>= λ m'.
          ok (0, release_framelock (set_frame i (record (m'.frames i) { proc = some p }) m'))
      | some idx ↦ acquire_framelock r.1 >>= λ m'. ok (
        f.pa,
        release_framelock (record (set_frame i (record (m'.frames i) { used = false }) m') {
          active_frames = decr m'.active_frames;
          disk = with_proc (some p) count_eviction m'.disk;
        }),
      )
    ]

-- What follows the choice: nothing to evict, or the hand moves behind the victim, which is evicted.
unfoldable pub evict_chosen : Option ℕ → Memory → Outcome (ℕ × Memory)
evict_chosen none m = ok (0, release_framelock m)
evict_chosen (some i) m = elim ((m.frames i).proc) [
  | none ↦ panic Panic.null
  | some p ↦ evict i p (record m { clock_hand = (i + 1) % max_frames })
]

-- The address of the page that became free, 0 if none did.
unfoldable pub clock_evict : Memory → Outcome (ℕ × Memory)
clock_evict m = acquire_framelock m >>= λ m. let (chosen, m') = choose m in evict_chosen chosen m'

-- ===== src/Frames/Clock/Evict.antt =====
-- The whole of clock_evict() in kernel/kalloc.c when a page can be evicted.
use operating_systems_2_assi.Prelude.{
  ℕ, ◌+◌, ◌*◌, ◌/◌, ◌%◌, ◌<◌, ◌≡◌, refl, inl, inr, true, false, Option, none, some, arith, Outcome,
  ok, ◌∙◌, ap, Option-cases, ==-self,
}
use operating_systems_2_assi.Proc.State.{decr}
use operating_systems_2_assi.SwapDisk.Queue.Accounting.{IsIdle}
use operating_systems_2_assi.SwapDisk.Raid.Layout.{IsMode}
use operating_systems_2_assi.SwapDisk.Pages.In.{Holds}
use operating_systems_2_assi.SwapDisk.Pages.Faults.{servable}
use operating_systems_2_assi.Frames.State.{
  Memory, Pte, Frame, max_frames, pgsize, pte2pa, pte_at, procs_of, with_proc, release_framelock,
}
use operating_systems_2_assi.Frames.Swap.{swapout, find_slot}
use operating_systems_2_assi.Frames.Swap.RoundTrip.{with_proc-Holds, swapout-SwappedOut}
use operating_systems_2_assi.Frames.Clock.{
  choose, count_eviction, set_frame, evict, evict_chosen, clock_evict,
}
use operating_systems_2_assi.Frames.Clock.Round.{
  evictable, entry_of, has_v, number_of, Swept, evictable-Swept,
}
use operating_systems_2_assi.Frames.Clock.Victim.{IsVictim, choose-IsVictim}

-- What the eviction of frame `k` of process `p` leaves: the disks hold the page in slot `idx`, the page
-- table entry is not valid any more, and the frame is free.
pub record Evicted (k p idx : ℕ) (m m' : Memory) : Type 0 where
  pub owner : (m.frames k).proc ≡ some p
  pub held : Holds (m.pages (number_of (entry_of m (m.frames k) p) * pgsize)) idx m'.disk
  pub unmapped :
      has_v (entry_of m (m.frames k) p) ≡ true
      × (has_v (pte_at m' (procs_of m p).pagetable (m.frames k).va) ≡ false)
  pub freed : (m'.frames k).used ≡ false
  pub unlocked : m'.framelock ≡ false

-- The frame is out of the table while its page is written.
abbrev hide : ℕ → Memory → Memory
hide k m = release_framelock (set_frame k (record (m.frames k) { proc = none }) m)

-- The end of an eviction that succeeded.
abbrev finish : ℕ → ℕ → Memory → Memory
finish k p m = release_framelock (record (set_frame k (record (m.frames k) { used = false }) m) {
  active_frames = decr m.active_frames;
  disk = with_proc (some p) count_eviction m.disk;
})

evict_steps :
    (k p idx : ℕ) (m m₁ : Memory)
    → swapout (procs_of m p).pagetable (m.frames k).va (hide k m) ≡ ok (some idx, m₁)
    → m₁.framelock ≡ false
    → evict k p m ≡ ok ((m.frames k).pa, finish k p m₁)
unfolding evict
evict_steps k p idx m m₁ e l = rw (e, l) refl

evict-Evicted :
    (k p idx me : ℕ) (e : Pte) (m : Memory)
    → IsIdle me m.disk
    → IsMode m.disk.raid_mode
    → find_slot m ≡ some idx
    → servable m.disk.raid_mode idx ≡ true
    → (m.frames k).proc ≡ some p
    → entry_of m (m.frames k) p ≡ some e
    → e.v ≡ true
    → (m' : Memory) × (evict k p m ≡ ok ((m.frames k).pa, m')) × Evicted k p idx m m'
evict-Evicted k p idx me e m i mode f s o n v =
    let (m₁, x, w) =
      swapout-SwappedOut (procs_of m p).pagetable (m.frames k).va idx me e (hide k m) i mode n v f
        s in
    (
      finish k p m₁,
      evict_steps k p idx m m₁ x w.same_lock,
      record {
        owner = o;
        held =
            rw (n, number_of)
              (with_proc-Holds (some p) count_eviction (m.pages (pte2pa e)) idx m₁.disk w.held);
        unmapped = (rw (n, has_v) v, rw (w.entry, has_v) refl);
        freed = rw (==-self k) refl;
        unlocked = refl;
      },
    )

-- Who loses the page.
evictable-owner :
    (m : Memory) (f : Frame)
    → evictable m f ≡ true
    → (p : ℕ) × (e : Pte) × (f.proc ≡ some p) × (entry_of m f p ≡ some e) × (e.v ≡ true)
evictable-owner m f h = elim (Option-cases f.proc) [
  | inl n ↦ absurd (let g = rw (n, evictable) at h in cc)
  | inr (p, n) ↦ elim (Option-cases (entry_of m f p)) [
    | inl x ↦ absurd (let g = rw (n, evictable, x) at h in ground (arith, g))
    | inr (e, x) ↦ (p, e, n, x, (let g = rw (n, evictable, x) at h in ground (arith, g)))
  ]
]

-- The memory when the victim is chosen, with the hand behind it.
abbrev moved : ℕ → Memory → Memory
moved k m = record m { clock_hand = (k + 1) % max_frames }

clock_evict_lem :
    (m : Memory)
    → m.framelock ≡ false
    → clock_evict m ≡ (let r = choose (record m { framelock = true }) in evict_chosen r.0 r.1)
unfolding clock_evict
clock_evict_lem m l = rw l refl

evict_chosen-some :
    (k p pa : ℕ) (m m' : Memory)
    → (m.frames k).proc ≡ some p
    → evict k p (moved k m) ≡ ok (pa, m')
    → evict_chosen (some k) m ≡ ok (pa, m')
unfolding evict_chosen
evict_chosen-some k p pa m m' o e = rw (evict_chosen, o, e) refl

Evicted-Swept :
    (k p idx : ℕ) (m m₁ m' : Memory)
    → Swept m m₁
    → Evicted k p idx (moved k m₁) m'
    → Evicted k p idx m m'
Evicted-Swept k p idx m m₁ m' w h =
    let t : ℕ = (procs_of m p).pagetable in
    let q : ℕ = (m.frames k).va / pgsize in
    record {
      owner = rw w.same_frames at h.owner;
      held = rw (w.same_frames, w.same_disk, w.same_rest.2, w.same_number t q) at h.held;
      unmapped = rw (w.same_frames, w.same_disk, w.same_valid t q) at h.unmapped;
      freed = h.freed;
      unlocked = h.unlocked;
    }

-- If framelock is free, the clock hand is in the table, the disk queue is idle, some frame holds
-- a valid page of a process that does not run on another CPU, and the first free swap slot is one
-- that the current RAID mode can serve, then clock_evict() succeeds and returns the page of a
-- frame of the lowest priority among those that can be evicted: the disks hold its old contents
-- in that slot, its page table entry is not valid any more, the frame is free, and the lock is
-- released.
pub clock_evict-Evicted :
    (idx me j : ℕ) (m : Memory)
    → m.framelock ≡ false
    → m.clock_hand < max_frames
    → IsIdle me m.disk
    → IsMode m.disk.raid_mode
    → find_slot m ≡ some idx
    → servable m.disk.raid_mode idx ≡ true
    → j < max_frames
    → evictable m (m.frames j) ≡ true
    → (k : ℕ) × (p : ℕ) × (m' : Memory) × (clock_evict m ≡ ok ((m.frames k).pa, m'))
      × IsVictim m k
      × Evicted k p idx m m'
clock_evict-Evicted idx me j m l h i mode f s b v =
    let m₀ : Memory = record m { framelock = true } in
    let (w, c) = choose-IsVictim m₀ h in
    elim c [
      | inl (k, e, x) ↦
          let m₁ : Memory = (choose m₀).1 in
          let n : Memory = moved k m₁ in
          let z : Swept m₀ n = record {
            same_disk = w.same_disk;
            same_frames = w.same_frames;
            same_rest = w.same_rest;
            same_lists = w.same_lists;
            same_entry = w.same_entry;
            same_number = w.same_number;
            same_valid = w.same_valid;
            only_cleared = w.only_cleared;
          } in
          let y : evictable n (n.frames k) ≡ true =
            rw w.same_frames (evictable-Swept z (m.frames k) ∙ x.can_go) in
          let (p, pte, o, q, t) = evictable-owner n (n.frames k) y in
          let (m', g, r₁) =
            evict-Evicted k p idx me pte n (rw w.same_disk i) (rw w.same_disk mode)
              (rw w.same_rest.1 f) (rw w.same_disk s) o q t in
          let r = Evicted-Swept k p idx m₀ m₁ m' w r₁ in
          (
            k,
            p,
            m',
            runs k p (n.frames k).pa m' e o g
                ∙ ap (λ (t : ℕ → Frame). Outcome.ok ((t k).pa, m')) w.same_frames,
            record {
              in_table = x.in_table;
              can_go = x.can_go;
              lowest_priority = x.lowest_priority;
            },
            record {
              owner = r.owner;
              held = r.held;
              unmapped = r.unmapped;
              freed = r.freed;
              unlocked = r.unlocked;
            },
          )
      | inr (e, x) ↦ absurd (let g = x j b in cc)
    ]
  where
    runs :
        (k p pa : ℕ) (m' : Memory)
        → (choose (record m { framelock = true })).0 ≡ some k
        → ((choose (record m { framelock = true })).1.frames k).proc ≡ some p
        → evict k p (moved k (choose (record m { framelock = true })).1) ≡ ok (pa, m')
        → clock_evict m ≡ ok (pa, m')
    runs k p pa m' e o g =
        clock_evict_lem m l
        ∙ ap (λ (c : Option ℕ). evict_chosen c (choose (record m { framelock = true })).1) e
        ∙ evict_chosen-some k p pa (choose (record m { framelock = true })).1 m' o g

-- ===== src/Vm/Fault.antt =====
-- A page fault on a swapped page, in vmfault() of kernel/vm.c.
use operating_systems_2_assi.Prelude.{
  ℕ, suc, ◌/◌, ◌<◌, ◌≡◌, refl, inl, inr, Bool, true, false, not, some, arith, ◌==◌, leb, List, ◌∷◌,
  Bytes, fill, update, Outcome, ok, IsFirst, ==-self,
}
use operating_systems_2_assi.SwapDisk.Queue.Accounting.{IsIdle}
use operating_systems_2_assi.SwapDisk.Pages.In.{Holds}
use operating_systems_2_assi.Frames.State.{
  Memory, Pte, max_frames, pgsize, pte_at, set_pte, procs_of, with_proc, release_framelock,
}
use operating_systems_2_assi.Frames.Swap.{swapin}
use operating_systems_2_assi.Frames.Swap.RoundTrip.{
  with_proc-Holds, with_proc-IsIdle, SwappedIn, swapin-SwappedIn,
}
use operating_systems_2_assi.Frames.Table.{
  get_frame, kalloc, below_max, take_frame, frametable_alloc,
}
use operating_systems_2_assi.Frames.Table.Full.{frametable_alloc-full}
use operating_systems_2_assi.Vm.{
  maxva, pgrounddown, swap_index, note_fault, count_fault, fault_swapped, vmfault,
}

-- The first page of the free list, filled with junk.
abbrev pub taken : ℕ → List ℕ → Memory → Memory
taken pa rest m = record m {
  framelock = false;
  freelist = rest;
  pages = update m.pages pa (fill (m.pages pa) 0 5 pgsize);
}

-- While fewer than MAX_FRAMES pages are in use, a page comes from the free list.
get_frame-taken :
    (pa : ℕ) (rest : List ℕ) (m : Memory)
    → m.framelock ≡ false
    → below_max m.active_frames ≡ true
    → m.freelist ≡ pa ∷ rest
    → (pa == 0) ≡ false
    → get_frame m ≡ ok (pa, taken pa rest m)
unfolding get_frame kalloc
get_frame-taken pa rest m l b f n = rw (l, b, f, n) refl

-- What a fault on a page that a slot holds leaves: the entry is valid and points to the page `pa`, which
-- has the old contents, the slot is free, and a free frame was entered for the process.
pub record FaultedIn (page : Bytes) (t va pa idx me : ℕ) (e : Pte) (m m' : Memory) : Type 0 where
  pub loaded : (q : ℕ) → q < pgsize → m'.pages pa q ≡ page q
  pub mapped : pte_at m' t va ≡ some (record e { number = pa / pgsize; v = true; s = false })
  pub slot_free : (m'.swaptable idx).used ≡ false
  pub entered :
      (i : ℕ) × IsFirst (λ j. not (m.frames j).used) max_frames 0 i
      × (m'.frames i ≡ record { used = true; proc = some me; va = pgrounddown va; pa = pa })

module _ (kernel_end : ℕ) (walk_alloc : ℕ → ℕ → Memory → Outcome (Bool × Memory)) (page : Bytes)
    (t va pa idx me free : ℕ) (rest : List ℕ) (e : Pte) where
  -- The memory that swapin() leaves, after the entry was mapped and the swap-in counted.
  abbrev mapped_in : Memory → Memory
  mapped_in m =
      record (set_pte t (pgrounddown va) (record e { number = pa / pgsize; v = true; s = false })
        m) {
          disk =
              with_proc (some me) (λ p. record p { pages_swapped_in = suc p.pages_swapped_in })
                m.disk;
        }

  -- The frame is entered.
  entered-FaultedIn :
      (m m₂ : Memory)
      → (pa == 0) ≡ false
      → free < max_frames
      → (m.frames free).used ≡ false
      → SwappedIn page pa idx me (taken pa rest m) m₂
      → (m' : Memory) × (frametable_alloc kernel_end 1 pa (some me) (pgrounddown va) (mapped_in m₂)
          ≡ ok m')
        × FaultedIn page t va pa idx me e m m'
  unfolding take_frame
  entered-FaultedIn m m₂ n b u s =
      elim (frametable_alloc-full kernel_end 0 pa (some me) (pgrounddown va) (mapped_in m₂)
        s.same_lock n) [
          | inl (i, f, q) ↦ (
            release_framelock (
                take_frame i pa (some me) (pgrounddown va)
                  (record (mapped_in m₂) { framelock = true })),
            q,
            record {
              loaded = s.loaded;
              mapped = rw (same_page, ==-self t, ==-self (va / pgsize)) refl;
              slot_free = rw (s.free, ==-self idx) refl;
              entered = (i, rw s.same_frames at f, rw (==-self i) refl);
            },
          )
          | inr (z, q) ↦ absurd (
              let a = z free (omega arith) (omega arith) in
              let c = rw s.same_frames at a in ground (arith, c, u))
        ]
    where
      same_page : pgrounddown va / pgsize ≡ va / pgsize
      same_page = omega arith

  -- The steps of a fault that succeeds.
  vmfault_steps :
      (m m₂ m' : Memory)
      → m.disk.current ≡ some me
      → leb maxva va ≡ false
      → leb (procs_of m me).sz va ≡ false
      → pte_at m t va ≡ some e
      → e.v ≡ false
      → e.s ≡ true
      → (pa == 0) ≡ false
      → get_frame (count_fault me m) ≡ ok (pa, taken pa rest (count_fault me m))
      → swapin pa (swap_index e) (taken pa rest (count_fault me m)) ≡ ok m₂
      → frametable_alloc kernel_end 1 pa (some me) (pgrounddown va) (mapped_in m₂) ≡ ok m'
      → vmfault kernel_end walk_alloc t va m ≡ ok (pa, m')
  unfolding vmfault fault_swapped
  vmfault_steps m m₂ m' i y z p v s n c g q = rw (y, i, z, p, v, s, c, n, g, q) refl

  -- If a page of the calling process is in a swap slot, a frame and a page of the free list are
  -- free and the disk queue is idle, a fault on the page succeeds with the page of the free list:
  -- it has the contents that the disks hold for the slot, the entry is valid and points to it,
  -- the slot is free, and the first free frame is entered for the process.
  pub vmfault-FaultedIn :
      (m : Memory)
      → IsIdle me m.disk
      → Holds page idx m.disk
      → m.framelock ≡ false
      → below_max m.active_frames ≡ true
      → m.freelist ≡ pa ∷ rest
      → (pa == 0) ≡ false
      → free < max_frames
      → (m.frames free).used ≡ false
      → va < maxva
      → va < (procs_of m me).sz
      → pte_at m t va ≡ some e
      → e.v ≡ false
      → e.s ≡ true
      → swap_index e ≡ idx
      → (m.swaptable idx).used ≡ true
      → (m' : Memory) × (vmfault kernel_end walk_alloc t va m ≡ ok (pa, m'))
        × FaultedIn page t va pa idx me e m m'
  vmfault-FaultedIn m idle held l b f n k u lv ls p v s x w =
      let m₀ : Memory = count_fault me m in
      let m₁ : Memory = taken pa rest m₀ in
      let (m₂, g, h) =
        swapin-SwappedIn page pa idx me m₁
          (with_proc-Holds (some me) note_fault page idx m.disk held)
          (with_proc-IsIdle (some me) note_fault me m.disk idle) w in
      let (m', q, r) = entered-FaultedIn m₀ m₂ n k u h in
      let y : leb maxva va ≡ false = ground (arith, lv) in
      let z : leb (procs_of m me).sz va ≡ false = ground (arith, ls) in
      let c = get_frame-taken pa rest m₀ l b f n in
      (
        m',
        vmfault_steps m m₂ m' idle.caller y z p v s n c (rw x g) q,
        record {
          loaded = r.loaded;
          mapped = r.mapped;
          slot_free = r.slot_free;
          entered = r.entered;
        },
      )

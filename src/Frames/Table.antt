-- ===== src/Frames/Table.antt =====
-- kernel/kalloc.c: kfree(), kalloc(), frametable_alloc() and frametablefree(), and get_frame() of
-- kernel/vm.c. `kernel_end` is the symbol `end` of the linker script.
pub mod Full
use operating_systems_2_assi.Prelude.{
  ℕ, zero, suc, ◌+◌, ◌*◌, ◌%◌, Bool, true, false, not, ◌&&◌, ◌||◌, Option, none, some, List, [],
  ◌∷◌, if◌then◌else◌, ◌==◌, ltb, leb, update, fill, find_first, Outcome, ok, panic, Panic, ◌>>=◌,
}
use operating_systems_2_assi.Proc.State.{Proc, ℤ, incr, decr}
use operating_systems_2_assi.Frames.State.{
  Memory, Frame, max_frames, pgsize, with_proc, acquire_framelock, release_framelock,
}
use operating_systems_2_assi.Frames.Clock.{clock_evict, set_frame}

-- PHYSTOP (kernel/memlayout.h)
abbrev pub phystop : ℕ
phystop = 0x88000000

abbrev pub unused_frame : Frame
unused_frame = record { used = false; proc = none; va = 0; pa = 0 }

abbrev pub leave_frame : Proc → Proc
leave_frame p = record p { resident_pages = decr p.resident_pages }

abbrev pub enter_frame : Proc → Proc
enter_frame p = record p { resident_pages = incr p.resident_pages }

abbrev pub find_frame : ℕ → Memory → Option ℕ
find_frame pa m = find_first (λ i. (m.frames i).pa == pa && (m.frames i).used) max_frames 0

abbrev pub find_free : Memory → Option ℕ
find_free m = find_first (λ i. not (m.frames i).used) max_frames 0

-- The entry of a page that is freed, if it has one.
unfoldable pub drop_frame : ℕ → Memory → Memory
drop_frame pa m = elim (find_frame pa m) [
  | none ↦ m
  | some i ↦ record (set_frame i unused_frame m) {
    disk = with_proc (m.frames i).proc leave_frame m.disk;
    active_frames = decr m.active_frames;
  }
]

unfoldable pub frametablefree : ℕ → Memory → Outcome Memory
frametablefree pa m = acquire_framelock m >>= λ m. ok (release_framelock (drop_frame pa m))

unfoldable pub take_frame : ℕ → ℕ → Option ℕ → ℕ → Memory → Memory
take_frame i pa p va m =
    record (set_frame i (record { used = true; proc = p; va = va; pa = pa }) m) {
      disk = with_proc p enter_frame m.disk;
      active_frames = incr m.active_frames;
    }

module _ (kernel_end : ℕ) where
  unfoldable pub kfree : ℕ → Memory → Outcome Memory
  kfree pa m =
      if not (pa % pgsize == 0) || ltb pa kernel_end || leb phystop pa
      then panic Panic.kfree
      else frametablefree pa m >>= λ m. ok (record m {
        pages = update m.pages pa (fill (m.pages pa) 0 1 pgsize);
        freelist = pa ∷ m.freelist;
      })

  -- With no entry free the lock is still held when clock_evict() is called. The fuel bounds the
  -- recursion; it is not used up, since that call does not return.
  unfoldable pub frametable_alloc : ℕ → ℕ → Option ℕ → ℕ → Memory → Outcome Memory
  frametable_alloc zero pa p va m = panic Panic.gridlock
  frametable_alloc (suc fuel) pa p va m = acquire_framelock m >>= λ m.
      if pa == 0 then ok (release_framelock m) else elim (find_free m) [
        | some i ↦ ok (release_framelock (take_frame i pa p va m))
        | none ↦ clock_evict m >>= λ r.
            if r.0 == 0
            then panic Panic.gridlock
            else kfree r.0 r.1 >>= frametable_alloc fuel pa p va
      ]

-- The address of a page, 0 if there is none. A page from the free list is filled with junk.
unfoldable pub kalloc : Memory → Outcome (ℕ × Memory)
kalloc m = elim m.freelist [
  | [] ↦ clock_evict m
  | r ∷ rest ↦
      ok (r, record m { freelist = rest; pages = update m.pages r (fill (m.pages r) 0 5 pgsize) })
]

-- count < MAX_FRAMES
abbrev pub below_max : ℤ → Bool
below_max (ℤ.pos n) = ltb n max_frames
below_max (ℤ.negsuc n) = true

unfoldable pub get_frame : Memory → Outcome (ℕ × Memory)
get_frame m = acquire_framelock m >>= λ locked.
    let m' : Memory = release_framelock locked in
    if below_max m'.active_frames
    then (kalloc m' >>= λ r. if r.0 == 0 then clock_evict r.1 else ok r)
    else clock_evict m'

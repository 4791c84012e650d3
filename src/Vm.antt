-- ===== src/Vm.antt =====
-- kernel/vm.c: user page tables, as tables of their leaf entries. `kernel_end` is the symbol `end` of the
-- linker script. walk(pagetable, va, 1), which takes pages for the page table itself, is a parameter.
pub mod Unmap
pub mod Fault
mod Tests
use operating_systems_2_assi.Prelude.{
  ℕ, zero, suc, ◌+◌, ◌-◌, ◌*◌, ◌/◌, ◌%◌, ◌^◌, Bool, true, false, not, ◌&&◌, ◌||◌, Option, none,
  some, if◌then◌else◌, ◌==◌, ltb, leb, update, fill, copy, Outcome, ok, panic, Panic, ◌>>=◌, guard,
}
use operating_systems_2_assi.Proc.State.{Proc}
use operating_systems_2_assi.Frames.State.{
  Memory, Pte, pgsize, pte2pa, pte_at, set_pte, procs_of, with_proc,
}
use operating_systems_2_assi.Frames.Swap.{swap_free, swapin}
use operating_systems_2_assi.Frames.Table.{frametablefree, kfree, frametable_alloc, get_frame}

-- MAXVA, PGROUNDUP and PGROUNDDOWN (kernel/riscv.h)
abbrev pub maxva : ℕ
maxva = 2 ^ 38

abbrev pub pgroundup : ℕ → ℕ
pgroundup sz = (sz + 4095) / pgsize * pgsize

abbrev pub pgrounddown : ℕ → ℕ
pgrounddown a = a / pgsize * pgsize

-- *pte = 0
abbrev pub zero_pte : Pte
zero_pte = record {
  number = 0;
  v = false;
  r = false;
  w = false;
  x = false;
  u = false;
  a = false;
  s = false;
  rest = 0;
}

-- walk(pagetable, va, 0)
unfoldable pub walk : ℕ → ℕ → Memory → Outcome (Option Pte)
walk pagetable va m = guard (leb maxva va) Panic.walk (ok (pte_at m pagetable va))

-- The result is 0 for an address that is not mapped for the user.
unfoldable pub walkaddr : ℕ → ℕ → Memory → ℕ
walkaddr pagetable va m = if leb maxva va then 0 else elim (pte_at m pagetable va) [
  | none ↦ 0
  | some e ↦ if not e.v then 0 else if not e.u then 0 else pte2pa e
]

unfoldable pub ismapped : ℕ → ℕ → Memory → Outcome Bool
ismapped pagetable va m = walk pagetable va m >>= λ p. ok (is_valid p)
  where
    is_valid : Option Pte → Bool
    is_valid none = false
    is_valid (some e) = e.v

unfoldable pub uvmclear : ℕ → ℕ → Memory → Outcome Memory
uvmclear pagetable va m = walk pagetable va m >>= λ p. elim p [
  | none ↦ panic Panic.uvmclear
  | some e ↦ ok (set_pte pagetable va (record e { u = false }) m)
]

-- (int)(*pte >> 10); a negative number is no slot, like one from MAX_SWAP on.
abbrev pub swap_index : Pte → ℕ
swap_index e = e.number % 2 ^ 32

-- The entry that mappages() writes. `perm` has the flags.
abbrev pub pa2pte : ℕ → Pte → Pte
pa2pte pa perm = record perm { number = pa / pgsize; v = true }

abbrev pub zero_page : ℕ → Memory → Memory
zero_page mem m = record m { pages = update m.pages mem (fill (m.pages mem) 0 0 pgsize) }

-- PTE_W | PTE_U | PTE_R
abbrev pub lazy_perm : Pte
lazy_perm = record zero_pte { r = true; w = true; u = true }

abbrev pub note_fault : Proc → Proc
note_fault p = record p { page_faults = suc p.page_faults }

abbrev pub count_fault : ℕ → Memory → Memory
count_fault me m = record m { disk = with_proc (some me) note_fault m.disk }

module _ (kernel_end : ℕ) where
  -- One round of the loop of uvmunmap() at an entry that exists.
  unfoldable pub unmap_entry : ℕ → ℕ → Bool → Pte → Memory → Outcome Memory
  unmap_entry pagetable a do_free e m =
      if not e.v && e.s
      then ok (set_pte pagetable a zero_pte (swap_free (swap_index e) m))
      else if do_free
      then (frametablefree (pte2pa e) m >>= λ m.
          kfree kernel_end (pte2pa e) m >>= λ m. ok (set_pte pagetable a zero_pte m))
      else ok (set_pte pagetable a zero_pte m)

  unfoldable pub unmap_page : ℕ → ℕ → Bool → Memory → Outcome Memory
  unmap_page pagetable a do_free m = walk pagetable a m >>= λ p. elim p [
    | none ↦ ok m
    | some e ↦ unmap_entry pagetable a do_free e m
  ]

  -- for (a = ...; n rounds; a += PGSIZE)
  unfoldable pub unmap_loop : ℕ → ℕ → ℕ → Bool → Memory → Outcome Memory
  unmap_loop zero pagetable a do_free m = ok m
  unmap_loop (suc n) pagetable a do_free m =
      unmap_page pagetable a do_free m >>= unmap_loop n pagetable (a + pgsize) do_free

  unfoldable pub uvmunmap : ℕ → ℕ → ℕ → Bool → Memory → Outcome Memory
  uvmunmap pagetable va npages do_free m =
      guard (not (va % pgsize == 0)) Panic.unaligned (unmap_loop npages pagetable va do_free m)

  unfoldable pub uvmdealloc : ℕ → ℕ → ℕ → Memory → Outcome (ℕ × Memory)
  uvmdealloc pagetable oldsz newsz m =
      if leb oldsz newsz
      then ok (oldsz, m)
      else if ltb (pgroundup newsz) (pgroundup oldsz)
      then (uvmunmap pagetable (pgroundup newsz) ((pgroundup oldsz - pgroundup newsz) / pgsize) true
            m
          >>= λ m. ok (newsz, m))
      else ok (newsz, m)

  -- `walk_alloc pagetable va` says whether there is a leaf entry afterwards.
  module _ (walk_alloc : ℕ → ℕ → Memory → Outcome (Bool × Memory)) where
    -- for (;;), for the `n` pages of the range.
    unfoldable pub map_loop : ℕ → ℕ → ℕ → ℕ → Pte → Memory → Outcome (Bool × Memory)
    map_loop zero pagetable a pa perm m = ok (true, m)
    map_loop (suc n) pagetable a pa perm m = walk_alloc pagetable a m >>= λ r.
        elim (if r.0 then pte_at r.1 pagetable a else none) [
          | none ↦ ok (false, r.1)
          | some e ↦
              if e.v
              then panic Panic.remap
              else map_loop n pagetable (a + pgsize) (pa + pgsize) perm
                  (set_pte pagetable a (pa2pte pa perm) r.1)
        ]

    -- `true` for 0, `false` for -1.
    unfoldable pub mappages : ℕ → ℕ → ℕ → ℕ → Pte → Memory → Outcome (Bool × Memory)
    mappages pagetable va size pa perm m = guard (not (va % pgsize == 0)) Panic.unaligned (
        guard (not (size % pgsize == 0)) Panic.bad_size
          (guard (size == 0) Panic.bad_size (map_loop (size / pgsize) pagetable va pa perm m)))

    -- A page that is mapped at `a` and entered for a process.
    abbrev pub enter_page : ℕ → Option ℕ → ℕ → Memory → Outcome Memory
    enter_page mem p a m = frametable_alloc kernel_end 1 mem p a m

    -- for (a = ...; n rounds; a += PGSIZE). `false` is the return of 0, after the pages from `start` on
    -- were given back.
    unfoldable pub alloc_loop : ℕ → ℕ → ℕ → ℕ → Pte → Memory → Outcome (Bool × Memory)
    alloc_loop zero pagetable start a perm m = ok (true, m)
    alloc_loop (suc n) pagetable start a perm m = get_frame m >>= λ f.
        if f.0 == 0
        then (uvmdealloc pagetable a start f.1 >>= λ r. ok (false, r.1))
        else (mappages pagetable a pgsize f.0 perm (zero_page f.0 f.1) >>= λ r.
            if r.0
            then (enter_page f.0 r.1.disk.current a r.1
                >>= alloc_loop n pagetable start (a + pgsize) perm)
            else (kfree kernel_end f.0 r.1 >>= λ m.
                uvmdealloc pagetable a start m >>= λ r. ok (false, r.1)))

    -- `xperm` has the flags PTE_R, PTE_U and those of the caller.
    unfoldable pub uvmalloc : ℕ → ℕ → ℕ → Pte → Memory → Outcome (ℕ × Memory)
    uvmalloc pagetable oldsz newsz xperm m =
        if ltb newsz oldsz
        then ok (oldsz, m)
        else (alloc_loop ((newsz + 4095 - pgroundup oldsz) / pgsize) pagetable (pgroundup oldsz)
              (pgroundup oldsz) xperm m
            >>= λ r. ok (if r.0 then newsz else 0, r.1))

    -- The branch of vmfault() for a page in a swap slot. Its entry is not valid, so that an eviction by
    -- get_frame() does not change it.
    unfoldable pub fault_swapped : ℕ → ℕ → ℕ → Pte → Memory → Outcome (ℕ × Memory)
    fault_swapped pagetable va me e m = get_frame m >>= λ f.
        if f.0 == 0
        then panic Panic.no_memory
        else (swapin f.0 (swap_index e) f.1 >>= λ m.
            enter_page f.0 (some me) va
              (record (set_pte pagetable va
                (record e { number = f.0 / pgsize; v = true; s = false }) m) {
                  disk =
                      with_proc (some me)
                        (λ p. record p { pages_swapped_in = suc p.pages_swapped_in }) m.disk;
                })
            >>= λ m. ok (f.0, m))

    -- The branch for a page that was never in memory.
    unfoldable pub fault_lazy : ℕ → ℕ → Memory → Outcome (ℕ × Memory)
    fault_lazy va me m = get_frame m >>= λ f.
        if f.0 == 0
        then ok f
        else (mappages (procs_of f.1 me).pagetable va pgsize f.0 lazy_perm (zero_page f.0 f.1)
            >>= λ r.
                if r.0
                then (enter_page f.0 (some me) va r.1 >>= λ m. ok (f.0, m))
                else (kfree kernel_end f.0 r.1 >>= λ m. ok (0, m)))

    -- The address of the page, 0 if the fault cannot be served.
    unfoldable pub vmfault : ℕ → ℕ → Memory → Outcome (ℕ × Memory)
    vmfault pagetable va m = if leb maxva va then ok (0, m) else elim m.disk.current [
      | none ↦ panic Panic.null
      | some me ↦ if leb (procs_of m me).sz va then ok (0, m) else elim (pte_at m pagetable va) [
        | none ↦ fault_lazy (pgrounddown va) me (count_fault me m)
        | some e ↦
            if e.v
            then ok (0, m)
            else if e.s
            then fault_swapped pagetable (pgrounddown va) me e (count_fault me m)
            else fault_lazy (pgrounddown va) me (count_fault me m)
      ]
    ]

    -- The copy of the page behind the valid entry `e` of the parent, and what happens to it when the
    -- child's table cannot take it.
    unfoldable pub copy_page : ℕ → ℕ → Pte → ℕ → Memory → Outcome (Bool × Memory)
    copy_page new i e child m = get_frame m >>= λ f.
        if f.0 == 0
        then ok (false, f.1)
        else (mappages new i pgsize f.0 e (record f.1 {
          pages = update f.1.pages f.0 (copy (f.1.pages f.0) 0 (f.1.pages (pte2pa e)) 0 pgsize);
        })
            >>= λ r.
                if r.0
                then (enter_page f.0 (some child) i r.1 >>= λ m. ok (true, m))
                else (kfree kernel_end f.0 r.1 >>= λ m. ok (false, m)))

    -- One round of the loop of uvmcopy(); `false` is the jump to `err`. After a fault the entry is read
    -- again.
    unfoldable pub copy_round : ℕ → ℕ → ℕ → ℕ → Memory → Outcome (Bool × Memory)
    copy_round old new i child m = walk old i m >>= λ p. elim p [
      | none ↦ ok (true, m)
      | some e ↦
          if e.v
          then copy_page new i e child m
          else if e.s
          then (vmfault old i m >>= λ f.
              if f.0 == 0 then ok (false, f.1) else elim (pte_at f.1 old i) [
                | none ↦ panic Panic.null
                | some e' ↦ copy_page new i e' child f.1
              ])
          else ok (true, m)
    ]

    unfoldable pub copy_loop : ℕ → ℕ → ℕ → ℕ → ℕ → Memory → Outcome (Bool × Memory)
    copy_loop zero old new i child m = ok (true, m)
    copy_loop (suc n) old new i child m = copy_round old new i child m >>= λ r.
        if r.0
        then copy_loop n old new (i + pgsize) child r.1
        else (uvmunmap new 0 (i / pgsize) true r.1 >>= λ m. ok (false, m))

    -- `true` for 0, `false` for -1.
    unfoldable pub uvmcopy : ℕ → ℕ → ℕ → ℕ → Memory → Outcome (Bool × Memory)
    uvmcopy old new sz child m = copy_loop ((sz + 4095) / pgsize) old new 0 child m

-- ===== src/Frames/Swap.antt =====
-- kernel/kalloc.c: swapout(), swapin() and swap_free().
pub mod RoundTrip
use operating_systems_2_assi.Prelude.{
  ℕ, suc, ◌*◌, ◌/◌, Bool, true, false, not, ◌||◌, Option, none, some, Bytes, if◌then◌else◌, ◌==◌,
  ltb, update, find_first, Outcome, ok, panic, Panic, ◌>>=◌,
}
use operating_systems_2_assi.Proc.State.{Proc}
use operating_systems_2_assi.SwapDisk.State.{SwapDisk}
use operating_systems_2_assi.SwapDisk.Pages.{
  swap_out_page, swap_in_page, swap_disk_free_slot, disk_get_avg_latency,
}
use operating_systems_2_assi.Frames.State.{
  Memory, Pte, Swap, max_swap, pgsize, pte2pa, pte_at, set_pte, with_proc,
}

-- The process statistics that swapout() and swapin() keep themselves.
unfoldable pub note_write : SwapDisk → SwapDisk
note_write d =
    with_proc d.current
      (λ p. record p { disk_writes = suc p.disk_writes; avg_disk_latency = disk_get_avg_latency d })
      d

unfoldable pub note_read : SwapDisk → SwapDisk
note_read d =
    with_proc d.current
      (λ p. record p { disk_reads = suc p.disk_reads; avg_disk_latency = disk_get_avg_latency d }) d

abbrev pub find_slot : Memory → Option ℕ
find_slot m = find_first (λ i. not (m.swaptable i).used) max_swap 0

-- (swap_idx << 10) | PTE_S | (flags & ~PTE_V)
abbrev pub swapped_pte : ℕ → Pte → Pte
swapped_pte idx p = record p { number = idx; v = false; s = true }

-- The entry that swapout() takes.
abbrev pub swap_entry : ℕ → ℕ → ℕ → Swap
swap_entry pagetable va mode = record {
  used = true;
  page_table = pagetable;
  va = va;
  raid_mode = mode;
}

-- Writing the page `p` points to into slot `idx`, once the slot is taken. The TLB has no state here.
unfoldable pub swapout_to : ℕ → ℕ → Pte → ℕ → Memory → Outcome Memory
swapout_to pagetable va p idx m =
    let m' : Memory = record m {
      swaptable = update m.swaptable idx (swap_entry pagetable va m.disk.raid_mode);
    } in
    swap_out_page (m.pages (pte2pa p)) idx m'.disk >>= λ d.
    ok (set_pte pagetable va (swapped_pte idx p) (record m' { disk = note_write d }))

-- The result is the slot, `none` where swapout() returns -1: the page is not in memory, or no slot is
-- free.
unfoldable pub swapout : ℕ → ℕ → Memory → Outcome (Option ℕ × Memory)
swapout pagetable va m = elim (pte_at m pagetable va) [
  | none ↦ ok (none, m)
  | some p ↦ if not p.v then ok (none, m) else elim (find_slot m) [
    | none ↦ ok (none, m)
    | some idx ↦ swapout_to pagetable va p idx m >>= λ m'. ok (some idx, m')
  ]
]

abbrev pub free_entry : Swap
free_entry = record { used = false; page_table = 0; va = 0; raid_mode = 0 }

unfoldable pub swap_free : ℕ → Memory → Memory
swap_free idx m =
    if ltb idx max_swap
    then record m {
      swaptable = update m.swaptable idx free_entry;
      disk = swap_disk_free_slot idx m.disk;
    }
    else m

unfoldable pub swapin : ℕ → ℕ → Memory → Outcome Memory
swapin pa idx m =
    if not (ltb idx max_swap) || not (m.swaptable idx).used
    then panic Panic.swapin
    else swap_in_page (m.pages pa) idx m.disk >>= λ r.
        ok (swap_free idx (record m { pages = update m.pages pa r.0; disk = note_read r.1 }))

-- ===== src/Frames/Swap/RoundTrip.antt =====
-- A page that swapout() of kernel/kalloc.c writes to the disks is the page that swapin() reads back.
use operating_systems_2_assi.Prelude.{
  ℕ, ◌/◌, ◌<◌, ◌≡◌, ◌≢◌, refl, true, not, Option, none, some, arith, Bytes, update, IsFirst,
  find_first-IsFirst, ok, ==-self, ==-ne, ◌∙◌, lt→ltb,
}
use operating_systems_2_assi.Proc.State.{Proc}
use operating_systems_2_assi.SwapDisk.State.{SwapDisk}
use operating_systems_2_assi.SwapDisk.Queue.Accounting.{IsIdle}
use operating_systems_2_assi.SwapDisk.Raid.Layout.{IsMode}
use operating_systems_2_assi.SwapDisk.Pages.{swap_disk_free_slot}
use operating_systems_2_assi.SwapDisk.Pages.Out.{swap_out_page-PageOut}
use operating_systems_2_assi.SwapDisk.Pages.In.{Holds, swap_in_page-Holds, PageOut-Holds}
use operating_systems_2_assi.SwapDisk.Pages.Free.{free_slot-IsIdle}
use operating_systems_2_assi.SwapDisk.Pages.Faults.{servable, servable-SlotFits}
use operating_systems_2_assi.Frames.State.{
  Memory, Pte, max_swap, pgsize, pte2pa, pte_at, set_pte, with_proc,
}
use operating_systems_2_assi.Frames.Swap.{
  note_write, note_read, find_slot, swapped_pte, swap_entry, swapout_to, swapout, free_entry,
  swap_free, swapin,
}

pub with_proc-Holds :
    (o : Option ℕ) (f : Proc → Proc) (page : Bytes) (slot : ℕ) (d : SwapDisk)
    → Holds page slot d
    → Holds page slot (with_proc o f d)
with_proc-Holds none f page slot d h = h
with_proc-Holds (some i) f page slot d h = record {
  in_table = h.in_table;
  mode_ok = h.mode_ok;
  fits = h.fits;
  stored = h.stored;
}

pub with_proc-IsIdle :
    (o : Option ℕ) (f : Proc → Proc) (me : ℕ) (d : SwapDisk)
    → IsIdle me d
    → IsIdle me (with_proc o f d)
with_proc-IsIdle none f me d h = h
with_proc-IsIdle (some i) f me d h = record { idle = h.idle; caller = h.caller }

-- What a swapout() that succeeds leaves: the slot is the first free one and is taken for the page, the
-- disks hold the page there, the page table entry names the slot and is not valid any more, and the
-- rest of the swap table and the contents of the pages are as before.
pub record SwappedOut (pagetable va : ℕ) (p : Pte) (idx me : ℕ) (m m' : Memory) : Type 0 where
  pub first : IsFirst (λ i. not (m.swaptable i).used) max_swap 0 idx
  pub taken : m'.swaptable ≡ update m.swaptable idx (swap_entry pagetable va m.disk.raid_mode)
  pub held : Holds (m.pages (pte2pa p)) idx m'.disk
  pub entry : pte_at m' pagetable va ≡ some (swapped_pte idx p)
  pub same_pages : m'.pages ≡ m.pages
  pub same_frames : m'.frames ≡ m.frames
  pub same_lock : m'.framelock ≡ m.framelock
  pub still_idle : IsIdle me m'.disk

-- If the page is valid, the disk queue is idle and the first free slot is one that the current
-- RAID mode can serve, swapout() takes that slot, the disks hold the page there, and the page
-- table entry names the slot and is not valid any more.
pub swapout-SwappedOut :
    (pagetable va idx me : ℕ) (p : Pte) (m : Memory)
    → IsIdle me m.disk
    → IsMode m.disk.raid_mode
    → pte_at m pagetable va ≡ some p
    → p.v ≡ true
    → find_slot m ≡ some idx
    → servable m.disk.raid_mode idx ≡ true
    → (m' : Memory) × (swapout pagetable va m ≡ ok (some idx, m'))
      × SwappedOut pagetable va p idx me m m'
unfolding swapout swapout_to note_write
swapout-SwappedOut pagetable va idx me p m idle mode e v f g =
    let first = find_first-IsFirst (λ i. not (m.swaptable i).used) max_swap 0 idx f in
    let fits = servable-SlotFits m.disk.raid_mode idx mode first.below g in
    let (d, q, o) =
      swap_out_page-PageOut (m.pages (pte2pa p)) idx me m.disk mode first.below fits idle in
    (
      set_pte pagetable va (swapped_pte idx p) (record m {
        swaptable = update m.swaptable idx (swap_entry pagetable va m.disk.raid_mode);
        disk = note_write d;
      }),
      ground (arith, q),
      record {
        first = first;
        taken = refl;
        held =
            with_proc-Holds d.current _ (m.pages (pte2pa p)) idx d
              (PageOut-Holds (m.pages (pte2pa p)) idx me m.disk d mode first.below fits o);
        entry = rw (==-self pagetable, ==-self (va / pgsize));
        same_pages = refl;
        same_frames = refl;
        same_lock = refl;
        still_idle = with_proc-IsIdle d.current _ me d o.still_idle;
      },
    )

-- What a swapin() that succeeds leaves: the page holds the bytes, and the slot is free again.
pub record SwappedIn (page : Bytes) (pa idx me : ℕ) (m m' : Memory) : Type 0 where
  pub loaded : (q : ℕ) → q < pgsize → m'.pages pa q ≡ page q
  pub free : m'.swaptable ≡ update m.swaptable idx free_entry
  pub others : (b : ℕ) → b ≢ pa → m'.pages b ≡ m.pages b
  pub same_ptes : m'.ptes ≡ m.ptes
  pub same_frames : m'.frames ≡ m.frames
  pub same_lock : m'.framelock ≡ m.framelock
  pub still_idle : IsIdle me m'.disk

-- Reading back a slot that is in use and for which the disks hold a page succeeds, and loads that page.
pub swapin-SwappedIn :
    (page : Bytes) (pa idx me : ℕ) (m : Memory)
    → Holds page idx m.disk
    → IsIdle me m.disk
    → (m.swaptable idx).used ≡ true
    → (m' : Memory) × (swapin pa idx m ≡ ok m') × SwappedIn page pa idx me m m'
unfolding swapin swap_free note_read
swapin-SwappedIn page pa idx me m h idle u =
    let (out, d, e, f, k) = swap_in_page-Holds page (m.pages pa) idx me m.disk h idle in
    let l = lt→ltb idx max_swap h.in_table in
    (
      record m {
        pages = update m.pages pa out;
        swaptable = update m.swaptable idx free_entry;
        disk = swap_disk_free_slot idx (note_read d);
      },
      ground (arith, e, l),
      record {
        loaded = λ q hq. rw (==-self pa) (f q ∙ rw (lt→ltb q 4096 hq));
        free = refl;
        others = λ b n. rw (==-ne b pa n);
        same_ptes = refl;
        same_frames = refl;
        same_lock = refl;
        still_idle = free_slot-IsIdle idx (with_proc-IsIdle d.current _ me d k.still_idle);
      },
    )

-- If the page is valid, the disk queue is idle and the first free swap slot is one that the
-- current RAID mode can serve, then swapping the page out and back in to any physical page
-- succeeds and leaves its old contents there; the slot is free again and no other entry of the
-- swap table has changed.
pub swapin-swapout :
    (pagetable va idx pa me : ℕ) (p : Pte) (m : Memory)
    → IsIdle me m.disk
    → IsMode m.disk.raid_mode
    → pte_at m pagetable va ≡ some p
    → p.v ≡ true
    → find_slot m ≡ some idx
    → servable m.disk.raid_mode idx ≡ true
    → (m' : Memory) × (m'' : Memory) × (swapout pagetable va m ≡ ok (some idx, m'))
      × (swapin pa idx m' ≡ ok m'')
      × ((q : ℕ) → q < pgsize → m''.pages pa q ≡ m.pages (pte2pa p) q)
      × ((i : ℕ) → i ≢ idx → m''.swaptable i ≡ m.swaptable i)
      × (m''.swaptable idx ≡ free_entry)
swapin-swapout pagetable va idx pa me p m idle mode e v f g =
    let (m', x, o) = swapout-SwappedOut pagetable va idx me p m idle mode e v f g in
    let u : (m'.swaptable idx).used ≡ true = rw (o.taken, ==-self idx) in
    let (m'', y, i) = swapin-SwappedIn (m.pages (pte2pa p)) pa idx me m' o.held o.still_idle u in
    (
      m',
      m'',
      x,
      y,
      i.loaded,
      λ j n. rw (i.free, ==-ne j idx n, o.taken, ==-ne j idx n),
      rw (i.free, ==-self idx),
    )

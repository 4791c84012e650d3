-- ===== src/SwapDisk/Pages/Calls.antt =====
-- The calls of kernel/swap_disk.c as data, and sequences of them.
use operating_systems_2_assi.Prelude.{
  ℕ, ◌<◌, ◌≢◌, Bytes, Option, none, some, List, [], ◌∷◌, Outcome, ok, ◌>>=◌,
}
use operating_systems_2_assi.SwapDisk.State.{SwapDisk}
use operating_systems_2_assi.SwapDisk.Queue.Accounting.{IsIdle}
use operating_systems_2_assi.SwapDisk.Raid.Layout.{IsMode}
use operating_systems_2_assi.SwapDisk.Pages.{
  swap_out_page, swap_in_page, swap_disk_free_slot, setraidmode, setdisksched,
}

-- The calls of the disk layer.
pub data Call : Type 0 where
  page_out : Bytes → ℕ → Call
  page_in : Bytes → ℕ → Call
  slot_free : ℕ → Call
  set_mode : ℕ → Call
  set_sched : ℕ → Call

-- A setting that is refused changes nothing.
abbrev pub settle : SwapDisk → Option SwapDisk → SwapDisk
settle s none = s
settle s (some t) = t

unfoldable pub step : Call → SwapDisk → Outcome SwapDisk
step (page_out page slot) s = swap_out_page page slot s
step (page_in dst slot) s = swap_in_page dst slot s >>= λ r. ok r.1
step (slot_free slot) s = ok (swap_disk_free_slot slot s)
step (set_mode mode) s = ok (settle s (setraidmode mode s))
step (set_sched policy) s = ok (settle s (setdisksched policy s))

unfoldable pub run : List Call → SwapDisk → Outcome SwapDisk
run [] s = ok s
run (c ∷ cs) s = step c s >>= run cs

-- Every mode in the state is one that setraidmode() accepts, and the queue is idle.
pub record IsSound (me : ℕ) (s : SwapDisk) : Type 0 where
  pub idle : IsIdle me s
  pub mode : IsMode s.raid_mode
  pub modes : (slot : ℕ) → IsMode (s.slot_mode slot)

-- The slots below which the three layouts share no block.
abbrev pub shared_slots : ℕ
shared_slots = 512

-- A call that names only slots below 512, and neither writes nor frees the slot `k`.
abbrev pub Spares : ℕ → Call → Type 0
Spares k (page_out page slot) = (slot < shared_slots) × (slot ≢ k)
Spares k (page_in dst slot) = slot < shared_slots
Spares k (slot_free slot) = slot ≢ k × (slot < shared_slots)
Spares k (set_mode mode) = Unit
Spares k (set_sched policy) = Unit

-- ===== src/Vm/Tests.antt =====
-- The theorems about kernel/vm.c at small inputs.
use operating_systems_2_assi.Prelude.{
  ℕ, ◌+◌, ◌≡◌, refl, inr, Bool, true, false, none, some, arith, update, update₂, [], ◌∷◌, Outcome,
  ok,
}
use operating_systems_2_assi.Proc.State.{ProcState, ℤ, blank_proc}
use operating_systems_2_assi.SwapDisk.State.{SwapDisk, raid_5}
use operating_systems_2_assi.SwapDisk.Pages.In.{Holds}
use operating_systems_2_assi.SwapDisk.Pages.Faults.{servable-SlotFits}
use operating_systems_2_assi.Frames.State.{Memory, Pte, pte_at, set_pte}
use operating_systems_2_assi.Frames.Swap.{free_entry}
use operating_systems_2_assi.Frames.Table.{unused_frame}
use operating_systems_2_assi.Vm.{
  zero_pte, walk, unmap_entry, unmap_page, unmap_loop, uvmunmap, vmfault,
}
use operating_systems_2_assi.Vm.Unmap.{Unmapped, uvmunmap-Unmapped}
use operating_systems_2_assi.Vm.Fault.{FaultedIn, vmfault-FaultedIn}

-- Process 3 calls on idle disks in RAID 5, which hold the zero page in slot 1.
abbrev idle_disk : SwapDisk
idle_disk = record {
  queue = record {
    reqs = λ _. record { valid = false; blockno = 0; write = false; proc = none; priority = 0 };
    head = 0;
    policy = 1;
    total_latency = 0;
    total_requests = 0;
  };
  disks = λ _ _ _. 0;
  raid_mode = raid_5;
  slot_mode = λ _. raid_5;
  procs = λ _. record blank_proc { state = ProcState.running; pagetable = 0x80200000; sz = 0x9000 };
  current = some 3;
}

-- Page 5 is in slot 1; page 6 has an entry and was never in memory.
abbrev swapped_entry : Pte
swapped_entry = record zero_pte { number = 1; r = true; w = true; u = true; s = true }

abbrev small_memory : Memory
small_memory = record {
  disk = idle_disk;
  frames = λ _. unused_frame;
  framelock = false;
  clock_hand = 0;
  active_frames = ℤ.pos 0;
  swaptable = update (λ _. free_entry) 1 (record free_entry { used = true });
  freelist = 0x80400000 ∷ [];
  ptes =
      update₂ (update₂ (λ _ _. none) 0x80200000 5 (some swapped_entry)) 0x80200000 6
        (some zero_pte);
  pages = λ pa q. pa + q;
}

-- A page table that always has room for its own pages.
abbrev give_entry : ℕ → ℕ → Memory → Outcome (Bool × Memory)
give_entry pagetable va m = elim (pte_at m pagetable va) [
  | none ↦ ok (true, set_pte pagetable va zero_pte m)
  | some e ↦ ok (true, m)
]

zero_page-Holds : Holds (λ _. 0) 1 idle_disk
zero_page-Holds = record {
  in_table = omega arith;
  mode_ok = inr (inr refl);
  fits = servable-SlotFits raid_5 1 (inr (inr refl)) (omega arith) refl;
  stored = λ i b h k. refl;
}

vmfault-FaultedIn_example :
    (m' : Memory) × (vmfault 0x80100000 give_entry 0x80200000 0x5010 small_memory
      ≡ ok (0x80400000, m'))
    × FaultedIn (λ _. 0) 0x80200000 0x5010 0x80400000 1 3 swapped_entry small_memory m'
vmfault-FaultedIn_example =
    vmfault-FaultedIn 0x80100000 give_entry (λ _. 0) 0x80200000 0x5010 0x80400000 1 3 0 []
      swapped_entry small_memory (record { idle = λ i. refl; caller = refl }) zero_page-Holds refl
      refl refl refl (omega arith) refl (omega arith) (omega arith) refl refl refl refl refl

-- Without the release of memory the entry is set to zero, page 7 has none.
abbrev unmapped_memory : Memory
unmapped_memory = set_pte 0x80200000 0x6000 zero_pte small_memory

unmaps : uvmunmap 0x80100000 0x80200000 0x6000 2 false small_memory ≡ ok unmapped_memory
unfolding uvmunmap unmap_loop unmap_page unmap_entry walk
unmaps = refl

uvmunmap-Unmapped_example : Unmapped 0x80200000 6 2 small_memory unmapped_memory
uvmunmap-Unmapped_example =
    uvmunmap-Unmapped 0x80100000 0x80200000 0x6000 2 false small_memory unmapped_memory unmaps

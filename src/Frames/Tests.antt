-- ===== src/Frames/Tests.antt =====
-- The theorems about kernel/kalloc.c at small inputs.
use operating_systems_2_assi.Prelude.{
  ℕ, ◌+◌, ◌<◌, ◌≡◌, ◌≢◌, refl, ◌⊎◌, inr, true, false, not, none, some, arith, update, update₂,
  find_first, IsFirst, NoneIn, [], ◌∷◌, ok, panic, Panic,
}
use operating_systems_2_assi.Proc.State.{ProcState, ℤ, blank_proc}
use operating_systems_2_assi.SwapDisk.State.{SwapDisk, raid_5, DiskReq}
use operating_systems_2_assi.Frames.State.{Memory, Pte, max_frames, pgsize, release_framelock}
use operating_systems_2_assi.Frames.Swap.{swapout, swapin, find_slot, free_entry}
use operating_systems_2_assi.Frames.Swap.RoundTrip.{swapin-swapout}
use operating_systems_2_assi.Frames.Clock.{clock_evict}
use operating_systems_2_assi.Frames.Clock.Evict.{Evicted, clock_evict-Evicted}
use operating_systems_2_assi.Frames.Clock.Victim.{IsVictim}
use operating_systems_2_assi.Frames.Table.{unused_frame, frametable_alloc, take_frame}
use operating_systems_2_assi.Frames.Table.Full.{frametable_alloc-full}

abbrev no_request : DiskReq
no_request = record { valid = false; blockno = 0; write = false; proc = none; priority = 0 }

-- Process 3 of level 2 calls on idle disks in RAID 5.
abbrev idle_disk : SwapDisk
idle_disk = record {
  queue = record {
    reqs = λ _. no_request;
    head = 0;
    policy = 1;
    total_latency = 0;
    total_requests = 0;
  };
  disks = λ _ _ _. 0;
  raid_mode = raid_5;
  slot_mode = λ _. 0;
  procs = λ _. record blank_proc {
    state = ProcState.running;
    pagetable = 0x80200000;
    cur_queue_lvl = 2;
  };
  current = some 3;
}

-- A user page that is in memory and was used.
abbrev user_pte : Pte
user_pte = record {
  number = 0x80300;
  v = true;
  r = true;
  w = true;
  x = false;
  u = true;
  a = true;
  s = false;
  rest = 0;
}

-- Page 5 of the table is in memory, as frame 0 says; slot 0 of the swap table is taken.
abbrev small_memory : Memory
small_memory = record {
  disk = idle_disk;
  frames =
      update (λ _. unused_frame) 0
        (record { used = true; proc = some 3; va = 0x5000; pa = 0x80300000 });
  framelock = false;
  clock_hand = 60;
  active_frames = ℤ.pos 1;
  swaptable = update (λ _. free_entry) 0 (record free_entry { used = true });
  freelist = 0x80400000 ∷ [];
  ptes = update₂ (λ _ _. none) 0x80200000 5 (some user_pte);
  pages = λ pa q. pa + q;
}

second_slot : find_slot small_memory ≡ some 1
unfolding find_first
second_slot = refl

swapin-swapout_example :
    (m' : Memory) × (m'' : Memory) × (swapout 0x80200000 0x5000 small_memory ≡ ok (some 1, m'))
    × (swapin 0x80500000 1 m' ≡ ok m'')
    × ((q : ℕ) → q < pgsize → m''.pages 0x80500000 q ≡ 0x80300000 + q)
    × ((i : ℕ) → i ≢ 1 → m''.swaptable i ≡ small_memory.swaptable i)
    × (m''.swaptable 1 ≡ free_entry)
swapin-swapout_example =
    swapin-swapout 0x80200000 0x5000 1 0x80500000 3 user_pte small_memory
      (record { idle = λ i. refl; caller = refl }) (inr (inr refl)) refl refl second_slot refl

frametable_alloc-full_example :
    ((i : ℕ) × IsFirst (λ j. not (small_memory.frames j).used) max_frames 0 i
      × (frametable_alloc 0x80100000 1 0x80400000 (some 3) 0x6000 small_memory
          ≡ ok (
              release_framelock (
                take_frame i 0x80400000
                  (some 3)
                  0x6000
                  (record small_memory { framelock = true })))))
    ⊎ (NoneIn (λ j. not (small_memory.frames j).used) max_frames 0
        × (frametable_alloc 0x80100000 1 0x80400000 (some 3) 0x6000 small_memory
            ≡ panic Panic.acquire))
frametable_alloc-full_example =
    frametable_alloc-full 0x80100000 0 0x80400000 (some 3) 0x6000 small_memory refl refl

clock_evict-Evicted_example :
    (k : ℕ) × (p : ℕ) × (m' : Memory) × (clock_evict small_memory
      ≡ ok ((small_memory.frames k).pa, m'))
    × IsVictim small_memory k
    × Evicted k p 1 small_memory m'
clock_evict-Evicted_example =
    clock_evict-Evicted 1 3 0 small_memory refl (omega arith)
      (record { idle = λ i. refl; caller = refl }) (inr (inr refl)) second_slot refl (omega arith)
      refl

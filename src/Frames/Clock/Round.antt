-- ===== src/Frames/Clock/Round.antt =====
-- What one round of the scan of clock_evict() in kernel/kalloc.c does.
use operating_systems_2_assi.Prelude.{
  ℕ, ◌/◌, ◌≡◌, refl, inl, inr, Bool, true, false, not, ◌&&◌, Option, none, some, arith, ◌∙◌, sym,
  ap, ap₂, ◌==◌, ==-self, Bool-cases, Option-cases,
}
use operating_systems_2_assi.Frames.State.{Memory, Pte, Frame, pgsize, pte_at, set_pte, procs_of}
use operating_systems_2_assi.Frames.Clock.{runs_elsewhere, better, Scan, consider, inspect}

-- A leaf entry that is valid, and one whose page was used.
abbrev pub has_v : Option Pte → Bool
has_v none = false
has_v (some e) = e.v

abbrev pub number_of : Option Pte → ℕ
number_of none = 0
number_of (some e) = e.number

abbrev pub has_a : Option Pte → Bool
has_a none = false
has_a (some e) = e.a

-- The leaf entry of the page that a frame holds for a process.
abbrev pub entry_of : Memory → Frame → ℕ → Option Pte
entry_of m f p = pte_at m (procs_of m p).pagetable f.va

-- The frame holds a valid page of a process that does not run on another CPU.
abbrev pub evictable : Memory → Frame → Bool
evictable m f = elim f.proc [
  | none ↦ false
  | some p ↦ not (runs_elsewhere m p) && has_v (entry_of m f p)
]

abbrev pub used_lately : Memory → Frame → Bool
used_lately m f = elim f.proc [ none ↦ false | some p ↦ has_a (entry_of m f p) ]

abbrev pub level_of : Memory → Frame → ℕ
level_of m f = elim f.proc [ none ↦ 0 | some p ↦ (procs_of m p).cur_queue_lvl ]

-- An entry up to its PTE_A.
abbrev pub without_a : Option Pte → Option Pte
without_a none = none
without_a (some e) = some (record e { a = false })

-- What the scan keeps: everything but the clock hand and the PTE_A flags, and every cleared PTE_A.
pub record Swept (m m' : Memory) : Type 0 where
  pub same_disk : m'.disk ≡ m.disk
  pub same_frames : m'.frames ≡ m.frames
  pub same_rest : (m'.framelock ≡ m.framelock) × (m'.swaptable ≡ m.swaptable) × (m'.pages ≡ m.pages)
  pub same_lists : (m'.freelist ≡ m.freelist) × (m'.active_frames ≡ m.active_frames)
  pub same_entry : (t n : ℕ) → without_a (m'.ptes t n) ≡ without_a (m.ptes t n)
  pub same_number : (t n : ℕ) → number_of (m'.ptes t n) ≡ number_of (m.ptes t n)
  pub same_valid : (t n : ℕ) → has_v (m'.ptes t n) ≡ has_v (m.ptes t n)
  pub only_cleared : (t n : ℕ) → has_a (m.ptes t n) ≡ false → has_a (m'.ptes t n) ≡ false

-- What one round does with the frame `f` under the hand.
pub data Inspected (f : Frame) (s t : Scan) : Type 0 where
  skipped : evictable s.memory f ≡ false → t ≡ s → Inspected f s t
  cleared :
      evictable s.memory f ≡ true
      → used_lately s.memory f ≡ true
      → Swept s.memory t.memory
      → t.memory.clock_hand ≡ s.memory.clock_hand
      → used_lately t.memory f ≡ false
      → t.best ≡ s.best
      → Inspected f s t
  considered :
      evictable s.memory f ≡ true
      → used_lately s.memory f ≡ false
      → t.memory ≡ s.memory
      → t.best ≡ better s.memory.clock_hand (level_of s.memory f) s.best
      → Inspected f s t

-- The round's effect on an entry whose PTE_A is cleared.
clear-Swept :
    (t va : ℕ) (e : Pte) (m : Memory)
    → pte_at m t va ≡ some e
    → Swept m (set_pte t va (record e { a = false }) m)
clear-Swept t va e m h = record {
  same_disk = refl;
  same_frames = refl;
  same_rest = (refl, refl, refl);
  same_lists = (refl, refl);
  same_entry = λ t' n. elim (Bool-cases (t' == t && n == va / pgsize)) [
    | inl d ↦
        let p : t' ≡ t = ground (arith, d) in
        let q : n ≡ va / pgsize = ground (arith, d) in
        rw (d) (ap without_a (sym h ∙ ap₂ m.ptes (sym p) (sym q)))
    | inr d ↦ ground (arith, d)
  ];
  same_number = λ t' n. ground (arith, h);
  same_valid = λ t' n. ground (arith, h);
  only_cleared = λ t' n k. ground (arith, h, k);
}

module _ (s : Scan) where
  abbrev hand : ℕ
  hand = s.memory.clock_hand

  abbrev frame : Frame
  frame = s.memory.frames hand

  consider-Inspected :
      (p : ℕ)
      → frame.proc ≡ some p
      → runs_elsewhere s.memory p ≡ false
      → Inspected frame s (consider p frame.va s)
  unfolding consider
  consider-Inspected p e r = elim (Option-cases (entry_of s.memory frame p)) [
    | inl n ↦ skipped (rw (e, evictable, r, n) refl) (rw (n, consider) refl)
    | inr (q, n) ↦ elim (Bool-cases q.v) [
      | inl v ↦ elim (Bool-cases q.a) [
        | inl a ↦
            let t : Scan = record s {
              memory =
                  set_pte (procs_of s.memory p).pagetable frame.va (record q { a = false })
                    s.memory;
            } in
            let step : consider p frame.va s ≡ t = rw (n, consider, v, a) refl in
            rw step (
              cleared (rw (e, evictable, r, n) v) (rw (e, used_lately, n) a)
                (clear-Swept (procs_of s.memory p).pagetable frame.va q s.memory n) refl
                (rw
                  (
                    e,
                    used_lately,
                    ==-self (procs_of s.memory p).pagetable,
                    ==-self (frame.va / pgsize),
                  )
                  refl)
                refl)
        | inr a ↦
            rw (n, consider, v, a)
              (considered (rw (e, evictable, r, n) v) (rw (e, used_lately, n) a) refl
                (rw (e, level_of) refl))
      ]
      | inr v ↦ skipped (rw (e, evictable, r, n) v) (rw (n, consider, v) refl)
    ]
  ]

  pub inspect-Inspected : Inspected frame s (inspect s)
  unfolding inspect
  inspect-Inspected = elim (Option-cases frame.proc) [
    | inl e ↦ skipped (rw (e, evictable) refl) (rw (e, inspect) refl)
    | inr (p, e) ↦ elim (Bool-cases (runs_elsewhere s.memory p)) [
      | inl r ↦ skipped (rw (e, evictable, r) refl) (rw (e, inspect, r) refl)
      | inr r ↦ rw (e, inspect, r) (consider-Inspected p e r)
    ]
  ]

pub Swept-refl : (m : Memory) → Swept m m
Swept-refl m = record {
  same_disk = refl;
  same_frames = refl;
  same_rest = (refl, refl, refl);
  same_lists = (refl, refl);
  same_entry = λ t n. refl;
  same_number = λ t n. refl;
  same_valid = λ t n. refl;
  only_cleared = λ t n h. h;
}

pub Swept-trans : {a b c : Memory} → Swept a b → Swept b c → Swept a c
Swept-trans p q = record {
  same_disk = q.same_disk ∙ p.same_disk;
  same_frames = q.same_frames ∙ p.same_frames;
  same_rest =
      (q.same_rest.0 ∙ p.same_rest.0, q.same_rest.1 ∙ p.same_rest.1, q.same_rest.2 ∙ p.same_rest.2);
  same_lists = (q.same_lists.0 ∙ p.same_lists.0, q.same_lists.1 ∙ p.same_lists.1);
  same_entry = λ t n. q.same_entry t n ∙ p.same_entry t n;
  same_number = λ t n. q.same_number t n ∙ p.same_number t n;
  same_valid = λ t n. q.same_valid t n ∙ p.same_valid t n;
  only_cleared = λ t n h. q.only_cleared t n (p.only_cleared t n h);
}

pub Swept-move : {m m' : Memory} (h : ℕ) → Swept m m' → Swept m (record m' { clock_hand = h })
Swept-move h w = record {
  same_disk = w.same_disk;
  same_frames = w.same_frames;
  same_rest = w.same_rest;
  same_lists = w.same_lists;
  same_entry = w.same_entry;
  same_number = w.same_number;
  same_valid = w.same_valid;
  only_cleared = w.only_cleared;
}

-- What the scan keeps of one frame.
module _ {m m' : Memory} (w : Swept m m') (f : Frame) where
  pub evictable-Swept : evictable m' f ≡ evictable m f
  evictable-Swept = elim (Option-cases f.proc) [
    | inl e ↦ rw (e, evictable) refl
    | inr (p, e) ↦
        rw (e, evictable, w.same_disk, w.same_valid (procs_of m p).pagetable (f.va / pgsize)) refl
  ]

  pub level_of-Swept : level_of m' f ≡ level_of m f
  level_of-Swept = elim (Option-cases f.proc) [
    | inl e ↦ rw (e, level_of) refl
    | inr (p, e) ↦ rw (e, level_of, w.same_disk) refl
  ]

  pub used_lately-Swept : used_lately m f ≡ false → used_lately m' f ≡ false
  used_lately-Swept h = elim (Option-cases f.proc) [
    | inl e ↦ rw (e, used_lately) refl
    | inr (p, e) ↦
        rw (e, used_lately, w.same_disk)
          (w.only_cleared (procs_of m p).pagetable (f.va / pgsize) (rw (e, used_lately) at h))
  ]

pub Inspected-Swept : {f : Frame} {s t : Scan} → Inspected f s t → Swept s.memory t.memory
Inspected-Swept {f} {s} {t} (skipped e q) = rw q (Swept-refl s.memory)
Inspected-Swept {f} {s} {t} (cleared e u w h v b) = w
Inspected-Swept {f} {s} {t} (considered e u q b) = rw q (Swept-refl s.memory)

pub Inspected-hand :
    {f : Frame} {s t : Scan} → Inspected f s t → t.memory.clock_hand ≡ s.memory.clock_hand
Inspected-hand (skipped e q) = rw q refl
Inspected-hand (cleared e u w h v b) = h
Inspected-hand (considered e u q b) = rw q refl

-- ===== src/Vm/Unmap.antt =====
-- What uvmunmap() of kernel/vm.c does to the entries of its range, and where it stops the machine.
use operating_systems_2_assi.Prelude.{
  ℕ, zero, suc, ◌+◌, ◌*◌, ◌/◌, ◌%◌, ◌≤◌, ◌<◌, ◌≡◌, ◌≢◌, refl, ◌⊎◌, inl, inr, Bool, true, false, not,
  ◌&&◌, ◌||◌, none, some, arith, ◌==◌, ltb, leb, ok, panic, Panic, first_part, ◌∙◌, Bool-cases,
  Option-cases, ==-self,
}
use operating_systems_2_assi.Frames.State.{Memory, Pte, pgsize, pte2pa, pte_at, set_pte}
use operating_systems_2_assi.Frames.Swap.{swap_free}
use operating_systems_2_assi.Frames.Table.{frametablefree, phystop, kfree, drop_frame, find_frame}
use operating_systems_2_assi.Vm.{
  maxva, zero_pte, walk, swap_index, unmap_entry, unmap_page, unmap_loop, uvmunmap,
}

swap_free-ptes : (idx : ℕ) (m : Memory) → (swap_free idx m).ptes ≡ m.ptes
unfolding swap_free
swap_free-ptes idx m = ground arith

drop_frame-ptes : (pa : ℕ) (m : Memory) → (drop_frame pa m).ptes ≡ m.ptes
unfolding drop_frame
drop_frame-ptes pa m = elim (Option-cases (find_frame pa m)) [
  | inl e ↦ rw (e, drop_frame) refl
  | inr (i, e) ↦ rw (e, drop_frame) refl
]

frametablefree-ptes : (pa : ℕ) (m m' : Memory) → frametablefree pa m ≡ ok m' → m'.ptes ≡ m.ptes
unfolding frametablefree
frametablefree-ptes pa m m' e =
    ground (arith, e, drop_frame-ptes pa (record m { framelock = true }))

kfree-ptes : (kernel_end pa : ℕ) (m m' : Memory) → kfree kernel_end pa m ≡ ok m' → m'.ptes ≡ m.ptes
unfolding kfree
kfree-ptes kernel_end pa m m' e =
    elim (Bool-cases (not (pa % pgsize == 0) || ltb pa kernel_end || leb phystop pa)) [
      | inl b ↦ absurd (let f = rw b at e in cc)
      | inr b ↦
          let (m₁, f, g) = first_part (frametablefree pa m) _ (rw b at e) in
          ground (arith, frametablefree-ptes pa m m₁ f, g)
    ]

-- What an unmapping of one page leaves: no entry or a zero one there, and every other entry as before.
record Cleared (t q : ℕ) (m m' : Memory) : Type 0 where
  empty : (m'.ptes t q ≡ none) ⊎ (m'.ptes t q ≡ some zero_pte)
  others : (t' q' : ℕ) → (t' ≢ t) ⊎ (q' ≢ q) → m'.ptes t' q' ≡ m.ptes t' q'

set_zero-Cleared :
    (t a : ℕ) (m m₁ : Memory)
    → m₁.ptes ≡ m.ptes
    → Cleared t (a / pgsize) m (set_pte t a zero_pte m₁)
set_zero-Cleared t a m m₁ e = record {
  empty = inr (rw (==-self t, ==-self (a / pgsize)) refl);
  others = λ t' q' n. rw e (ground (arith, n));
}

unmap_entry-Cleared :
    (kernel_end t a : ℕ) (do_free : Bool) (e : Pte) (m m' : Memory)
    → unmap_entry kernel_end t a do_free e m ≡ ok m'
    → Cleared t (a / pgsize) m m'
unfolding unmap_entry
unmap_entry-Cleared kernel_end t a do_free e m m' h = elim (Bool-cases (not e.v && e.s)) [
  | inl s ↦
      let g : set_pte t a zero_pte (swap_free (swap_index e) m) ≡ m' = ground (arith, rw s at h) in
      rw (← g)
        (set_zero-Cleared t a m (swap_free (swap_index e) m) (swap_free-ptes (swap_index e) m))
  | inr s ↦ elim (Bool-cases do_free) [
    | inl d ↦
        let (m₁, f, g) = first_part (frametablefree (pte2pa e) m) _ (rw (s, d) at h) in
        let (m₂, f₂, g₂) = first_part (kfree kernel_end (pte2pa e) m₁) _ g in
        let g₃ : set_pte t a zero_pte m₂ ≡ m' = ground (arith, g₂) in
        rw (← g₃) (
          set_zero-Cleared t a m m₂
            (kfree-ptes kernel_end (pte2pa e) m₁ m₂ f₂ ∙ frametablefree-ptes (pte2pa e) m m₁ f))
    | inr d ↦
        let g : set_pte t a zero_pte m ≡ m' = ground (arith, rw (s, d) at h) in
        rw (← g) (set_zero-Cleared t a m m refl)
  ]
]

unmap_page-Cleared :
    (kernel_end t a : ℕ) (do_free : Bool) (m m' : Memory)
    → unmap_page kernel_end t a do_free m ≡ ok m'
    → Cleared t (a / pgsize) m m'
unfolding unmap_page walk
unmap_page-Cleared kernel_end t a do_free m m' h = elim (Bool-cases (leb maxva a)) [
  | inl b ↦ absurd (let f = rw b at h in cc)
  | inr b ↦ elim (Option-cases (pte_at m t a)) [
    | inl e ↦
        let g : m ≡ m' = ground (arith, rw (b, e) at h) in
        rw (← g) (record { empty = inl e; others = λ t' q' n. refl })
    | inr (p, e) ↦ unmap_entry-Cleared kernel_end t a do_free p m m' (rw (b, e) at h)
  ]
]

-- The entries of the pages from `q` on, `n` of them, are gone or zero, and every other entry is as before.
pub record Unmapped (t q n : ℕ) (m m' : Memory) : Type 0 where
  pub empty : (i : ℕ) → i < n → (m'.ptes t (q + i) ≡ none) ⊎ (m'.ptes t (q + i) ≡ some zero_pte)
  pub others : (t' q' : ℕ) → (t' ≢ t) ⊎ ((q' < q) ⊎ (q + n ≤ q')) → m'.ptes t' q' ≡ m.ptes t' q'

zero_or_pred : (j : ℕ) → (j ≡ 0) ⊎ ((i : ℕ) × (j ≡ suc i))
zero_or_pred zero = inl refl
zero_or_pred (suc i) = inr (i, refl)

Unmapped-cons :
    (t q n : ℕ) (a b c : Memory)
    → Cleared t q a b
    → Unmapped t (suc q) n b c
    → Unmapped t q (suc n) a c
Unmapped-cons t q n a b c h u = record {
  empty = λ j l. elim (zero_or_pred j) [
    | inl z ↦
        let x : q + j ≡ q = omega arith in
        let s = u.others t q (inr (inl (omega arith))) in rw (x, s) h.empty
    | inr (i, z) ↦ let x : q + j ≡ suc q + i = omega arith in rw x (u.empty i (omega arith))
  ];
  others = λ t' q' n'. u.others t' q' (later n') ∙ h.others t' q' (now n');
}
  where
    later :
        {t' q' : ℕ}
        → (t' ≢ t) ⊎ ((q' < q) ⊎ (q + suc n ≤ q'))
        → (t' ≢ t) ⊎ ((q' < suc q) ⊎ (suc q + n ≤ q'))
    later (inl e) = inl e
    later (inr (inl e)) = inr (inl (omega arith))
    later (inr (inr e)) = inr (inr (omega arith))

    now : {t' q' : ℕ} → (t' ≢ t) ⊎ ((q' < q) ⊎ (q + suc n ≤ q')) → (t' ≢ t) ⊎ (q' ≢ q)
    now (inl e) = inl e
    now (inr (inl e)) = inr (omega arith)
    now (inr (inr e)) = inr (omega arith)

unmap_loop-Unmapped :
    (kernel_end n t a q : ℕ) (do_free : Bool) (m m' : Memory)
    → a ≡ q * 4096
    → unmap_loop kernel_end n t a do_free m ≡ ok m'
    → Unmapped t q n m m'
unfolding unmap_loop
unmap_loop-Unmapped kernel_end zero t a q do_free m m' e h =
    let g : m ≡ m' = ground (arith, h) in
    rw (← g) (record { empty = λ i l. absurd (omega arith); others = λ t' q' n. refl })
unmap_loop-Unmapped kernel_end (suc n) t a q do_free m m' e h =
    let (m₁, f, g) = first_part (unmap_page kernel_end t a do_free m) _ h in
    let x : a / pgsize ≡ q = omega arith in
    Unmapped-cons t q n m m₁ m' (rw x at (unmap_page-Cleared kernel_end t a do_free m m₁ f))
      (unmap_loop-Unmapped kernel_end n t (a + pgsize) (suc q) do_free m₁ m' (omega arith) g)

-- If unmapping n pages from va on does not stop the machine, the entries of those pages, swapped
-- out or not, do not exist or are zero afterwards, and every other entry of every table is as
-- before.
pub uvmunmap-Unmapped :
    (kernel_end t va n : ℕ) (do_free : Bool) (m m' : Memory)
    → uvmunmap kernel_end t va n do_free m ≡ ok m'
    → Unmapped t (va / pgsize) n m m'
unfolding uvmunmap
uvmunmap-Unmapped kernel_end t va n do_free m m' h = elim (Bool-cases (va % pgsize == 0)) [
  | inl e ↦
      let f : va % 4096 ≡ 0 = ground (arith, e) in
      unmap_loop-Unmapped kernel_end n t va (va / pgsize) do_free m m' (omega arith) (rw e at h)
  | inr e ↦ absurd (let f = rw e at h in cc)
]

-- Unmapping with the release of the memory stops the machine in kfree() at a first page below
-- MAXVA whose entry is zero, if framelock is free and the kernel does not end at address 0.
pub uvmunmap_lazy :
    (kernel_end t va n : ℕ) (m : Memory)
    → va % pgsize ≡ 0
    → va < maxva
    → 0 < kernel_end
    → m.framelock ≡ false
    → pte_at m t va ≡ some zero_pte
    → uvmunmap kernel_end t va (suc n) true m ≡ panic Panic.kfree
unfolding uvmunmap unmap_loop unmap_page unmap_entry walk frametablefree kfree
uvmunmap_lazy kernel_end t va n m a b k l e =
    let x : leb maxva va ≡ false = ground (arith, b) in
    let y : ltb 0 kernel_end ≡ true = ground (arith, k) in rw (a, x, e, l, y) refl

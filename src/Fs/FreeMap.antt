-- ===== src/Fs/FreeMap.antt =====
-- balloc() of kernel/fs.c on the free map.
use operating_systems_2_assi.Prelude.{
  ℕ, zero, suc, ◌+◌, ◌-◌, ◌*◌, ◌/◌, ◌%◌, ◌≤◌, ◌<◌, min, ◌≡◌, refl, sym, ◌∙◌, ap, ◌≢◌, Bool, true,
  false, not, ◌⊎◌, inl, inr, ◌==◌, if◌then◌else◌, arith, Bytes, update, update_self, update_ne,
  same_or, find_first-none, find_first-IsFirst, Option-cases,
}
use operating_systems_2_assi.Fs.{
  Fs, bpb, bblock, bzero, is_marked, mark, free_bit, take_block, balloc_loop, found_block, balloc,
}
use operating_systems_2_assi.Fs.Bits.{bit, set_bit, bit-set_bit_self, bit-set_bit_ne}

-- Whether the map has block `b` in use.
abbrev pub in_use : ℕ → Fs → Bool
in_use b s = is_marked (s.blocks (bblock b s)) (b % bpb)

is_marked-mark_self : (bytes : Bytes) (k : ℕ) → is_marked (mark bytes k) k ≡ true
is_marked-mark_self bytes k =
    ap (λ x. bit x (k % 8)) (update_self bytes (k / 8) (set_bit (bytes (k / 8)) (k % 8)))
    ∙ bit-set_bit_self (bytes (k / 8)) (k % 8) (omega arith)

is_marked-mark_ne :
    (bytes : Bytes) (k j : ℕ) → j ≢ k → is_marked (mark bytes k) j ≡ is_marked bytes j
is_marked-mark_ne bytes k j n = elim (same_or (j / 8) (k / 8)) [
  | inl e ↦
      ap (λ x. bit (mark bytes k x) (j % 8)) e
      ∙ ap (λ x. bit x (j % 8)) (update_self bytes (k / 8) (set_bit (bytes (k / 8)) (k % 8)))
      ∙ bit-set_bit_ne (bytes (k / 8)) (k % 8) (omega arith) (j % 8) (omega arith) (omega arith)
      ∙ ap (λ x. bit (bytes x) (j % 8)) (sym e)
  | inr m ↦
      ap (λ x. bit x (j % 8)) (update_ne bytes (k / 8) (j / 8) (set_bit (bytes (k / 8)) (k % 8)) m)
]

-- A block of the free map.
abbrev pub IsMapBlock : ℕ → Fs → Type 0
IsMapBlock k s = (b : ℕ) × (b < s.size) × (bblock b s ≡ k)

-- Block `b` was free, and is taken and cleared; nothing else has changed.
pub record Taken (b : ℕ) (s t : Fs) : Type 0 where
  pub below : b < s.size
  pub was_free : in_use b s ≡ false
  pub first : (j : ℕ) → j < b → in_use j s ≡ true
  pub now_used : ¬ IsMapBlock b s → in_use b t ≡ true
  pub others : ¬ IsMapBlock b s → (j : ℕ) → j < s.size → j ≢ b → in_use j t ≡ in_use j s
  pub cleared : t.blocks b ≡ (λ k. 0)
  pub same_blocks : (k : ℕ) → k ≢ b → ¬ IsMapBlock k s → t.blocks k ≡ s.blocks k
  pub same_layout :
      (t.size ≡ s.size)
      × (t.ninodes ≡ s.ninodes)
      × (t.inodestart ≡ s.inodestart)
      × (t.bmapstart ≡ s.bmapstart)

module _ (b bi : ℕ) (s : Fs) (base : b % bpb ≡ 0) (small : bi < bpb) (below : b + bi < s.size) where
  same_map : bblock (b + bi) s ≡ bblock b s
  same_map = omega arith

  its_bit : (b + bi) % bpb ≡ bi
  its_bit = omega arith

  abbrev taken_map : ℕ → Bytes
  taken_map = update s.blocks (bblock b s) (mark (s.blocks (bblock b s)) bi)

  -- The map after the block was taken, at a block of the map other than the one taken.
  marked_used :
      (j : ℕ)
      → is_marked (taken_map (bblock j s)) (j % bpb) ≡ (if j == b + bi then true else in_use j s)
  marked_used j = elim (same_or (bblock j s) (bblock b s)) [
    | inl e ↦ elim (same_or j (b + bi)) [
      | inl d ↦
          ap (λ x. is_marked (taken_map x) (j % bpb)) e
          ∙ ap (λ x. is_marked x (j % bpb))
              (update_self s.blocks (bblock b s) (mark (s.blocks (bblock b s)) bi))
          ∙ ap (is_marked (mark (s.blocks (bblock b s)) bi)) (ap (λ x. x % bpb) d ∙ its_bit)
          ∙ is_marked-mark_self (s.blocks (bblock b s)) bi
          ∙ ground (arith, d)
      | inr n ↦
          ap (λ x. is_marked (taken_map x) (j % bpb)) e
          ∙ ap (λ x. is_marked x (j % bpb))
              (update_self s.blocks (bblock b s) (mark (s.blocks (bblock b s)) bi))
          ∙ is_marked-mark_ne (s.blocks (bblock b s)) bi (j % bpb) (omega arith)
          ∙ ap (λ x. is_marked (s.blocks x) (j % bpb)) (sym e)
          ∙ ground (arith, n)
    ]
    | inr n ↦
        let m : j ≢ b + bi = omega arith in
        ap (λ x. is_marked x (j % bpb))
          (update_ne s.blocks (bblock b s) (bblock j s) (mark (s.blocks (bblock b s)) bi) n)
        ∙ ground (arith, m)
  ]

  take_block-Taken :
      is_marked (s.blocks (bblock b s)) bi ≡ false
      → ((j : ℕ) → j < b + bi → in_use j s ≡ true)
      → Taken (b + bi) s ((take_block b bi s).1)
  unfolding take_block bzero
  take_block-Taken free before = record {
    below = below;
    was_free =
        ap (λ x. is_marked (s.blocks x) ((b + bi) % bpb)) same_map
        ∙ ap (is_marked (s.blocks (bblock b s))) its_bit
        ∙ free;
    first = before;
    now_used = λ n. seen n (b + bi) below ∙ ground arith;
    others = λ n j l m. seen n j l ∙ ground (arith, m);
    cleared = update_self taken_map (b + bi) (λ k. 0);
    same_blocks = λ k n m.
        update_ne taken_map (b + bi) k (λ k. 0) n
        ∙ update_ne s.blocks (bblock b s) k (mark (s.blocks (bblock b s)) bi)
            (λ e. m (b, omega arith, sym e));
    same_layout = (refl, refl, refl, refl);
  }
    where
      seen :
          ¬ IsMapBlock (b + bi) s
          → (j : ℕ) → j < s.size
          → is_marked (update taken_map (b + bi) (λ k. 0) (bblock j s)) (j % bpb)
            ≡ (if j == b + bi then true else in_use j s)
      seen n j l =
          ap (λ x. is_marked x (j % bpb))
            (update_ne taken_map (b + bi) (bblock j s) (λ k. 0) (λ e. n (j, l, e)))
          ∙ marked_used j

-- The bit of a block in the map block of `b`.
in_use_at :
    (b k : ℕ) (s : Fs)
    → b % bpb ≡ 0
    → k < bpb
    → in_use (b + k) s ≡ is_marked (s.blocks (bblock b s)) k
in_use_at b k s base l =
    let at : bblock (b + k) s ≡ bblock b s = omega arith in
    let low : (b + k) % bpb ≡ k = omega arith in
    ap (λ x. is_marked (s.blocks x) ((b + k) % bpb)) at ∙ ap (is_marked (s.blocks (bblock b s))) low

-- Blocks that the search has found in use.
searched :
    (b m : ℕ) (s : Fs)
    → b % bpb ≡ 0
    → m ≤ bpb
    → ((j : ℕ) → j < b → j < s.size → in_use j s ≡ true)
    → ((k : ℕ) → k < m → not (is_marked (s.blocks (bblock b s)) k) ≡ false)
    → (j : ℕ) → j < b + m
    → j < s.size
    → in_use j s ≡ true
searched b m s base l h seen j a c = elim (same_or_less j b) [
  | inl x ↦ h j x c
  | inr x ↦
      let e : b + (j - b) ≡ j = omega arith in
      ap (λ y. in_use y s) (sym e)
      ∙ in_use_at b (j - b) s base (omega arith)
      ∙ (let y = seen (j - b) (omega arith) in not_false y)
]
  where
    same_or_less : (j b : ℕ) → (j < b) ⊎ (b ≤ j)
    same_or_less j b = omega arith

    not_false : {x : Bool} → not x ≡ false → x ≡ true
    not_false {x = true} e = refl
    not_false {x = false} e = sym e

-- Where every block is in use.
abbrev pub IsFull : Fs → Type 0
IsFull s = (j : ℕ) → j < s.size → in_use j s ≡ true

not-true : {x : Bool} → not x ≡ true → x ≡ false
not-true {x = true} e = sym e
not-true {x = false} e = refl

taken_number : (b bi : ℕ) (s : Fs) → take_block b bi s ≡ (b + bi, (take_block b bi s).1)
unfolding take_block
taken_number b bi s = refl

-- The search goes on after the blocks that it has seen.
balloc_loop-Taken :
    (n b : ℕ) (s : Fs)
    → b % bpb ≡ 0
    → s.size ≤ b + n * bpb
    → ((j : ℕ) → j < b → j < s.size → in_use j s ≡ true)
    → (IsFull s × (balloc_loop n b s ≡ (0, s)))
      ⊎ ((t : Fs) × (x : ℕ) × (balloc_loop n b s ≡ (x, t)) × Taken x s t)
unfolding balloc_loop found_block
balloc_loop-Taken zero b s base l h = inl (λ j m. h j (omega arith) m, refl)
balloc_loop-Taken (suc n) b s base l h = elim (Option-cases (free_bit b s)) [
  | inl e ↦
      let seen = find_first-none test (min bpb (s.size - b)) 0 e in
      let h' =
        searched b (min bpb (s.size - b)) s base (omega arith) h
          (λ k m. seen k (omega arith) (omega arith)) in
      elim (balloc_loop-Taken n (b + bpb) s (omega arith) (omega arith)
        (λ j a c. h' j (omega arith) c)) [
          | inl (f, q) ↦ inl (f, rw e q)
          | inr (t, x, q, r) ↦ inr (t, x, rw e q, r)
        ]
  | inr (bi, e) ↦
      let f = find_first-IsFirst test (min bpb (s.size - b)) 0 bi e in
      let small : bi < bpb = omega (arith, f.below) in
      let below : b + bi < s.size = omega (arith, f.below) in
      let before = searched b bi s base (omega arith) h (λ k m. f.before k (omega arith) m) in
      inr (
        (take_block b bi s).1,
        b + bi,
        rw e (taken_number b bi s),
        take_block-Taken b bi s base small below (not-true f.hit) (λ j m. before j m (omega arith)),
      )
]
  where
    test : ℕ → Bool
    test bi = not (is_marked (s.blocks (bblock b s)) bi)

-- balloc() returns 0 without a change if every block is in use; otherwise it returns the first
-- free block, cleared, and changes no other block but those of the free map. If that block is not
-- itself one of the free map, it is then marked as in use, and no other mark changes.
pub balloc-Taken :
    (s : Fs)
    → (IsFull s × (balloc s ≡ (0, s))) ⊎ ((t : Fs) × (x : ℕ) × (balloc s ≡ (x, t)) × Taken x s t)
unfolding balloc
balloc-Taken s =
    balloc_loop-Taken ((s.size + (bpb - 1)) / bpb) 0 s (omega arith) (omega arith)
      (λ j a c. absurd (omega arith))

-- ===== src/Fs/Free.antt =====
-- bfree() of kernel/fs.c.
use operating_systems_2_assi.Prelude.{
  ℕ, ◌/◌, ◌%◌, ◌≡◌, refl, sym, ◌∙◌, ap, ◌≢◌, true, false, ◌⊎◌, inl, inr, arith, Bytes, update,
  update_self, update_ne, same_or, ok, panic, Panic, Bool-cases,
}
use operating_systems_2_assi.Fs.{Fs, bpb, bblock, set_block, is_marked, unmark, bfree}
use operating_systems_2_assi.Fs.Bits.{bit, clear_bit, bit-clear_bit_self, bit-clear_bit_ne}
use operating_systems_2_assi.Fs.FreeMap.{in_use}

is_marked-unmark_self : (bytes : Bytes) (k : ℕ) → is_marked (unmark bytes k) k ≡ false
is_marked-unmark_self bytes k =
    ap (λ x. bit x (k % 8)) (update_self bytes (k / 8) (clear_bit (bytes (k / 8)) (k % 8)))
    ∙ bit-clear_bit_self (bytes (k / 8)) (k % 8) (omega arith)

is_marked-unmark_ne :
    (bytes : Bytes) (k j : ℕ) → j ≢ k → is_marked (unmark bytes k) j ≡ is_marked bytes j
is_marked-unmark_ne bytes k j n = elim (same_or (j / 8) (k / 8)) [
  | inl e ↦
      ap (λ x. bit (unmark bytes k x) (j % 8)) e
      ∙ ap (λ x. bit x (j % 8)) (update_self bytes (k / 8) (clear_bit (bytes (k / 8)) (k % 8)))
      ∙ bit-clear_bit_ne (bytes (k / 8)) (k % 8) (omega arith) (j % 8) (omega arith) (omega arith)
      ∙ ap (λ x. bit (bytes x) (j % 8)) (sym e)
  | inr m ↦
      ap (λ x. bit x (j % 8))
        (update_ne bytes (k / 8) (j / 8) (clear_bit (bytes (k / 8)) (k % 8)) m)
]

-- A block that is freed.
pub record Freed (b : ℕ) (s t : Fs) : Type 0 where
  pub now_free : in_use b t ≡ false
  pub others : (j : ℕ) → j ≢ b → in_use j t ≡ in_use j s
  pub same_blocks : (k : ℕ) → k ≢ bblock b s → t.blocks k ≡ s.blocks k
  pub same_layout :
      (t.size ≡ s.size)
      × (t.ninodes ≡ s.ninodes)
      × (t.inodestart ≡ s.inodestart)
      × (t.bmapstart ≡ s.bmapstart)

-- bfree() of a block in use frees that block and no other, and changes no block but the one of
-- the free map; of a free block it stops the machine.
pub bfree-Freed :
    (b : ℕ) (s : Fs)
    → ((in_use b s ≡ true) × ((t : Fs) × (bfree b s ≡ ok t) × Freed b s t))
      ⊎ ((in_use b s ≡ false) × (bfree b s ≡ panic Panic.free_block))
unfolding bfree
bfree-Freed b s = elim (Bool-cases (in_use b s)) [
  | inl e ↦ inl (
    e,
    (
      set_block m (unmark (s.blocks m) (b % bpb)) s,
      rw e refl,
      record {
        now_free =
            ap (λ x. is_marked x (b % bpb)) (update_self s.blocks m (unmark (s.blocks m) (b % bpb)))
            ∙ is_marked-unmark_self (s.blocks m) (b % bpb);
        others = λ j n. elim (same_or (bblock j s) m) [
          | inl d ↦
              ap (λ x. is_marked (update s.blocks m (unmark (s.blocks m) (b % bpb)) x) (j % bpb)) d
              ∙ ap (λ x. is_marked x (j % bpb))
                  (update_self s.blocks m (unmark (s.blocks m) (b % bpb)))
              ∙ is_marked-unmark_ne (s.blocks m) (b % bpb) (j % bpb) (omega arith)
              ∙ ap (λ x. is_marked (s.blocks x) (j % bpb)) (sym d)
          | inr d ↦
              ap (λ x. is_marked x (j % bpb))
                (update_ne s.blocks m (bblock j s) (unmark (s.blocks m) (b % bpb)) d)
        ];
        same_blocks = λ k n. update_ne s.blocks m k (unmark (s.blocks m) (b % bpb)) n;
        same_layout = (refl, refl, refl, refl);
      },
    ),
  )
  | inr e ↦ inr (e, rw e refl)
]
  where
    m : ℕ
    m = bblock b s

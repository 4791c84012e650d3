-- ===== src/Fs/Bits.antt =====
-- The bits of a byte of the free map of kernel/fs.c.
use operating_systems_2_assi.Prelude.{
  ℕ, zero, suc, ◌+◌, ◌-◌, ◌/◌, ◌^◌, ◌%◌, ◌<◌, ◌≡◌, ◌≢◌, Bool, true, false, ◌==◌, if◌then◌else◌,
  arith,
}

-- 1 << k
abbrev pub mask : ℕ → ℕ
mask k = 2 ^ k

-- (byte & m) != 0
abbrev pub bit : ℕ → ℕ → Bool
bit x k = x / mask k % 2 == 1

-- byte |= m
abbrev pub set_bit : ℕ → ℕ → ℕ
set_bit x k = if bit x k then x else x + mask k

-- byte &= ~m
abbrev pub clear_bit : ℕ → ℕ → ℕ
clear_bit x k = if bit x k then x - mask k else x

-- A statement about the eight bits.
all8 : (P : ℕ → Type 0) → P 0 → P 1 → P 2 → P 3 → P 4 → P 5 → P 6 → P 7 → (k : ℕ) → k < 8 → P k
all8 P a b c d e f g h zero l = a
all8 P a b c d e f g h (suc zero) l = b
all8 P a b c d e f g h (suc (suc zero)) l = c
all8 P a b c d e f g h (suc (suc (suc zero))) l = d
all8 P a b c d e f g h (suc (suc (suc (suc zero)))) l = e
all8 P a b c d e f g h (suc (suc (suc (suc (suc zero))))) l = f
all8 P a b c d e f g h (suc (suc (suc (suc (suc (suc zero)))))) l = g
all8 P a b c d e f g h (suc (suc (suc (suc (suc (suc (suc zero))))))) l = h
all8 P a b c d e f g h (suc (suc (suc (suc (suc (suc (suc (suc k)))))))) l = absurd (omega arith)

pub bit-set_bit_self : (x k : ℕ) → k < 8 → bit (set_bit x k) k ≡ true
bit-set_bit_self x =
    all8 (λ k. bit (set_bit x k) k ≡ true) (ground arith) (ground arith) (ground arith)
      (ground arith) (ground arith) (ground arith) (ground arith) (ground arith)

pub bit-clear_bit_self : (x k : ℕ) → k < 8 → bit (clear_bit x k) k ≡ false
bit-clear_bit_self x =
    all8 (λ k. bit (clear_bit x k) k ≡ false) (ground arith) (ground arith) (ground arith)
      (ground arith) (ground arith) (ground arith) (ground arith) (ground arith)

pub bit-set_bit_ne : (x k : ℕ) → k < 8 → (j : ℕ) → j < 8 → j ≢ k → bit (set_bit x k) j ≡ bit x j
bit-set_bit_ne x =
    all8 (λ k. (j : ℕ) → j < 8 → j ≢ k → bit (set_bit x k) j ≡ bit x j)
      (all8 (λ j. j ≢ 0 → bit (set_bit x 0) j ≡ bit x j) (λ n. ground arith) (λ n. ground arith)
        (λ n. ground arith) (λ n. ground arith) (λ n. ground arith) (λ n. ground arith)
        (λ n. ground arith) (λ n. ground arith))
      (all8 (λ j. j ≢ 1 → bit (set_bit x 1) j ≡ bit x j) (λ n. ground arith) (λ n. ground arith)
        (λ n. ground arith) (λ n. ground arith) (λ n. ground arith) (λ n. ground arith)
        (λ n. ground arith) (λ n. ground arith))
      (all8 (λ j. j ≢ 2 → bit (set_bit x 2) j ≡ bit x j) (λ n. ground arith) (λ n. ground arith)
        (λ n. ground arith) (λ n. ground arith) (λ n. ground arith) (λ n. ground arith)
        (λ n. ground arith) (λ n. ground arith))
      (all8 (λ j. j ≢ 3 → bit (set_bit x 3) j ≡ bit x j) (λ n. ground arith) (λ n. ground arith)
        (λ n. ground arith) (λ n. ground arith) (λ n. ground arith) (λ n. ground arith)
        (λ n. ground arith) (λ n. ground arith))
      (all8 (λ j. j ≢ 4 → bit (set_bit x 4) j ≡ bit x j) (λ n. ground arith) (λ n. ground arith)
        (λ n. ground arith) (λ n. ground arith) (λ n. ground arith) (λ n. ground arith)
        (λ n. ground arith) (λ n. ground arith))
      (all8 (λ j. j ≢ 5 → bit (set_bit x 5) j ≡ bit x j) (λ n. ground arith) (λ n. ground arith)
        (λ n. ground arith) (λ n. ground arith) (λ n. ground arith) (λ n. ground arith)
        (λ n. ground arith) (λ n. ground arith))
      (all8 (λ j. j ≢ 6 → bit (set_bit x 6) j ≡ bit x j) (λ n. ground arith) (λ n. ground arith)
        (λ n. ground arith) (λ n. ground arith) (λ n. ground arith) (λ n. ground arith)
        (λ n. ground arith) (λ n. ground arith))
      (all8 (λ j. j ≢ 7 → bit (set_bit x 7) j ≡ bit x j) (λ n. ground arith) (λ n. ground arith)
        (λ n. ground arith) (λ n. ground arith) (λ n. ground arith) (λ n. ground arith)
        (λ n. ground arith) (λ n. ground arith))

pub bit-clear_bit_ne : (x k : ℕ) → k < 8 → (j : ℕ) → j < 8 → j ≢ k → bit (clear_bit x k) j ≡ bit x j
bit-clear_bit_ne x =
    all8 (λ k. (j : ℕ) → j < 8 → j ≢ k → bit (clear_bit x k) j ≡ bit x j)
      (all8 (λ j. j ≢ 0 → bit (clear_bit x 0) j ≡ bit x j) (λ n. ground arith) (λ n. ground arith)
        (λ n. ground arith) (λ n. ground arith) (λ n. ground arith) (λ n. ground arith)
        (λ n. ground arith) (λ n. ground arith))
      (all8 (λ j. j ≢ 1 → bit (clear_bit x 1) j ≡ bit x j) (λ n. ground arith) (λ n. ground arith)
        (λ n. ground arith) (λ n. ground arith) (λ n. ground arith) (λ n. ground arith)
        (λ n. ground arith) (λ n. ground arith))
      (all8 (λ j. j ≢ 2 → bit (clear_bit x 2) j ≡ bit x j) (λ n. ground arith) (λ n. ground arith)
        (λ n. ground arith) (λ n. ground arith) (λ n. ground arith) (λ n. ground arith)
        (λ n. ground arith) (λ n. ground arith))
      (all8 (λ j. j ≢ 3 → bit (clear_bit x 3) j ≡ bit x j) (λ n. ground arith) (λ n. ground arith)
        (λ n. ground arith) (λ n. ground arith) (λ n. ground arith) (λ n. ground arith)
        (λ n. ground arith) (λ n. ground arith))
      (all8 (λ j. j ≢ 4 → bit (clear_bit x 4) j ≡ bit x j) (λ n. ground arith) (λ n. ground arith)
        (λ n. ground arith) (λ n. ground arith) (λ n. ground arith) (λ n. ground arith)
        (λ n. ground arith) (λ n. ground arith))
      (all8 (λ j. j ≢ 5 → bit (clear_bit x 5) j ≡ bit x j) (λ n. ground arith) (λ n. ground arith)
        (λ n. ground arith) (λ n. ground arith) (λ n. ground arith) (λ n. ground arith)
        (λ n. ground arith) (λ n. ground arith))
      (all8 (λ j. j ≢ 6 → bit (clear_bit x 6) j ≡ bit x j) (λ n. ground arith) (λ n. ground arith)
        (λ n. ground arith) (λ n. ground arith) (λ n. ground arith) (λ n. ground arith)
        (λ n. ground arith) (λ n. ground arith))
      (all8 (λ j. j ≢ 7 → bit (clear_bit x 7) j ≡ bit x j) (λ n. ground arith) (λ n. ground arith)
        (λ n. ground arith) (λ n. ground arith) (λ n. ground arith) (λ n. ground arith)
        (λ n. ground arith) (λ n. ground arith))

-- ===== src/Log/Header.antt =====
-- The header block of the log of kernel/log.c, as write_head() writes and read_head() reads it.
use operating_systems_2_assi.Prelude.{
  ℕ, zero, suc, ◌+◌, ◌*◌, ◌≤◌, ◌<◌, ◌≡◌, refl, sym, ◌∙◌, ap, inl, inr, ◌⊎◌, arith, Bytes, update,
  get_int, put_int, get_int-put_int_self, get_int-put_int_ne, leb, ltb, if◌then◌else◌, ◌&&◌,
}
use operating_systems_2_assi.Log.{read_blocks, put_blocks, header_bytes, count_of, logblocks}

-- The `n` block numbers from entry `i` on are stored in entries of their own.
get-put_blocks_below :
    (n i : ℕ) (block : ℕ → ℕ) (bytes : Bytes) (off : ℕ)
    → off + 4 ≤ 4 + 4 * i
    → get_int (put_blocks n i block bytes) off ≡ get_int bytes off
unfolding put_blocks
get-put_blocks_below zero i block bytes off h = refl
get-put_blocks_below (suc n) i block bytes off h =
    get-put_blocks_below n (suc i) block (put_int bytes (4 + 4 * i) (block i)) off (omega arith)
    ∙ get_int-put_int_ne bytes (4 + 4 * i) off (block i) (inr h)

get-put_blocks :
    (n i : ℕ) (block : ℕ → ℕ) (bytes : Bytes) (j : ℕ)
    → ((k : ℕ) → k < i + n → block k < 4294967296)
    → i ≤ j
    → j < i + n
    → get_int (put_blocks n i block bytes) (4 + 4 * j) ≡ block j
unfolding put_blocks
get-put_blocks zero i block bytes j f a b = absurd (omega arith)
get-put_blocks (suc n) i block bytes j f a b = elim (first_or i j a) [
  | inl e ↦
      get-put_blocks_below n (suc i) block (put_int bytes (4 + 4 * i) (block i)) (4 + 4 * j)
        (omega arith)
      ∙ ap (λ x. get_int (put_int bytes (4 + 4 * i) (block i)) (4 + 4 * x)) e
      ∙ get_int-put_int_self bytes (4 + 4 * i) (block i) (f i (omega arith))
      ∙ ap block (sym e)
  | inr l ↦
      get-put_blocks n (suc i) block (put_int bytes (4 + 4 * i) (block i)) j
        (λ k m. f k (omega arith)) l (omega arith)
]
  where
    first_or : (i j : ℕ) → i ≤ j → (j ≡ i) ⊎ (suc i ≤ j)
    first_or i j h = ground arith

read_blocks_lem :
    (n i : ℕ) (bytes : Bytes) (block : ℕ → ℕ) (j : ℕ)
    → read_blocks n i bytes block j
      ≡ (if leb i j && ltb j (i + n) then get_int bytes (4 + 4 * j) else block j)
unfolding read_blocks
read_blocks_lem zero i bytes block j = ground arith
read_blocks_lem (suc n) i bytes block j =
    ground (arith, read_blocks_lem n (suc i) bytes (update block i (get_int bytes (4 + 4 * i))) j)

-- A block that says which `n` blocks the log holds.
pub record IsHeader (n : ℕ) (block : ℕ → ℕ) (bytes : Bytes) : Type 0 where
  pub count : get_int bytes 0 ≡ n
  pub entries : (i : ℕ) → i < n → get_int bytes (4 + 4 * i) ≡ block i

pub header_bytes-IsHeader :
    (n : ℕ) (block : ℕ → ℕ) (bytes : Bytes)
    → n ≤ logblocks
    → ((i : ℕ) → i < n → block i < 4294967296)
    → IsHeader n block (header_bytes n block bytes)
unfolding header_bytes
header_bytes-IsHeader n block bytes l f = record {
  count =
      get-put_blocks_below n 0 block (put_int bytes 0 n) 0 (omega arith)
      ∙ get_int-put_int_self bytes 0 n (omega arith);
  entries = λ i m.
      get-put_blocks n 0 block (put_int bytes 0 n) i (λ k a. f k (omega arith)) (omega arith)
        (omega arith);
}

pub IsHeader-count_of :
    {n : ℕ} {block : ℕ → ℕ} {bytes : Bytes}
    → n ≤ logblocks
    → IsHeader n block bytes
    → count_of bytes ≡ n
IsHeader-count_of l h = ground (arith, h.count)

pub IsHeader-read_blocks :
    {n : ℕ} {block : ℕ → ℕ} {bytes : Bytes} (old : ℕ → ℕ)
    → IsHeader n block bytes
    → (i : ℕ) → i < n
    → read_blocks n 0 bytes old i ≡ block i
IsHeader-read_blocks {n} {block} {bytes} old h i m =
    ground (arith, read_blocks_lem n 0 bytes old i, h.entries i m)

-- ===== src/Prelude/Words.antt =====
-- The 32-bit integers that C structs in a block are made of, in little-endian bytes.
use Prim.Native.Nat.{ℕ, zero, suc, ◌+◌, ◌*◌, ◌/◌, ◌%◌, ◌≤◌, ◌<◌}
use mathlib.Core.Path.{◌≡◌, refl, sym, ap, ◌∙◌, subst}
use mathlib.Core.Logic.{◌⊎◌, inl, inr}
use native.Mathlib.Omega.{arith}
use operating_systems_2_assi.Prelude.Memory.{Bytes, update}

-- *(uint *)(data + off)
unfoldable pub get_int : Bytes → ℕ → ℕ
get_int mem off = mem off + 256 * mem (off + 1) + 65536 * mem (off + 2) + 16777216 * mem (off + 3)

-- *(uint *)(data + off) = v
unfoldable pub put_int : Bytes → ℕ → ℕ → Bytes
put_int mem off v =
    update
      (update (update (update mem off (v % 256)) (off + 1) (v / 256 % 256)) (off + 2)
        (v / 65536 % 256))
      (off + 3) (v / 16777216 % 256)

pub get_int-put_int_self :
    (mem : Bytes) (off v : ℕ) → v < 4294967296 → get_int (put_int mem off v) off ≡ v
unfolding get_int put_int
get_int-put_int_self mem off v h = ground arith

-- The bytes of two integers that do not overlap.
pub get_int-put_int_ne :
    (mem : Bytes) (off off' v : ℕ)
    → (off + 4 ≤ off') ⊎ (off' + 4 ≤ off)
    → get_int (put_int mem off v) off' ≡ get_int mem off'
unfolding get_int put_int
get_int-put_int_ne mem off off' v (inl h) = ground arith
get_int-put_int_ne mem off off' v (inr h) = ground arith

-- *(ushort *)(mem + off)
unfoldable pub get_short : Bytes → ℕ → ℕ
get_short mem off = mem off + 256 * mem (off + 1)

-- *(ushort *)(mem + off) = v
unfoldable pub put_short : Bytes → ℕ → ℕ → Bytes
put_short mem off v = update (update mem off (v % 256)) (off + 1) (v / 256 % 256)

pub get_short-put_short_self :
    (mem : Bytes) (off v : ℕ) → v < 65536 → get_short (put_short mem off v) off ≡ v
unfolding get_short put_short
get_short-put_short_self mem off v h = ground arith

-- A write of an integer changes only its own bytes.
pub put_int_ne :
    (mem : Bytes) (off v k : ℕ) → (k < off) ⊎ (off + 4 ≤ k) → put_int mem off v k ≡ mem k
unfolding put_int
put_int_ne mem off v k h = ground (arith, h)

pub put_short_ne :
    (mem : Bytes) (off v k : ℕ) → (k < off) ⊎ (off + 2 ≤ k) → put_short mem off v k ≡ mem k
unfolding put_short
put_short_ne mem off v k h = ground (arith, h)

-- The integers f(i), ..., f(i + n - 1) in an array that starts at `off`.
unfoldable pub put_ints : ℕ → ℕ → ℕ → (ℕ → ℕ) → Bytes → Bytes
put_ints off zero i f mem = mem
put_ints off (suc n) i f mem = put_ints off n (suc i) f (put_int mem (off + 4 * i) (f i))

pub put_ints_ne :
    (off n i : ℕ) (f : ℕ → ℕ) (mem : Bytes) (k : ℕ)
    → (k < off + 4 * i) ⊎ (off + 4 * (i + n) ≤ k)
    → put_ints off n i f mem k ≡ mem k
unfolding put_ints
put_ints_ne off zero i f mem k h = refl
put_ints_ne off (suc n) i f mem k h =
    put_ints_ne off n (suc i) f (put_int mem (off + 4 * i) (f i)) k (step h)
    ∙ put_int_ne mem (off + 4 * i) (f i) k (outside h)
  where
    step :
        (k < off + 4 * i) ⊎ (off + 4 * (i + suc n) ≤ k)
        → (k < off + 4 * suc i) ⊎ (off + 4 * (suc i + n) ≤ k)
    step (inl a) = inl (omega arith)
    step (inr a) = inr (omega arith)

    outside :
        (k < off + 4 * i) ⊎ (off + 4 * (i + suc n) ≤ k) → (k < off + 4 * i) ⊎ (off + 4 * i + 4 ≤ k)
    outside (inl a) = inl a
    outside (inr a) = inr (omega arith)

pub get_int-cong :
    (a b : Bytes) (off : ℕ)
    → ((k : ℕ) → off ≤ k → k < off + 4 → a k ≡ b k)
    → get_int a off ≡ get_int b off
unfolding get_int
get_int-cong a b off h = ground (
  arith,
  h off (omega arith) (omega arith),
  h (off + 1) (omega arith) (omega arith),
  h (off + 2) (omega arith) (omega arith),
  h (off + 3) (omega arith) (omega arith),
)

pub get_int-put_ints :
    (off n i : ℕ) (f : ℕ → ℕ) (mem : Bytes) (j : ℕ)
    → f j < 4294967296
    → i ≤ j
    → j < i + n
    → get_int (put_ints off n i f mem) (off + 4 * j) ≡ f j
unfolding put_ints
get_int-put_ints off zero i f mem j s a b = absurd (omega arith)
get_int-put_ints off (suc n) i f mem j s a b = elim (first_or i j a) [
  | inl e ↦
      get_int-cong (put_ints off n (suc i) f (put_int mem (off + 4 * i) (f i)))
        (put_int mem (off + 4 * i) (f i)) (off + 4 * j)
        (λ k l m.
          put_ints_ne off n (suc i) f (put_int mem (off + 4 * i) (f i)) k (inl (omega arith)))
      ∙ ap (λ x. get_int (put_int mem (off + 4 * i) (f i)) (off + 4 * x)) e
      ∙ get_int-put_int_self mem (off + 4 * i) (f i) (subst (λ x. f x < 4294967296) e s)
      ∙ ap f (sym e)
  | inr l ↦ get_int-put_ints off n (suc i) f (put_int mem (off + 4 * i) (f i)) j s l (omega arith)
]
  where
    first_or : (i j : ℕ) → i ≤ j → (j ≡ i) ⊎ (suc i ≤ j)
    first_or i j h = ground arith

pub get_short-cong :
    (a b : Bytes) (off : ℕ)
    → a off ≡ b off
    → a (off + 1) ≡ b (off + 1)
    → get_short a off ≡ get_short b off
unfolding get_short
get_short-cong a b off p q = ground (arith, p, q)

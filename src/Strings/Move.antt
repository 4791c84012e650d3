-- ===== src/Strings/Move.antt =====
-- memset() and memmove() of kernel/string.c write what a fill and a copy of bytes write.
use operating_systems_2_assi.Prelude.{
  ℕ, zero, suc, ◌+◌, ◌%◌, ◌≤◌, ◌<◌, ◌≡◌, ◌⊎◌, inl, inr, false, ◌&&◌, arith, ltb, ◌==◌, Bytes, copy,
  fill, update, Bool-cases,
}
use operating_systems_2_assi.Strings.{set_loop, memset, move_down, move_up, memmove}

set_loop_lem :
    (n i dst c : ℕ) (m : Bytes) (k : ℕ) → set_loop n i dst c m k ≡ fill m (dst + i) (c % 256) n k
unfolding set_loop
set_loop_lem zero i dst c m k = ground arith
set_loop_lem (suc n) i dst c m k =
    ground (arith, set_loop_lem n (suc i) dst c (update m (dst + i) (c % 256)) k)

-- memset() sets the bytes from `dst` on, `n` of them, to the low byte of `c`, and no others.
memset_lem : (dst c n : ℕ) (m : Bytes) (k : ℕ) → memset dst c n m k ≡ fill m dst (c % 256) n k
unfolding memset
memset_lem dst c n m k = ground (arith, set_loop_lem n 0 dst c m k)

move_down_lem : (n d s : ℕ) (m : Bytes) (k : ℕ) → s < d → move_down n d s m k ≡ copy m d m s n k
unfolding move_down
move_down_lem zero d s m k h = ground arith
move_down_lem (suc n) d s m k h =
    ground (arith, move_down_lem n d s (update m (d + n) (m (s + n))) k h)

move_up_lem :
    (n d s : ℕ) (m : Bytes) (k : ℕ) → (d ≤ s) ⊎ (s + n ≤ d) → move_up n d s m k ≡ copy m d m s n k
unfolding move_up
move_up_lem zero d s m k h = ground arith
move_up_lem (suc n) d s m k (inl h) =
    ground (arith, move_up_lem n (suc d) (suc s) (update m d (m s)) k (inl (omega arith)))
move_up_lem (suc n) d s m k (inr h) =
    ground (arith, move_up_lem n (suc d) (suc s) (update m d (m s)) k (inr (omega arith)))

-- memmove() is a copy of the old bytes of the source, whether or not the two ranges overlap, and
-- changes nothing outside the destination.
pub memmove_lem : (d s n : ℕ) (m : Bytes) (k : ℕ) → memmove d s n m k ≡ copy m d m s n k
unfolding memmove
memmove_lem d s n m k = elim (Bool-cases (n == 0)) [
  | inl z ↦ rw z (ground (arith, z))
  | inr z ↦ elim (Bool-cases (ltb s d && ltb d (s + n))) [
    | inl o ↦ rw (z, o) (move_down_lem n d s m k (ground (arith, o)))
    | inr o ↦ rw (z, o) (move_up_lem n d s m k (apart o))
  ]
]
  where
    apart : (ltb s d && ltb d (s + n)) ≡ false → (d ≤ s) ⊎ (s + n ≤ d)
    apart o = elim (Bool-cases (ltb s d)) [
      | inl a ↦ inr (ground (arith, a, o))
      | inr a ↦ inl (ground (arith, a))
    ]

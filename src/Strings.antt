-- ===== src/Strings.antt =====
-- kernel/string.c, on a memory that maps an address to its byte. Pointers do not wrap around, and a
-- count is not negative.
pub mod Move
pub mod Compare
pub mod Terminate
mod Tests
use operating_systems_2_assi.Prelude.{
  ℕ, zero, suc, ◌+◌, ◌-◌, ◌%◌, ◌&&◌, not, Option, none, some, if◌then◌else◌, ltb, ◌==◌, Bytes,
  update,
}
use operating_systems_2_assi.Proc.State.{ℤ}

-- for (i = ...; n rounds) cdst[i] = c;
unfoldable pub set_loop : ℕ → ℕ → ℕ → ℕ → Bytes → Bytes
set_loop zero i dst c m = m
set_loop (suc n) i dst c m = set_loop n (suc i) dst c (update m (dst + i) (c % 256))

unfoldable pub memset : ℕ → ℕ → ℕ → Bytes → Bytes
memset dst c n m = set_loop n 0 dst c m

-- while (n-- > 0) *--d = *--s; with both pointers at the ends.
unfoldable pub move_down : ℕ → ℕ → ℕ → Bytes → Bytes
move_down zero d s m = m
move_down (suc n) d s m = move_down n d s (update m (d + n) (m (s + n)))

-- while (n-- > 0) *d++ = *s++;
unfoldable pub move_up : ℕ → ℕ → ℕ → Bytes → Bytes
move_up zero d s m = m
move_up (suc n) d s m = move_up n (suc d) (suc s) (update m d (m s))

unfoldable pub memmove : ℕ → ℕ → ℕ → Bytes → Bytes
memmove d s n m =
    if n == 0 then m else if ltb s d && ltb d (s + n) then move_down n d s m else move_up n d s m

-- The difference of two bytes as an `int`.
unfoldable pub difference : ℕ → ℕ → ℤ
difference a b = if ltb a b then ℤ.negsuc (b - suc a) else ℤ.pos (a - b)

unfoldable pub memcmp : ℕ → ℕ → ℕ → Bytes → ℤ
memcmp zero p q m = ℤ.pos 0
memcmp (suc n) p q m =
    let rest = memcmp n (suc p) (suc q) m in
    if not (m p == m q) then difference (m p) (m q) else rest

unfoldable pub strncmp : ℕ → ℕ → ℕ → Bytes → ℤ
strncmp zero p q m = ℤ.pos 0
strncmp (suc n) p q m =
    let rest = strncmp n (suc p) (suc q) m in
    if not (m p == 0) && m p == m q then rest else difference (m p) (m q)

-- while (n-- > 0) *s++ = 0;
unfoldable pub pad : ℕ → ℕ → Bytes → Bytes
pad zero s m = m
pad (suc n) s m = pad n (suc s) (update m s 0)

-- The first loop of strncpy() copies up to the zero byte, the second pads.
unfoldable pub strncpy : ℕ → ℕ → ℕ → Bytes → Bytes
strncpy zero s t m = m
strncpy (suc n) s t m =
    let m' = update m s (m t) in
    let rest = strncpy n (suc s) (suc t) m' in if m t == 0 then pad n (suc s) m' else rest

-- The loop of safestrcpy() with `n` bytes left after --n, and the final *s = 0.
unfoldable pub safe_loop : ℕ → ℕ → ℕ → Bytes → Bytes
safe_loop zero s t m = update m s 0
safe_loop (suc n) s t m =
    let m' = update m s (m t) in
    let rest = safe_loop n (suc s) (suc t) m' in if m t == 0 then update m' (suc s) 0 else rest

unfoldable pub safestrcpy : ℕ → ℕ → ℕ → Bytes → Bytes
safestrcpy s t zero m = m
safestrcpy s t (suc n) m = safe_loop n s t m

-- The loop of strlen() with the count `n`; `none` when the fuel is used up before a zero byte.
unfoldable pub length_loop : ℕ → ℕ → ℕ → Bytes → Option ℕ
length_loop zero n s m = none
length_loop (suc fuel) n s m =
    let rest = length_loop fuel (suc n) s m in if m (s + n) == 0 then some n else rest

unfoldable pub strlen : ℕ → ℕ → Bytes → Option ℕ
strlen fuel s m = length_loop fuel 0 s m

-- ===== src/Strings/Terminate.antt =====
-- strlen(), and the strings that strncpy() and safestrcpy() of kernel/string.c leave.
use operating_systems_2_assi.Prelude.{
  ℕ, zero, suc, ◌+◌, ◌≤◌, ◌<◌, ◌≡◌, ◌≢◌, refl, ◌⊎◌, inl, inr, Bool, some, arith, ◌==◌, Bytes, fill,
  update, ◌∙◌, ap, Bool-cases, find_first, IsFirst, find_first-some, find_first-IsFirst,
}
use operating_systems_2_assi.Strings.{length_loop, strlen, pad, strncpy, safe_loop, safestrcpy}

length_loop_lem :
    (fuel n s : ℕ) (m : Bytes) → length_loop fuel n s m ≡ find_first (λ j. m (s + j) == 0) fuel n
unfolding length_loop find_first
length_loop_lem zero n s m = refl
length_loop_lem (suc fuel) n s m = rw (length_loop_lem fuel (suc n) s m) refl

lt_cases : (a b : ℕ) → (a ≡ b) ⊎ ((a < b) ⊎ (b < a))
lt_cases a b = grind arith

IsFirst-unique : (test : ℕ → Bool) (n i j k : ℕ) → IsFirst test n i j → IsFirst test n i k → j ≡ k
IsFirst-unique test n i j k a b = elim (lt_cases j k) [
  | inl e ↦ e
  | inr (inl l) ↦ absurd (let f = b.before j a.from l in let g = a.hit in cc)
  | inr (inr l) ↦ absurd (let f = a.before k b.from l in let g = b.hit in cc)
]

-- With enough fuel to reach it, strlen() returns the place of the first zero byte.
strlen_lem :
    (fuel s k : ℕ) (m : Bytes) → IsFirst (λ j. m (s + j) == 0) fuel 0 k → strlen fuel s m ≡ some k
unfolding strlen
strlen_lem fuel s k m h =
    let (j, e) = find_first-some (λ i. m (s + i) == 0) fuel 0 k h.from h.below h.hit in
    let f = find_first-IsFirst (λ i. m (s + i) == 0) fuel 0 j e in
    length_loop_lem fuel 0 s m ∙ e ∙ ap some (IsFirst-unique (λ i. m (s + i) == 0) fuel 0 j k f h)

pad_lem : (n s : ℕ) (m : Bytes) (k : ℕ) → pad n s m k ≡ fill m s 0 n k
unfolding pad
pad_lem zero s m k = ground arith
pad_lem (suc n) s m k = ground (arith, pad_lem n (suc s) (update m s 0) k)

-- What a bounded copy of the string at `t` leaves in the buffer of `n` bytes at `s`, from `m` to `m'`:
-- `k` bytes of the string that are not zero, and then zero bytes as far as `filled` says; nothing
-- outside the buffer has changed.
pub record Copied (filled n s t k : ℕ) (m m' : Bytes) : Type 0 where
  pub text : (j : ℕ) → j < k → m' (s + j) ≡ m (t + j)
  pub no_zero : (j : ℕ) → j < k → m (t + j) ≢ 0
  pub ended : (j : ℕ) → k ≤ j → j < filled → m' (s + j) ≡ 0
  pub outside : (a : ℕ) → (a < s) ⊎ (s + n ≤ a) → m' a ≡ m a

-- The buffer and the string do not overlap.
abbrev pub Disjoint : ℕ → ℕ → ℕ → Type 0
Disjoint s t n = (s + n ≤ t) ⊎ (t + n ≤ s)

first_or_later : (j : ℕ) → (j ≡ 0) ⊎ ((i : ℕ) × (j ≡ suc i))
first_or_later zero = inl refl
first_or_later (suc i) = inr (i, refl)

-- One byte that is not zero, and then the copy of the rest.
Copied-cons :
    (filled n s t k : ℕ) (m m' : Bytes)
    → Disjoint s t (suc n)
    → m t ≢ 0
    → k ≤ n
    → Copied filled n (suc s) (suc t) k (update m s (m t)) m'
    → Copied (suc filled) (suc n) s t (suc k) m m'
Copied-cons filled n s t k m m' d z b h = record {
  text = λ j l. elim (first_or_later j) [
    | inl e ↦
        let x : s + j ≡ s = omega arith in
        let y : t + j ≡ t = omega arith in
        rw (x, y) (ground (arith, h.outside s (inl (omega arith))))
    | inr (i, e) ↦
        let x : s + j ≡ suc s + i = omega arith in
        let y : t + j ≡ suc t + i = omega arith in
        rw (x, y) (ground (arith, h.text i (omega arith)))
  ];
  no_zero = λ j l. elim (first_or_later j) [
    | inl e ↦ let y : t + j ≡ t = omega arith in rw y z
    | inr (i, e) ↦
        let y : t + j ≡ suc t + i = omega arith in rw y (ground (arith, h.no_zero i (omega arith)))
  ];
  ended = λ j l l'. elim (first_or_later j) [
    | inl e ↦ absurd (omega arith)
    | inr (i, e) ↦
        let x : s + j ≡ suc s + i = omega arith in rw x (h.ended i (omega arith) (omega arith))
  ];
  outside = λ a o. ground (arith, h.outside a);
}

Disjoint-tail : (s t n : ℕ) → Disjoint s t (suc n) → Disjoint (suc s) (suc t) n
Disjoint-tail s t n (inl h) = inl (omega arith)
Disjoint-tail s t n (inr h) = inr (omega arith)

-- The byte that stops the copy of the rest is the string's own.
same_stop :
    (s t n k : ℕ) (m : Bytes)
    → Disjoint s t (suc n)
    → k ≤ n
    → (k ≡ n) ⊎ (update m s (m t) (suc t + k) ≡ 0)
    → (suc k ≡ suc n) ⊎ (m (t + suc k) ≡ 0)
same_stop s t n k m d b f = elim (lt_cases k n) [
  | inl e ↦ inl (omega arith)
  | inr (inl l) ↦ elim f [
    | inl e ↦ inl (omega arith)
    | inr e ↦ let x : t + suc k ≡ suc t + k = omega arith in inr (rw x (ground (arith, e, d)))
  ]
  | inr (inr l) ↦ absurd (omega arith)
]

safe_stop :
    (s t n k : ℕ) (m : Bytes)
    → Disjoint s t (suc (suc n))
    → k ≤ n
    → (k ≡ n) ⊎ (update m s (m t) (suc t + k) ≡ 0)
    → (suc k ≡ suc n) ⊎ (m (t + suc k) ≡ 0)
safe_stop s t n k m d b (inl e) = inl (omega arith)
safe_stop s t n k m d b (inr e) =
    let x : t + suc k ≡ suc t + k = omega arith in inr (rw x (ground (arith, e, d)))

-- strncpy() to a buffer of n bytes that does not overlap the string copies the string up to its
-- zero byte or the end of the buffer, fills the rest of the buffer with zero bytes, and changes
-- nothing outside it.
pub strncpy-Copied :
    (n s t : ℕ) (m : Bytes)
    → Disjoint s t n
    → (k : ℕ) × (k ≤ n) × ((k ≡ n) ⊎ (m (t + k) ≡ 0)) × Copied n n s t k m (strncpy n s t m)
unfolding strncpy
strncpy-Copied zero s t m d = (
  0,
  omega arith,
  inl refl,
  record {
    text = λ j l. absurd (omega arith);
    no_zero = λ j l. absurd (omega arith);
    ended = λ j l l'. absurd (omega arith);
    outside = λ a o. refl;
  },
)
strncpy-Copied (suc n) s t m d = elim (Bool-cases (m t == 0)) [
  | inl e ↦ (
    0,
    omega arith,
    inr (let x : t + 0 ≡ t = omega arith in rw x (ground (arith, e))),
    rw e (record {
      text = λ j l. absurd (omega arith);
      no_zero = λ j l. absurd (omega arith);
      ended = λ j l l'. ground (arith, pad_lem n (suc s) (update m s (m t)) (s + j), e);
      outside = λ a o. ground (arith, pad_lem n (suc s) (update m s (m t)) a, o);
    }),
  )
  | inr e ↦
      let (k, b, f, c) =
        strncpy-Copied n (suc s) (suc t) (update m s (m t)) (Disjoint-tail s t n d) in
      (
        suc k,
        omega arith,
        same_stop s t n k m d b f,
        rw e (Copied-cons n n s t k m _ d (ground (arith, e)) b c),
      )
]

safe_loop-Copied :
    (n s t : ℕ) (m : Bytes)
    → Disjoint s t (suc n)
    → (k : ℕ) × (k ≤ n)
      × ((k ≡ n) ⊎ (m (t + k) ≡ 0))
      × Copied (suc k) (suc n) s t k m (safe_loop n s t m)
unfolding safe_loop
safe_loop-Copied zero s t m d = (
  0,
  omega arith,
  inl refl,
  record {
    text = λ j l. absurd (omega arith);
    no_zero = λ j l. absurd (omega arith);
    ended = λ j l l'. ground arith;
    outside = λ a o. ground (arith, o);
  },
)
safe_loop-Copied (suc n) s t m d = elim (Bool-cases (m t == 0)) [
  | inl e ↦ (
    0,
    omega arith,
    inr (let x : t + 0 ≡ t = omega arith in rw x (ground (arith, e))),
    rw e (record {
      text = λ j l. absurd (omega arith);
      no_zero = λ j l. absurd (omega arith);
      ended = λ j l l'. ground (arith, e);
      outside = λ a o. ground (arith, o);
    }),
  )
  | inr e ↦
      let (k, b, f, c) =
        safe_loop-Copied n (suc s) (suc t) (update m s (m t)) (Disjoint-tail s t (suc n) d) in
      (
        suc k,
        omega arith,
        safe_stop s t n k m d b f,
        rw e (Copied-cons (suc k) (suc n) s t k m _ d (ground (arith, e)) (omega arith) c),
      )
]

-- safestrcpy() to a buffer of at least one byte that does not overlap the string copies the
-- string up to its zero byte or the last byte but one of the buffer, always writes a zero byte
-- after it, and changes nothing outside the buffer.
pub safestrcpy-Copied :
    (s t n : ℕ) (m : Bytes)
    → 0 < n
    → Disjoint s t n
    → (k : ℕ) × (k < n)
      × ((suc k ≡ n) ⊎ (m (t + k) ≡ 0))
      × Copied (suc k) n s t k m (safestrcpy s t n m)
unfolding safestrcpy
safestrcpy-Copied s t zero m l d = absurd (omega arith)
safestrcpy-Copied s t (suc n) m l d =
    let (k, b, f, c) = safe_loop-Copied n s t m d in (k, omega arith, last f, c)
  where
    last : {k : ℕ} → (k ≡ n) ⊎ (m (t + k) ≡ 0) → (suc k ≡ suc n) ⊎ (m (t + k) ≡ 0)
    last (inl e) = inl (omega arith)
    last (inr e) = inr e

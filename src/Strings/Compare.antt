-- ===== src/Strings/Compare.antt =====
-- When memcmp() and strncmp() of kernel/string.c return 0.
use operating_systems_2_assi.Prelude.{
  ℕ, zero, suc, ◌+◌, ◌<◌, ◌≡◌, ◌≢◌, ◌↔◌, refl, ◌⊎◌, inl, inr, arith, ltb, ◌==◌, Bytes, Bool-cases,
}
use operating_systems_2_assi.Proc.State.{ℤ}
use operating_systems_2_assi.Strings.{difference, memcmp, strncmp}

difference_zero : (a b : ℕ) → (difference a b ≡ ℤ.pos 0) ↔ (a ≡ b)
unfolding difference
difference_zero a b = elim (Bool-cases (ltb a b)) [
  | inl l ↦ rw l (λ e. absurd (cc), λ e. absurd (ground (arith, l, e)))
  | inr l ↦ rw l (λ e. ground (arith, l, e), λ e. ground (arith, l, e))
]

-- The `n` bytes from `p` on are those from `q` on.
abbrev SameBytes : ℕ → ℕ → ℕ → Bytes → Type 0
SameBytes n p q m = (j : ℕ) → j < n → m (p + j) ≡ m (q + j)

zero_or_pred : (j : ℕ) → (j ≡ 0) ⊎ ((i : ℕ) × (j ≡ suc i))
zero_or_pred zero = inl refl
zero_or_pred (suc i) = inr (i, refl)

SameBytes-cons :
    (n p q : ℕ) (m : Bytes) → m p ≡ m q → SameBytes n (suc p) (suc q) m → SameBytes (suc n) p q m
SameBytes-cons n p q m e h j b = elim (zero_or_pred j) [
  | inl z ↦ let x : p + j ≡ p = omega arith in let y : q + j ≡ q = omega arith in rw (x, y) e
  | inr (i, z) ↦
      let x : p + j ≡ suc p + i = omega arith in
      let y : q + j ≡ suc q + i = omega arith in rw (x, y) (h i (omega arith))
]

SameBytes-tail : (n p q : ℕ) (m : Bytes) → SameBytes (suc n) p q m → SameBytes n (suc p) (suc q) m
SameBytes-tail n p q m h j b =
    let x : suc p + j ≡ p + suc j = omega arith in
    let y : suc q + j ≡ q + suc j = omega arith in rw (x, y) (h (suc j) (omega arith))

SameBytes-head : (n p q : ℕ) (m : Bytes) → SameBytes (suc n) p q m → m p ≡ m q
SameBytes-head n p q m h =
    let x : p + 0 ≡ p = omega arith in
    let y : q + 0 ≡ q = omega arith in rw (x, y) at (h 0 (omega arith))

-- memcmp() returns 0 exactly when the two ranges hold the same bytes.
memcmp_zero : (n p q : ℕ) (m : Bytes) → (memcmp n p q m ≡ ℤ.pos 0) ↔ SameBytes n p q m
unfolding memcmp
memcmp_zero zero p q m = (λ e j b. absurd (omega arith), λ h. refl)
memcmp_zero (suc n) p q m = elim (Bool-cases (m p == m q)) [
  | inl e ↦
      let f : m p ≡ m q = ground (arith, e) in
      let r = memcmp_zero n (suc p) (suc q) m in
      rw e (λ z. SameBytes-cons n p q m f (r.0 z), λ h. r.1 (SameBytes-tail n p q m h))
  | inr e ↦
      let r = difference_zero (m p) (m q) in
      rw e (
        λ z. absurd (let f = r.0 z in ground (arith, e, f)),
        λ h. absurd (let f = SameBytes-head n p q m h in ground (arith, e, f)),
      )
]

-- Both strings agree in their first `n` bytes, up to the zero byte of the first.
pub data SameText (m : Bytes) : ℕ → ℕ → ℕ → Type 0 where
  at_limit : (p q : ℕ) → SameText m 0 p q
  at_end : (n p q : ℕ) → m p ≡ 0 → m q ≡ 0 → SameText m (suc n) p q
  same_byte :
      (n p q : ℕ) → m p ≢ 0 → m p ≡ m q → SameText m n (suc p) (suc q) → SameText m (suc n) p q

-- strncmp() returns 0 exactly when the two strings agree in their first n bytes or up to the end
-- of both.
pub strncmp_zero : (n p q : ℕ) (m : Bytes) → (strncmp n p q m ≡ ℤ.pos 0) ↔ SameText m n p q
unfolding strncmp
strncmp_zero zero p q m = (λ e. at_limit p q, λ h. refl)
strncmp_zero (suc n) p q m = elim (Bool-cases (m p == 0)) [
  | inl z ↦
      let r = difference_zero (m p) (m q) in
      let z' : m p ≡ 0 = ground (arith, z) in
      rw z (λ e. at_end n p q z' (let f = r.0 e in omega (arith, f)), λ h. r.1 (ends h z'))
  | inr z ↦
      let z' : m p ≢ 0 = ground (arith, z) in
      elim (Bool-cases (m p == m q)) [
        | inl e ↦
            let f : m p ≡ m q = ground (arith, e) in
            let r = strncmp_zero n (suc p) (suc q) m in
            rw (z, e) (λ x. same_byte n p q z' f (r.0 x), λ h. r.1 (tail h z'))
        | inr e ↦
            let r = difference_zero (m p) (m q) in
            let f : m p ≢ m q = ground (arith, e) in
            rw (z, e) (λ x. absurd (f (r.0 x)), λ h. absurd (f (head h)))
      ]
]
  where
    head : SameText m (suc n) p q → m p ≡ m q
    head (at_end _ _ _ a b) = omega arith
    head (same_byte _ _ _ a b c) = b

    ends : SameText m (suc n) p q → m p ≡ 0 → m p ≡ m q
    ends h z = head h

    tail : SameText m (suc n) p q → m p ≢ 0 → SameText m n (suc p) (suc q)
    tail (at_end _ _ _ a b) z = absurd (z a)
    tail (same_byte _ _ _ a b c) z = c

-- ===== src/Prelude/Loops.antt =====
-- The two kinds of loop over a fixed table: a search that breaks at the first hit, and a pass that
-- updates each entry. A table is a function of the index.
use Prim.Native.Nat.{ℕ, zero, suc, ◌+◌, ◌≤◌, ◌<◌}
use mathlib.Core.Path.{◌≡◌, refl, ap}
use mathlib.Core.Bool.{Bool, true, false, ◌&&◌}
use mathlib.Core.Logic.{◌⊎◌, inl, inr, ◌≢◌}
use mathlib.Core.Option.{Option, none, some}
use native.Mathlib.Omega.{arith}
use operating_systems_2_assi.Prelude.Tests.{
  ltb, leb, ◌==◌, ==_iff, if◌then◌else◌, Bool-cases, Option-cases,
}
use operating_systems_2_assi.Prelude.Memory.{update}

-- for (j = i; j < i + n; j++) if (test(j)) { found j; break; }
unfoldable pub find_first : (ℕ → Bool) → ℕ → ℕ → Option ℕ
find_first test zero i = none
find_first test (suc n) i = let rest = find_first test n (suc i) in if test i then some i else rest

-- `k` is the first index from `i` on, below `i + n`, that passes the test.
pub record IsFirst (test : ℕ → Bool) (n i k : ℕ) : Type 0 where
  pub from : i ≤ k
  pub below : k < i + n
  pub hit : test k ≡ true
  pub before : (j : ℕ) → i ≤ j → j < k → test j ≡ false

-- What a search that comes back empty has seen.
abbrev pub NoneIn : (ℕ → Bool) → ℕ → ℕ → Type 0
NoneIn test n i = (j : ℕ) → i ≤ j → j < i + n → test j ≡ false

eq_or_lt : (i j : ℕ) → i ≤ j → (j ≡ i) ⊎ (suc i ≤ j)
eq_or_lt i j h = grind arith

pub find_first-IsFirst :
    (test : ℕ → Bool) (n i k : ℕ) → find_first test n i ≡ some k → IsFirst test n i k
unfolding find_first
find_first-IsFirst test zero i k e = absurd (cc)
find_first-IsFirst test (suc n) i k e = elim (Bool-cases (test i)) [
  | inl hit ↦
      let here : i ≡ k = ground arith in
      record {
        from = omega arith;
        below = omega arith;
        hit = cc;
        before = λ j a b. absurd (omega arith);
      }
  | inr miss ↦
      let rest = find_first-IsFirst test n (suc i) k (ground arith) in
      record {
        from = omega (arith, rest.from);
        below = omega (arith, rest.below);
        hit = rest.hit;
        before = λ j a b. elim (eq_or_lt i j a) [ inl q ↦ cc | inr q ↦ rest.before j q b ];
      }
]

pub find_first-none : (test : ℕ → Bool) (n i : ℕ) → find_first test n i ≡ none → NoneIn test n i
unfolding find_first
find_first-none test zero i e j a b = absurd (omega arith)
find_first-none test (suc n) i e j a b = elim (Bool-cases (test i)) [
  | inl hit ↦ absurd (ground arith)
  | inr miss ↦ elim (eq_or_lt i j a) [
    | inl q ↦ cc
    | inr q ↦ find_first-none test n (suc i) (ground arith) j q (omega arith)
  ]
]

-- A search over a range that holds a hit finds one.
pub find_first-some :
    (test : ℕ → Bool) (n i j : ℕ)
    → i ≤ j
    → j < i + n
    → test j ≡ true
    → (k : ℕ) × (find_first test n i ≡ some k)
find_first-some test n i j a b h = elim (Option-cases (find_first test n i)) [
  | inl e ↦ absurd (let f = find_first-none test n i e j a b in cc)
  | inr p ↦ p
]

-- The only hit of the range is the one that is found.
pub find_first_only :
    (test : ℕ → Bool) (n i k : ℕ)
    → i ≤ k
    → k < i + n
    → test k ≡ true
    → ((j : ℕ) → j < i + n → j ≢ k → test j ≡ false)
    → find_first test n i ≡ some k
find_first_only test n i k a b h u =
    let (k', e) = find_first-some test n i k a b h in
    let f = find_first-IsFirst test n i k' e in
    elim (Bool-cases (k' == k)) [
      | inl q ↦ rw e (ap some ((==_iff k' k).0 q))
      | inr q ↦
          absurd (
            let hit = f.hit in let miss = u k' f.below (λ x. let r = (==_iff k' k).1 x in cc) in cc)
    ]

pub find_first_unique :
    (test : ℕ → Bool) (n i k : ℕ)
    → i ≤ k
    → k < i + n
    → test k ≡ true
    → ((j : ℕ) → j ≢ k → test j ≡ false)
    → find_first test n i ≡ some k
find_first_unique test n i k a b h u = find_first_only test n i k a b h (λ j l n. u j n)

-- The first entry passes.
pub find_first-here :
    (test : ℕ → Bool) (n i : ℕ) → test i ≡ true → find_first test (suc n) i ≡ some i
unfolding find_first
find_first-here test n i h = rw h

pub find_first-miss : (test : ℕ → Bool) (n i : ℕ) → NoneIn test n i → find_first test n i ≡ none
unfolding find_first
find_first-miss test zero i h = refl
find_first-miss test (suc n) i h =
    rw (h i (omega arith) (omega arith))
      (find_first-miss test n (suc i) (λ j a b. h j (omega arith) (omega arith)))

-- for (j = i; j < i + n; j++) table[j] = f(j, table[j]);
unfoldable pub for_each {ℓ} : {A : Type ℓ} → (ℕ → A → A) → ℕ → ℕ → (ℕ → A) → ℕ → A
for_each f zero i t = t
for_each f (suc n) i t = for_each f n (suc i) (update t i (f i (t i)))

pub for_each_lem {ℓ} :
    {A : Type ℓ} (f : ℕ → A → A) (n i : ℕ) (t : ℕ → A) (j : ℕ)
    → for_each f n i t j ≡ (if leb i j && ltb j (i + n) then f j (t j) else t j)
unfolding for_each
for_each_lem f zero i t j = ground arith
for_each_lem f (suc n) i t j = ground (arith, for_each_lem f n (suc i) (update t i (f i (t i))) j)

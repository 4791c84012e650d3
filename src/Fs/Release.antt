-- ===== src/Fs/Release.antt =====
-- Blocks that are given up one after the other by bfree() of kernel/fs.c. `own` lists them, and a 0
-- in it stands for no block.
use operating_systems_2_assi.Prelude.{
  ℕ, suc, ◌+◌, ◌≤◌, ◌<◌, ◌≡◌, refl, sym, ◌∙◌, ap, ◌≢◌, true, false, ◌⊎◌, inl, inr, arith, same_or,
  ok,
}
use operating_systems_2_assi.Fs.{Fs, bfree}
use operating_systems_2_assi.Fs.FreeMap.{in_use, IsMapBlock}
use operating_systems_2_assi.Fs.Free.{bfree-Freed}

-- The blocks `own i` for the `i` of `P` are freed, and no other.
pub record Released (P : ℕ → Type 0) (own : ℕ → ℕ) (s t : Fs) : Type 0 where
  pub gone : (i : ℕ) → P i → own i ≢ 0 → in_use (own i) t ≡ false
  pub others : (b : ℕ) → ((i : ℕ) → P i → own i ≢ 0 → own i ≢ b) → in_use b t ≡ in_use b s
  pub same_blocks : (k : ℕ) → ¬ IsMapBlock k s → t.blocks k ≡ s.blocks k
  pub same_layout :
      (t.size ≡ s.size)
      × (t.ninodes ≡ s.ninodes)
      × (t.inodestart ≡ s.inodestart)
      × (t.bmapstart ≡ s.bmapstart)

-- Distinct blocks in use.
pub record IsOwned (P : ℕ → Type 0) (own : ℕ → ℕ) (s : Fs) : Type 0 where
  pub below : (i : ℕ) → P i → own i ≢ 0 → own i < s.size
  pub used : (i : ℕ) → P i → own i ≢ 0 → in_use (own i) s ≡ true
  pub apart : (i j : ℕ) → P i → P j → i ≢ j → own i ≢ 0 → own i ≢ own j

-- `n` entries from `i` on.
abbrev pub Between : ℕ → ℕ → ℕ → Type 0
Between i n j = (i ≤ j) × (j < i + n)

abbrev pub Only : ℕ → ℕ → Type 0
Only i j = j ≡ i

-- No blocks at all.
pub none_Released :
    {P : ℕ → Type 0} {own : ℕ → ℕ} {s : Fs} → ((i : ℕ) → P i → own i ≡ 0) → Released P own s s
none_Released z = record {
  gone = λ i p n. absurd (n (z i p));
  others = λ b g. refl;
  same_blocks = λ k m. refl;
  same_layout = (refl, refl, refl, refl);
}

module _ {P Q : ℕ → Type 0} {own : ℕ → ℕ} where
  -- Two parts, one after the other.
  pub join_Released :
      {s t u : Fs}
      → ((i j : ℕ) → P i → Q j → own j ≢ 0 → own j ≢ own i)
      → Released P own s t
      → Released Q own t u
      → Released (λ i. P i ⊎ Q i) own s u
  join_Released h a b = record {
    gone = λ i c n. elim c [
      | inl p ↦ b.others (own i) (λ j q nz. h i j p q nz) ∙ a.gone i p n
      | inr q ↦ b.gone i q n
    ];
    others = λ c g. b.others c (λ i q. g i (inr q)) ∙ a.others c (λ i p. g i (inl p));
    same_blocks = λ k m.
        b.same_blocks k
          (λ (c, l, e). let (x, y, z, w) = a.same_layout in m (c, omega arith, omega arith))
        ∙ a.same_blocks k m;
    same_layout =
        let (x, y, z, w) = a.same_layout in
        let (x', y', z', w') = b.same_layout in (x' ∙ x, y' ∙ y, z' ∙ z, w' ∙ w);
  }

  pub same_Released :
      {s t : Fs}
      → ((i : ℕ) → P i → Q i)
      → ((i : ℕ) → Q i → P i)
      → Released P own s t
      → Released Q own s t
  same_Released f g r = record {
    gone = λ i q. r.gone i (g i q);
    others = λ b h. r.others b (λ i p. h i (f i p));
    same_blocks = r.same_blocks;
    same_layout = r.same_layout;
  }

  pub IsOwned-sub : {s : Fs} → ((i : ℕ) → P i → Q i) → IsOwned Q own s → IsOwned P own s
  IsOwned-sub f h = record {
    below = λ i p. h.below i (f i p);
    used = λ i p. h.used i (f i p);
    apart = λ i j p q. h.apart i j (f i p) (f j q);
  }

  -- What is left of the blocks is still in use.
  pub Released-IsOwned :
      {R : ℕ → Type 0} {s t : Fs}
      → ((i : ℕ) → P i → R i)
      → ((i : ℕ) → Q i → R i)
      → ((i j : ℕ) → P i → Q j → i ≢ j)
      → IsOwned R own s
      → Released P own s t
      → IsOwned Q own t
  Released-IsOwned f g ne h r = record {
    below = λ i q n. let (x, y, z, w) = r.same_layout in let l = h.below i (g i q) n in omega arith;
    used = λ i q n.
        r.others (own i) (λ j p nz. h.apart j i (f j p) (g i q) (ne j i p q) nz)
        ∙ h.used i (g i q) n;
    apart = λ i j p q. h.apart i j (g i p) (g j q);
  }

-- bfree() of one of the blocks.
pub bfree-Released :
    (P : ℕ → Type 0) (own : ℕ → ℕ) (i : ℕ) (s : Fs)
    → IsOwned P own s
    → P i
    → own i ≢ 0
    → (t : Fs) × (bfree (own i) s ≡ ok t) × Released (Only i) own s t
bfree-Released P own i s h p n = elim (bfree-Freed (own i) s) [
  | inl (u, (t, q, f)) ↦ (
    t,
    q,
    record {
      gone = λ j d nz. ap (λ x. in_use (own x) t) d ∙ f.now_free;
      others = λ b g. f.others b (λ z. g i refl n (sym z));
      same_blocks = λ k m. f.same_blocks k (λ e. m (own i, h.below i p n, sym e));
      same_layout = f.same_layout;
    },
  )
  | inr (u, q) ↦ let v = h.used i p n in absurd cc
]

-- The first of a range of entries, and the others.
module _ {own : ℕ → ℕ} (i n : ℕ) {s t : Fs} (h : IsOwned (Between i (suc n)) own s)
    (a : Released (Only i) own s t) where
  pub rest_IsOwned : IsOwned (Between (suc i) n) own t
  rest_IsOwned =
      Released-IsOwned (λ j e. (omega arith, omega arith)) (λ j (l, r). (omega arith, omega arith))
        (λ j k e (l, r). λ z. omega arith) h a

  pub first_Released :
      {u : Fs} → Released (Between (suc i) n) own t u → Released (Between i (suc n)) own s u
  first_Released b =
      same_Released
        (λ j c. elim c [
          | inl e ↦ (omega arith, omega arith)
          | inr (l, r) ↦ (omega arith, omega arith)
        ])
        (λ j (l, r). elim (same_or j i) [ inl e ↦ inl e | inr m ↦ inr (omega arith, omega arith) ])
        (join_Released
          (λ j k e (l, r) nz.
            h.apart k j (omega arith, omega arith) (omega arith, omega arith) (λ z. omega arith) nz)
          a b)

-- ===== src/Bcache/Change.antt =====
-- A change of one buffer of the cache of kernel/bio.c, against the invariant and the contents of the
-- blocks.
use operating_systems_2_assi.Prelude.{
  ℕ, ◌<◌, ◌≡◌, sym, ◌∙◌, ap, subst, ◌≢◌, inl, inr, update_self, update_ne, same_or,
}
use operating_systems_2_assi.Bcache.{Buf, Bcache, nbuf, set_buf}
use operating_systems_2_assi.Bcache.View.{
  IsCache, Holds, IsFor, IsSound, Holds-test, Holds-cases, contents, contents-hit, contents-miss,
}

-- What a buffer must be to replace buffer `b`.
pub record Fits (b : ℕ) (v : Buf) (c : Bcache) : Type 0 where
  pub below : b < nbuf
  pub sound : IsSound c.disk v
  pub alone : (k : ℕ) → IsFor k v → (i : ℕ) → Holds i k c → i ≡ b

module _ (b : ℕ) (v : Buf) (c : Bcache) where
  pub Holds-set_ne : (i k : ℕ) → i ≢ b → Holds i k c → Holds i k (set_buf b v c)
  Holds-set_ne i k n h = record {
    below = h.below;
    entry = subst (IsFor k) (sym (update_ne c.bufs b i v n)) h.entry;
  }

  pub set-Holds_ne : (i k : ℕ) → i ≢ b → Holds i k (set_buf b v c) → Holds i k c
  set-Holds_ne i k n h = record {
    below = h.below;
    entry = subst (IsFor k) (update_ne c.bufs b i v n) h.entry;
  }

  pub Holds-set_self : (k : ℕ) → b < nbuf → IsFor k v → Holds b k (set_buf b v c)
  Holds-set_self k l e = record {
    below = l;
    entry = subst (IsFor k) (sym (update_self c.bufs b v)) e;
  }

  pub set-Holds_self : (k : ℕ) → Holds b k (set_buf b v c) → IsFor k v
  set-Holds_self k h = subst (IsFor k) (update_self c.bufs b v) h.entry

  set_unique :
      IsCache c
      → Fits b v c
      → (i j k : ℕ) → Holds i k (set_buf b v c)
      → Holds j k (set_buf b v c)
      → i ≡ j
  set_unique w f i j k p q = elim (same_or i b) [
    | inl e ↦ elim (same_or j b) [
      | inl d ↦ e ∙ sym d
      | inr m ↦
          let here = set-Holds_self k (subst (λ x. Holds x k (set_buf b v c)) e p) in
          e ∙ sym (f.alone k here j (set-Holds_ne j k m q))
    ]
    | inr n ↦ elim (same_or j b) [
      | inl d ↦
          let here = set-Holds_self k (subst (λ x. Holds x k (set_buf b v c)) d q) in
          f.alone k here i (set-Holds_ne i k n p) ∙ sym d
      | inr m ↦ w.unique i j k (set-Holds_ne i k n p) (set-Holds_ne j k m q)
    ]
  ]

  pub set_buf-IsCache : IsCache c → Fits b v c → IsCache (set_buf b v c)
  set_buf-IsCache w f = record {
    all_linked = w.all_linked;
    linked_below = w.linked_below;
    sound = λ i l. elim (same_or i b) [
      | inl e ↦
          subst (λ x. IsSound c.disk ((set_buf b v c).bufs x)) (sym e)
            (subst (IsSound c.disk) (sym (update_self c.bufs b v)) f.sound)
      | inr n ↦ subst (IsSound c.disk) (sym (update_ne c.bufs b i v n)) (w.sound i l)
    ];
    unique = set_unique w f;
  }

  -- The contents of the block that the new buffer is for.
  pub contents-set_self :
      (k : ℕ)
      → IsCache (set_buf b v c)
      → b < nbuf
      → IsFor k v
      → contents (set_buf b v c) k ≡ v.bytes
  contents-set_self k w l h =
      contents-hit w (Holds-set_self k l h) ∙ ap (λ x. x.bytes) (update_self c.bufs b v)

  -- The contents of a block that neither the old buffer nor the new one is for.
  pub contents-set_ne :
      (k : ℕ)
      → IsCache c
      → IsCache (set_buf b v c)
      → ¬ Holds b k c
      → ¬ Holds b k (set_buf b v c)
      → contents (set_buf b v c) k ≡ contents c k
  contents-set_ne k w w' p q = elim (Holds-cases k c) [
    | inl (i, h) ↦ elim (same_or i b) [
      | inl e ↦ absurd (p (subst (λ x. Holds x k c) e h))
      | inr n ↦
          contents-hit w' (Holds-set_ne i k n h)
          ∙ ap (λ x. x.bytes) (update_ne c.bufs b i v n)
          ∙ sym (contents-hit w h)
    ]
    | inr empty ↦ elim (Holds-cases k (set_buf b v c)) [
      | inl (i, h) ↦ elim (same_or i b) [
        | inl e ↦ absurd (q (subst (λ x. Holds x k (set_buf b v c)) e h))
        | inr n ↦
            absurd (let t = Holds-test (set-Holds_ne i k n h) in let f = empty i h.below in cc)
      ]
      | inr empty' ↦ contents-miss (set_buf b v c) k empty' ∙ sym (contents-miss c k empty)
    ]
  ]

  -- A change that no block notices.
  pub contents-set :
      (k : ℕ)
      → IsCache c
      → IsCache (set_buf b v c)
      → b < nbuf
      → (IsFor k v → v.bytes ≡ contents c k)
      → (Holds b k c → ¬ IsFor k v → contents c k ≡ c.disk k)
      → contents (set_buf b v c) k ≡ contents c k
  contents-set k w w' l same gone = elim (Holds-cases k (set_buf b v c)) [
    | inl (i, h) ↦ elim (same_or i b) [
      | inl e ↦
          let here = set-Holds_self k (subst (λ x. Holds x k (set_buf b v c)) e h) in
          contents-set_self k w' l here ∙ same here
      | inr n ↦
          contents-hit w' h
          ∙ ap (λ x. x.bytes) (update_ne c.bufs b i v n)
          ∙ sym (contents-hit w (set-Holds_ne i k n h))
    ]
    | inr empty ↦ elim (Holds-cases k c) [
      | inl (i, h) ↦ elim (same_or i b) [
        | inl e ↦
            contents-miss (set_buf b v c) k empty
            ∙ sym (
                gone (subst (λ x. Holds x k c) e h)
                  (λ f. let t = Holds-test (Holds-set_self k l f) in let g = empty b l in cc))
        | inr n ↦
            absurd (let t = Holds-test (Holds-set_ne i k n h) in let g = empty i h.below in cc)
      ]
      | inr empty' ↦ contents-miss (set_buf b v c) k empty ∙ sym (contents-miss c k empty')
    ]
  ]

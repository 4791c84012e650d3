-- ===== src/Fs/Freeing.antt =====
-- The loops of itrunc() of kernel/fs.c: the blocks of an inode, and those of its indirect block.
use operating_systems_2_assi.Prelude.{
  ℕ, zero, suc, ◌+◌, ◌-◌, ◌*◌, ◌<◌, ◌≡◌, refl, sym, ◌∙◌, ap, ◌≢◌, inl, inr, arith, same_or, get_int,
  Bytes, ok, update, update_self, update_ne, ==-ne,
}
use operating_systems_2_assi.Fs.{
  Fs, Inode, ndirect, nindirect, set_addr, free_direct, free_listed, free_indirect,
}
use operating_systems_2_assi.Fs.Release.{
  Released, IsOwned, Between, Only, none_Released, join_Released, same_Released, Released-IsOwned,
  IsOwned-sub, bfree-Released, rest_IsOwned, first_Released,
}

-- A part of the addresses is set to 0.
pub record Zeroed (P : ℕ → Type 0) (addrs addrs' : ℕ → ℕ) : Type 0 where
  pub zero : (j : ℕ) → P j → addrs' j ≡ 0
  pub others : (j : ℕ) → ¬ P j → addrs' j ≡ addrs j

after : (f : ℕ → ℕ) (i j : ℕ) → i < j → update f i 0 j ≡ f j
after f i j l = update_ne f i j 0 (omega arith)

pub free_direct-Released :
    (own : ℕ → ℕ) (n i : ℕ) (ip : Inode) (s : Fs)
    → ((j : ℕ) → Between i n j → ip.addrs j ≡ own j)
    → IsOwned (Between i n) own s
    → (addrs : ℕ → ℕ) × (t : Fs) × (free_direct n i ip s ≡ ok (record ip { addrs = addrs }, t))
      × Zeroed (Between i n) ip.addrs addrs
      × Released (Between i n) own s t
unfolding free_direct
free_direct-Released own zero i ip s same h = (
  ip.addrs,
  s,
  refl,
  record { zero = λ j (l, r). absurd (omega arith); others = λ j m. refl },
  none_Released (λ j (l, r). absurd (omega arith)),
)
free_direct-Released own (suc n) i ip s same h = elim (same_or (ip.addrs i) 0) [
  | inl z ↦
      let a : Released (Only i) own s s =
        none_Released (λ j e. ap own e ∙ sym (same i (omega arith, omega arith)) ∙ z) in
      let (addrs, t, q, k, r) =
        free_direct-Released own n (suc i) ip s (λ j (l, m). same j (omega arith, omega arith))
          (rest_IsOwned i n h a) in
      (
        addrs,
        t,
        rw z q,
        record {
          zero = λ j (l, m). elim (same_or j i) [
            | inl e ↦ ap addrs e ∙ k.others i (λ (l', m'). omega arith) ∙ z
            | inr d ↦ k.zero j (omega arith, omega arith)
          ];
          others = λ j m. k.others j (λ (l, r'). m (omega arith, omega arith));
        },
        first_Released i n h a r,
      )
  | inr nz ↦
      let here = same i (omega arith, omega arith) in
      let (s₁, q₁, a) =
        bfree-Released (Between i (suc n)) own i s h (omega arith, omega arith)
          (λ z. nz (here ∙ z)) in
      let (addrs, t, q, k, r) =
        free_direct-Released own n (suc i) (set_addr i 0 ip) s₁
          (λ j (l, m). after ip.addrs i j l ∙ same j (omega arith, omega arith))
          (rest_IsOwned i n h a) in
      (
        addrs,
        t,
        rw (==-ne (ip.addrs i) 0 nz, here, q₁) q,
        record {
          zero = λ j (l, m). elim (same_or j i) [
            | inl e ↦ ap addrs e ∙ k.others i (λ (l', m'). omega arith) ∙ update_self ip.addrs i 0
            | inr d ↦ k.zero j (omega arith, omega arith)
          ];
          others = λ j m.
              k.others j (λ (l, r'). m (omega arith, omega arith))
              ∙ update_ne ip.addrs i j 0 (λ e. m (omega arith, omega arith));
        },
        first_Released i n h a r,
      )
]

free_listed-Released :
    (own : ℕ → ℕ) (n j m : ℕ) (a : Bytes) (s : Fs)
    → m ≡ 13 + j
    → ((k : ℕ) → Between j n k → get_int a (4 * k) ≡ own (13 + k))
    → IsOwned (Between m n) own s
    → (t : Fs) × (free_listed n j a s ≡ ok t) × Released (Between m n) own s t
unfolding free_listed
free_listed-Released own zero j m a s e same h =
    (s, refl, none_Released (λ j (l, r). absurd (omega arith)))
free_listed-Released own (suc n) j m a s e same h = elim (same_or (get_int a (4 * j)) 0) [
  | inl z ↦
      let b : Released (Only m) own s s = none_Released (λ k d. ap own (d ∙ e) ∙ sym here ∙ z) in
      let (t, q, r) =
        free_listed-Released own n (suc j) (suc m) a s (omega arith) later (rest_IsOwned m n h b) in
      (t, rw z q, first_Released m n h b r)
  | inr nz ↦
      let (s₁, q₁, b) =
        bfree-Released (Between m (suc n)) own m s h (omega arith, omega arith)
          (λ z. nz (here ∙ sym (ap own e) ∙ z)) in
      let (t, q, r) =
        free_listed-Released own n (suc j) (suc m) a s₁ (omega arith) later
          (rest_IsOwned m n h b) in
      (
        t,
        rw (==-ne (get_int a (4 * j)) 0 nz, here ∙ sym (ap own e), q₁) q,
        first_Released m n h b r,
      )
]
  where
    here : get_int a (4 * j) ≡ own (13 + j)
    here = same j (omega arith, omega arith)

    later : (k : ℕ) → Between (suc j) n k → get_int a (4 * k) ≡ own (13 + k)
    later k (l, r) = same k (omega arith, omega arith)

-- The indirect block and its entries; `own` has the entries from 13 on.
pub free_indirect-Released :
    (own : ℕ → ℕ) (ip : Inode) (s : Fs)
    → ip.addrs ndirect ≡ own ndirect
    → ((k : ℕ)
        → k < nindirect
        → own ndirect ≢ 0
        → get_int (s.blocks (own ndirect)) (4 * k) ≡ own (13 + k))
    → ((k : ℕ) → k < nindirect → own ndirect ≡ 0 → own (13 + k) ≡ 0)
    → IsOwned (Between ndirect 257) own s
    → (addrs : ℕ → ℕ) × (t : Fs) × (free_indirect ip s ≡ ok (record ip { addrs = addrs }, t))
      × Zeroed (Only ndirect) ip.addrs addrs
      × Released (Between ndirect 257) own s t
unfolding free_indirect
free_indirect-Released own ip s same listed empty h = elim (same_or (ip.addrs ndirect) 0) [
  | inl z ↦ (
    ip.addrs,
    s,
    rw z refl,
    record { zero = λ j e. ap ip.addrs e ∙ z; others = λ j m. refl },
    none_Released (nothing (sym same ∙ z)),
  )
  | inr nz ↦
      let (s₁, q₁, a) =
        free_listed-Released own nindirect 0 13 (s.blocks (ip.addrs ndirect)) s refl
          (λ k (l, r).
            ap (λ b. get_int (s.blocks b) (4 * k)) same
            ∙ listed k (omega arith) (λ z. nz (same ∙ z)))
          (IsOwned-sub (λ i (l, r). (omega arith, omega arith)) h) in
      let (t, q, b) =
        bfree-Released (Only ndirect) own ndirect s₁
          (Released-IsOwned {R = Between ndirect 257} (λ i (l, r). (omega arith, omega arith))
            (λ i e. (omega arith, omega arith)) (λ i j (l, r) e z. omega arith) h a)
          refl (λ z. nz (same ∙ z)) in
      (
        update ip.addrs ndirect 0,
        t,
        rw (==-ne (ip.addrs ndirect) 0 nz, q₁, same, q) refl,
        record {
          zero = λ j e. ap (update ip.addrs ndirect 0) e ∙ update_self ip.addrs ndirect 0;
          others = λ j m. update_ne ip.addrs ndirect j 0 m;
        },
        same_Released
            (λ j c. elim c [
              | inl (l, r) ↦ (omega arith, omega arith)
              | inr e ↦ (omega arith, omega arith)
            ])
            (λ j (l, r). elim (same_or j ndirect) [
              | inl e ↦ inr e
              | inr m ↦ inl (omega arith, omega arith)
            ])
            (join_Released
              (λ i j (l, r) e nz'.
                h.apart j i (omega arith, omega arith) (omega arith, omega arith) (λ z. omega arith)
                  nz')
              a b),
      )
]
  where
    nothing : own ndirect ≡ 0 → (j : ℕ) → Between ndirect 257 j → own j ≡ 0
    nothing z j (l, r) = elim (same_or j ndirect) [
      | inl e ↦ ap own e ∙ z
      | inr m ↦
          ap own (let e : j ≡ 13 + (j - 13) = omega arith in e) ∙ empty (j - 13) (omega arith) z
    ]

-- ===== src/Log/Emptied.antt =====
-- The header in memory after a commit() of kernel/log.c.
use operating_systems_2_assi.Prelude.{
  ◌≡◌, sym, ◌∙◌, ap, Bool, false, inl, inr, arith, ok, ◌>>=◌, first_part, Bool-cases, ltb,
  if◌then◌else◌,
}
use operating_systems_2_assi.Bcache.{Bcache, bread, bwrite, brelse, set_bytes}
use operating_systems_2_assi.Log.{
  Log, commit, commit_blocks, write_log, write_head, write_loop, install_trans, install_loop,
  header_bytes,
}

-- The parts of a commit change nothing but the cache.
abbrev OnlyCache : Log → Log → Type 0
OnlyCache s t = (c : Bcache) × (record s { cache = c } ≡ t)

pub ok-inj : {s t : Log} → ok s ≡ ok t → s ≡ t
ok-inj e = cc

write_log-OnlyCache : (s t : Log) → write_log s ≡ ok t → OnlyCache s t
unfolding write_log
write_log-OnlyCache s t e =
    let (c, e₁, e₂) =
      first_part (write_loop s s.n 0 s.cache) (λ c. ok (record s { cache = c })) e in
    (c, ok-inj e₂)

install_trans-OnlyCache : (keep : Bool) (s t : Log) → install_trans keep s ≡ ok t → OnlyCache s t
unfolding install_trans
install_trans-OnlyCache keep s t e =
    let (c, e₁, e₂) =
      first_part (install_loop s keep s.n 0 s.cache) (λ c. ok (record s { cache = c })) e in
    (c, ok-inj e₂)

write_head-OnlyCache : (s t : Log) → write_head s ≡ ok t → OnlyCache s t
unfolding write_head
write_head-OnlyCache s t e =
    let (r, e₁, e₂) =
      first_part (bread s.dev s.start s.cache)
        (λ r.
          bwrite r.0 (set_bytes r.0 (header_bytes s.n s.block (r.1.bufs r.0).bytes) r.1) >>= λ c.
          brelse r.0 c >>= λ c. ok (record s { cache = c }))
        e in
    let (c, e₃, e₄) =
      first_part (bwrite r.0 (set_bytes r.0 (header_bytes s.n s.block (r.1.bufs r.0).bytes) r.1))
        (λ c. brelse r.0 c >>= λ c. ok (record s { cache = c })) e₂ in
    let (c', e₅, e₆) = first_part (brelse r.0 c) (λ c. ok (record s { cache = c })) e₄ in
    (c', ok-inj e₆)

-- A commit that succeeds empties the header.
pub record Emptied (s t : Log) : Type 0 where
  pub empty : t.n ≡ 0
  pub same_outstanding : t.outstanding ≡ s.outstanding

commit_blocks-Emptied : (s t : Log) → commit_blocks s ≡ ok t → Emptied s t
unfolding commit_blocks
commit_blocks-Emptied s t e =
    let (s₁, e₁, f₁) =
      first_part (write_log s)
        (λ s. write_head s >>= λ s. install_trans false s >>= λ s. write_head (record s { n = 0 }))
        e in
    let (s₂, e₂, f₂) =
      first_part (write_head s₁)
        (λ s. install_trans false s >>= λ s. write_head (record s { n = 0 })) f₁ in
    let (s₃, e₃, f₃) =
      first_part (install_trans false s₂) (λ s. write_head (record s { n = 0 })) f₂ in
    let (c₁, q₁) = write_log-OnlyCache s s₁ e₁ in
    let (c₂, q₂) = write_head-OnlyCache s₁ s₂ e₂ in
    let (c₃, q₃) = install_trans-OnlyCache false s₂ s₃ e₃ in
    let (c₄, q₄) = write_head-OnlyCache (record s₃ { n = 0 }) t f₃ in
    record {
      empty = sym (ap (λ x. x.n) q₄);
      same_outstanding = sym (
          ap (λ x. x.outstanding) q₁
          ∙ ap (λ x. x.outstanding) q₂
          ∙ ap (λ x. x.outstanding) q₃
          ∙ ap (λ x. x.outstanding) q₄);
    }

pub commit-Emptied : (s t : Log) → commit s ≡ ok t → Emptied s t
unfolding commit
commit-Emptied s t e = elim (Bool-cases (ltb 0 s.n)) [
  | inl l ↦ commit_blocks-Emptied s t (ap (λ b. if b then commit_blocks s else ok s) (sym l) ∙ e)
  | inr l ↦
      let q = ok-inj (ap (λ b. if b then commit_blocks s else ok s) (sym l) ∙ e) in
      record {
        empty = sym (ap (λ x. x.n) q) ∙ ground arith;
        same_outstanding = sym (ap (λ x. x.outstanding) q);
      }
]

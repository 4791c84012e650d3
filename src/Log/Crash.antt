-- ===== src/Log/Crash.antt =====
-- A crash during commit() of kernel/log.c, and the recovery by initlog() at the next start.
use operating_systems_2_assi.Prelude.{
  ℕ, zero, suc, ◌+◌, ◌≡◌, refl, sym, ◌≢◌, subst, ◌⊎◌, inl, inr, [], ◌∷◌, arith, Bytes, ok, panic,
  Panic, All, All-mono, lt→ltb,
}
use operating_systems_2_assi.Bcache.{Bcache, rootdev, binit}
use operating_systems_2_assi.Bcache.View.{IsCache}
use operating_systems_2_assi.Bcache.Boot.{bread-exhausted, IsExhausted}
use operating_systems_2_assi.Log.{
  Log, commit, commit_blocks, write_log, write_loop, write_block, initlog,
}
use operating_systems_2_assi.Log.Install.{IsOneOf}
use operating_systems_2_assi.Log.Recovery.{IsClear-IsRecoverable, Recovered, initlog-Recovered}
use operating_systems_2_assi.Log.Commit.{IsReady, Committed, commit-Committed}

-- Started on the disk `d`, with the static data `boot`, the log recovers the old blocks or the new.
abbrev pub Survives : ℕ → (ℕ → Bytes) → (ℕ → Bytes) → Log → (ℕ → Bytes) → Type 0
Survives start old w boot d =
    (t : Log) × (initlog rootdev start (record boot { cache = binit d }) ≡ ok t)
    × (Recovered start old t ⊎ Recovered start w t)

one_of-Survives :
    (start : ℕ) (old w : ℕ → Bytes) (boot : Log) (d : ℕ → Bytes)
    → IsOneOf start old w d
    → Survives start old w boot d
one_of-Survives start old w boot d (inl h) =
    let (t, e, r) = initlog-Recovered start old d (record boot { cache = binit d }) h refl in
    (t, e, inl r)
one_of-Survives start old w boot d (inr h) =
    let (t, e, r) = initlog-Recovered start w d (record boot { cache = binit d }) h refl in
    (t, e, inr r)

-- For a transaction whose blocks are distinct, small numbers outside the log and pinned in a
-- well-formed cache, with some buffer free and the log on the disk empty, commit() succeeds; and
-- from every disk that it goes through, the last one included, a restart with initlog() succeeds
-- and gives all the blocks as they were before the transaction or all of them as they are after
-- it, with an empty log.
pub commit-Survives :
    (s : Log) (old w : ℕ → Bytes) (boot : Log)
    → IsReady s old w
    → s.cache.past ≡ []
    → (t : Log) × (commit s ≡ ok t)
      × Committed s old w t
      × All (Survives s.start old w boot) (t.cache.disk ∷ t.cache.past)
commit-Survives s old w boot h e =
    let (t, q, g) = commit-Committed s old w h (subst (All (IsOneOf s.start old w)) (sym e) tt) in
    (
      t,
      q,
      g,
      All-mono (one_of-Survives s.start old w boot) (t.cache.disk ∷ t.cache.past)
          (inr (IsClear-IsRecoverable g.clear), g.safe),
    )

loop-exhausted :
    (n : ℕ) (s : Log) (c : Bcache)
    → n ≢ 0
    → s.dev ≡ rootdev
    → IsCache c
    → IsExhausted (s.start + 1) c
    → write_loop s n 0 c ≡ panic Panic.no_buffers
unfolding write_loop write_block
loop-exhausted zero s c n d w h = absurd (n refl)
loop-exhausted (suc m) s c n d w h =
    rw (d, bread-exhausted (s.start + 0 + 1) c w (subst (λ k. IsExhausted k c) (omega arith) h))
      refl

-- With a transaction that is not empty, every buffer of a well-formed cache in use and the first
-- block of the log in none of them, commit() stops the machine in bget().
pub commit-exhausted :
    (s : Log)
    → s.dev ≡ rootdev
    → s.n ≢ 0
    → IsCache s.cache
    → IsExhausted (s.start + 1) s.cache
    → commit s ≡ panic Panic.no_buffers
unfolding commit commit_blocks write_log
commit-exhausted s d n w h =
    rw (lt→ltb 0 s.n (omega arith), loop-exhausted s.n s s.cache n d w h) refl

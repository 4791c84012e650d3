-- ===== src/Log/Tests.antt =====
-- Tests and examples of the log of kernel/log.c.
use operating_systems_2_assi.Prelude.{
  ℕ, ◌+◌, ◌≤◌, ◌≡◌, refl, sym, inl, inr, ◌∷◌, [], true, false, Bytes, ok, panic, Panic, arith, All,
  update, update_ne, same_or, get_int,
}
use operating_systems_2_assi.Bcache.{Buf, Bcache, rootdev, binit, set_buf}
use operating_systems_2_assi.Bcache.View.{IsCache, IsFor}
use operating_systems_2_assi.Bcache.Change.{set_buf-IsCache, Holds-set_self, contents-set_self}
use operating_systems_2_assi.Bcache.Boot.{binit-IsCache, no_block}
use operating_systems_2_assi.Log.{Log, logblocks, commit, initlog, log_write, begin_op}
use operating_systems_2_assi.Log.Recovery.{
  IsClear, IsClear-IsRecoverable, Recovered, initlog-Recovered,
}
use operating_systems_2_assi.Log.Commit.{IsReady, Committed}
use operating_systems_2_assi.Log.Crash.{Survives, commit-Survives, commit-exhausted}
use operating_systems_2_assi.Log.Reserve.{Step, Steps, left, steps-log_write}

abbrev zeros : ℕ → Bytes
zeros k j = 0

abbrev sevens : Bytes
sevens j = 7

abbrev new_blocks : ℕ → Bytes
new_blocks = update zeros 50 sevens

-- The buffer of block 50, which a system call has filled with 7 and entered in the log.
abbrev changed : Buf
changed = record { valid = true; dev = 1; blockno = 50; refcnt = 1; bytes = sevens; locked = false }

abbrev one_changed : Bcache
one_changed = set_buf 0 changed (binit zeros)

-- The log starts at block 2.
abbrev one_logged : Log
one_logged = record {
  start = 2;
  outstanding = 0;
  committing = true;
  dev = rootdev;
  n = 1;
  block = λ i. 50;
  cache = one_changed;
}

changed-IsFor : IsFor 50 changed
changed-IsFor = record { same_dev = refl; same_block = refl }

one_changed-IsCache : IsCache one_changed
one_changed-IsCache = set_buf-IsCache 0 changed (binit zeros) (binit-IsCache zeros) (record {
  below = omega arith;
  sound = record { valid = λ d. refl; clean = λ d z. absurd (omega arith) };
  alone = λ k f i h. absurd (no_block zeros i k h);
})

zeros-IsClear : IsClear 2 zeros zeros
unfolding get_int
zeros-IsClear = record {
  empty = record { count = refl; entries = λ i l. absurd (omega arith) };
  homes = λ k g. refl;
}

one_logged-IsReady : IsReady one_logged zeros new_blocks
unfolding binit
one_logged-IsReady = record {
  dev = refl;
  fits = omega arith;
  small = λ i l. omega arith;
  home = λ i l. inr (omega arith);
  distinct = λ i j a b. absurd (omega arith);
  cache = one_changed-IsCache;
  pins = λ i l. (
    0,
    record {
      holds = Holds-set_self 0 changed (binit zeros) 50 (omega arith) changed-IsFor;
      used = λ z. omega arith;
    },
  );
  free = (1, record { below = omega arith; unused = refl });
  clear = zeros-IsClear;
  new = λ i l.
      contents-set_self 0 changed (binit zeros) 50 one_changed-IsCache (omega arith) changed-IsFor;
  rest = λ k g. elim (same_or k 50) [
    | inl e ↦ inr (0, omega arith, sym e)
    | inr n ↦ inl (sym (update_ne zeros 50 k sevens n))
  ];
}

commit-Survives_example :
    (t : Log) × (commit one_logged ≡ ok t)
    × Committed one_logged zeros new_blocks t
    × All (Survives 2 zeros new_blocks one_logged) (t.cache.disk ∷ t.cache.past)
unfolding binit
commit-Survives_example =
    commit-Survives one_logged zeros new_blocks one_logged one_logged-IsReady refl

abbrev booted : Log
booted = record one_logged { cache = binit zeros }

initlog-Recovered_example : (t : Log) × (initlog rootdev 2 booted ≡ ok t) × Recovered 2 zeros t
initlog-Recovered_example =
    initlog-Recovered 2 zeros zeros booted (IsClear-IsRecoverable zeros-IsClear) refl

-- Thirty pinned buffers, one for each of the blocks 100 to 129.
abbrev full_cache : Bcache
full_cache = record (binit zeros) {
  bufs = λ b. record {
    valid = true;
    dev = 1;
    blockno = 100 + b;
    refcnt = 1;
    bytes = sevens;
    locked = false;
  };
}

full_cache-IsCache : IsCache full_cache
full_cache-IsCache =
    let w = binit-IsCache zeros in
    record {
      all_linked = w.all_linked;
      linked_below = w.linked_below;
      sound = λ b l. record { valid = λ d. refl; clean = λ d z. absurd (omega arith) };
      unique =
          λ b b' k h h'. let e = h.entry.same_block in let e' = h'.entry.same_block in omega arith;
    }

abbrev full_log : Log
full_log = record one_logged { n = 30; block = λ i. 100 + i; cache = full_cache }

commit-exhausted_example : commit full_log ≡ panic Panic.no_buffers
commit-exhausted_example = commit-exhausted full_log refl (omega arith) full_cache-IsCache (record {
  not_cached = λ b h. let e = h.entry.same_block in omega arith;
  busy = λ b l z. omega arith;
})

abbrev idle_log : Log
idle_log = record one_logged { n = 0; committing = false; cache = one_changed }

steps-log_write_example :
    (0 + left (0 ∷ []) ≤ logblocks)
    × ((t' : Log) × (log_write 0 (record idle_log { outstanding = 1 }) ≡ ok t')
        × (t'.n ≤ logblocks))
unfolding begin_op
steps-log_write_example =
    steps-log_write idle_log (record idle_log { outstanding = 1 }) [] [] 0 0
      (record { empty = refl; none_active = refl; not_committing = refl })
      (Steps.next Steps.start (Step.begins refl)) (omega arith)

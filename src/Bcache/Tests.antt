-- ===== src/Bcache/Tests.antt =====
-- Tests and examples of the buffer cache of kernel/bio.c.
use operating_systems_2_assi.Prelude.{
  ℕ, ◌≡◌, refl, ◌⊎◌, ◌∷◌, [], List, Bytes, Outcome, ok, panic, Panic, ◌>>=◌,
}
use operating_systems_2_assi.Bcache.{
  Bcache, rootdev, binit, bread, bget, bget_from, bget_new, fetch, share, recycle, disk_read,
  find_next, find_prev, linked,
}
use operating_systems_2_assi.Bcache.Boot.{binit-IsCache, bread-Outcomes, IsExhausted}
use operating_systems_2_assi.Bcache.Read.{BlockRead, IsReadable}

abbrev numbered : ℕ → Bytes
numbered k j = k

-- The number of the buffer that a read gets, and its first byte.
abbrev got : Outcome (ℕ × Bcache) → List ℕ
got (panic p) = []
got (ok r) = r.0 ∷ (r.1.bufs r.0).bytes 0 ∷ []

-- The first read takes the least recently used buffer, which is the first of the array.
read_first : got (bread rootdev 7 (binit numbered)) ≡ 0 ∷ 7 ∷ []
unfolding bread bget bget_from bget_new fetch recycle disk_read find_next find_prev linked binit
read_first = refl

-- The second read of another block takes the next buffer; one of the same block finds it.
read_second : got (bread rootdev 7 (binit numbered) >>= λ r. bread rootdev 9 r.1) ≡ 1 ∷ 9 ∷ []
unfolding bread bget bget_from bget_new fetch recycle disk_read find_next find_prev linked binit
read_second = refl

read_again : got (bread rootdev 7 (binit numbered) >>= λ r. bread rootdev 7 r.1) ≡ 0 ∷ 7 ∷ []
unfolding bread bget bget_from bget_new fetch recycle share disk_read find_next find_prev linked
    binit
read_again = refl

bread-Outcomes_example :
    (IsReadable 7 (binit numbered)
      × ((b : ℕ) × (c' : Bcache) × (bread rootdev 7 (binit numbered) ≡ ok (b, c'))
          × BlockRead b 7 (binit numbered) c'))
    ⊎ (IsExhausted 7 (binit numbered) × (bread rootdev 7 (binit numbered) ≡ panic Panic.no_buffers))
bread-Outcomes_example = bread-Outcomes 7 (binit numbered) (binit-IsCache numbered)

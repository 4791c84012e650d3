-- ===== src/Pipe/Queue.antt =====
-- The bytes in a pipe of kernel/pipe.c as a queue. The counters nread and nwrite wrap round at
-- 2^32, which PIPESIZE divides.
use operating_systems_2_assi.Prelude.{
  update_self, update_ne, ℕ, zero, suc, ◌+◌, ◌-◌, ◌%◌, ◌≤◌, ◌<◌, ◌≡◌, refl, ◌∙◌, ap, ap₂, ◌≢◌, List,
  [], ◌∷◌, ◌++◌, ◌==◌, arith, Bytes, update, length,
}
use operating_systems_2_assi.Pipe.{Pipe, pipesize, is_full, is_empty, put_byte}

-- The `n` bytes from index `r` on.
abbrev pub window : Bytes → ℕ → ℕ → List ℕ
window bytes r zero = []
window bytes r (suc n) = bytes (r % pipesize) ∷ window bytes (r + 1) n

-- nwrite - nread, as a uint.
abbrev pub used : Pipe → ℕ
used pi = (pi.nwrite + 4294967296 - pi.nread) % 4294967296

abbrev pub queue : Pipe → List ℕ
queue pi = window pi.bytes pi.nread (used pi)

pub record IsPipe (pi : Pipe) : Type 0 where
  pub read_small : pi.nread < 4294967296
  pub write_small : pi.nwrite < 4294967296
  pub fits : used pi ≤ pipesize

pub length-window : (bytes : Bytes) (r n : ℕ) → length (window bytes r n) ≡ n
length-window bytes r zero = refl
length-window bytes r (suc n) = ap suc (length-window bytes (r + 1) n)

window-cong :
    (a b : Bytes) (r r' n : ℕ)
    → ((k : ℕ) → k < n → a ((r + k) % pipesize) ≡ b ((r' + k) % pipesize))
    → window a r n ≡ window b r' n
window-cong a b r r' zero h = refl
window-cong a b r r' (suc n) h =
    ap₂ ◌∷◌
      (ap (λ x. a (x % pipesize)) (omega arith)
        ∙ h 0 (omega arith)
        ∙ ap (λ x. b (x % pipesize)) (omega arith))
      (window-cong a b (r + 1) (r' + 1) n (λ k l.
        ap (λ x. a (x % pipesize)) (omega arith)
        ∙ h (suc k) (omega arith)
        ∙ ap (λ x. b (x % pipesize)) (omega arith)))

window-snoc :
    (a : Bytes) (r n : ℕ) → window a r (suc n) ≡ window a r n ++ a ((r + n) % pipesize) ∷ []
window-snoc a r zero = ap (λ x. a (x % pipesize) ∷ []) (omega arith)
window-snoc a r (suc n) =
    ap (λ xs. a (r % pipesize) ∷ xs)
      (window-snoc a (r + 1) n
        ∙ ap (λ x. window a (r + 1) n ++ a (x % pipesize) ∷ []) (omega arith))

pub is_full_iff : (pi : Pipe) → IsPipe pi → is_full pi ≡ (used pi == pipesize)
is_full_iff pi h = ground (arith, h.read_small, h.write_small, h.fits)

pub is_empty_iff : (pi : Pipe) → IsPipe pi → is_empty pi ≡ (used pi == 0)
is_empty_iff pi h = ground (arith, h.read_small, h.write_small, h.fits)

used-put_byte :
    (ch : ℕ) (pi : Pipe) → IsPipe pi → used pi < pipesize → used (put_byte ch pi) ≡ used pi + 1
unfolding put_byte
used-put_byte ch pi h l = omega (arith, h.read_small, h.write_small)

-- A byte is put at the end.
pub put_byte-IsPipe :
    (ch : ℕ) (pi : Pipe) → IsPipe pi → used pi < pipesize → IsPipe (put_byte ch pi)
unfolding put_byte
put_byte-IsPipe ch pi h l = record {
  read_small = h.read_small;
  write_small = omega arith;
  fits = omega (arith, used-put_byte ch pi h l);
}

pub queue-put_byte :
    (ch : ℕ) (pi : Pipe)
    → IsPipe pi
    → used pi < pipesize
    → queue (put_byte ch pi) ≡ queue pi ++ ch ∷ []
unfolding put_byte
queue-put_byte ch pi h l =
    ap (window new pi.nread)
      (let e : used (put_byte ch pi) ≡ suc (used pi) = omega (arith, used-put_byte ch pi h l) in e)
    ∙ window-snoc new pi.nread (used pi)
    ∙ ap₂ (λ xs x. xs ++ x ∷ [])
        (window-cong new pi.bytes pi.nread pi.nread (used pi) (λ k m.
          update_ne pi.bytes (pi.nwrite % pipesize) ((pi.nread + k) % pipesize) ch (apart k m)))
        (ap (update pi.bytes (pi.nwrite % pipesize) ch) last
          ∙ update_self pi.bytes (pi.nwrite % pipesize) ch)
  where
    new : Bytes
    new = update pi.bytes (pi.nwrite % pipesize) ch

    last : (pi.nread + used pi) % pipesize ≡ pi.nwrite % pipesize
    last = omega (arith, h.read_small, h.write_small)

    apart : (k : ℕ) → k < used pi → (pi.nread + k) % pipesize ≢ pi.nwrite % pipesize
    apart k m = omega (arith, h.read_small, h.write_small)

-- A byte is taken from the front.
abbrev pub taken : Pipe → Pipe
taken pi = record pi { nread = (pi.nread + 1) % 4294967296 }

used-taken : (pi : Pipe) → IsPipe pi → 0 < used pi → used (taken pi) + 1 ≡ used pi
used-taken pi h l = omega (arith, h.read_small, h.write_small)

pub taken-IsPipe : (pi : Pipe) → IsPipe pi → 0 < used pi → IsPipe (taken pi)
taken-IsPipe pi h l = record {
  read_small = omega arith;
  write_small = h.write_small;
  fits = omega (arith, used-taken pi h l, h.fits);
}

pub queue-taken :
    (pi : Pipe)
    → IsPipe pi
    → 0 < used pi
    → queue pi ≡ pi.bytes (pi.nread % pipesize) ∷ queue (taken pi)
queue-taken pi h l =
    ap (window pi.bytes pi.nread)
      (let e : used pi ≡ suc (used (taken pi)) = omega (arith, used-taken pi h l) in e)
    ∙ ap (λ xs. pi.bytes (pi.nread % pipesize) ∷ xs)
        (window-cong pi.bytes pi.bytes (pi.nread + 1) ((pi.nread + 1) % 4294967296)
          (used (taken pi)) (λ k m. ap pi.bytes (omega arith)))

-- ===== src/Pipe/Stream.antt =====
-- Sequences of calls on a pipe of kernel/pipe.c, and what they move.
use operating_systems_2_assi.Prelude.{
  ℕ, zero, suc, ◌+◌, ◌-◌, ◌≡◌, refl, sym, ◌∙◌, ap, ap₂, subst, Bool, true, false, Option, none,
  some, List, [], ◌∷◌, ◌++◌, append-nil, append_assoc, arith, length, inl, inr, Bytes,
}
use operating_systems_2_assi.Pipe.{Pipe, Result, new_pipe, pipewrite, piperead, pipeclose}
use operating_systems_2_assi.Pipe.Queue.{queue, IsPipe}
use operating_systems_2_assi.Pipe.Write.{IsSpan, Stopped, Wrote, pipewrite-Wrote}
use operating_systems_2_assi.Pipe.Read.{bytes_at, ReadStopped, ReadOutcome, piperead-ReadOutcome}

-- The number of bytes that a call has moved, from `i` on.
abbrev pub moved : ℕ → Result → ℕ
moved i (Result.done j) = j - i
moved i (Result.asleep j) = j - i
moved i Result.failed = 0

abbrev pub byte_of : Option ℕ → ℕ
byte_of none = 0
byte_of (some x) = x

-- The `k` bytes of the user from address `a` on.
abbrev pub user_bytes : (ℕ → Option ℕ) → ℕ → ℕ → List ℕ
user_bytes user a zero = []
user_bytes user a (suc k) = byte_of (user a) ∷ user_bytes user (a + 1) k

-- Calls on one pipe, in the order in which they hold its lock, with the bytes that the writers
-- have sent and those that the readers find in their memory.
pub data Traffic (first : Pipe) : List ℕ → List ℕ → Pipe → Type 0 where
  quiet : Traffic first [] [] first
  wrote :
      {sent got : List ℕ} {pi pi' : Pipe} {r : Result} (user : ℕ → Option ℕ) (killed : Bool)
      (addr m i : ℕ)
      → Traffic first sent got pi
      → pipewrite user killed addr m i pi ≡ (r, pi')
      → Traffic first (sent ++ user_bytes user (addr + i) (moved i r)) got pi'
  read :
      {sent got : List ℕ} {pi pi' : Pipe} {r : Result} (writable : ℕ → Bool) (killed : Bool)
      (addr n : ℕ) (mem mem' : Bytes)
      → Traffic first sent got pi
      → piperead writable killed addr n pi mem ≡ (r, pi', mem')
      → Traffic first sent (got ++ bytes_at mem' addr (moved 0 r)) pi'
  closed :
      {sent got : List ℕ} {pi pi' : Pipe} {last : Bool} (writable : Bool)
      → Traffic first sent got pi
      → pipeclose writable pi ≡ (last, pi')
      → Traffic first sent got pi'

span-bytes :
    (user : ℕ → Option ℕ) (a : ℕ) (xs : List ℕ)
    → IsSpan user a xs
    → user_bytes user a (length xs) ≡ xs
span-bytes user a [] h = refl
span-bytes user a (x ∷ xs) (e, h) = ap₂ ◌∷◌ (ap byte_of e) (span-bytes user (a + 1) xs h)

Stopped-moved :
    (user : ℕ → Option ℕ) (killed : Bool) (addr m i k : ℕ) (pi pi' : Pipe) (r : Result)
    → Stopped user killed addr m i k pi pi' r
    → moved i r ≡ k
Stopped-moved user killed addr m i k pi pi' (Result.done j) (e, f) = omega arith
Stopped-moved user killed addr m i k pi pi' (Result.asleep j) (e, l, f) = omega arith
Stopped-moved user killed addr m i k pi pi' Result.failed (z, l, c) = sym z

read-moved :
    (writable : ℕ → Bool) (addr n k : ℕ) (pi' : Pipe) (r : Result)
    → ReadStopped writable addr n 0 k pi' r
    → moved 0 r ≡ k
read-moved writable addr n k pi' (Result.done j) (e, l, f) = omega arith
read-moved writable addr n k pi' (Result.asleep j) x = absurd x
read-moved writable addr n k pi' Result.failed (z, l, c) = omega arith

Wrote-queue :
    {user : ℕ → Option ℕ} {killed : Bool} {addr m i : ℕ} {pi pi' : Pipe} {r : Result}
    → Wrote user killed addr m i pi r pi'
    → queue pi' ≡ queue pi ++ user_bytes user (addr + i) (moved i r)
Wrote-queue {user} {killed} {addr} {m} {i} {pi} {pi'} {r} w =
    w.queued
    ∙ ap (λ xs. queue pi ++ xs)
        (sym (
          ap (user_bytes user (addr + i))
            (Stopped-moved user killed addr m i (length w.sent) pi pi' r w.stopped)
          ∙ span-bytes user (addr + i) w.sent w.span))

read-queue :
    (killed : Bool) {writable : ℕ → Bool} {addr n : ℕ} {pi pi' : Pipe} {mem mem' : Bytes}
    {r : Result}
    → ReadOutcome writable killed addr n pi mem r pi' mem'
    → queue pi ≡ bytes_at mem' addr (moved 0 r) ++ queue pi'
read-queue true {addr = addr} {pi' = pi'} {mem' = mem'} (inl (e, o, q, p, m)) =
    ap queue (sym p) ∙ ap (λ k. bytes_at mem' addr (moved 0 k) ++ queue pi') (sym q)
read-queue false {addr = addr} {pi' = pi'} {mem' = mem'} (inl (e, o, q, p, m)) =
    ap queue (sym p) ∙ ap (λ k. bytes_at mem' addr (moved 0 k) ++ queue pi') (sym q)
read-queue killed {writable = writable} {addr = addr} {n = n} {pi' = pi'} {mem' = mem'} {r = r}
      (inr (g, c)) =
    c.dequeued
    ∙ ap (λ xs. xs ++ queue pi')
        (sym (
          ap (bytes_at mem' addr) (read-moved writable addr n (length c.received) pi' r c.stopped)
          ∙ ap (λ a. bytes_at mem' a (length c.received)) (omega arith)
          ∙ c.stored))

read-IsPipe :
    (killed : Bool) {writable : ℕ → Bool} {addr n : ℕ} {pi pi' : Pipe} {mem mem' : Bytes}
    {r : Result}
    → IsPipe pi
    → ReadOutcome writable killed addr n pi mem r pi' mem'
    → IsPipe pi'
read-IsPipe killed h (inl (e, o, q, p, m)) = subst IsPipe (sym p) h
read-IsPipe killed h (inr (g, c)) = c.pipe

close-queue :
    (writable last : Bool) (pi pi' : Pipe)
    → pipeclose writable pi ≡ (last, pi')
    → IsPipe pi
    → (queue pi' ≡ queue pi) × IsPipe pi'
unfolding pipeclose
close-queue true last pi pi' e h =
    let q : record pi { writeopen = false } ≡ pi' = ap (λ x. x.1) e in
    (
      ap queue (sym q),
      subst IsPipe q
          (record { read_small = h.read_small; write_small = h.write_small; fits = h.fits }),
    )
close-queue false last pi pi' e h =
    let q : record pi { readopen = false } ≡ pi' = ap (λ x. x.1) e in
    (
      ap queue (sym q),
      subst IsPipe q
          (record { read_small = h.read_small; write_small = h.write_small; fits = h.fits }),
    )

-- In whatever order writers, readers and calls of pipeclose() run on a pipe with well-formed
-- counters, and wherever they sleep, fail or stop, the bytes that were in the pipe followed by
-- those sent are the bytes that readers have found in their memory followed by those still in the
-- pipe; the counters stay well formed.
pub Traffic-queue :
    (first pi : Pipe) (sent got : List ℕ)
    → IsPipe first
    → Traffic first sent got pi
    → (queue first ++ sent ≡ got ++ queue pi) × IsPipe pi
Traffic-queue first pi sent got h quiet = (append-nil (queue first), h)
Traffic-queue first pi' sent' got h
      (wrote {sent = sent} {pi = pi} {r = r} user killed addr m i t e) =
    let (q, p) = Traffic-queue first pi sent got h t in
    let (r', pi₂, e', w) = pipewrite-Wrote user killed addr m i pi p in
    let same : (r', pi₂) ≡ (r, pi') = sym e' ∙ e in
    let w' = subst (λ x. Wrote user killed addr m i pi x.0 x.1) same w in
    (
      sym (append_assoc (queue first) sent (user_bytes user (addr + i) (moved i r)))
          ∙ ap (λ xs. xs ++ user_bytes user (addr + i) (moved i r)) q
          ∙ append_assoc got (queue pi) (user_bytes user (addr + i) (moved i r))
          ∙ ap (λ xs. got ++ xs) (sym (Wrote-queue w')),
      w'.pipe,
    )
Traffic-queue first pi' sent got' h
      (read {got = got} {pi = pi} {r = r} writable killed addr n mem mem' t e) =
    let (q, p) = Traffic-queue first pi sent got h t in
    let (r', pi₂, mem₂, e', o) = piperead-ReadOutcome writable killed addr n pi mem p in
    let same : (r', pi₂, mem₂) ≡ (r, pi', mem') = sym e' ∙ e in
    let o' = subst (λ x. ReadOutcome writable killed addr n pi mem x.0 x.1 x.2) same o in
    (
      q
          ∙ ap (λ xs. got ++ xs) (read-queue killed o')
          ∙ sym (append_assoc got (bytes_at mem' addr (moved 0 r)) (queue pi')),
      read-IsPipe killed p o',
    )
Traffic-queue first pi' sent got h (closed {pi = pi} {last = last} writable t e) =
    let (q, p) = Traffic-queue first pi sent got h t in
    let (c, p') = close-queue writable last pi pi' e p in (q ∙ ap (λ xs. got ++ xs) (sym c), p')

-- A new pipe.
pub new_pipe-IsPipe : (page : Bytes) → IsPipe (new_pipe page)
new_pipe-IsPipe page = record {
  read_small = omega arith;
  write_small = omega arith;
  fits = omega arith;
}

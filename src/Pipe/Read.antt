-- ===== src/Pipe/Read.antt =====
-- piperead() of kernel/pipe.c on the queue of the pipe.
use operating_systems_2_assi.Prelude.{
  ℕ, zero, suc, ◌+◌, ◌%◌, ◌≤◌, ◌<◌, ◌≡◌, refl, ◌∙◌, ap, ap₂, ◌≢◌, subst, Bool, true, false, ◌&&◌,
  List, [], ◌∷◌, ◌++◌, ◌==◌, if◌then◌else◌, arith, length, inl, inr, ◌⊎◌, Bool-cases, Bytes, update,
  update_self, update_ne,
}
use operating_systems_2_assi.Pipe.{Pipe, Result, pipesize, is_empty, read_copy, piperead}
use operating_systems_2_assi.Pipe.Queue.{
  used, queue, IsPipe, is_empty_iff, taken, taken-IsPipe, queue-taken,
}

-- The `k` bytes of memory from address `a` on.
abbrev pub bytes_at : Bytes → ℕ → ℕ → List ℕ
bytes_at mem a zero = []
bytes_at mem a (suc k) = mem a ∷ bytes_at mem (a + 1) k

-- Why a read of at most `m` bytes from `i` on has stopped after `k` of them.
abbrev pub ReadStopped : (ℕ → Bool) → ℕ → ℕ → ℕ → ℕ → Pipe → Result → Type 0
ReadStopped writable addr m i k pi' (Result.done j) =
    (j ≡ i + k) × (k ≤ m) × ((k ≡ m) ⊎ (queue pi' ≡ []) ⊎ (writable (addr + i + k) ≡ false))
ReadStopped writable addr m i k pi' (Result.asleep j) = ⊥
ReadStopped writable addr m i k pi' Result.failed = (i + k ≡ 0) × (0 < m) × (writable addr ≡ false)

-- What a read leaves: `received` was at the front of the queue, and is now in memory.
pub record CopiedOut (writable : ℕ → Bool) (addr m i : ℕ) (pi : Pipe) (mem : Bytes) (r : Result)
    (pi' : Pipe) (mem' : Bytes) : Type 0 where
  pub pipe : IsPipe pi'
  pub same_open : (pi'.writeopen ≡ pi.writeopen) × (pi'.readopen ≡ pi.readopen)
  pub received : List ℕ
  pub dequeued : queue pi ≡ received ++ queue pi'
  pub stored : bytes_at mem' (addr + i) (length received) ≡ received
  pub below : (a : ℕ) → a < addr + i → mem' a ≡ mem a
  pub above : (a : ℕ) → addr + i + length received ≤ a → mem' a ≡ mem a
  pub stopped : ReadStopped writable addr m i (length received) pi' r

stop :
    {writable : ℕ → Bool} {addr m i : ℕ} {pi : Pipe} {mem : Bytes} (r : Result)
    → IsPipe pi
    → ReadStopped writable addr m i 0 pi r
    → CopiedOut writable addr m i pi mem r pi mem
stop r h s = record {
  pipe = h;
  same_open = (refl, refl);
  received = [];
  dequeued = refl;
  stored = refl;
  below = λ a l. refl;
  above = λ a l. refl;
  stopped = s;
}

longer :
    {writable : ℕ → Bool} {addr m i : ℕ} {pi pi' : Pipe} {mem mem' : Bytes} {r : Result}
    → IsPipe pi
    → 0 < used pi
    → writable (addr + i) ≡ true
    → CopiedOut writable addr m
        (suc i)
        (taken pi)
        (update mem (addr + i) (pi.bytes (pi.nread % pipesize)))
        r
        pi'
        mem'
    → CopiedOut writable addr (suc m) i pi mem r pi' mem'
longer {writable} {addr} {m} {i} {pi} {pi'} {mem} {mem'} {r} h l ok_ w = record {
  pipe = w.pipe;
  same_open = w.same_open;
  received = ch ∷ w.received;
  dequeued = queue-taken pi h l ∙ ap (λ xs. ch ∷ xs) w.dequeued;
  stored =
      ap₂ ◌∷◌ (w.below (addr + i) (omega arith) ∙ update_self mem (addr + i) ch)
        (ap (λ a. bytes_at mem' a (length w.received)) next ∙ w.stored);
  below = λ a l. w.below a (omega arith) ∙ update_ne mem (addr + i) a ch (omega arith);
  above = λ a l. w.above a (omega arith) ∙ update_ne mem (addr + i) a ch (omega arith);
  stopped = shift r w.stopped;
}
  where
    ch : ℕ
    ch = pi.bytes (pi.nread % pipesize)

    next : addr + i + 1 ≡ addr + suc i
    next = omega arith

    shift :
        (r : Result)
        → ReadStopped writable addr m (suc i) (length w.received) pi' r
        → ReadStopped writable addr (suc m) i (suc (length w.received)) pi' r
    shift (Result.done j) (c, l, inl x) = (omega arith, omega arith, inl (ap suc x))
    shift (Result.done j) (c, l, inr (inl x)) = (omega arith, omega arith, inr (inl x))
    shift (Result.done j) (c, l, inr (inr x)) =
        (omega arith, omega arith, inr (inr (subst (λ a. writable a ≡ false) (omega arith) x)))
    shift (Result.asleep j) x = x
    shift Result.failed (z, l, x) = absurd (omega arith)

queue_nil : (pi : Pipe) → used pi ≡ 0 → queue pi ≡ []
queue_nil pi e = rw e refl

pub read_copy-CopiedOut :
    (writable : ℕ → Bool) (addr m i : ℕ) (pi : Pipe) (mem : Bytes)
    → IsPipe pi
    → (r : Result) × (pi' : Pipe) × (mem' : Bytes) × (read_copy writable addr m i pi mem
        ≡ (r, pi', mem'))
      × CopiedOut writable addr m i pi mem r pi' mem'
unfolding read_copy
read_copy-CopiedOut writable addr zero i pi mem h =
    (Result.done i, pi, mem, refl, stop (Result.done i) h (omega arith, omega arith, inl refl))
read_copy-CopiedOut writable addr (suc m) i pi mem h = elim (Bool-cases (is_empty pi)) [
  | inl e ↦
      let none_left : queue pi ≡ [] = queue_nil pi (ground (arith, is_empty_iff pi h)) in
      (
        Result.done i,
        pi,
        mem,
        rw e refl,
        stop (Result.done i) h (omega arith, omega arith, inr (inl none_left)),
      )
  | inr e ↦
      let some_left : 0 < used pi = ground (arith, is_empty_iff pi h) in
      elim (Bool-cases (writable (addr + i))) [
        | inl w ↦
            let (r, pi', mem', q, c) =
              read_copy-CopiedOut writable addr m (suc i) (taken pi)
                (update mem (addr + i) (pi.bytes (pi.nread % pipesize)))
                (taken-IsPipe pi h some_left) in
            (r, pi', mem', rw (e, w) q, longer h some_left w c)
        | inr w ↦
            let at : writable (addr + i + 0) ≡ false =
              subst (λ a. writable a ≡ false) (omega arith) w in
            elim (Bool-cases (i == 0)) [
              | inl z ↦ (
                Result.failed,
                pi,
                mem,
                rw (e, w, z) refl,
                stop Result.failed h
                    (ground arith, omega arith, subst (λ a. writable a ≡ false) (ground arith) w),
              )
              | inr z ↦ (
                Result.done i,
                pi,
                mem,
                rw (e, w, z) refl,
                stop (Result.done i) h (omega arith, omega arith, inr (inr at)),
              )
            ]
      ]
]

-- What piperead() does up to its end or its next sleep: it sleeps or is killed only where no byte
-- is there and the other end is open, and otherwise copies out.
abbrev pub ReadOutcome : (ℕ → Bool) → Bool → ℕ → ℕ → Pipe → Bytes → Result → Pipe → Bytes → Type 0
ReadOutcome writable killed addr n pi mem r pi' mem' =
    ((queue pi ≡ [])
      × (pi.writeopen ≡ true)
      × (r ≡ (if killed then Result.failed else Result.asleep 0))
      × (pi' ≡ pi)
      × (mem' ≡ mem))
    ⊎ (((queue pi ≢ []) ⊎ (pi.writeopen ≡ false)) × CopiedOut writable addr n 0 pi mem r pi' mem')

queue-ne : (pi : Pipe) → IsPipe pi → 0 < used pi → queue pi ≢ []
queue-ne pi h l e = let q = queue-taken pi h l in cc

pub piperead-ReadOutcome :
    (writable : ℕ → Bool) (killed : Bool) (addr n : ℕ) (pi : Pipe) (mem : Bytes)
    → IsPipe pi
    → (r : Result) × (pi' : Pipe) × (mem' : Bytes) × (piperead writable killed addr n pi mem
        ≡ (r, pi', mem'))
      × ReadOutcome writable killed addr n pi mem r pi' mem'
unfolding piperead
piperead-ReadOutcome writable killed addr n pi mem h =
    let (r, pi', mem', q, c) = read_copy-CopiedOut writable addr n 0 pi mem h in
    elim (Bool-cases (is_empty pi)) [
      | inl e ↦
          let none_left : queue pi ≡ [] = queue_nil pi (ground (arith, is_empty_iff pi h)) in
          elim (Bool-cases pi.writeopen) [
            | inl o ↦ (
              (if killed then Result.failed else Result.asleep 0),
              pi,
              mem,
              rw (e, o) refl,
              inl (none_left, o, refl, refl, refl),
            )
            | inr o ↦
                let go : (is_empty pi && pi.writeopen) ≡ false = ground (arith, e, o) in
                (
                  r,
                  pi',
                  mem',
                  ap
                        (λ b.
                          if b
                          then (if killed then Result.failed else Result.asleep 0, pi, mem)
                          else read_copy writable addr n 0 pi mem)
                        go
                      ∙ q,
                  inr (inr o, c),
                )
          ]
      | inr e ↦
          (r, pi', mem', rw e q, inr (inl (queue-ne pi h (ground (arith, is_empty_iff pi h))), c))
    ]

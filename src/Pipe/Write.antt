-- ===== src/Pipe/Write.antt =====
-- pipewrite() of kernel/pipe.c on the queue of the pipe.
use operating_systems_2_assi.Prelude.{
  append-nil, append_assoc, subst, ℕ, zero, suc, ◌+◌, ◌<◌, ◌≡◌, refl, sym, ◌∙◌, ap, Bool, true,
  false, not, ◌||◌, Option, none, some, List, [], ◌∷◌, ◌++◌, arith, length, inl, inr, ◌⊎◌,
  Bool-cases, Option-cases,
}
use operating_systems_2_assi.Pipe.{Pipe, Result, pipesize, is_full, put_byte, pipewrite}
use operating_systems_2_assi.Pipe.Queue.{
  used, queue, IsPipe, is_full_iff, put_byte-IsPipe, queue-put_byte,
}

-- The bytes `xs` are those of the user from address `a` on.
abbrev pub IsSpan : (ℕ → Option ℕ) → ℕ → List ℕ → Type 0
IsSpan user a [] = Unit
IsSpan user a (x ∷ xs) = (user a ≡ some x) × IsSpan user (a + 1) xs

-- Why a write of `m` bytes from `i` on has stopped after `k` of them.
abbrev pub Stopped : (ℕ → Option ℕ) → Bool → ℕ → ℕ → ℕ → ℕ → Pipe → Pipe → Result → Type 0
Stopped user killed addr m i k pi pi' (Result.done j) =
    (j ≡ i + k) × ((k ≡ m) ⊎ (user (addr + i + k) ≡ none))
Stopped user killed addr m i k pi pi' (Result.asleep j) =
    (j ≡ i + k) × (k < m) × (used pi' ≡ pipesize)
Stopped user killed addr m i k pi pi' Result.failed =
    (k ≡ 0) × (0 < m) × (((not pi.readopen) || killed) ≡ true)

-- What a write leaves: the bytes `sent` follow those of the queue.
pub record Wrote (user : ℕ → Option ℕ) (killed : Bool) (addr m i : ℕ) (pi : Pipe) (r : Result)
    (pi' : Pipe) : Type 0 where
  pub pipe : IsPipe pi'
  pub same_nread : pi'.nread ≡ pi.nread
  pub sent : List ℕ
  pub span : IsSpan user (addr + i) sent
  pub queued : queue pi' ≡ queue pi ++ sent
  pub stopped : Stopped user killed addr m i (length sent) pi pi' r

-- A write that stops at once.
stop :
    {user : ℕ → Option ℕ} {killed : Bool} {addr m i : ℕ} {pi : Pipe} (r : Result)
    → IsPipe pi
    → Stopped user killed addr m i 0 pi pi r
    → Wrote user killed addr m i pi r pi
stop {pi = pi} r h s = record {
  pipe = h;
  same_nread = refl;
  sent = [];
  span = tt;
  queued = sym (append-nil (queue pi));
  stopped = s;
}

-- A byte more in front.
longer :
    {user : ℕ → Option ℕ} {killed : Bool} {addr m i : ℕ} {pi : Pipe} {r : Result} {pi' : Pipe}
    (ch : ℕ)
    → user (addr + i) ≡ some ch
    → ((not pi.readopen) || killed) ≡ false
    → IsPipe pi
    → used pi < pipesize
    → Wrote user killed addr m (suc i) (put_byte ch pi) r pi'
    → Wrote user killed addr (suc m) i pi r pi'
unfolding put_byte
longer {user} {killed} {addr} {m} {i} {pi} {r} {pi'} ch e open_ h l w = record {
  pipe = w.pipe;
  same_nread = w.same_nread;
  sent = ch ∷ w.sent;
  span = (e, subst (λ a. IsSpan user a w.sent) (omega arith) w.span);
  queued =
      w.queued
      ∙ ap (λ q. q ++ w.sent) (queue-put_byte ch pi h l)
      ∙ append_assoc (queue pi) (ch ∷ []) w.sent;
  stopped = shift r w.stopped;
}
  where
    shift :
        (r : Result)
        → Stopped user killed addr m (suc i) (length w.sent) (put_byte ch pi) pi' r
        → Stopped user killed addr (suc m) i (suc (length w.sent)) pi pi' r
    shift (Result.done j) (c, f) = (
      omega arith,
      elim f [ inl x ↦ inl (ap suc x) | inr x ↦ inr (subst (λ a. user a ≡ none) (omega arith) x) ],
    )
    shift (Result.asleep j) (c, l, f) = (omega arith, omega arith, f)
    shift Result.failed (z, l, f) = absurd (cc)

-- What pipewrite() does up to its end or its next sleep.
pub pipewrite-Wrote :
    (user : ℕ → Option ℕ) (killed : Bool) (addr m i : ℕ) (pi : Pipe)
    → IsPipe pi
    → (r : Result) × (pi' : Pipe) × (pipewrite user killed addr m i pi ≡ (r, pi'))
      × Wrote user killed addr m i pi r pi'
unfolding pipewrite
pipewrite-Wrote user killed addr zero i pi h =
    (Result.done i, pi, refl, stop (Result.done i) h (omega arith, inl refl))
pipewrite-Wrote user killed addr (suc m) i pi h = elim (Bool-cases (not pi.readopen || killed)) [
  | inl c ↦ (Result.failed, pi, rw c refl, stop Result.failed h (refl, omega arith, c))
  | inr o ↦ elim (Bool-cases (is_full pi)) [
    | inl f ↦ (
      Result.asleep i,
      pi,
      rw (o, f) refl,
      stop (Result.asleep i) h (omega arith, omega arith, ground (arith, is_full_iff pi h)),
    )
    | inr g ↦
        let room : used pi < pipesize = ground (arith, is_full_iff pi h, h.fits) in
        elim (Option-cases (user (addr + i))) [
          | inl n ↦ (
            Result.done i,
            pi,
            rw (o, g, n) refl,
            stop (Result.done i) h (omega arith, inr (subst (λ a. user a ≡ none) (omega arith) n)),
          )
          | inr (ch, e) ↦
              let (r, pi', q, w) =
                pipewrite-Wrote user killed addr m (suc i) (put_byte ch pi)
                  (put_byte-IsPipe ch pi h room) in
              (r, pi', rw (o, g, e) q, longer ch e o h room w)
        ]
  ]
]

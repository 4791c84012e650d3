-- ===== src/Log/Reserve.antt =====
-- The space of the log of kernel/log.c that begin_op() reserves, and what the system calls that are
-- under way enter in it.
use operating_systems_2_assi.Prelude.{
  ℕ, suc, ◌+◌, ◌%◌, Option, ◌-◌, ◌*◌, ◌≤◌, ◌<◌, ◌≡◌, refl, sym, ◌∙◌, subst, true, false, inl, inr,
  List, [], ◌∷◌, ◌++◌, some, none, length, arith, ok, ◌>>=◌, first_part, Bool-cases, find_first,
  ◌==◌,
}
use operating_systems_2_assi.Bcache.{one_less}
use operating_systems_2_assi.Log.{
  Log, logblocks, maxopblocks, begin_op, end_op, end_last, log_write, enter_block, may_exhaust,
  commit,
}
use operating_systems_2_assi.Log.Emptied.{Emptied, commit-Emptied, ok-inj}

-- Log and number of calls of log_write() of each system call that is under way.
abbrev pub Ops : Type 0
Ops = Log × List ℕ

-- What a system call does to the log. While commit() runs no system call is under way and
-- begin_op() sleeps, so that end_op() is one step.
pub data Step : Ops → Ops → Type 0 where
  begins : {s t : Log} {us : List ℕ} → begin_op s ≡ some t → Step (s, us) (t, 0 ∷ us)
  writes :
      {s t : Log} (us vs : List ℕ) (u b : ℕ)
      → u < maxopblocks
      → log_write b s ≡ ok t
      → Step (s, us ++ u ∷ vs) (t, us ++ suc u ∷ vs)
  ends :
      {s t : Log} (us vs : List ℕ) (u : ℕ) → end_op s ≡ ok t → Step (s, us ++ u ∷ vs) (t, us ++ vs)

pub data Steps : Ops → Ops → Type 0 where
  start : {x : Ops} → Steps x x
  next : {x y z : Ops} → Steps x y → Step y z → Steps x z

-- The blocks that the system calls under way may still enter.
abbrev pub left : List ℕ → ℕ
left [] = 0
left (u ∷ us) = (maxopblocks - u) + left us

-- The log has room for them.
pub record HasRoom (x : Ops) : Type 0 where
  pub counted : (x.0).outstanding ≡ length x.1
  pub idle : (x.0).committing ≡ false
  pub room : (x.0).n + left x.1 ≤ logblocks
  pub few : length x.1 ≤ 3

left-app : (us vs : List ℕ) → left (us ++ vs) ≡ left us + left vs
left-app [] vs = omega arith
left-app (u ∷ us) vs = omega (arith, left-app us vs)

length-app : (us vs : List ℕ) → length (us ++ vs) ≡ length us + length vs
length-app [] vs = omega arith
length-app (u ∷ us) vs = omega (arith, length-app us vs)

left-le : (us : List ℕ) → left us ≤ length us * maxopblocks
left-le [] = omega arith
left-le (u ∷ us) = omega (arith, left-le us)

begin-HasRoom :
    (s t : Log) (us : List ℕ) → HasRoom (s, us) → begin_op s ≡ some t → HasRoom (t, 0 ∷ us)
unfolding begin_op
begin-HasRoom s t us h e = elim (Bool-cases (may_exhaust s)) [
  | inl x ↦ absurd (ground (arith, h.idle))
  | inr x ↦
      let q : record s { outstanding = (s.outstanding + 1) % 4294967296 } ≡ t =
        ground (arith, h.idle) in
      subst (λ y. HasRoom (y, 0 ∷ us)) q
        (record {
          counted = omega (arith, h.counted, h.few);
          idle = h.idle;
          room = ground (arith, left-le us, h.counted, h.few, x);
          few = ground (arith, h.counted, h.few, x);
        })
]

-- log_write() with room in the log.
write-ok :
    (b u : ℕ) (s : Log) (us vs : List ℕ)
    → HasRoom (s, us ++ u ∷ vs)
    → u < maxopblocks
    → log_write b s
      ≡ ok (
          enter_block b
            (s.cache.bufs b).blockno
            (find_first (λ i. s.block i == (s.cache.bufs b).blockno) s.n 0)
            s)
unfolding log_write
write-ok b u s us vs h l =
    ground (arith, h.counted, h.room, h.few, left-app us (u ∷ vs), length-app us (u ∷ vs))

-- A write enters at most one block.
enter-HasRoom :
    (b k u : ℕ) (s : Log) (us vs : List ℕ) (i : Option ℕ)
    → HasRoom (s, us ++ u ∷ vs)
    → u < maxopblocks
    → HasRoom (enter_block b k i s, us ++ suc u ∷ vs)
unfolding enter_block
enter-HasRoom b k u s us vs (some i) h l = record {
  counted = omega (arith, h.counted, length-app us (u ∷ vs), length-app us (suc u ∷ vs));
  idle = h.idle;
  room = omega (arith, h.room, left-app us (u ∷ vs), left-app us (suc u ∷ vs));
  few = omega (arith, h.few, length-app us (u ∷ vs), length-app us (suc u ∷ vs));
}
enter-HasRoom b k u s us vs none h l = record {
  counted = omega (arith, h.counted, length-app us (u ∷ vs), length-app us (suc u ∷ vs));
  idle = h.idle;
  room = omega (arith, h.room, left-app us (u ∷ vs), left-app us (suc u ∷ vs));
  few = omega (arith, h.few, length-app us (u ∷ vs), length-app us (suc u ∷ vs));
}

last-HasRoom :
    (s m : Log) (us vs : List ℕ) (u : ℕ)
    → HasRoom (s, us ++ u ∷ vs)
    → (one_less s.outstanding == 0) ≡ true
    → Emptied (record s { outstanding = one_less s.outstanding; committing = true }) m
    → HasRoom (record m { committing = false }, us ++ vs)
last-HasRoom s m us vs u h z e =
    let left_none : left (us ++ vs) ≤ length (us ++ vs) * maxopblocks = left-le (us ++ vs) in
    let alone : length (us ++ vs) ≡ 0 =
      ground (arith, h.counted, h.few, length-app us (u ∷ vs), length-app us vs) in
    record {
      counted = ground (arith, e.same_outstanding);
      idle = refl;
      room = omega (arith, e.empty);
      few = omega arith;
    }

-- The end of the last system call empties the log; that of another keeps it.
end-HasRoom :
    (s t : Log) (us vs : List ℕ) (u : ℕ)
    → HasRoom (s, us ++ u ∷ vs)
    → end_op s ≡ ok t
    → HasRoom (t, us ++ vs)
unfolding end_op end_last
end-HasRoom s t us vs u h e = elim (Bool-cases (one_less s.outstanding == 0)) [
  | inl z ↦
      let s₁ = record s { outstanding = one_less s.outstanding; committing = true } in
      let f : (commit s₁ >>= λ s. ok (record s { committing = false })) ≡ ok t =
        ground (arith, h.idle) in
      let (m, e₁, e₂) = first_part (commit s₁) (λ s. ok (record s { committing = false })) f in
      let c = commit-Emptied s₁ m e₁ in
      subst (λ y. HasRoom (y, us ++ vs)) (ok-inj e₂) (last-HasRoom s m us vs u h z c)
  | inr z ↦
      let q : record s { outstanding = one_less s.outstanding } ≡ t = ground (arith, h.idle) in
      subst (λ y. HasRoom (y, us ++ vs)) q
        (record {
          counted = ground (arith, h.counted, h.few, length-app us (u ∷ vs), length-app us vs);
          idle = h.idle;
          room = omega (arith, h.room, left-app us (u ∷ vs), left-app us vs);
          few = omega (arith, h.few, length-app us (u ∷ vs), length-app us vs);
        })
]

step-HasRoom : (x y : Ops) → HasRoom x → Step x y → HasRoom y
step-HasRoom x y h (begins {s} {t} {us} e) = begin-HasRoom s t us h e
step-HasRoom x y h (writes {s} {t} us vs u b l e) =
    let k = (s.cache.bufs b).blockno in
    let i = find_first (λ i. s.block i == k) s.n 0 in
    subst (λ t. HasRoom (t, us ++ suc u ∷ vs)) (ok-inj (sym (write-ok b u s us vs h l) ∙ e))
      (enter-HasRoom b k u s us vs i h l)
step-HasRoom x y h (ends {s} {t} us vs u e) = end-HasRoom s t us vs u h e

steps-HasRoom : {x y : Ops} → HasRoom x → Steps x y → HasRoom y
steps-HasRoom h start = h
steps-HasRoom h (next {x} {y} {z} r t) = step-HasRoom y z (steps-HasRoom h r) t

-- The log before the first system call.
pub record IsIdle (s : Log) : Type 0 where
  pub empty : s.n ≡ 0
  pub none_active : s.outstanding ≡ 0
  pub not_committing : s.committing ≡ false

-- In every state of the log that system calls reach from an idle log, each making at most
-- MAXOPBLOCKS calls of log_write(), in any interleaving, the header has room for all the calls
-- still to come, and a call of log_write() by one that may still make one succeeds and leaves at
-- most LOGBLOCKS blocks.
pub steps-log_write :
    (s t : Log) (us vs : List ℕ) (u b : ℕ)
    → IsIdle s
    → Steps (s, []) (t, us ++ u ∷ vs)
    → u < maxopblocks
    → (t.n + left (us ++ u ∷ vs) ≤ logblocks)
      × ((t' : Log) × (log_write b t ≡ ok t') × (t'.n ≤ logblocks))
steps-log_write s t us vs u b i r l =
    let h =
      steps-HasRoom
        (record {
          counted = i.none_active;
          idle = i.not_committing;
          room = omega (arith, i.empty);
          few = omega arith;
        })
        r in
    let k = (t.cache.bufs b).blockno in
    let t' = enter_block b k (find_first (λ i. t.block i == k) t.n 0) t in
    let g = enter-HasRoom b k u t us vs (find_first (λ i. t.block i == k) t.n 0) h l in
    (h.room, (t', write-ok b u t us vs h l, omega (arith, g.room)))

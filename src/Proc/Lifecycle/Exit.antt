-- ===== src/Proc/Lifecycle/Exit.antt =====
-- What kexit() of kernel/proc.c leaves, and that the parent's wait() finds it.
use operating_systems_2_assi.Prelude.{
  sym, ==_iff, ℕ, zero, suc, ◌+◌, ◌<◌, ◌≡◌, ◌≢◌, refl, inl, inr, true, false, ◌&&◌, Option, some,
  arith, if◌then◌else◌, ◌==◌, ltb, leb, update, ap, find_first_unique, Bool-cases, ==-self, ==-ne,
  ◌∙◌, ok,
}
use operating_systems_2_assi.Proc.State.{
  Proc, ProcState, ℤ, is_unused, is_zombie, is_sleeping, nproc,
}
use operating_systems_2_assi.Proc.Sleep.{wakeup, is_me}
use operating_systems_2_assi.Proc.Sleep.Wake.{wakeup_lem}
use operating_systems_2_assi.Proc.Lifecycle.{
  Table, freeproc, is_child_of, addr_of, reparent_one, reparent_loop, reparent, kexit, reaped,
  find_zombie, kwait_round,
}

-- What no step of kexit() changes in an entry: its id, its status, and whether it is unused or a
-- zombie.
pub record SameLife (p q : Proc) : Type 0 where
  pub pid : q.pid ≡ p.pid
  pub xstate : q.xstate ≡ p.xstate
  pub is_free : is_unused q.state ≡ is_unused p.state
  pub is_dead : is_zombie q.state ≡ is_zombie p.state

-- The entries from `i` up to `m` that are children of `me` have the parent `init` now.
record Moved (me : ℕ) (init : Option ℕ) (i m : ℕ) (procs procs' : ℕ → Proc) : Type 0 where
  life : (j : ℕ) → SameLife (procs j) (procs' j)
  parents :
      (j : ℕ)
      → (procs' j).parent
        ≡ (if leb i j && ltb j m && is_child_of me (procs j) then init else (procs j).parent)

wakeup-SameLife :
    (me : Option ℕ) (chan : ℕ) (procs : ℕ → Proc) (j : ℕ)
    → SameLife (procs j) (wakeup me chan procs j)
      × ((wakeup me chan procs j).parent ≡ (procs j).parent)
wakeup-SameLife me chan procs j = ground (arith, wakeup_lem me chan procs j)

-- After a wakeup nobody but the caller sleeps on the channel.
wakeup_clears :
    (me chan a : ℕ) (procs : ℕ → Proc) (v : ℕ)
    → v ≢ me
    → v < nproc
    → chan ≡ a
    → (is_sleeping (wakeup (some me) chan procs v).state
        && (wakeup (some me) chan procs v).chan == a)
      ≡ false
wakeup_clears me chan a procs v n h e = ground (arith, wakeup_lem (some me) chan procs v)

SameLife-trans : {p q r : Proc} → SameLife p q → SameLife q r → SameLife p r
SameLife-trans a b = record {
  pid = b.pid ∙ a.pid;
  xstate = b.xstate ∙ a.xstate;
  is_free = b.is_free ∙ a.is_free;
  is_dead = b.is_dead ∙ a.is_dead;
}

Moved-trans :
    (me : ℕ) (init : Option ℕ) (i m : ℕ) {a b c : ℕ → Proc}
    → i < m
    → Moved me init i (suc i) a b
    → Moved me init (suc i) m b c
    → Moved me init i m a c
Moved-trans me init i m {a} {b} {c} l p q = record {
  life = λ j. SameLife-trans (p.life j) (q.life j);
  parents = λ j. q.parents j ∙ step j (b j) (p.parents j);
}
  where
    step :
        (j : ℕ) (q : Proc)
        → q.parent
          ≡ (if leb i j && ltb j (suc i) && is_child_of me (a j) then init else (a j).parent)
        → (if leb (suc i) j && ltb j m && is_child_of me q then init else q.parent)
          ≡ (if leb i j && ltb j m && is_child_of me (a j) then init else (a j).parent)
    step j q e = elim (Bool-cases (leb i j && ltb j (suc i))) [
      | inl h ↦ ground arith
      | inr h ↦ ground arith
    ]

module _ (addr : ℕ → ℕ) where
  reparent_one-Moved :
      (me : ℕ) (init : Option ℕ) (i : ℕ) (procs : ℕ → Proc)
      → Moved me init i (suc i) procs (reparent_one addr me init i procs)
  unfolding reparent_one
  reparent_one-Moved me init i procs = elim (Bool-cases (is_child_of me (procs i))) [
    | inl e ↦
        let moved : ℕ → Proc = update procs i (record (procs i) { parent = init }) in
        let w = wakeup-SameLife (some me) (addr_of addr init) moved in
        record { life = λ j. ground (arith, (w j).0); parents = λ j. ground (arith, (w j).1) }
    | inr e ↦ record { life = λ j. ground arith; parents = λ j. ground arith }
  ]

  reparent_loop-Moved :
      (me : ℕ) (init : Option ℕ) (n i m : ℕ) (procs : ℕ → Proc)
      → i + n ≡ m
      → Moved me init i m procs (reparent_loop addr me init n i procs)
  unfolding reparent_loop
  reparent_loop-Moved me init zero i m procs e = record {
    life = λ j. record { pid = refl; xstate = refl; is_free = refl; is_dead = refl };
    parents = λ j. ground arith;
  }
  reparent_loop-Moved me init (suc n) i m procs e =
      Moved-trans me init i m (omega arith) (reparent_one-Moved me init i procs)
        (reparent_loop-Moved me init n (suc i) m (reparent_one addr me init i procs) (omega arith))

-- What an exit leaves, from `t` to `t'`: the process is a zombie with its status, its children are
-- init's, its parent does not sleep on its own entry, and no other process has lost its id, its status
-- or its being live, dead or unused.
pub record Exited (addr : ℕ → ℕ) (status : ℤ) (me : ℕ) (t t' : Table) : Type 0 where
  pub is_dead : (t'.procs me).state ≡ ProcState.zombie
  pub status_kept : (t'.procs me).xstate ≡ status
  pub same_pid : (t'.procs me).pid ≡ (t.procs me).pid
  pub same_next : (t'.nextpid ≡ t.nextpid) × (t'.initproc ≡ t.initproc)
  pub parents :
      (j : ℕ)
      → (t'.procs j).parent
        ≡ (if ltb j nproc && is_child_of me (t.procs j) then t.initproc else (t.procs j).parent)
  pub others : (j : ℕ) → j ≢ me → SameLife (t.procs j) (t'.procs j)
  pub parent_awake :
      (w : ℕ)
      → (t.procs me).parent ≡ some w
      → w ≢ me
      → w < nproc
      → (is_sleeping (t'.procs w).state && (t'.procs w).chan == addr w) ≡ false

module _ (addr : ℕ → ℕ) (status : ℤ) (me : ℕ) (t : Table)
    (not_init : is_me t.initproc me ≡ false) where
  abbrev reparented : Table
  reparented = reparent addr me t

  abbrev woken_table : ℕ → Proc
  woken_table = wakeup (some me) (addr_of addr (reparented.procs me).parent) reparented.procs

  abbrev exit_table : Table
  exit_table = record reparented {
    procs =
        update woken_table me
          (record (woken_table me) { xstate = status; state = ProcState.zombie });
  }

  reparented-Moved : Moved me t.initproc 0 nproc t.procs reparented.procs
  unfolding reparent
  reparented-Moved = reparent_loop-Moved addr me t.initproc nproc 0 nproc t.procs (omega arith)

  parent-exit : (j : ℕ) → (exit_table.procs j).parent ≡ (woken_table j).parent
  parent-exit j = elim (Bool-cases (j == me)) [
    | inl e ↦ rw e (ap (λ (k : ℕ). (woken_table k).parent) (sym ((==_iff j me).0 e)))
    | inr e ↦ rw e
  ]

  -- The channel of the wakeup is the parent's entry.
  parent_chan :
      (v : ℕ)
      → (t.procs me).parent ≡ some v
      → v ≢ me
      → addr_of addr (reparented.procs me).parent ≡ addr v
  parent_chan v e n =
      let m = reparented-Moved in
      let same : (reparented.procs me).parent ≡ some v = m.parents me ∙ ground (arith, e) in
      ap (addr_of addr) same

  exit_table-Exited : Exited addr status me t exit_table
  unfolding reparent
  exit_table-Exited =
      let m = reparented-Moved in
      let w =
        wakeup-SameLife (some me) (addr_of addr (reparented.procs me).parent) reparented.procs in
      record {
        is_dead = rw (==-self me);
        status_kept = rw (==-self me);
        same_pid = rw (==-self me) ((w me).0.pid ∙ (m.life me).pid);
        same_next = (refl, refl);
        parents = λ j. parent-exit j ∙ (w j).1 ∙ m.parents j ∙ ground arith;
        others = λ j n. rw (==-ne j me n) (SameLife-trans (m.life j) (w j).0);
        parent_awake = λ v e n h. rw (==-ne v me n) (
            wakeup_clears me (addr_of addr (reparented.procs me).parent) (addr v) reparented.procs v
              n h (parent_chan v e n));
      }

  -- An exit of a process other than init leaves a zombie with its status, gives its children to
  -- init, does not leave its parent asleep on its own entry, and changes neither the id nor the
  -- status of another process nor whether it is unused or a zombie.
  pub kexit-Exited : (t' : Table) × (kexit addr status me t ≡ ok t') × Exited addr status me t t'
  unfolding kexit
  kexit-Exited = (exit_table, rw not_init refl, exit_table-Exited)

-- After a process of the table other than init, whose parent is another process w, exits, a round
-- of wait() by w without a status pointer reaps it with its id and its status and frees its
-- entry, if no other process was a zombie.
pub kwait_round-kexit :
    (addr : ℕ → ℕ) (status : ℤ) (me w : ℕ) (t : Table)
    → is_me t.initproc me ≡ false
    → me < nproc
    → w ≢ me
    → (t.procs me).parent ≡ some w
    → ((j : ℕ) → j ≢ me → is_zombie (t.procs j).state ≡ false)
    → (t' : Table) × (t'' : Table) × (kexit addr status me t ≡ ok t')
      × (kwait_round w false true t' ≡ reaped (t.procs me).pid status t'')
      × (is_unused (t''.procs me).state ≡ true)
unfolding kwait_round freeproc
kwait_round-kexit addr status me w t ni h n e z =
    let (t', f, x) = kexit-Exited addr status me t ni in
    (
      t',
      record t' { procs = update t'.procs me (freeproc (t'.procs me)) },
      f,
      rw (found_me t' x, kwait_round, x.same_pid, x.status_kept),
      rw (==-self me),
    )
  where
    found_me : (t' : Table) → Exited addr status me t t' → find_zombie w t' ≡ some me
    found_me t' x =
        find_first_unique (λ i. is_child_of w (t'.procs i) && is_zombie (t'.procs i).state) nproc 0
          me (omega arith) (omega arith) (ground (arith, x.parents me, x.is_dead))
          (λ j m. ground (arith, z j m, (x.others j m).is_dead))

-- ===== src/Prelude/Outcomes.antt =====
-- Results of kernel code that may stop the machine.
use mathlib.Core.Path.{◌≡◌, refl}
use mathlib.Core.Bool.{Bool}
use operating_systems_2_assi.Prelude.Tests.{if◌then◌else◌}

-- `null` is a read through a null pointer; the others are the calls of panic().
pub data Panic : Type 0 where
  null phys_write phys_read queue_full out_slot in_slot : Panic
  acquire swapin gridlock kfree init_exiting : Panic
  walk unaligned bad_size remap no_memory uvmclear : Panic
  free_block bmap iget ilock : Panic
  no_buffers bwrite brelse big_logheader committing too_big outside_trans : Panic

pub data Outcome {ℓ} (A : Type ℓ) : Type ℓ where
  ok : A → Outcome A
  panic : Panic → Outcome A

-- A panic ends the run: the rest of the code is not reached.
infixl 5 ◌>>=◌
abbrev pub ◌>>=◌ {ℓ ℓ'} :
    {Before : Type ℓ} {After : Type ℓ'} → Outcome Before → (Before → Outcome After) → Outcome After
panic where_ >>= rest = panic where_
ok state >>= rest = rest state

-- if (failed) panic(...); the code after it
abbrev pub guard {ℓ} : {State : Type ℓ} → Bool → Panic → Outcome State → Outcome State
guard failed e rest = if failed then panic e else rest

-- Code that succeeds has not stopped before its last part.
pub first_part {ℓ ℓ'} :
    {Before : Type ℓ} {After : Type ℓ'} (run : Outcome Before) (rest : Before → Outcome After)
    {end : After}
    → (run >>= rest) ≡ ok end
    → (middle : Before) × (run ≡ ok middle) × (rest middle ≡ ok end)
first_part (panic p) rest h = cc
first_part (ok middle) rest h = (middle, refl, h)

-- ===== src/Pipe.antt =====
-- Pipes, kernel/pipe.c. A call runs from one sleep to the next: a write that has to wait returns
-- `asleep` with the bytes done so far, and goes on from there. The lock and the calls of wakeup()
-- are those of Proc.Sleep. `user` stands for copyin(): the byte that it reads at an address, or
-- none; `writable` stands for copyout(): whether it succeeds at an address.
use operating_systems_2_assi.Prelude.{
  ℕ, zero, suc, ◌+◌, ◌%◌, Bool, true, false, not, ◌&&◌, ◌||◌, Option, none, some, ◌==◌,
  if◌then◌else◌, Bytes, update,
}
mod Queue
mod Write
mod Read
mod Stream
mod Tests

abbrev pub pipesize : ℕ
pipesize = 512

-- struct pipe
pub record Pipe : Type 0 where
  pub bytes : Bytes
  pub nread : ℕ
  pub nwrite : ℕ
  pub readopen : Bool
  pub writeopen : Bool

-- What a call comes to: a count, -1, or a sleep after `i` bytes.
pub data Result : Type 0 where
  done : ℕ → Result
  failed : Result
  asleep : ℕ → Result

-- The pipe that pipealloc() makes.
abbrev pub new_pipe : Bytes → Pipe
new_pipe page = record { bytes = page; nread = 0; nwrite = 0; readopen = true; writeopen = true }

-- pipeclose(); whether the page of the pipe is freed.
unfoldable pub pipeclose : Bool → Pipe → Bool × Pipe
pipeclose writable pi =
    let pi' =
      if writable then record pi { writeopen = false } else record pi { readopen = false } in
    (not pi'.readopen && not pi'.writeopen, pi')

abbrev pub is_full : Pipe → Bool
is_full pi = pi.nwrite == (pi.nread + pipesize) % 4294967296

abbrev pub is_empty : Pipe → Bool
is_empty pi = pi.nread == pi.nwrite

-- pi->data[pi->nwrite++ % PIPESIZE] = ch
unfoldable pub put_byte : ℕ → Pipe → Pipe
put_byte ch pi = record pi {
  bytes = update pi.bytes (pi.nwrite % pipesize) ch;
  nwrite = (pi.nwrite + 1) % 4294967296;
}

-- The loop of pipewrite() with `m` bytes left, after `i`, up to its end or its next sleep.
unfoldable pub pipewrite : (ℕ → Option ℕ) → Bool → ℕ → ℕ → ℕ → Pipe → Result × Pipe
pipewrite user killed addr zero i pi = (Result.done i, pi)
pipewrite user killed addr (suc m) i pi =
    let next : Result × Pipe = elim (user (addr + i)) [
      | none ↦ (Result.done i, pi)
      | some ch ↦ pipewrite user killed addr m (suc i) (put_byte ch pi)
    ] in
    if not pi.readopen || killed
    then (Result.failed, pi)
    else if is_full pi
    then (Result.asleep i, pi)
    else next

-- The loop of piperead() that copies, with `m` bytes left, after `i`.
unfoldable pub read_copy : (ℕ → Bool) → ℕ → ℕ → ℕ → Pipe → Bytes → Result × Pipe × Bytes
read_copy writable addr zero i pi mem = (Result.done i, pi, mem)
read_copy writable addr (suc m) i pi mem =
    let ch = pi.bytes (pi.nread % pipesize) in
    let rest =
      read_copy writable addr m (suc i) (record pi { nread = (pi.nread + 1) % 4294967296 })
        (update mem (addr + i) ch) in
    if is_empty pi
    then (Result.done i, pi, mem)
    else if writable (addr + i)
    then rest
    else (if i == 0 then Result.failed else Result.done i, pi, mem)

-- piperead() from its start, or from a sleep.
unfoldable pub piperead : (ℕ → Bool) → Bool → ℕ → ℕ → Pipe → Bytes → Result × Pipe × Bytes
piperead writable killed addr n pi mem =
    let copied = read_copy writable addr n 0 pi mem in
    if is_empty pi && pi.writeopen
    then (if killed then Result.failed else Result.asleep 0, pi, mem)
    else copied

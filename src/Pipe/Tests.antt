-- ===== src/Pipe/Tests.antt =====
-- Tests and examples of the pipes of kernel/pipe.c.
use operating_systems_2_assi.Prelude.{ℕ, ◌≡◌, refl, ◌∷◌, [], ◌++◌, false, Bytes, Option, some}
use operating_systems_2_assi.Pipe.{Pipe, Result, new_pipe, put_byte, pipewrite}
use operating_systems_2_assi.Pipe.Queue.{queue, IsPipe}
use operating_systems_2_assi.Pipe.Stream.{Traffic, Traffic-queue, new_pipe-IsPipe}

abbrev page : Bytes
page j = 0

-- The user has the byte 65 everywhere.
abbrev letters : ℕ → Option ℕ
letters a = some 65

abbrev two_letters : Pipe
two_letters = put_byte 65 (put_byte 65 (new_pipe page))

write_two : pipewrite letters false 0 2 0 (new_pipe page) ≡ (Result.done 2, two_letters)
unfolding pipewrite put_byte
write_two = refl

-- A reader closes its end: a write fails.
write_closed :
    pipewrite letters false 0 2 0 (record (new_pipe page) { readopen = false })
    ≡ (Result.failed, record (new_pipe page) { readopen = false })
unfolding pipewrite put_byte
write_closed = refl

Traffic-queue_example : ([] ++ 65 ∷ 65 ∷ [] ≡ [] ++ queue two_letters) × IsPipe two_letters
unfolding pipewrite put_byte
Traffic-queue_example =
    Traffic-queue (new_pipe page) two_letters (65 ∷ 65 ∷ []) [] (new_pipe-IsPipe page)
      (Traffic.wrote letters false 0 2 0 Traffic.quiet write_two)

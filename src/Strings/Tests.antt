-- ===== src/Strings/Tests.antt =====
-- The theorems about kernel/string.c at small inputs.
use operating_systems_2_assi.Prelude.{ℕ, suc, ◌+◌, ◌<◌, ◌≡◌, ◌⊎◌, inl, arith, Bytes, update}
use operating_systems_2_assi.Strings.{memmove, safestrcpy}
use operating_systems_2_assi.Strings.Move.{memmove_lem}
use operating_systems_2_assi.Strings.Terminate.{Copied, safestrcpy-Copied}

-- The string "HI" at 40, and other bytes that are not zero.
abbrev greeting : Bytes
greeting = update (update (update (λ _. 120) 40 72) 41 73) 42 0

-- The ranges overlap.
memmove_lem_example : memmove 41 40 3 greeting 43 ≡ 0
memmove_lem_example = memmove_lem 41 40 3 greeting 43

safestrcpy-Copied_example :
    (k : ℕ) × (k < 2)
    × ((suc k ≡ 2) ⊎ (greeting (40 + k) ≡ 0))
    × Copied (suc k) 2 10 40 k greeting (safestrcpy 10 40 2 greeting)
safestrcpy-Copied_example = safestrcpy-Copied 10 40 2 greeting (omega arith) (inl (omega arith))

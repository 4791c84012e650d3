-- ===== src/Prelude/Memory.antt =====
-- Byte memory as a function of the address, and what a block copy and a block fill do to it.
use Prim.Native.Nat.{ℕ, ◌+◌, ◌-◌}
use mathlib.Core.Path.{◌≡◌, refl, fun_ext}
use mathlib.Core.Logic.{◌≢◌, ◌⊎◌}
use native.Mathlib.Omega.{arith}
use mathlib.Core.Bool.{◌&&◌}
use operating_systems_2_assi.Prelude.Tests.{ltb, leb, ◌==◌, if◌then◌else◌, ==-self, ==-ne}

abbrev pub Bytes : Type 0
Bytes = ℕ → ℕ

-- `n` bytes of `src` from `s` on, written to `dst` from `d` on.
abbrev pub copy : Bytes → ℕ → Bytes → ℕ → ℕ → Bytes
copy dst d src s n k = if leb d k && ltb k (d + n) then src (s + (k - d)) else dst k

-- `n` bytes from `d` on set to `c`.
abbrev pub fill : Bytes → ℕ → ℕ → ℕ → Bytes
fill dst d c n k = if leb d k && ltb k (d + n) then c else dst k

-- A table with two indices, changed at one place.
abbrev pub update {ℓ} : {A : Type ℓ} → (ℕ → A) → ℕ → A → ℕ → A
update f i v j = if j == i then v else f j

abbrev pub update₂ {ℓ} : {A : Type ℓ} → (ℕ → ℕ → A) → ℕ → ℕ → A → ℕ → ℕ → A
update₂ f i j v i' j' = if i' == i && j' == j then v else f i' j'

pub update_self {ℓ} : {A : Type ℓ} (f : ℕ → A) (b : ℕ) (v : A) → update f b v b ≡ v
update_self f b v = rw (==-self b) refl

pub update_ne {ℓ} : {A : Type ℓ} (f : ℕ → A) (b i : ℕ) (v : A) → i ≢ b → update f b v i ≡ f i
update_ne f b i v n = rw (==-ne i b n) refl

pub update_twice {ℓ} :
    {A : Type ℓ} (f : ℕ → A) (b : ℕ) (v w : A) → update (update f b v) b w ≡ update f b w
update_twice f b v w = fun_ext (λ i. ground arith)

pub same_or : (i b : ℕ) → (i ≡ b) ⊎ (i ≢ b)
same_or i b = ground arith

-- ===== src/Base/Memory.antt =====
-- Memory by address, and the `memmove` of the C library, which is a parameter.
use chvm.Base.Tests.{ltb, if◌then◌else◌}
use Prim.Native.Nat.{ℕ, ◌+◌, ◌-◌, ◌≤◌, ◌<◌}
use mathlib.Core.Path.{◌≡◌}
use mathlib.Core.Logic.{◌⊎◌}

abbrev pub Memory : Type 0
Memory = ℕ → ℕ

-- `memmove(dest, src, n)`
abbrev pub Memmove : Type 0
Memmove = ℕ → ℕ → ℕ → Memory → Memory

-- What its manual says: `n` bytes go from the source to the destination as if through a third
-- place, and no other byte changes.
pub record IsMemmove (memmove : Memmove) : Type 0 where
  pub copied :
      (dest src n : ℕ) (m : Memory) (i : ℕ) → i < n → memmove dest src n m (dest + i) ≡ m (src + i)
  pub kept :
      (dest src n : ℕ) (m : Memory) (a : ℕ)
      → (a < dest) ⊎ (dest + n ≤ a)
      → memmove dest src n m a ≡ m a

-- A function that does so, for runs.
abbrev pub copy_bytes : Memmove
copy_bytes dest src n m a =
    if ltb a dest then m a else if ltb a (dest + n) then m (src + (a - dest)) else m a

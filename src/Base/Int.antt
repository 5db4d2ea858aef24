-- ===== src/Base/Int.antt =====
-- The C `int` as an integer, and its conversion to a `DWORD`.
use Prim.Native.Nat.{ℕ, ◌-◌, ◌%◌, ◌^◌}
use bzcc_scanner.Base.Tests.{ltb, if◌then◌else◌}

-- `negsuc n` is -(n + 1).
pub data ℤ : Type 0 where
  pos : ℕ → ℤ
  negsuc : ℕ → ℤ

-- The `int` whose bits are those of `n`, a number below 2 ^ 32.
abbrev pub of_bits : ℕ → ℤ
of_bits n = if ltb n (2 ^ 31) then pos n else negsuc (2 ^ 32 - n - 1)

-- `(DWORD)z`
abbrev pub to_dword : ℤ → ℕ
to_dword (pos n) = n % 2 ^ 32
to_dword (negsuc n) = 2 ^ 32 - 1 - n % 2 ^ 32

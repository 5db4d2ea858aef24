-- ===== src/Crc.antt =====
-- `CalcCRC32` and `CalcCRC32A` of bzcchtable.c. A string is given without its terminator or with it,
-- and the loops end at the first 0.
pub mod Table
pub mod Laws
use Prim.Native.Nat.{ℕ, ◌+◌, ◌/◌, bit_and, bit_xor}
use bzcc_scanner.Base.{List, [], ◌∷◌, Option, none, some, get_elem?, ltb, ◌==◌, if◌then◌else◌}
use bzcc_scanner.Crc.Table.{crc32_table}

-- CRC32_TABLE[i]; every index in the code is masked to a byte.
unfoldable pub table_at : ℕ → ℕ
unfolding crc32_table
table_at i = elim (get_elem? crc32_table i) [ none ↦ 0 | some v ↦ v ]

-- One round of either loop, `w` being `str[i]` as a DWORD.
unfoldable pub crc_step : ℕ → ℕ → ℕ
unfolding table_at
crc_step crc w = bit_xor (crc / 256) (table_at (bit_and (bit_xor crc w) 255))

unfoldable pub crc_loop : (ℕ → ℕ) → ℕ → List ℕ → ℕ
unfolding crc_step
crc_loop widen crc [] = crc
crc_loop widen crc (c ∷ cs) =
    let more = crc_loop widen (crc_step crc (widen c)) cs in if c == 0 then crc else more

-- The wide version: a TCHAR is an unsigned 16-bit number.
unfoldable pub calc_crc32 : List ℕ → ℕ
unfolding crc_loop
calc_crc32 s = bit_xor (crc_loop (λ c. c) 0xFFFFFFFF s) 0xFFFFFFFF

-- A `char` is signed, and is widened with its sign.
unfoldable pub widen_char : ℕ → ℕ
widen_char c = if ltb c 128 then c else c + 0xFFFFFF00

unfoldable pub calc_crc32a : List ℕ → ℕ
unfolding crc_loop widen_char
calc_crc32a s = bit_xor (crc_loop widen_char 0xFFFFFFFF s) 0xFFFFFFFF

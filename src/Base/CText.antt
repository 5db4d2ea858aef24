-- ===== src/Base/CText.antt =====
-- Bytes and C strings: what the sources use of ctype.h, string.h and stdlib.h, in the C locale.
use Prim.Native.Nat.{ℕ, ◌+◌, ◌-◌, ◌*◌, ◌%◌, ◌/◌, ◌^◌}
use Prim.Native.Char.{code}
use Prim.Native.String.{String}
use mathlib.Core.Bool.{Bool, true, false, ◌&&◌, ◌||◌}
use mathlib.Core.List.{List, [], ◌∷◌, ◌++◌}
use bzcc_scanner.Base.Tests.{leb, ◌==◌, if◌then◌else◌}
use bzcc_scanner.Base.Lists.{take, length, replicate}
use bzcc_scanner.Base.Int.{ℤ, pos, of_bits}

abbrev pub Bytes : Type 0
Bytes = List ℕ

-- The bytes of an ASCII literal.
abbrev pub codes : String → Bytes
codes String.[] = []
codes (String.◌∷◌ c s) = code c ∷ codes s

unfoldable pub is_digit : ℕ → Bool
is_digit c = leb b'0' c && leb c b'9'

unfoldable pub is_alnum : ℕ → Bool
unfolding is_digit
is_alnum c = is_digit c || (leb b'a' c && leb c b'z') || (leb b'A' c && leb c b'Z')

-- Tab, line feed, vertical tab, form feed, carriage return and the blank.
unfoldable pub is_space : ℕ → Bool
is_space c = leb 9 c && leb c 13 || c == b' '

to_lower : ℕ → ℕ
to_lower c = if leb b'A' c && leb c b'Z' then c + 32 else c

-- The C string at the start of a block of memory: the bytes before its first NUL.
unfoldable pub until_nul : Bytes → Bytes
until_nul [] = []
until_nul (c ∷ cs) = if c == 0 then [] else c ∷ until_nul cs

-- `strcmpi(a, b) == 0` on the strings without their terminators.
unfoldable pub same_ignoring_case : Bytes → Bytes → Bool
unfolding to_lower
same_ignoring_case [] [] = true
same_ignoring_case (a ∷ as_) (b ∷ bs) = to_lower a == to_lower b && same_ignoring_case as_ bs
same_ignoring_case _ _ = false

-- `strncpy(dst, src, n)`: the string of `src`, cut to `n` bytes, padded with NUL up to `n`.
-- Nothing terminates it when the string has `n` bytes or more.
unfoldable pub strncpy : Bytes → ℕ → Bytes
unfolding until_nul
strncpy src n = let s = take n (until_nul src) in s ++ replicate (n - length s) 0

-- The value of the digits at the front, behind the value `acc` of those before them.
digits_value : ℕ → Bytes → ℕ
unfolding is_digit
digits_value acc [] = acc
digits_value acc (c ∷ cs) =
    let rest = digits_value (acc * 10 + (c - b'0')) cs in if is_digit c then rest else acc

skip_spaces : Bytes → Bytes
unfolding is_space
skip_spaces [] = []
skip_spaces (c ∷ cs) = let rest = skip_spaces cs in if is_space c then rest else c ∷ cs

signed_value : Bytes → ℤ
unfolding digits_value
signed_value [] = pos 0
signed_value (c ∷ cs) =
    if c == b'-'
    then of_bits ((2 ^ 32 - digits_value 0 cs % 2 ^ 32) % 2 ^ 32)
    else if c == b'+'
    then of_bits (digits_value 0 cs % 2 ^ 32)
    else of_bits (digits_value 0 (c ∷ cs) % 2 ^ 32)

-- `atoi`, and `atol` with its 32-bit `long`: blanks, a sign, digits. A number that does not fit is
-- reduced modulo 2 ^ 32.
unfoldable pub atoi : Bytes → ℤ
unfolding skip_spaces signed_value
atoi s = signed_value (skip_spaces s)

-- The four bytes of an `int` in memory, lowest first.
abbrev pub le_bytes : ℕ → Bytes
le_bytes n = n % 256 ∷ n / 256 % 256 ∷ n / 65536 % 256 ∷ n / 16777216 % 256 ∷ []

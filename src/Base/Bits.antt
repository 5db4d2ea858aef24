-- ===== src/Base/Bits.antt =====
-- `&` and `^` on numbers of any size, digit by digit.
use Prim.Native.Nat.{
  ℕ, zero, suc, ◌+◌, ◌*◌, ◌/◌, ◌%◌, ◌≤◌, ◌<◌, min, bit_and, bit_xor, digits, differ,
  bit_and-bitwise, bit_xor-bitwise,
}
use mathlib.Core.Path.{◌≡◌, refl, ap, ap₂, ◌∙◌}
use native.Mathlib.Omega.{arith}

-- A native operation is a recursion on the digits, on `z` where the first number has none left, and
-- its own first argument is fuel enough: what is more is not used.
module _ (z : ℕ → ℕ) (f op : ℕ → ℕ → ℕ) (as_digits : (a b : ℕ) → op a b ≡ digits z f a a b) where
  spare_fuel :
      (spare fuel : ℕ) (y x : ℕ) → x ≤ fuel → x ≤ spare → digits z f spare x y ≡ digits z f fuel x y
  spare_fuel (suc spare) (suc fuel) y (suc x) in_fuel in_spare =
      omega (arith, spare_fuel spare fuel (y / 2) (suc x / 2) (omega arith) (omega arith))
  spare_fuel zero fuel y (suc x) in_fuel in_spare = absurd (omega arith)
  spare_fuel (suc spare) zero y (suc x) in_fuel in_spare = absurd (omega arith)
  spare_fuel zero zero y zero in_fuel in_spare = refl
  spare_fuel zero (suc fuel) y zero in_fuel in_spare = refl
  spare_fuel (suc spare) zero y zero in_fuel in_spare = refl
  spare_fuel (suc spare) (suc fuel) y zero in_fuel in_spare = refl

  lowest_digit : (x y : ℕ) → op (suc x) y ≡ op (suc x / 2) (y / 2) * 2 + f (suc x % 2) (y % 2)
  lowest_digit x y =
      let half = suc x / 2 in
      omega (
        arith,
        spare_fuel x half (y / 2) half (omega arith) (omega arith),
        as_digits half (y / 2),
        as_digits (suc x) y,
      )

and_lowest : (x y : ℕ) → bit_and x y ≡ bit_and (x / 2) (y / 2) * 2 + min (x % 2) (y % 2)
and_lowest zero y = omega (arith, bit_and-bitwise 0 (y / 2), bit_and-bitwise 0 y)
and_lowest (suc x) y = lowest_digit (λ y. 0) min bit_and bit_and-bitwise x y

xor_lowest : (x y : ℕ) → bit_xor x y ≡ bit_xor (x / 2) (y / 2) * 2 + differ (x % 2) (y % 2)
xor_lowest zero y = omega (arith, bit_xor-bitwise 0 (y / 2), bit_xor-bitwise 0 y)
xor_lowest (suc x) y = lowest_digit (λ y. y) differ bit_xor bit_xor-bitwise x y

differ_bound : (x y : ℕ) → x < 2 → y < 2 → differ x y < 2
differ_bound zero y h k = k
differ_bound (suc x) zero h k = h
differ_bound (suc zero) (suc y) h k = omega arith
differ_bound (suc (suc x)) (suc y) h k = absurd (omega arith)

bit_xor_half : (a b : ℕ) → bit_xor a b / 2 ≡ bit_xor (a / 2) (b / 2)
bit_xor_half a b =
    omega (arith, xor_lowest a b, differ_bound (a % 2) (b % 2) (omega arith) (omega arith))

bit_xor_odd : (a b : ℕ) → bit_xor a b % 2 ≡ differ (a % 2) (b % 2)
bit_xor_odd a b =
    omega (arith, xor_lowest a b, differ_bound (a % 2) (b % 2) (omega arith) (omega arith))

-- The lowest `k` digits of a number.
pub low : ℕ → ℕ → ℕ
low zero x = 0
low (suc k) x = low k (x / 2) * 2 + x % 2

-- The low digits of an exclusive or depend on those of its arguments.
pub low-bit_xor :
    (k a b c d : ℕ)
    → low k a ≡ low k c
    → low k b ≡ low k d
    → low k (bit_xor a b) ≡ low k (bit_xor c d)
unfolding low
low-bit_xor zero a b c d p q = refl
low-bit_xor (suc k) a b c d p q =
    let a0 : a % 2 ≡ c % 2 = omega arith in
    let b0 : b % 2 ≡ d % 2 = omega arith in
    omega (
      arith,
      ap (low k) (bit_xor_half a b),
      ap (low k) (bit_xor_half c d),
      bit_xor_odd a b,
      bit_xor_odd c d,
      ap₂ differ a0 b0,
      low-bit_xor k (a / 2) (b / 2) (c / 2) (d / 2) (omega arith) (omega arith),
    )

pub low_eight : (x : ℕ) → low 8 x ≡ x % 256
unfolding low
low_eight x = omega arith

and_nothing : (bound x : ℕ) → x ≤ bound → bit_and x 0 ≡ 0
and_nothing bound zero small = refl
and_nothing (suc bound) (suc x) small =
    omega (and_nothing bound (suc x / 2) (omega arith), and_lowest (suc x) 0, arith)
and_nothing zero (suc x) small = absurd (omega arith)

-- A mask of `k` ones.
ones : ℕ → ℕ
ones zero = 0
ones (suc k) = ones k * 2 + 1

bit_and_odd : (a m : ℕ) → bit_and a (m * 2 + 1) ≡ bit_and (a / 2) m * 2 + a % 2
bit_and_odd a m =
    let half : (m * 2 + 1) / 2 ≡ m = omega arith in
    omega (arith, and_lowest a (m * 2 + 1), ap (bit_and (a / 2)) half)

bit_and-ones : (k a : ℕ) → bit_and a (ones k) ≡ low k a
unfolding ones low
bit_and-ones zero a = and_nothing a a (omega arith)
bit_and-ones (suc k) a = omega (arith, bit_and_odd a (ones k), bit_and-ones k (a / 2))

-- `x & 0xFF`
pub bit_and_byte : (x : ℕ) → bit_and x 255 ≡ x % 256
unfolding ones
bit_and_byte x = bit_and-ones 8 x ∙ low_eight x

-- ===== src/Crc/Laws.antt =====
-- What the table holds, and what the two functions compute from.
use Prim.Native.Nat.{ℕ, zero, suc, ◌*◌, ◌/◌, ◌%◌, ◌^◌, ◌<◌, bit_xor}
use bzcc_scanner.Base.{
  ◌≡◌, refl, sym, ap, ◌∙◌, List, [], ◌∷◌, map, Bool, true, ◌&&◌, arith, ltb, ◌==◌, if◌then◌else◌,
  ==_iff, All, Bool-cases, inl, inr,
}
use bzcc_scanner.Base.Bits.{low-bit_xor, low_eight, bit_and_byte}
use bzcc_scanner.Crc.{table_at, crc_step, crc_loop, calc_crc32, calc_crc32a, widen_char}

-- One step of the division by the generator 0x04c11db7, the highest bit first.
divide_step : ℕ → ℕ
divide_step r = let s = r * 2 % 2 ^ 32 in if ltb r (2 ^ 31) then s else bit_xor s 0x04c11db7

pub rounds : ℕ → ℕ → ℕ
unfolding divide_step
rounds zero r = r
rounds (suc n) r = rounds n (divide_step r)

-- `p` holds of the numbers below `bound`: a test that can be run.
passes : (ℕ → Bool) → ℕ → Bool
passes p zero = true
passes p (suc bound) = passes p bound && p bound

passes_below : (p : ℕ → Bool) (bound i : ℕ) → i < bound → passes p bound ≡ true → p i ≡ true
unfolding passes
passes_below p (suc bound) i lt checked = ground (passes_below p bound i, arith)
passes_below p zero i lt checked = absurd (omega arith)

table_checked : passes (λ i. table_at i == rounds 8 (i * 2 ^ 24)) 256 ≡ true
unfolding passes table_at rounds
table_checked = refl

-- Entry `i` of the table is the remainder of `i` in the highest byte under the generator 0x04c11db7:
-- the table of the CRC that is computed from the highest bit down.
pub table_at-rounds : (i : ℕ) → i < 256 → table_at i ≡ rounds 8 (i * 2 ^ 24)
table_at-rounds i h = (==_iff _ _).0 (passes_below _ 256 i h table_checked)

-- A round reads the low byte of the character only.
crc_step_byte : (crc v w : ℕ) → v % 256 ≡ w % 256 → crc_step crc v ≡ crc_step crc w
unfolding crc_step
crc_step_byte crc v w h =
    ap (λ i. bit_xor (crc / 256) (table_at i))
      (bit_and_byte (bit_xor crc v)
        ∙ sym (low_eight (bit_xor crc v))
        ∙ low-bit_xor 8 crc v crc w refl (low_eight v ∙ h ∙ sym (low_eight w))
        ∙ low_eight (bit_xor crc w)
        ∙ sym (bit_and_byte (bit_xor crc w)))

-- The low byte of a character is 0 only if the character is.
abbrev pub KeepsNul : ℕ → Type 0
KeepsNul c = (c == 0) ≡ (c % 256 == 0)

crc_loop_bytes :
    (f g : ℕ → ℕ) (crc : ℕ) (s : List ℕ)
    → ((c : ℕ) → f c % 256 ≡ g (c % 256) % 256)
    → All KeepsNul s
    → crc_loop f crc s ≡ crc_loop g crc (map (λ c. c % 256) s)
unfolding crc_loop
crc_loop_bytes f g crc [] h k = refl
crc_loop_bytes f g crc (c ∷ cs) h (e, k) = elim (Bool-cases (c % 256 == 0)) [
  | inl z ↦ rw (z, e ∙ z) refl
  | inr n ↦
      rw (n, e ∙ n)
        (ap (λ r. crc_loop f r cs) (crc_step_byte crc (f c) (g (c % 256)) (h c))
          ∙ crc_loop_bytes f g (crc_step crc (g (c % 256))) cs h k)
]

widen_char_byte : (c : ℕ) → c % 256 ≡ widen_char (c % 256) % 256
unfolding widen_char
widen_char_byte c = ground arith

-- The checksum of a wide string in which only the terminator has a low byte of 0 is that of the narrow
-- string of the low bytes. The two lists may hold their terminators, and anything behind them.
pub calc_crc32-calc_crc32a :
    (s : List ℕ) → All KeepsNul s → calc_crc32 s ≡ calc_crc32a (map (λ c. c % 256) s)
unfolding calc_crc32 calc_crc32a
calc_crc32-calc_crc32a s k =
    ap (λ r. bit_xor r 0xFFFFFFFF)
      (crc_loop_bytes (λ c. c) widen_char 0xFFFFFFFF s widen_char_byte k)

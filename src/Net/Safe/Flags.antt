-- ===== src/Net/Safe/Flags.antt =====
-- The array `is_array`, of which the first `n` elements have been written.
use Prim.Native.Nat.{ℕ, zero, suc, ◌<◌, ◌≤◌}
use bzcc_scanner.Base.{◌≡◌, refl, List, [], ◌∷◌, Option, none, some, Bool, length, set, arith}
use bzcc_scanner.Net.Parser.{array_flag}

abbrev pub Marked : List (Option Bool) → ℕ → Type 0
Marked flags zero = Unit
Marked [] (suc n) = ⊥
Marked (none ∷ flags) (suc n) = ⊥
Marked (some b ∷ flags) (suc n) = Marked flags n

pub Marked-array_flag :
    (flags : List (Option Bool)) (n i : ℕ)
    → Marked flags n
    → i < n
    → (b : Bool) × (array_flag flags i ≡ some b)
Marked-array_flag flags zero i m h = elim h [ ]
Marked-array_flag [] (suc n) i m h = absurd m
Marked-array_flag (none ∷ flags) (suc n) i m h = absurd m
Marked-array_flag (some b ∷ flags) (suc n) zero m h = (b, refl)
Marked-array_flag (some b ∷ flags) (suc n) (suc i) m h = Marked-array_flag flags n i m (omega arith)

pub Marked-set :
    (flags : List (Option Bool)) (n : ℕ) (b : Bool)
    → Marked flags n
    → n < length flags
    → Marked (set flags n (some b)) (suc n)
Marked-set [] n b m h = elim h [ ]
Marked-set (x ∷ flags) zero b m h = tt
Marked-set (none ∷ flags) (suc n) b m h = absurd m
Marked-set (some x ∷ flags) (suc n) b m h = Marked-set flags n b m (omega arith)

pub Marked-le : (flags : List (Option Bool)) (m n : ℕ) → Marked flags n → m ≤ n → Marked flags m
Marked-le flags zero n k h = tt
Marked-le flags (suc m) zero k h = elim h [ ]
Marked-le [] (suc m) (suc n) k h = absurd k
Marked-le (none ∷ flags) (suc m) (suc n) k h = absurd k
Marked-le (some b ∷ flags) (suc m) (suc n) k h = Marked-le flags m n k (omega arith)

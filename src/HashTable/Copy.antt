-- ===== src/HashTable/Copy.antt =====
-- What HT_CopyStr leaves in the array: the string, if it is shorter than the array.
use Prim.Native.Nat.{ℕ, zero, suc, ◌+◌, ◌<◌}
use bzcc_scanner.Base.{
  ◌≡◌, refl, ◌∙◌, arith, ap, false, List, [], ◌∷◌, some, ◌==◌, length, All, set, get_elem?, drop,
  length-set, get_elem?-set_self, get_elem?-set_ne,
}
use bzcc_scanner.Base.CText.{until_nul}
use bzcc_scanner.HashTable.Memory.{ht_max_str, copy_loop}

-- A string of C has no terminator inside.
abbrev pub NoNul : List ℕ → Type 0
NoNul s = All (λ c. (c == 0) ≡ false) s

until_nul-drop_nul : (v : List ℕ) (i : ℕ) → get_elem? v i ≡ some 0 → until_nul (drop i v) ≡ []
unfolding until_nul
until_nul-drop_nul [] zero e = refl
until_nul-drop_nul [] (suc i) e = refl
until_nul-drop_nul (x ∷ v) zero e = ground arith
until_nul-drop_nul (x ∷ v) (suc i) e = until_nul-drop_nul v i e

until_nul-drop :
    (v : List ℕ) (i c : ℕ)
    → (c == 0) ≡ false
    → get_elem? v i ≡ some c
    → until_nul (drop i v) ≡ c ∷ until_nul (drop (suc i) v)
unfolding until_nul
until_nul-drop [] i c n e = ground arith
until_nul-drop (x ∷ v) zero c n e = ground arith
until_nul-drop (x ∷ v) (suc i) c n e = until_nul-drop v i c n e

-- The array after the loop from `i` on: its elements in front of `i` are as they were.
pub record Copied (v : List ℕ) (i : ℕ) (s w : List ℕ) : Type 0 where
  pub copied_length : length w ≡ ht_max_str
  pub front : (j : ℕ) → j < i → get_elem? w j ≡ get_elem? v j
  pub copied : until_nul (drop i w) ≡ s

pub copy_loop-Copied :
    (v : List ℕ) (i : ℕ) (s : List ℕ)
    → length v ≡ ht_max_str
    → i + length s < ht_max_str
    → NoNul s
    → (w : List ℕ) × (copy_loop v i s ≡ some w) × Copied v i s w
unfolding copy_loop
copy_loop-Copied v i [] full short nn = (
  set v i 0,
  ground arith,
  record {
    copied_length = length-set v i 0 ∙ full;
    front = λ j lt. get_elem?-set_ne v i j 0 (λ e. omega arith);
    copied = until_nul-drop_nul (set v i 0) i (get_elem?-set_self v i 0 (omega arith));
  },
)
copy_loop-Copied v i (c ∷ s) full short (n, nn) =
    let (w, run, r) =
      copy_loop-Copied (set v i c) (i + 1) s (length-set v i c ∙ full) (omega arith) nn in
    (
      w,
      ground arith,
      record {
        copied_length = r.copied_length;
        front = λ j lt. r.front j (omega arith) ∙ get_elem?-set_ne v i j c (λ e. omega arith);
        copied =
            until_nul-drop w i c n
              (r.front i (omega arith) ∙ get_elem?-set_self v i c (omega arith))
            ∙ ap (λ t. c ∷ t)
                (ap (λ k. until_nul (drop k w)) {x = suc i} {y = i + 1} (omega arith) ∙ r.copied);
      },
    )

-- ===== src/Session/ModLaws.antt =====
-- What `split_raw_mod_ids` does with the text of a list of mods.
use Prim.Native.Nat.{ℕ, ◌+◌, ◌≤◌}
use bzcc_scanner.Base.{
  ◌≡◌, refl, ◌∙◌, subst, Option, none, some, arith, true, false, inl, inr, ◌⊎◌, List, [], ◌∷◌, ◌++◌,
  All, length, length-set, set,
}
use bzcc_scanner.Base.Int.{to_dword}
use bzcc_scanner.Base.CText.{Bytes, is_digit, is_space, atoi}
use bzcc_scanner.Session.Mods.{Split, last_mod_id, split_loop, split_raw_mod_ids, skips_blank}

-- The end of a split that writes nothing outside the array: the array keeps its length, and the number
-- of mods is no more than `max_mods`.
abbrev pub IsSplit : ℕ → List ℕ → Option Split → Type 0
IsSplit max_mods ids none = ⊥
IsSplit max_mods ids (some s) = (s.result ≤ max_mods) × (length s.mod_ids ≡ length ids)

last_mod_id-IsSplit :
    (max_mods index : ℕ) (text : Bytes) (ids : List ℕ)
    → index + 1 ≤ max_mods
    → max_mods ≤ length ids
    → IsSplit max_mods ids (last_mod_id max_mods index text ids)
unfolding last_mod_id
last_mod_id-IsSplit max_mods index text ids h room =
    ground (arith, length-set ids index (to_dword (atoi text)))

skips_nothing : (c : ℕ) (text : Bytes) → skips_blank c text ≡ false
unfolding is_space
skips_nothing c text = ground arith

IsSplit-length :
    (max_mods : ℕ) (ids jds : List ℕ) (o : Option Split)
    → length jds ≡ length ids
    → IsSplit max_mods jds o
    → IsSplit max_mods ids o
IsSplit-length max_mods ids jds none e h = h
IsSplit-length max_mods ids jds (some s) e (h, k) = (h, k ∙ e)

split_loop-IsSplit :
    (max_mods index : ℕ) (text s : Bytes) (ids : List ℕ)
    → index + 1 ≤ max_mods
    → max_mods ≤ length ids
    → IsSplit max_mods ids (split_loop max_mods index text s ids)
unfolding split_loop
split_loop-IsSplit max_mods index text [] ids h room =
    last_mod_id-IsSplit max_mods index text ids h room
split_loop-IsSplit max_mods index text (c ∷ cs) ids h room =
    let jds = set ids index (to_dword (atoi text)) in
    let same = length-set ids index (to_dword (atoi text)) in
    ground (
      arith,
      (λ (lt : index + 2 ≤ max_mods).
          IsSplit-length max_mods ids jds (split_loop max_mods (index + 1) [] cs jds) same (
            split_loop-IsSplit max_mods (index + 1) [] cs jds (omega arith)
              (omega (arith, same, room)))),
      split_loop-IsSplit max_mods index text cs ids h room,
      split_loop-IsSplit max_mods index (text ++ c ∷ []) cs ids h room,
    )

abbrev pub IsModByte : ℕ → Type 0
IsModByte c = (is_digit c ≡ true) ⊎ (c ≡ b';')

-- What was returned is 0, or the bytes are digits and semicolons.
abbrev pub ReadsBytes : Bytes → Option Split → Type 0
ReadsBytes s none = Unit
ReadsBytes s (some r) = (r.result ≡ 0) ⊎ All IsModByte s

ReadsBytes-more :
    (c : ℕ) (s : Bytes) (o : Option Split) → IsModByte c → ReadsBytes s o → ReadsBytes (c ∷ s) o
ReadsBytes-more c s none d h = tt
ReadsBytes-more c s (some r) d (inl z) = inl z
ReadsBytes-more c s (some r) d (inr a) = inr (d, a)

last_mod_id-bytes :
    (max_mods index : ℕ) (text : Bytes) (ids : List ℕ)
    → ReadsBytes [] (last_mod_id max_mods index text ids)
unfolding last_mod_id
last_mod_id-bytes max_mods index text ids = ground arith

split_loop-bytes :
    (max_mods index : ℕ) (text s : Bytes) (ids : List ℕ)
    → ReadsBytes s (split_loop max_mods index text s ids)
unfolding split_loop
split_loop-bytes max_mods index text [] ids = last_mod_id-bytes max_mods index text ids
split_loop-bytes max_mods index text (c ∷ cs) ids =
    let jds = set ids index (to_dword (atoi text)) in
    let item = split_loop max_mods (index + 1) [] cs jds in
    let digit = split_loop max_mods index (text ++ c ∷ []) cs ids in
    ground (
      arith,
      (λ (e : c ≡ b';').
          ReadsBytes-more c cs item (inr e) (split_loop-bytes max_mods (index + 1) [] cs jds)),
      (λ (e : is_digit c ≡ true).
          ReadsBytes-more c cs digit (inl e)
            (split_loop-bytes max_mods index (text ++ c ∷ []) cs ids)),
      skips_nothing c text,
    )

split_of :
    (max_mods : ℕ) (ids : List ℕ) (o : Option Split)
    → IsSplit max_mods ids o
    → (r : Split) × (o ≡ some r) × (r.result ≤ max_mods) × (length r.mod_ids ≡ length ids)
split_of max_mods ids none h = absurd h
split_of max_mods ids (some r) (h, k) = (r, refl, h, k)

-- `split_raw_mod_ids`, with `max_mods` one or more and an array of that size, writes no element
-- outside the array: it returns, the array keeps its length, and the number of mods that is returned
-- is no more than `max_mods`.
pub split_raw_mod_ids_bound :
    (max_mods : ℕ) (s : Bytes) (ids : List ℕ)
    → 1 ≤ max_mods
    → max_mods ≤ length ids
    → (r : Split) × (split_raw_mod_ids max_mods s ids ≡ some r)
      × (r.result ≤ max_mods)
      × (length r.mod_ids ≡ length ids)
unfolding split_raw_mod_ids
split_raw_mod_ids_bound max_mods s ids h room =
    split_of max_mods ids _ (split_loop-IsSplit max_mods 0 [] s ids h room)

-- Where `split_raw_mod_ids` returns, it returns 0 unless every byte of the text is a digit or a
-- semicolon: a blank is skipped nowhere.
pub split_raw_mod_ids_bytes :
    (max_mods : ℕ) (s : Bytes) (ids : List ℕ) {r : Split}
    → split_raw_mod_ids max_mods s ids ≡ some r
    → (r.result ≡ 0) ⊎ All IsModByte s
unfolding split_raw_mod_ids
split_raw_mod_ids_bytes max_mods s ids e =
    subst (ReadsBytes s) e (split_loop-bytes max_mods 0 [] s ids)

-- ===== src/Session/Mods.antt =====
-- `split_raw_mod_ids`: the list of numbers in the "mm" text of a server.
use bzcc_scanner.Base.{
  ℕ, ◌+◌, Option, none, some, ltb, Bool, ◌&&◌, not, List, [], ◌∷◌, ◌++◌, leb, ◌==◌, if◌then◌else◌,
  length, set,
}
use bzcc_scanner.Base.Int.{to_dword}
use bzcc_scanner.Base.CText.{Bytes, is_digit, is_space, atoi}

abbrev pub mod_id_strlen : ℕ
mod_id_strlen = 16

-- `isspace(mm_string[i] && len == 0)`: the argument is 0 or 1.
abbrev pub skips_blank : ℕ → Bytes → Bool
skips_blank c text = is_space (if not (c == 0) && length text == 0 then 1 else 0)

-- The array `mod_ids` and what the function returns.
pub record Split : Type 0 where
  pub mod_ids : List ℕ
  pub result : ℕ

-- The end of the function: the number behind the last semicolon. Here and in the loop, `none` is a
-- write behind the array.
unfoldable pub last_mod_id : ℕ → ℕ → Bytes → List ℕ → Option Split
unfolding atoi
last_mod_id max_mods index text ids =
    if leb max_mods (index + 1)
    then some (record { mod_ids = ids; result = 1 })
    else if ltb index (length ids)
    then some (record { mod_ids = set ids index (to_dword (atoi text)); result = index + 1 })
    else none

-- The loop, with `mod_id_string` up to its length as `text`.
unfoldable pub split_loop : ℕ → ℕ → Bytes → Bytes → List ℕ → Option Split
unfolding last_mod_id atoi is_digit is_space
split_loop max_mods index text [] ids = last_mod_id max_mods index text ids
split_loop max_mods index text (c ∷ cs) ids =
    let new_item = split_loop max_mods (index + 1) [] cs (set ids index (to_dword (atoi text))) in
    let same_item = split_loop max_mods index text cs ids in
    let digit = split_loop max_mods index (text ++ c ∷ []) cs ids in
    let invalid : Option Split = some (record { mod_ids = ids; result = 0 }) in
    if c == b';'
    then if leb max_mods (index + 1)
      then invalid
      else if ltb index (length ids)
      then new_item
      else none
    else if skips_blank c text
    then same_item
    else if is_digit c
    then if leb mod_id_strlen (length text + 1) then invalid else digit
    else invalid

unfoldable pub split_raw_mod_ids : ℕ → Bytes → List ℕ → Option Split
unfolding split_loop
split_raw_mod_ids max_mods mm_string ids = split_loop max_mods 0 [] mm_string ids

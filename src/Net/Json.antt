-- ===== src/Net/Json.antt =====
-- The JSON branches of the loop in `parse_data`, one function for each value of `j_state`.
-- Where the C code falls through to EXPECT_NEXT, the function calls `step_next`.
use Prim.Native.Nat.{ℕ, ◌+◌, ◌-◌}
use bzcc_scanner.Base.{
  Bool, true, false, ◌||◌, none, some, [], ◌∷◌, leb, ◌==◌, if◌then◌else◌, length,
}
use bzcc_scanner.Base.CText.{Bytes, codes, is_alnum, is_space}
use bzcc_scanner.Net.Kvi.{
  expected_root_start, expected_key_name, expected_separator, expected_value, expected_root_end,
  unexpected_symbol, unexpected_line_break, depth_exceeded, key_name_overflow, generic_buflen,
  max_depth,
}
use bzcc_scanner.Net.Parser.{
  key_name, key_sep, value_start, read_value, next, root_end, Parser, Outcome, continue, stop,
  fault, fail, array_flag, put_name, put_value, mark_depth, store_name,
}

-- JSON_WORD_WHITELIST; the scan of it ends at its NUL.
abbrev json_word_whitelist : Bytes
json_word_whitelist = codes ".-!@#$%^&*+="

contains : ℕ → Bytes → Bool
contains c [] = false
contains c (x ∷ xs) = c == x || contains c xs

unfoldable pub is_word_char : ℕ → Bool
unfolding contains is_alnum
is_word_char c = is_alnum c || contains c json_word_whitelist

-- The slots count the server and player objects that have been closed.
unfoldable pub count_object : Parser → Parser
count_object p =
    if p.depth == 3
    then record p { server_slot = p.server_slot + 1; player_slot = 0 }
    else if p.depth == 5
    then record p { player_slot = p.player_slot + 1 }
    else p

module _ {S : Type 0} where
  -- EXPECT_ROOT_START
  unfoldable pub step_root_start : Parser → ℕ → S → Outcome S
  unfolding mark_depth is_space
  step_root_start p c s =
      if c == b'{'
      then elim (mark_depth false p) [
        | none ↦ fault
        | some q ↦ continue (record q { j_state = key_name; depth = q.depth + 1 }) s
      ]
      else if is_space c
      then continue p s
      else fail p s (expected_root_start c p.json_len)

  -- EXPECT_ROOT_END, and the message at the end of the chain of tests.
  unfoldable pub step_root_end : Parser → ℕ → S → Outcome S
  unfolding is_space
  step_root_end p c s =
      if is_space c
      then continue p s
      else if c == b'}'
      then stop 0 p.kvi s
      else fail p s (expected_root_end c p.json_len)

  -- `]`: the flag that is read back is that of the array just closed.
  unfoldable pub close_array : Parser → S → Outcome S
  close_array p s =
      let d = p.depth - 1 in
      if d == 0
      then continue (record p { depth = d; j_state = root_end }) s
      else elim (array_flag p.is_array d) [
        | none ↦ fault
        | some flag ↦
            continue (record p { depth = d; j_state = if flag then value_start else key_name }) s
      ]

  -- `}`: the flag that is read back is that of the block around.
  unfoldable pub close_object : Parser → S → Outcome S
  unfolding count_object
  close_object p s =
      let q = count_object p in
      let d = q.depth - 1 in
      if d == 0
      then continue (record q { depth = d; j_state = root_end }) s
      else elim (array_flag q.is_array (d - 1)) [
        | none ↦ fault
        | some flag ↦
            continue (record q { depth = d; j_state = if flag then value_start else key_name }) s
      ]

  -- A byte that EXPECT_NEXT takes in neither branch.
  unfoldable pub skip_or_fail : Parser → ℕ → S → Outcome S
  unfolding is_space
  skip_or_fail p c s =
      if is_space c then continue p s else fail p s (unexpected_symbol c p.json_len)

  unfoldable pub next_in : Bool → Parser → ℕ → S → Outcome S
  unfolding close_array close_object skip_or_fail
  next_in true p c s =
      if c == b','
      then continue (record p { name = []; j_state = value_start }) s
      else if c == b']'
      then close_array p s
      else skip_or_fail p c s
  next_in false p c s =
      if c == b','
      then continue (record p { name = []; value = []; j_state = key_name }) s
      else if c == b'}'
      then close_object p s
      else skip_or_fail p c s

  -- EXPECT_NEXT; `is_array[depth-1]` at depth 0 is out of range.
  unfoldable pub step_next : Parser → ℕ → S → Outcome S
  unfolding next_in
  step_next p c s = if p.depth == 0 then fault else elim (array_flag p.is_array (p.depth - 1)) [
    | none ↦ fault
    | some flag ↦ next_in flag p c s
  ]

  -- EXPECT_KEY_NAME inside the quotes.
  unfoldable pub quoted_key_name : Parser → ℕ → S → Outcome S
  quoted_key_name p c s =
      if c == b'"'
      then continue (record p { in_quote = false; j_state = key_sep }) s
      else if c == 10 || c == 13
      then fail p s (unexpected_line_break p.json_len)
      else if leb generic_buflen (length p.name + 1)
      then fail p s key_name_overflow
      else put_name p c s

  -- EXPECT_KEY_NAME
  unfoldable pub step_key_name : Parser → ℕ → S → Outcome S
  unfolding quoted_key_name step_next is_space
  step_key_name p c s =
      if p.in_quote
      then quoted_key_name p c s
      else if c == b'"'
      then continue (record p { in_quote = true }) s
      else if is_space c
      then continue p s
      else if c == b'}'
      then step_next (record p { j_state = next }) c s
      else fail p s (expected_key_name c p.json_len)

  -- EXPECT_KEY_SEP
  unfoldable pub step_key_sep : Parser → ℕ → S → Outcome S
  unfolding is_space
  step_key_sep p c s =
      if c == b':'
      then continue (record p { j_state = value_start }) s
      else if is_space c
      then continue p s
      else fail p s (expected_separator c p.json_len)

  -- `[` or `{` in EXPECT_VALUE; `is_array[depth]` is written before the depth is tested.
  unfoldable pub open_block : Bool → Parser → S → Outcome S
  unfolding mark_depth store_name
  open_block array p s = elim (mark_depth array p) [
    | none ↦ fault
    | some q ↦
        if leb max_depth (q.depth + 1)
        then fail q s (depth_exceeded q.json_len)
        else elim (store_name q) [
          | none ↦ fault
          | some r ↦
              continue
                (record r {
                  j_state = if array then value_start else key_name;
                  depth = r.depth + 1;
                  name = [];
                })
                s
        ]
  ]

  -- EXPECT_VALUE. The first byte of a plain value is stored with no test of the length.
  unfoldable pub step_value : Parser → ℕ → S → Outcome S
  unfolding open_block step_next is_space
  step_value p c s =
      if c == b'"'
      then continue (record p { in_quote = true; value_complete = false; j_state = read_value }) s
      else if is_word_char c
      then put_value (record p { value_complete = false; j_state = read_value }) c s
      else if c == b'[' || c == b'{'
      then open_block (c == b'[') p s
      else if is_space c
      then continue p s
      else if c == b',' || (c == b'}' || c == b']')
      then step_next (record p { j_state = next }) c s
      else fail p s (expected_value c p.json_len)

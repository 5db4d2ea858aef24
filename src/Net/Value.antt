-- ===== src/Net/Value.antt =====
-- The branch EXPECT_READ_VALUE of `parse_data`, and the choice among the JSON branches.
use Prim.Native.Nat.{ℕ, ◌+◌, ◌%◌, ◌^◌}
use bzcc_scanner.Base.{
  true, false, not, ◌&&◌, ◌||◌, Option, none, some, [], ltb, leb, ◌==◌, if◌then◌else◌, length,
}
use bzcc_scanner.Base.CText.{is_space, until_nul}
use bzcc_scanner.Net.Kvi.{
  normal, last, unexpected_line_break, value_overflow, invalid_escape, unexpected_in_value,
  generic_buflen,
}
use bzcc_scanner.Net.Parser.{
  JState, root_start, key_name, key_sep, value_start, read_value, next, root_end, Parser, Callback,
  Outcome, continue, stop, ◌>>=◌, fail, put_value, emit,
}
use bzcc_scanner.Net.Json.{
  is_word_char, step_root_start, step_root_end, step_next, step_key_name, step_key_sep, step_value,
}

-- The switch on the byte behind a backslash.
unfoldable pub unescape : ℕ → Option ℕ
unescape c =
    if c == b'"' || c == 92
    then some c
    else if c == b'r'
    then some 13
    else if c == b'n'
    then some 10
    else if c == b't'
    then some 9
    else none

module _ {S : Type 0} where
  unfoldable pub append_value : Parser → ℕ → S → Outcome S
  append_value p c s =
      if leb generic_buflen (length p.value + 1) then fail p s value_overflow else put_value p c s

  unfoldable pub escaped_byte : Parser → ℕ → S → Outcome S
  unfolding unescape append_value
  escaped_byte p c s = elim (unescape c) [
    | none ↦ fail p s (invalid_escape c p.json_len)
    | some d ↦ append_value (record p { in_escape = false }) d s
  ]

module _ {S : Type 0} (callback : Callback S) where
  -- The end of a quoted value: the pair is reported and the buffers are cleared.
  unfoldable pub end_quoted : Parser → S → Outcome S
  unfolding emit
  end_quoted p s =
      emit callback normal (record p { in_quote = false; value_complete = true }) s >>= λ q t.
      continue (record q { name = []; value = []; j_state = next }) t

  unfoldable pub quoted_byte : Parser → ℕ → S → Outcome S
  unfolding end_quoted append_value
  quoted_byte p c s =
      if c == b'"'
      then end_quoted p s
      else if c == 10 || c == 13
      then fail p s (unexpected_line_break p.json_len)
      else if c == 92
      then continue (record p { in_escape = true }) s
      else append_value p c s

  -- The end of a plain value, at `,`, `}` or `]`, which EXPECT_NEXT then reads too.
  unfoldable pub end_plain : Parser → ℕ → S → Outcome S
  unfolding emit step_next
  end_plain p c s =
      emit callback (if c == b'}' then last else normal) (record p { value_complete = true }) s
      >>= λ q t. step_next (record q { name = []; value = []; j_state = next }) c t

  unfoldable pub plain_byte : Parser → ℕ → S → Outcome S
  unfolding append_value end_plain is_space is_word_char until_nul
  plain_byte p c s =
      if is_word_char c
      then append_value p c s
      else if is_space c
      then continue
          (record p { value_complete = if ltb 0 (length p.value) then true else p.value_complete })
          s
      else if c == b',' || (c == b'}' || c == b']')
      then end_plain p c s
      else fail p s (unexpected_in_value c (until_nul p.value) p.json_len)

  -- EXPECT_READ_VALUE
  unfoldable pub step_read_value : Parser → ℕ → S → Outcome S
  unfolding quoted_byte plain_byte escaped_byte
  step_read_value p c s =
      if p.in_quote
      then if p.in_escape then escaped_byte p c s else quoted_byte p c s
      else plain_byte p c s

  unfoldable pub step_state : JState → Parser → ℕ → S → Outcome S
  unfolding step_root_start step_key_name step_key_sep step_value step_read_value step_next
      step_root_end
  step_state root_start p c s = step_root_start p c s
  step_state key_name p c s = step_key_name p c s
  step_state key_sep p c s = step_key_sep p c s
  step_state value_start p c s = step_value p c s
  step_state read_value p c s = step_read_value p c s
  step_state next p c s = step_next p c s
  step_state root_end p c s = step_root_end p c s

  -- `state == READING_JSON`: count the byte, stop at the announced length, or read the byte.
  unfoldable pub step_json : Parser → ℕ → S → Outcome S
  unfolding step_state
  step_json p c s =
      let q = record p { json_len = (p.json_len + 1) % 2 ^ 32 } in
      if not (q.content_length == 0) && leb q.content_length q.json_len
      then stop 0 q.kvi s
      else step_state q.j_state q c s

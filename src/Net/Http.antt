-- ===== src/Net/Http.antt =====
-- The HTTP branches of the loop in `parse_data`, and one whole round of the loop.
use Prim.Native.Nat.{ℕ, ◌+◌, ◌-◌}
use bzcc_scanner.Base.{Bool, false, ◌&&◌, [], ◌∷◌, ltb, leb, ◌==◌, if◌then◌else◌, length, drop}
use bzcc_scanner.Base.Int.{to_dword}
use bzcc_scanner.Base.CText.{Bytes, codes, is_space, until_nul, same_ignoring_case, atoi}
use bzcc_scanner.Net.Kvi.{
  expected_200_ok, header_name_overflow, header_value_overflow, generic_buflen,
}
use bzcc_scanner.Net.Parser.{
  Mode, http_header, header_name, header_value, json, Parser, Callback, Outcome, continue, fault,
  fail, put_name, put_value,
}
use bzcc_scanner.Net.Value.{step_json}

-- `len > 0 && buf[len-1] == '\r'`
unfoldable pub ends_in_cr : Bytes → Bool
ends_in_cr [] = false
ends_in_cr (c ∷ []) = c == 13
ends_in_cr (c ∷ (d ∷ cs)) = ends_in_cr (d ∷ cs)

-- The string after `buf[len-1] = '\0'`.
unfoldable pub drop_last : Bytes → Bytes
drop_last [] = []
drop_last (c ∷ []) = []
drop_last (c ∷ (d ∷ cs)) = c ∷ drop_last (d ∷ cs)

module _ {S : Type 0} where
  -- The end of the status line. `name + strlen(name) - 6` lies before the buffer if the line is
  -- shorter than six bytes.
  unfoldable pub end_status_line : Parser → Bytes → S → Outcome S
  unfolding same_ignoring_case
  end_status_line p line s =
      if ltb (length line) 6
      then fault
      else if same_ignoring_case (drop (length line - 6) line) (codes "200 OK")
      then continue (record p { mode = header_name; name = [] }) s
      else fail p s (expected_200_ok line)

  unfoldable pub append_name : Parser → ℕ → S → Outcome S
  append_name p c s =
      if leb generic_buflen (length p.name + 1)
      then fail p s header_name_overflow
      else put_name p c s

  -- READING_HTTP_HEADER
  unfoldable pub step_http_header : Parser → ℕ → S → Outcome S
  unfolding end_status_line append_name ends_in_cr drop_last until_nul
  step_http_header p c s =
      if c == 10 && ends_in_cr p.name
      then end_status_line p (until_nul (drop_last p.name)) s
      else append_name p c s

  -- READING_HTTP_HEADER_NAME
  unfoldable pub step_header_name : Parser → ℕ → S → Outcome S
  unfolding append_name ends_in_cr is_space
  step_header_name p c s =
      if c == 13
      then append_name p c s
      else if c == 10 && ends_in_cr p.name
      then continue (record p { mode = json; name = [] }) s
      else if is_space c && length p.name == 0
      then continue p s
      else if c == b':'
      then continue (record p { mode = header_value }) s
      else append_name p c s

  -- The end of a header: only Content-Length is used.
  unfoldable pub end_header : Parser → S → Outcome S
  unfolding same_ignoring_case until_nul drop_last atoi
  end_header p s =
      continue
        (record p {
          mode = header_name;
          content_length =
              if same_ignoring_case (until_nul p.name) (codes "Content-Length")
              then to_dword (atoi (until_nul (drop_last p.value)))
              else p.content_length;
          name = [];
          value = [];
        })
        s

  -- READING_HTTP_HEADER_VALUE
  unfoldable pub step_header_value : Parser → ℕ → S → Outcome S
  unfolding end_header ends_in_cr is_space
  step_header_value p c s =
      if c == 10 && ends_in_cr p.value
      then end_header p s
      else if is_space c && length p.value == 0
      then continue p s
      else if leb generic_buflen (length p.value + 1)
      then fail p s header_value_overflow
      else put_value p c s

module _ {S : Type 0} (callback : Callback S) where
  unfoldable pub step_mode : Mode → Parser → ℕ → S → Outcome S
  unfolding step_http_header step_header_name step_header_value step_json
  step_mode http_header p c s = step_http_header p c s
  step_mode header_name p c s = step_header_name p c s
  step_mode header_value p c s = step_header_value p c s
  step_mode json p c s = step_json callback p c s

  -- One round of `for (int i=0; i<bri->received; i+=1)`.
  abbrev pub step : Parser → ℕ → S → Outcome S
  step p c s = step_mode p.mode p c s

-- ===== src/Net/Kvi.antt =====
-- bzccnet.h: what the reader hands to its callback, and the messages that `err` receives.
-- A message keeps its arguments; the text that `snwprintf` makes of them is not modelled.
use bzcc_scanner.Base.{ℕ, Bool, false, ◌++◌, replicate}
use bzcc_scanner.Base.CText.{Bytes, le_bytes, until_nul}

abbrev pub generic_buflen : ℕ
generic_buflen = 1024

abbrev pub max_depth : ℕ
max_depth = 6

abbrev pub json_name_len : ℕ
json_name_len = 8

abbrev pub key_str_len : ℕ
key_str_len = 32

abbrev pub value_str_len : ℕ
value_str_len = 512

-- KVI_STATUS_NORMAL, KVI_STATUS_LAST, KVI_STATUS_COMPLETE, KVI_STATUS_ERROR
pub data Status : Type 0 where
  normal last complete error : Status

-- Positions are `json_len` at the failure.
pub data Message : Type 0 where
  no_message : Message
  recv_timed_out recv_error read_error : ℕ → Message
  expected_root_start expected_key_name expected_separator : (c position : ℕ) → Message
  expected_value expected_root_end unexpected_symbol : (c position : ℕ) → Message
  unexpected_line_break depth_exceeded : (position : ℕ) → Message
  key_name_overflow value_overflow header_name_overflow header_value_overflow : Message
  invalid_escape : (c position : ℕ) → Message
  unexpected_in_value : (c : ℕ) → (value : Bytes) → (position : ℕ) → Message
  expected_200_ok : (line : Bytes) → Message
  startup_failed getaddrinfo_failed socket_failed send_failed : ℕ → Message
  connect_failed : Message
  create_file_failed : ℕ → Message
  index_out_of_range skipped_server_index skipped_player_index : Message

-- `key_str` and `value_str` are the whole arrays.
pub record Kvi : Type 0 where
  pub status : Status
  pub err : Message
  pub is_player : Bool
  pub key_str : Bytes
  pub value_str : Bytes
  pub server_index : ℕ
  pub player_index : ℕ

-- After `ZeroMemory(pKvi, sizeof(KeyValueInfo))`.
abbrev pub zero_kvi : Kvi
zero_kvi = record {
  status = normal;
  err = no_message;
  is_player = false;
  key_str = replicate key_str_len 0;
  value_str = replicate value_str_len 0;
  server_index = 0;
  player_index = 0;
}

-- The C strings at `key_str` and `value_str`. `strncpy` leaves a full array unterminated, and the
-- string then runs on into the fields behind it.
unfoldable pub value_string : Kvi → Bytes
unfolding until_nul
value_string k = until_nul (k.value_str ++ (le_bytes k.server_index ++ le_bytes k.player_index))

unfoldable pub key_string : Kvi → Bytes
unfolding until_nul
key_string k =
    until_nul (k.key_str ++ (k.value_str ++ (le_bytes k.server_index ++ le_bytes k.player_index)))

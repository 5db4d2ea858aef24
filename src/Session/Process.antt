-- ===== src/Session/Process.antt =====
-- `ProcessSessionInfo`, the callback of the scan. After `lost` or `untyped` the
-- program has crashed.
use bzcc_scanner.Base.{
  Bool, ℕ, ◌+◌, true, false, not, ◌||◌, Option, none, some, if◌then◌else◌, get_elem?, set, leb,
}
use bzcc_scanner.Net.Kvi.{
  Status, Kvi, normal, last, complete, error, Message, index_out_of_range, skipped_server_index,
  skipped_player_index, key_string, value_string,
}
use bzcc_scanner.Net.Parser.{Reply}
use bzcc_scanner.Session.Info.{zero_player, zero_game, max_servers, max_players}
use bzcc_scanner.Session.Keys.{player_keys, server_keys, get_key_identifier}
use bzcc_scanner.Session.State.{
  Entered, entered, skipped, null_pointer, no_description, Progress, going, lost, untyped, and_then,
  Session, try_change_game, change_player, change_player_at,
}
use bzcc_scanner.Session.Fields.{Library, set_player_field, set_game_field}
use bzcc_scanner.Session.Last.{end_player, end_server}
use bzcc_scanner.Session.Closing.{closing}

-- The next server begins.
unfoldable pub enter_server : ℕ → Session → Entered
enter_server i s =
    let count = s.scan_count_servers in
    if leb count i
    then if leb (count + 1) i then skipped else elim (get_elem? s.gameinfo i) [
      | none ↦ null_pointer
      | some g ↦ entered (record s {
        scan_count_servers = count + 1;
        scan_count_players = 0;
        scan_game = some i;
        gameinfo = set s.gameinfo i zero_game;
      })
    ]
    else entered s

-- The player `j` of the game `i`, which is `scan_game`.
unfoldable pub enter_player_of : ℕ → ℕ → Session → Entered
unfolding change_player_at
enter_player_of i j s =
    let count = s.scan_count_players in
    if leb count j
    then if leb (count + 1) j
      then skipped
      else and_then null_pointer (change_player_at i j (λ p. zero_player) s)
          (λ s1. entered (record s1 { scan_count_players = count + 1; scan_player = some (i, j) }))
    else entered s

abbrev pub go_on : Entered → (Session → Entered) → Entered
go_on (entered s) f = f s
go_on skipped f = skipped
go_on null_pointer f = null_pointer
go_on (no_description z) f = no_description z

-- Player data of the server that `scan_game` points to.
unfoldable pub player_data : Library → Kvi → ℕ → Session → Entered
unfolding enter_player_of key_string value_string get_key_identifier set_player_field change_player
    end_player
player_data lib k i s = go_on (enter_player_of i k.player_index s) (λ s1.
    let id = get_key_identifier (key_string k) player_keys in
    and_then null_pointer (change_player (set_player_field lib id (value_string k)) s1)
      (λ s2. and_then null_pointer (end_player k.status s2) entered))

-- Server data.
unfoldable pub server_data : Library → Kvi → Session → Entered
unfolding key_string value_string get_key_identifier set_game_field try_change_game end_server
server_data lib k s =
    let id = get_key_identifier (key_string k) server_keys in
    and_then null_pointer (try_change_game (set_game_field lib id (value_string k)) s)
      (λ s1. end_server k.status s1)

-- `return 1`, with a message or without.
abbrev pub refuse : Kvi → Session → Reply Progress
refuse k s = record { kvi = k; state = going s; code = 1 }

abbrev pub refuse_with : Message → Kvi → Session → Reply Progress
refuse_with m k s = record { kvi = record k { err = m }; state = going s; code = 1 }

-- The return of a callback that went on in `o`, with the message if an index was skipped.
abbrev pub reply_of : Message → Kvi → Session → Entered → Reply Progress
reply_of m k s skipped = refuse_with m k s
reply_of m k s null_pointer = record { kvi = k; state = lost; code = 1 }
reply_of m k s (no_description z) = record { kvi = k; state = untyped z; code = 1 }
reply_of m k s (entered s1) = record { kvi = k; state = going s1; code = 0 }

-- The two halves of the callback, for the values of `is_player` and `scan_game`.
unfoldable pub in_half : Library → Kvi → Bool → Option ℕ → Session → Reply Progress
unfolding player_data server_data
in_half lib k false game s = reply_of skipped_player_index k s (server_data lib k s)
in_half lib k true none s = refuse k s
in_half lib k true (some i) s = reply_of skipped_player_index k s (player_data lib k i s)

-- The part of the callback behind the tests of the server's index.
unfoldable pub in_server : Library → Kvi → Session → Reply Progress
unfolding in_half
in_server lib k s = in_half lib k k.is_player s.scan_game s

abbrev pub after_server : Library → Kvi → Session → Entered → Reply Progress
after_server lib k s skipped = refuse_with skipped_server_index k s
after_server lib k s null_pointer = record { kvi = k; state = lost; code = 1 }
after_server lib k s (no_description z) = record { kvi = k; state = untyped z; code = 1 }
after_server lib k s (entered s1) = in_server lib k s1

-- The callback for one value.
unfoldable pub process_value : Library → Kvi → Session → Reply Progress
unfolding enter_server in_server
process_value lib k s =
    if not s.continue_scan
    then refuse k s
    else if leb max_servers k.server_index || leb max_players k.player_index
    then refuse_with index_out_of_range k s
    else after_server lib k s (enter_server k.server_index s)

-- The callback at the end of the scan.
unfoldable pub process_end : Kvi → Session → Reply Progress
unfolding closing
process_end k s = refuse k (closing k s)

unfoldable pub process_status : Library → Kvi → Status → Session → Reply Progress
unfolding process_value process_end
process_status lib k complete s = process_end k s
process_status lib k error s = process_end k s
process_status lib k normal s = process_value lib k s
process_status lib k last s = process_value lib k s

unfoldable pub process_session_info : Library → Kvi → Progress → Reply Progress
unfolding process_status
process_session_info lib k lost = record { kvi = k; state = lost; code = 1 }
process_session_info lib k (untyped z) = record { kvi = k; state = untyped z; code = 1 }
process_session_info lib k (going s) = process_status lib k k.status s

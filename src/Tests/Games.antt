-- ===== src/Tests/Games.antt =====
-- ProcessSessionInfo on a new session and on a full server.
use Prim.Native.Nat.{ℕ, zero, suc, ◌≤◌}
use bzcc_scanner.Base.{
  ◌≡◌, refl, arith, inl, List, [], ◌∷◌, some, none, true, false, replicate, length, All, ◌⊎◌, ◌↔◌,
  take,
}
use bzcc_scanner.Base.CText.{codes, is_digit, is_space, atoi}
use bzcc_scanner.Net.Kvi.{zero_kvi}
use bzcc_scanner.Net.Json.{is_word_char}
use bzcc_scanner.Net.Stream.{Read, got, parse_data}
use bzcc_scanner.Net.Chunks.{received, ending}
use bzcc_scanner.Net.Document.Shape.{Field, plain, field, players, Server, print_list}
use bzcc_scanner.Net.Document.Fits.{KeyFits, FieldFits, ServerFits}
use bzcc_scanner.Session.Info.{zero_game, max_servers, max_players}
use bzcc_scanner.Session.State.{Session, going}
use bzcc_scanner.Session.Fields.{Library}
use bzcc_scanner.Session.Process.{process_session_info}
use bzcc_scanner.Session.Mods.{Split, split_raw_mod_ids, split_loop, last_mod_id}
use bzcc_scanner.Session.ModLaws.{IsModByte, split_raw_mod_ids_bound, split_raw_mod_ids_bytes}
use bzcc_scanner.Session.Keys.{get_game_type_description}
use bzcc_scanner.Session.KeyLaws.{Unlisted, get_game_type_description-Unlisted}
use bzcc_scanner.Base.Int.{pos}
use bzcc_scanner.Session.Valid.{IsSession, HasArrays}
use bzcc_scanner.Session.Keeps.{Holds}
use bzcc_scanner.Session.Sound.{process_session_info-Holds}
use bzcc_scanner.Session.Full.{Fails, full_server-Fails}

-- A library whose decoding changes nothing and that widens byte for byte.
abbrev pub library : Library
library = record { decode = λ bytes size. some bytes; widen = λ bytes size. take size bytes }

abbrev pub new_session : Session
new_session = record {
  continue_scan = true;
  gameinfo = replicate max_servers zero_game;
  gameinfo_prev = replicate max_servers zero_game;
  gameinfo_prev_count = 0;
  scan_count_servers = 0;
  scan_game = none;
  scan_count_players = 0;
  scan_player = none;
  total_player_count = 0;
  remember_sort = false;
  sort_column = none;
  player_selected = false;
  events = [];
}

All-replicate : {A : Type 0} (P : A → Type 0) (n : ℕ) (x : A) → P x → All P (replicate n x)
All-replicate P zero x p = tt
All-replicate P (suc n) x p = (p, All-replicate P n x p)

pub new_session-IsSession : IsSession new_session
new_session-IsSession = record {
  games_length = refl;
  arrays_lengths = All-replicate HasArrays max_servers zero_game (refl, refl);
  servers_bound = omega arith;
  players_bound = omega arith;
  game_pointer = inl refl;
  player_pointer = inl refl;
}

process_session_info-Holds_example :
    Holds (process_session_info library zero_kvi (going new_session)).state
process_session_info-Holds_example =
    process_session_info-Holds library zero_kvi new_session new_session-IsSession

split_raw_mod_ids_bound_example :
    (r : Split) × (split_raw_mod_ids 2 (codes "12;34;56") (0 ∷ 0 ∷ []) ≡ some r)
    × (r.result ≤ 2)
    × (length r.mod_ids ≡ length {A = ℕ} (0 ∷ 0 ∷ []))
split_raw_mod_ids_bound_example =
    split_raw_mod_ids_bound 2 (codes "12;34;56") (0 ∷ 0 ∷ []) (omega arith) (omega arith)

split_blank :
    split_raw_mod_ids 2 (codes "12; 34") (0 ∷ 0 ∷ [])
    ≡ some (record { mod_ids = 12 ∷ 0 ∷ []; result = 0 })
unfolding split_raw_mod_ids split_loop last_mod_id is_digit is_space atoi
split_blank = refl

abbrev blank_split : Split
blank_split = record { mod_ids = 12 ∷ 0 ∷ []; result = 0 }

split_raw_mod_ids_bytes_example : (blank_split.result ≡ 0) ⊎ All IsModByte (codes "12; 34")
split_raw_mod_ids_bytes_example =
    split_raw_mod_ids_bytes 2 (codes "12; 34") (0 ∷ 0 ∷ []) split_blank

abbrev team_field : Field
team_field = record { key = codes "t"; value = plain (codes "1") }

abbrev sixteen : List (List Field)
sixteen = replicate max_players (team_field ∷ [])

abbrev full_list : List Server
full_list = (field team_field ∷ players (codes "pl") sixteen ∷ field team_field ∷ []) ∷ []

abbrev full_reads : List Read
full_reads = got (print_list (codes "GET") full_list) ∷ []

team_field-fits : FieldFits team_field
unfolding is_word_char
team_field-fits = record {
  key_fits = record { bytes = (refl, tt); room = omega arith };
  value_fits = ((refl, tt), omega arith);
}

pl-fits : KeyFits (codes "pl")
pl-fits = record { bytes = (refl, (refl, tt)); room = omega arith }

get-fits : KeyFits (codes "GET")
get-fits = record { bytes = (refl, (refl, (refl, tt))); room = omega arith }

sixteen-fit : All (All FieldFits) sixteen
sixteen-fit = All-replicate (All FieldFits) max_players (team_field ∷ []) (team_field-fits, tt)

full_list-fit : All ServerFits full_list
full_list-fit = ((team_field-fits, ((pl-fits, sixteen-fit), (team_field-fits, tt))), tt)

full_reads-received : received full_reads ≡ print_list (codes "GET") full_list
unfolding received
full_reads-received = refl

full_reads-ending : ending full_reads ≡ none
unfolding ending
full_reads-ending = refl

full_server-Fails_example :
    Fails (parse_data (process_session_info library) false full_reads (going new_session))
full_server-Fails_example =
    full_server-Fails library (codes "GET") (codes "pl") sixteen team_field (field team_field ∷ [])
      [] [] [] full_reads (going new_session) get-fits full_list-fit full_reads-received
      full_reads-ending (omega arith)

get_game_type_description-Unlisted_example :
    (get_game_type_description (pos 3) ≡ none) ↔ Unlisted (pos 3)
get_game_type_description-Unlisted_example = get_game_type_description-Unlisted (pos 3)

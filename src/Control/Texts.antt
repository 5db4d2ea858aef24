-- ===== src/Control/Texts.antt =====
-- bzccscanner.c: the texts that are shown. GameInfoToRow, GetGameTitle, the list of mods and the
-- text of a server in WndProc, SetGeneralStatus and SetPlayerStatus.
use bzcc_scanner.Base.{
  ℕ, ◌+◌, ◌-◌, Bool, true, false, Option, none, some, List, [], ◌∷◌, ◌++◌, ◌==◌, if◌then◌else◌,
  length,
}
use bzcc_scanner.Base.Int.{ℤ, pos, negsuc}
use bzcc_scanner.Base.CText.{codes}
use bzcc_scanner.Session.Info.{GameInfo, PlayerInfo, fitted}
use bzcc_scanner.Session.Keys.{get_game_type_description}
use bzcc_scanner.Session.State.{decimal}
use bzcc_scanner.Settings.Registry.{Text}

-- `"%d"`
unfoldable pub signed : ℤ → Text
unfolding decimal
signed (pos n) = decimal n
signed (negsuc n) = b'-' ∷ decimal (n + 1)

abbrev pub crlf : Text
crlf = 13 ∷ 10 ∷ []

-- The buffer of the list of mods: what is written, for the identifiers from one on. `snwprintf` has
-- the room that is left behind the `offset` characters in front.
unfoldable pub mod_lines : (offset : ℕ) → List ℕ → Text
unfolding decimal
mod_lines offset [] = []
mod_lines offset (id ∷ ids) =
    let line = decimal id ++ crlf in
    let rest = mod_lines (offset + length line) ids in
    if id == 0 then [] else fitted (512 - offset) line ++ rest

abbrev pub joined : List Text → Text
joined [] = []
joined (t ∷ ts) = t ++ joined ts

-- The pieces of the text of a server, with the description of its type of game.
abbrev pub server_parts : GameInfo → Text → List Text
server_parts g game_type =
    g.map
    ∷ crlf
    ∷ game_type
    ∷ codes "\r\n\r\nServer Version: "
    ∷ g.version
    ∷ codes "\r\n\r\nPlaying for "
    ∷ signed g.gametime
    ∷ codes " minutes.\r\nTPS: "
    ∷ signed g.tps
    ∷ codes "\r\nMods:\r\n"
    ∷ mod_lines 0 g.mod_id
    ∷ codes "\r\nTime Limit: "
    ∷ signed g.timelimit
    ∷ codes " minutes\r\nKill Limit: "
    ∷ signed g.killlimit
    ∷ codes "\r\nMax Ping: "
    ∷ signed g.max_ping
    ∷ []

-- The text of a server; `none` where GetGameTypeDescription reads through NULL.
unfoldable pub server_text : GameInfo → Option Text
unfolding get_game_type_description
server_text g = elim (get_game_type_description g.gametype) [
  | none ↦ none
  | some game_type ↦ some (joined (server_parts g game_type))
]

-- What is shown of it, in a buffer of 1024 characters.
unfoldable pub server_info_text : GameInfo → Option Text
unfolding server_text
server_info_text g = elim (server_text g) [ none ↦ none | some text ↦ some (fitted 1024 text) ]

abbrev pub title_parts : GameInfo → List Text
title_parts g =
    codes "\""
    ∷ g.name
    ∷ codes "\" playing "
    ∷ g.map
    ∷ codes " "
    ∷ decimal g.player_count
    ∷ codes "/"
    ∷ signed g.playerlimit
    ∷ []

-- GetGameTitle
unfoldable pub get_game_title : GameInfo → Text
unfolding signed decimal
get_game_title g = fitted 64 (joined (title_parts g))

-- The columns of GameInfoToRow.
unfoldable pub game_info_to_row : GameInfo → Option (List Text)
unfolding signed decimal get_game_type_description
game_info_to_row g = elim (get_game_type_description g.gametype) [
  | none ↦ none
  | some game_type ↦ some (
      g.name
      ∷ (if g.pwd then codes "(P)" else [])
      ∷ fitted 32 (signed g.server_ping)
      ∷ fitted 32 (decimal g.player_count ++ codes "/" ++ signed g.playerlimit)
      ∷ g.map
      ∷ fitted 32 game_type
      ∷ g.mod_name
      ∷ [])
]

-- SetGeneralStatus; `time` is the text of the time that the last scan took.
unfoldable pub general_status_parts :
    (time : Text) (scan_count_servers total_player_count : ℕ)
    → (host_name : Text) → (host_port : ℤ) → (host_file : Text) → List Text
unfolding decimal signed
general_status_parts time servers players host_name host_port host_file =
    fitted 64 (codes "Scan time " ++ time ++ codes " seconds")
    ∷ fitted 64 (decimal servers ++ codes " Games" ++ 9 ∷ decimal players ++ codes " Players")
    ∷ fitted 64 (host_name ++ codes ":" ++ signed host_port ++ codes "/" ++ host_file)
    ∷ []

-- SetPlayerStatus: whether the button of the profile is enabled, and the three parts.
pub record PlayerStatus : Type 0 where
  pub url_enabled : Bool
  pub parts : List Text

abbrev id_text : Text → Text × Bool
id_text [] = (codes "Unknown ID: []", false)
id_text (c ∷ id) =
    if c == b'S'
    then (codes "Steam: [" ++ id ++ codes "]", true)
    else if c == b'G'
    then (codes "GOG ID: [" ++ id ++ codes "]", false)
    else (codes "Unknown ID: [" ++ (c ∷ id) ++ codes "]", false)

abbrev nick_text : Text → Text
nick_text [] = []
nick_text (c ∷ nick) = codes "Nick: " ++ c ∷ nick

unfoldable pub set_player_status : PlayerInfo → PlayerStatus
set_player_status p = record {
  url_enabled = (id_text p.user_id).1;
  parts =
      fitted 64 (id_text p.user_id).0
      ∷ fitted 64 p.ingame_name
      ∷ fitted 64 (nick_text p.local_name)
      ∷ [];
}

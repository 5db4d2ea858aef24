-- ===== src/Session/Fields.antt =====
-- The values that ProcessSessionInfo stores in a player and in a game.
use bzcc_scanner.Base.{ℕ, true, Option, none, some, List, ◌++◌, if◌then◌else◌, ◌==◌}
use bzcc_scanner.Base.CText.{Bytes, codes, atoi}
use bzcc_scanner.Crc.{calc_crc32a}
use bzcc_scanner.Session.Info.{
  PlayerInfo, GameInfo, fitted, max_mods, server_ver_len, server_name_len, server_map_len,
  server_hostmsg_len, player_name_len, user_id_len,
}
use bzcc_scanner.Session.Mods.{split_raw_mod_ids}

-- What the callback uses of Windows and of the C library: CryptStringToBinaryA into a buffer of
-- the given size, and mbstowcs.
pub record Library : Type 0 where
  pub decode : Bytes → ℕ → Option Bytes
  pub widen : Bytes → ℕ → List ℕ

-- The text that b64decodeW leaves.
unfoldable pub b64decode_w : Library → Bytes → ℕ → List ℕ
b64decode_w lib b64_data size = elim (lib.decode b64_data size) [
  | none ↦ fitted size (codes "B64 DECODE ERROR")
  | some bytes ↦ lib.widen bytes size
]

-- The first `switch`.
unfoldable pub set_player_field : Library → ℕ → Bytes → PlayerInfo → PlayerInfo
unfolding b64decode_w atoi calc_crc32a
set_player_field lib id v p =
    if id == 1
    then record p { ingame_name = b64decode_w lib v player_name_len }
    else if id == 2
    then record p { user_id = fitted user_id_len v; unique_identifier = calc_crc32a v }
    else if id == 3
    then record p { team = atoi v }
    else if id == 4
    then record p { kills = atoi v }
    else p

unfoldable pub set_mods : Bytes → GameInfo → Option GameInfo
unfolding split_raw_mod_ids
set_mods v g = elim (split_raw_mod_ids max_mods v g.mod_id) [
  | none ↦ none
  | some split ↦ some (record g { mod_id = split.mod_ids })
]

-- The second `switch`; `none` is a write outside `mod_id`.
unfoldable pub set_game_field : Library → ℕ → Bytes → GameInfo → Option GameInfo
unfolding b64decode_w atoi calc_crc32a set_mods
set_game_field lib id v g =
    if id == 1
    then some (record g { name = b64decode_w lib v server_name_len })
    else if id == 2
    then some (record g { map = fitted server_map_len (v ++ codes ".bzn") })
    else if id == 3
    then some (record g { version = fitted server_ver_len v })
    else if id == 4
    then some (record g { msg = fitted server_hostmsg_len v })
    else if id == 7
    then set_mods v g
    else if id == 5
    then some (record g { playerlimit = atoi v })
    else if id == 8
    then some (record g { tps = atoi v })
    else if id == 9
    then some (record g { pwd = true })
    else if id == 6
    then some (record g { max_ping = atoi v })
    else if id == 14
    then some (record g { server_ping = atoi v })
    else if id == 10
    then some (record g { gametime = atoi v })
    else if id == 11
    then some (record g { gametype = atoi v })
    else if id == 12
    then some (record g { timelimit = atoi v })
    else if id == 13
    then some (record g { killlimit = atoi v })
    else if id == 15
    then some (record g { unique_identifier = calc_crc32a v })
    else some g

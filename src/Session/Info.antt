-- ===== src/Session/Info.antt =====
-- bzccscanner.h: PlayerInfo and GameInfo, and the functions that look into them. A text is what
-- stands in front of the terminator of its array.
use bzcc_scanner.Base.{
  ℕ, zero, suc, ◌-◌, Bool, true, false, Option, none, some, List, [], ◌∷◌, ◌==◌, if◌then◌else◌,
  replicate, take, not, ◌&&◌, ◌||◌, leb,
}
use bzcc_scanner.Base.Int.{ℤ, pos}
use bzcc_scanner.Base.CText.{Bytes, is_alnum}

abbrev pub max_servers : ℕ
max_servers = 128

abbrev pub max_players : ℕ
max_players = 16

abbrev pub max_mods : ℕ
max_mods = 32

abbrev pub server_ver_len : ℕ
server_ver_len = 16

abbrev pub server_name_len : ℕ
server_name_len = 64

abbrev pub server_map_len : ℕ
server_map_len = 32

abbrev pub server_hostmsg_len : ℕ
server_hostmsg_len = 256

abbrev pub player_name_len : ℕ
player_name_len = 64

abbrev pub user_id_len : ℕ
user_id_len = 32

pub record PlayerInfo : Type 0 where
  pub local_name : List ℕ
  pub ingame_name : List ℕ
  pub user_id : List ℕ
  pub team : ℤ
  pub kills : ℤ
  pub deaths : ℤ
  pub score : ℤ
  pub quitting : Bool
  pub unique_identifier : ℕ

pub record GameInfo : Type 0 where
  pub version : List ℕ
  pub name : List ℕ
  pub map : List ℕ
  pub msg : List ℕ
  pub pwd : Bool
  pub mod_id : List ℕ
  pub mod_name : List ℕ
  pub max_ping : ℤ
  pub server_ping : ℤ
  pub gametime : ℤ
  pub playerlimit : ℤ
  pub timelimit : ℤ
  pub killlimit : ℤ
  pub gametype : ℤ
  pub tps : ℤ
  pub player_count : ℕ
  pub playerinfo : List PlayerInfo
  pub quitting : Bool
  pub unique_identifier : ℕ

-- After `ZeroMemory`.
abbrev pub zero_player : PlayerInfo
zero_player = record {
  local_name = [];
  ingame_name = [];
  user_id = [];
  team = pos 0;
  kills = pos 0;
  deaths = pos 0;
  score = pos 0;
  quitting = false;
  unique_identifier = 0;
}

abbrev pub zero_game : GameInfo
zero_game = record {
  version = [];
  name = [];
  map = [];
  msg = [];
  pwd = false;
  mod_id = replicate max_mods 0;
  mod_name = [];
  max_ping = pos 0;
  server_ping = pos 0;
  gametime = pos 0;
  playerlimit = pos 0;
  timelimit = pos 0;
  killlimit = pos 0;
  gametype = pos 0;
  tps = pos 0;
  player_count = 0;
  playerinfo = replicate max_players zero_player;
  quitting = false;
  unique_identifier = 0;
}

-- GetPlayerName
unfoldable pub get_player_name : Bool → PlayerInfo → List ℕ
get_player_name true p = elim p.local_name [ [] ↦ p.ingame_name | c ∷ cs ↦ c ∷ cs ]
get_player_name false p = p.ingame_name

-- FindGame over the first `count` games: the game that is pointed to, none for NULL. This search and
-- the next one stop at the end of the list, where the source would read on behind its array.
unfoldable pub find_game : List GameInfo → ℕ → ℕ → Option GameInfo
find_game games zero id = none
find_game [] (suc count) id = none
find_game (g ∷ games) (suc count) id =
    let rest = find_game games count id in if g.unique_identifier == id then some g else rest

unfoldable pub find_in : List PlayerInfo → ℕ → ℕ → Option PlayerInfo
find_in players zero id = none
find_in [] (suc count) id = none
find_in (p ∷ players) (suc count) id =
    let rest = find_in players count id in if p.unique_identifier == id then some p else rest

-- FindPlayer
unfoldable pub find_player : GameInfo → ℕ → Option PlayerInfo
unfolding find_in
find_player g id = find_in g.playerinfo g.player_count id

-- The loop of UserIDIsValid, from index `i` on.
unfoldable pub alnum_from : ℕ → Bytes → Bool
unfolding is_alnum
alnum_from i [] = true
alnum_from i (c ∷ cs) =
    let rest = alnum_from (suc i) cs in
    if not (is_alnum c) || leb user_id_len i then false else rest

-- UserIDIsValid
unfoldable pub user_id_is_valid : Bytes → Bool
unfolding alnum_from
user_id_is_valid user_id = alnum_from 0 user_id

-- What `snwprintf` leaves in an array of `size` characters for `"%s"`.
abbrev pub fitted : ℕ → List ℕ → List ℕ
fitted size text = take (size - 1) text

-- `!tstrcmp(a, b)`
abbrev pub same_text : List ℕ → List ℕ → Bool
same_text [] [] = true
same_text (a ∷ as_) (b ∷ bs) = a == b && same_text as_ bs
same_text _ _ = false

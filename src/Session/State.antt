-- ===== src/Session/State.antt =====
-- The fields of WindowControls that a scan works on, and ScanThread's changes to them.
use bzcc_scanner.Base.{
  ℕ, ◌+◌, ◌/◌, ◌%◌, zero, suc, Bool, Option, none, some, List, [], ◌∷◌, ◌++◌, if◌then◌else◌,
  get_elem?, set, ltb,
}
use bzcc_scanner.Base.Int.{ℤ}
use bzcc_scanner.Net.Kvi.{Message}
use bzcc_scanner.Session.Info.{PlayerInfo, GameInfo}

-- The calls that leave the list of games: to the notifications, to the controls, and to EndScan.
pub data Event : Type 0 where
  error_box : Message → Event
  game_quit game_new game_open : GameInfo → Event
  player_quit player_joined : GameInfo → PlayerInfo → Event
  player_changed_nick : GameInfo → (old new : PlayerInfo) → Event
  row sort_items status_shown end_scan : Event

-- `scan_game` is an index of `gameinfo`, and `scan_player` that of a game and of a player in it;
-- `none` is NULL. `player_selected` says that `pSelectedPlayerInfo` is not NULL.
pub record Session : Type 0 where
  pub continue_scan : Bool
  pub gameinfo : List GameInfo
  pub gameinfo_prev : List GameInfo
  pub gameinfo_prev_count : ℕ
  pub scan_count_servers : ℕ
  pub scan_game : Option ℕ
  pub scan_count_players : ℕ
  pub scan_player : Option (ℕ × ℕ)
  pub total_player_count : ℕ
  pub remember_sort : Bool
  pub sort_column : Option ℕ
  pub player_selected : Bool
  pub events : List Event

abbrev pub say : Event → Session → Session
say e s = let es = s.events in record s { events = es ++ e ∷ [] }

-- What ScanThread does in front of the scan.
unfoldable pub start_scan : Session → Session
start_scan s = record s {
  gameinfo_prev = s.gameinfo;
  gameinfo_prev_count = s.scan_count_servers;
  scan_count_servers = 0;
  scan_count_players = 0;
}

-- Where a part of the callback ends: it goes on, an index has been skipped, it has gone through a
-- pointer that is NULL or to an element outside an array, or GetGameTypeDescription has read through
-- NULL for this type of game.
pub data Entered : Type 0 where
  entered : Session → Entered
  skipped : Entered
  null_pointer : Entered
  no_description : ℤ → Entered

-- What is left between two calls of the callback.
pub data Progress : Type 0 where
  going : Session → Progress
  lost : Progress
  untyped : ℤ → Progress

-- Go on if no pointer was NULL and nothing was written outside an array.
abbrev pub and_then : {B : Type 0} → B → Option Session → (Session → B) → B
and_then stuck none f = stuck
and_then stuck (some s) f = f s

-- Change `*scan_game`; `none` is a NULL pointer or one behind the array.
unfoldable pub change_game : (GameInfo → GameInfo) → Session → Option Session
change_game f s = elim s.scan_game [
  | none ↦ none
  | some i ↦ elim (get_elem? s.gameinfo i) [
    | none ↦ none
    | some g ↦ some (record s { gameinfo = set s.gameinfo i (f g) })
  ]
]

-- Change `*scan_game` by a change that may write outside an array.
unfoldable pub try_change_game : (GameInfo → Option GameInfo) → Session → Option Session
try_change_game f s = elim s.scan_game [
  | none ↦ none
  | some i ↦ elim (get_elem? s.gameinfo i) [
    | none ↦ none
    | some g ↦ elim (f g) [
      | none ↦ none
      | some g' ↦ some (record s { gameinfo = set s.gameinfo i g' })
    ]
  ]
]

-- Change `playerinfo[j]` of the game `gameinfo[i]`.
unfoldable pub change_player_at : ℕ → ℕ → (PlayerInfo → PlayerInfo) → Session → Option Session
change_player_at i j f s = elim (get_elem? s.gameinfo i) [
  | none ↦ none
  | some g ↦ elim (get_elem? g.playerinfo j) [
    | none ↦ none
    | some p ↦ some (record s {
      gameinfo = set s.gameinfo i (record g { playerinfo = set g.playerinfo j (f p) });
    })
  ]
]

-- Change `*scan_player`.
unfoldable pub change_player : (PlayerInfo → PlayerInfo) → Session → Option Session
unfolding change_player_at
change_player f s = elim s.scan_player [ none ↦ none | some (i, j) ↦ change_player_at i j f s ]

-- `"%lu"`, on a number below 10 ^ 10, as the text in front of `text`.
unfoldable pub decimal_loop : ℕ → ℕ → List ℕ → List ℕ
decimal_loop zero n text = text
decimal_loop (suc fuel) n text =
    let digits = (b'0' + n % 10) ∷ text in
    let more = decimal_loop fuel (n / 10) digits in if ltb n 10 then digits else more

unfoldable pub decimal : ℕ → List ℕ
unfolding decimal_loop
decimal n = decimal_loop 10 n []

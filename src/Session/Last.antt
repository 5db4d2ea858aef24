-- ===== src/Session/Last.antt =====
-- What ProcessSessionInfo does at the last value of a player's or a server's object.
use bzcc_scanner.Base.{
  ℕ, ◌+◌, Bool, false, not, ◌&&◌, Option, none, some, List, [], if◌then◌else◌, get_elem?, ltb, ◌==◌,
}
use bzcc_scanner.Base.Int.{ℤ, pos, negsuc}
use bzcc_scanner.Net.Kvi.{Status, last}
use bzcc_scanner.Session.Info.{GameInfo, fitted, find_game, server_name_len}
use bzcc_scanner.Session.Keys.{get_game_type_description}
use bzcc_scanner.Session.State.{
  Entered, entered, null_pointer, no_description, game_new, game_open, row, sort_items,
  status_shown, Session, say, and_then, change_game, decimal,
}

-- The end of a player's object.
abbrev pub count_player : GameInfo → GameInfo
count_player g = record g { player_count = g.player_count + 1 }

unfoldable pub end_player : Status → Session → Option Session
unfolding change_game
end_player last s = change_game count_player s
end_player _ s = some s

-- `(int)a < (int)b` of a count and an `int`.
abbrev pub below : ℕ → ℤ → Bool
below n (pos m) = ltb n m
below n (negsuc m) = false

-- The notification for a game that has been read: it is new, or was full and is open now.
unfoldable pub notify_game : GameInfo → Session → Session
unfolding find_game
notify_game g s =
    if g.unique_identifier == 0
    then s
    else elim (find_game s.gameinfo_prev s.gameinfo_prev_count g.unique_identifier) [
      | none ↦ say (game_new g) s
      | some old ↦
          if not (below old.player_count old.playerlimit) && below g.player_count g.playerlimit
          then say (game_open g) s
          else s
    ]

abbrev pub sorted : Session → Session
sorted s = elim s.sort_column [
  | none ↦ s
  | some column ↦ if s.remember_sort then say sort_items s else s
]

abbrev pub counted : Session → Session
counted s =
    let total = s.total_player_count in
    if s.player_selected
    then s
    else say status_shown (record s { total_player_count = total + s.scan_count_players })

-- The end of a server's object. GameInfoToRow describes the type of the game, once ListView has
-- taken the row, as it does here. The time that the status line shows is not modelled.
unfoldable pub flush_game : GameInfo → Session → Entered
unfolding notify_game get_game_type_description
flush_game g s = elim (get_game_type_description g.gametype) [
  | none ↦ no_description g.gametype
  | some text ↦ entered (counted (sorted (notify_game g (say row s))))
]

unfoldable pub mod_name_of : List ℕ → List ℕ
unfolding decimal
mod_name_of ids = elim (get_elem? ids 0) [
  | none ↦ []
  | some id ↦ fitted server_name_len (decimal id)
]

abbrev pub name_mod : GameInfo → GameInfo
name_mod g = record g { mod_name = mod_name_of g.mod_id }

abbrev pub scanned_game : Session → Option GameInfo
scanned_game s = elim s.scan_game [ none ↦ none | some i ↦ get_elem? s.gameinfo i ]

unfoldable pub end_server : Status → Session → Entered
unfolding change_game mod_name_of flush_game
end_server last s =
    and_then null_pointer (change_game name_mod s)
      (λ s1. elim (scanned_game s1) [ none ↦ null_pointer | some g ↦ flush_game g s1 ])
end_server _ s = entered s

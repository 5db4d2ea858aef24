-- ===== src/Session/Closing.antt =====
-- What ProcessSessionInfo does at the end of a scan.
use bzcc_scanner.Base.{
  ℕ, zero, suc, Bool, true, false, ◌&&◌, none, some, List, [], ◌∷◌, ◌++◌, if◌then◌else◌,
}
use bzcc_scanner.Net.Kvi.{Kvi, Status, error}
use bzcc_scanner.Session.Info.{PlayerInfo, GameInfo, find_game, find_player, same_text}
use bzcc_scanner.Session.State.{
  Event, error_box, game_quit, player_quit, player_joined, player_changed_nick, end_scan, Session,
}

-- Who left the game, and who joined it or changed the nickname.
abbrev left_events : GameInfo → ℕ → List PlayerInfo → List Event
left_events new zero olds = []
left_events new (suc count) [] = []
left_events new (suc count) (p ∷ olds) =
    let rest = left_events new count olds in
    elim (find_player new p.unique_identifier) [ none ↦ player_quit new p ∷ rest | some q ↦ rest ]

abbrev joined_events : (old new : GameInfo) → ℕ → List PlayerInfo → List Event
joined_events old new zero news = []
joined_events old new (suc count) [] = []
joined_events old new (suc count) (p ∷ news) =
    let rest = joined_events old new count news in
    elim (find_player old p.unique_identifier) [
      | none ↦ player_joined new p ∷ rest
      | some q ↦
          if same_text p.ingame_name q.ingame_name then rest else player_changed_nick new q p ∷ rest
    ]

abbrev game_events : List GameInfo → ℕ → GameInfo → List Event
game_events games count old = elim (find_game games count old.unique_identifier) [
  | none ↦ game_quit old ∷ []
  | some new ↦
      left_events new old.player_count old.playerinfo
      ++ joined_events old new new.player_count new.playerinfo
]

abbrev closing_events : List GameInfo → ℕ → ℕ → List GameInfo → List Event
closing_events games count zero olds = []
closing_events games count (suc n) [] = []
closing_events games count (suc n) (old ∷ olds) =
    game_events games count old ++ closing_events games count n olds

abbrev is_error : Status → Bool
is_error error = true
is_error _ = false

-- The message box for an error, unless the user has cancelled, the notifications for each old
-- game, and EndScan, whose own changes are not modelled.
unfoldable pub closing : Kvi → Session → Session
unfolding find_game find_player
closing k s =
    let boxed = if is_error k.status && s.continue_scan then error_box k.err ∷ [] else [] in
    let notices =
      closing_events s.gameinfo s.scan_count_servers s.gameinfo_prev_count s.gameinfo_prev in
    let es = s.events in record s { events = es ++ (boxed ++ (notices ++ end_scan ∷ [])) }

-- ===== src/Control/Balloons.antt =====
-- bzccscanner.c: ShowBalloon, NotifyGameChanged and NotifyPlayersChanged, the notifications of the
-- tray icon.
use bzcc_scanner.Base.{Bool, Option, none, some, List, [], ◌∷◌, ◌++◌, if◌then◌else◌, leb, get_elem?}
use bzcc_scanner.Base.CText.{codes}
use bzcc_scanner.Session.Info.{GameInfo, PlayerInfo, fitted, get_player_name}
use bzcc_scanner.Session.State.{
  Event, game_quit, game_new, player_quit, player_joined, player_changed_nick,
}
use bzcc_scanner.Settings.Registry.{Text}
use bzcc_scanner.Control.Texts.{joined, get_game_title}

-- `szInfo` and `szInfoTitle` of the tray icon.
pub record Balloon : Type 0 where
  pub info : Text
  pub title : Text

-- ShowBalloon
abbrev pub show_balloon : Text → Text → Balloon
show_balloon text title = record { info = fitted 256 text; title = fitted 64 title }

pub data GameNotifyAction : Type 0 where
  action_new action_quit : GameNotifyAction

abbrev pub host_name_of : Bool → GameInfo → Text
host_name_of use_local_names g =
    if leb 1 g.player_count
    then elim (get_elem? g.playerinfo 0) [
      | none ↦ codes "<empty>"
      | some p ↦ get_player_name use_local_names p
    ]
    else codes "<empty>"

-- The text of NotifyGameChanged; nothing is shown for a game that is gone.
unfoldable pub game_text : Bool → GameInfo → GameNotifyAction → Option Text
unfolding get_player_name
game_text use_local_names g action_quit = none
game_text use_local_names g action_new =
    some (fitted 256 (codes "New game hosted by " ++ host_name_of use_local_names g))

abbrev pub balloon_of : Bool → GameInfo → Option Text → Option Balloon
balloon_of minimized g none = none
balloon_of minimized g (some text) =
    if minimized then some (show_balloon text (get_game_title g)) else none

-- NotifyGameChanged: the balloon that is shown, if any.
unfoldable pub notify_game_changed :
    (minimized use_local_names : Bool) → GameInfo → GameNotifyAction → Option Balloon
unfolding game_text get_game_title
notify_game_changed minimized use_local_names g action =
    balloon_of minimized g (game_text use_local_names g action)

-- The actions of NotifyPlayersChanged, each with the players that are not NULL.
pub data PlayerNotifyAction : Type 0 where
  left joined_server : PlayerInfo → PlayerNotifyAction
  changed_nick : (old new : PlayerInfo) → PlayerNotifyAction

-- The pieces of the text of NotifyPlayersChanged, the text, and as it stands in its array.
abbrev pub player_parts : Bool → PlayerNotifyAction → List Text
player_parts use_local_names (left old) =
    get_player_name use_local_names old ∷ codes " left server" ∷ []
player_parts use_local_names (joined_server new) =
    get_player_name use_local_names new ∷ codes " joined server" ∷ []
player_parts use_local_names (changed_nick old new) =
    old.ingame_name
    ∷ codes " is now known as "
    ∷ new.ingame_name
    ∷ codes "\r\nAlso known as: "
    ∷ get_player_name use_local_names new
    ∷ []

abbrev pub player_words : Bool → PlayerNotifyAction → Text
player_words use_local_names action = joined (player_parts use_local_names action)

abbrev pub player_text : Bool → PlayerNotifyAction → Text
player_text use_local_names action = fitted 256 (player_words use_local_names action)

-- NotifyPlayersChanged
unfoldable pub notify_players_changed :
    (minimized use_local_names : Bool) → GameInfo → PlayerNotifyAction → Option Balloon
unfolding get_player_name get_game_title
notify_players_changed minimized use_local_names g action =
    balloon_of minimized g (some (player_text use_local_names action))

-- The balloon of an event of a scan.
unfoldable pub balloon_for : (minimized use_local_names : Bool) → Event → Option Balloon
unfolding notify_game_changed notify_players_changed
balloon_for minimized names (game_new g) = notify_game_changed minimized names g action_new
balloon_for minimized names (game_quit g) = notify_game_changed minimized names g action_quit
balloon_for minimized names (player_quit g p) = notify_players_changed minimized names g (left p)
balloon_for minimized names (player_joined g p) =
    notify_players_changed minimized names g (joined_server p)
balloon_for minimized names (player_changed_nick g old new) =
    notify_players_changed minimized names g (changed_nick old new)
balloon_for minimized names _ = none

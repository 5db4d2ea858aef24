-- ===== src/Control/Whole.antt =====
-- The texts of the notifications fit their arrays.
use bzcc_scanner.Base.{◌≤◌, ◌<◌, ◌≡◌, ap, ◌∙◌, Bool, true, false, some, length, arith, length-take}
use mathlib.Core.Path.{ap₂}
use bzcc_scanner.Session.Info.{GameInfo, PlayerInfo, fitted, get_player_name}
use bzcc_scanner.Control.Texts.{get_game_title, joined, title_parts}
use bzcc_scanner.Control.Fits.{fitted_whole, total, length-joined}
use bzcc_scanner.Control.Balloons.{
  PlayerNotifyAction, left, joined_server, changed_nick, player_parts, player_words,
  notify_players_changed,
}

-- The names of a player fit their arrays.
abbrev pub HasNames : PlayerInfo → Type 0
HasNames p = (length p.local_name ≤ 63) × (length p.ingame_name ≤ 63)

abbrev pub OfNames : PlayerNotifyAction → Type 0
OfNames (left old) = HasNames old
OfNames (joined_server new) = HasNames new
OfNames (changed_nick old new) = HasNames old × HasNames new

name_bound : (local : Bool) (p : PlayerInfo) → HasNames p → length (get_player_name local p) ≤ 63
unfolding get_player_name
name_bound true p h = ground arith
name_bound false p h = h.1

player_parts_bound :
    (local : Bool) (a : PlayerNotifyAction) → OfNames a → total (player_parts local a) < 256
player_parts_bound local (left old) h = omega (arith, name_bound local old h)
player_parts_bound local (joined_server new) h = omega (arith, name_bound local new h)
player_parts_bound local (changed_nick old new) h = omega (arith, name_bound local new h.1, h)

get_game_title_bound : (g : GameInfo) → length (get_game_title g) < 64
unfolding get_game_title
get_game_title_bound g = omega (arith, length-take 63 (joined (title_parts g)))

-- A notification about a player is shown while the window is minimized, with the whole of its text,
-- if the names of its players fit their arrays.
pub notify_players_changed-Whole :
    (use_local_names : Bool) (g : GameInfo) (a : PlayerNotifyAction)
    → OfNames a
    → notify_players_changed true use_local_names g a
      ≡ some (record { info = player_words use_local_names a; title = get_game_title g })
unfolding notify_players_changed
notify_players_changed-Whole use_local_names g a h =
    let words = player_words use_local_names a in
    let short : length words < 256 = omega (
      arith,
      player_parts_bound use_local_names a h,
      length-joined (player_parts use_local_names a),
    ) in
    let whole = fitted_whole 256 words short in
    ap₂ (λ info title. some (record { info = info; title = title })) (ap (fitted 256) whole ∙ whole)
      (fitted_whole 64 (get_game_title g) (get_game_title_bound g))

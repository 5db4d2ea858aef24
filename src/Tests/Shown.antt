-- ===== src/Tests/Shown.antt =====
-- The settings that are loaded, the notifications and the layout at concrete inputs.
use bzcc_scanner.Base.{◌+◌, ◌^◌, ◌≡◌, ◌<◌, refl, arith, true, false, some, [], ◌∷◌, inl, inr, ◌-◌}
use bzcc_scanner.Base.Int.{of_bits}
use bzcc_scanner.Base.CText.{codes, le_bytes, same_ignoring_case}
use bzcc_scanner.Session.Info.{PlayerInfo, zero_player, zero_game}
use bzcc_scanner.Settings.Store.{reg_key_setting, tchar_bytes}
use bzcc_scanner.Control.Window.{Window}
use bzcc_scanner.Control.Texts.{get_game_title}
use bzcc_scanner.Control.Balloons.{changed_nick, player_words, notify_players_changed}
use bzcc_scanner.Control.Whole.{notify_players_changed-Whole}
use bzcc_scanner.Control.Startup.{load_config}
use bzcc_scanner.Control.Restore.{IsKept, Begins, load_config-Restores}
use bzcc_scanner.Control.Layout.{IsApart, IsBetween, wnd_resize, wnd_resize-IsApart}
use bzcc_scanner.Tests.Registry.{
  Values, in_memory, in_memory-IsDocumented, in_memory-IsWilling, change, empty,
}
use bzcc_scanner.Tests.Controls.{fresh}

-- Auto scan is stored, the rest is as it is by default.
abbrev stored : Values
stored =
    change (reg_key_setting, codes "HOST") (some (10 ∷ 0 ∷ []))
      (change (reg_key_setting, codes "AUTO_SCAN") (some (le_bytes 1)) empty)

abbrev saved : Window
saved = record fresh { remember_size = false; host_name = 10 ∷ [] }

saved-IsKept : IsKept in_memory in_memory-IsDocumented in_memory-IsWilling [] stored fresh saved
unfolding same_ignoring_case tchar_bytes
saved-IsKept = record {
  kept_width = inr (refl, refl);
  kept_height = inr (refl, refl);
  kept_host = inr (refl, omega arith, ((refl, omega arith), tt));
  kept_file = inl refl;
  width_fits = omega arith;
  height_fits = omega arith;
  kept_names = inr (refl, refl);
  kept_nicks = inr (refl, refl);
  kept_sort = inr (refl, refl);
  kept_scan = inl refl;
  kept_delay = inr (refl, refl);
  kept_column = inr (refl, refl);
  kept_turned = inr (refl, refl);
  kept_size = inr (refl, refl);
  kept_port = inr (refl, refl);
  delay_fits = omega arith;
  port_fits = omega arith;
}

load_config-Restores_example :
    let v = (load_config in_memory [] fresh stored).0 in
    (v.use_local_names ≡ false)
    × (v.auto_nick_save ≡ false)
    × (v.remember_sort ≡ true)
    × (v.auto_scan ≡ true)
    × (v.auto_scan_delay ≡ 60)
    × (v.last_col_sort_index ≡ of_bits (2 ^ 32 - 1))
    × (v.reverse_sort ≡ false)
    × (v.remember_size ≡ false)
    × (v.host_port ≡ 80)
    × (v.width ≡ 760)
    × (v.height ≡ 420)
    × Begins in_memory in_memory-IsDocumented in_memory-IsWilling [] stored
        (codes "HOST")
        (10 ∷ [])
        v.host_name
    × Begins in_memory in_memory-IsDocumented in_memory-IsWilling [] stored
        (codes "FILE")
        (codes "f")
        v.host_file
load_config-Restores_example =
    load_config-Restores in_memory in_memory-IsDocumented in_memory-IsWilling [] stored fresh saved
      saved-IsKept

abbrev before : PlayerInfo
before = record zero_player { ingame_name = codes "Al" }

abbrev later : PlayerInfo
later = record zero_player { ingame_name = codes "Bo" }

notify_players_changed-Whole_example :
    notify_players_changed true false zero_game (changed_nick before later)
    ≡ some (record {
      info = player_words false (changed_nick before later);
      title = get_game_title zero_game;
    })
notify_players_changed-Whole_example =
    notify_players_changed-Whole false zero_game (changed_nick before later)
      ((omega arith, omega arith), (omega arith, omega arith))

wnd_resize-IsApart_example :
    IsApart (wnd_resize 760 420).headers
    × IsApart (wnd_resize 760 420).boxes
    × IsApart (wnd_resize 760 420).row
    × IsBetween 0 20 (wnd_resize 760 420).headers
    × IsBetween 20 226 (wnd_resize 760 420).boxes
    × IsBetween 230 258 (wnd_resize 760 420).row
    × (258 < (wnd_resize 760 420).game_list.y)
    × (0 < (wnd_resize 760 420).game_list.height)
    × ((wnd_resize 760 420).game_list.y + (wnd_resize 760 420).game_list.height
        ≡ (wnd_resize 760 420).status_bar.y + 4)
wnd_resize-IsApart_example = wnd_resize-IsApart 760 420 (omega arith) (omega arith)

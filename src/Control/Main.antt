-- ===== src/Control/Main.antt =====
-- bzccscanner.c: WndProc, the procedure of the main window, without the layout.
use bzcc_scanner.Base.{
  ℕ, Bool, true, false, Option, none, some, List, [], ◌∷◌, ◌++◌, ◌==◌, if◌then◌else◌, not, leb,
}
use bzcc_scanner.Base.Int.{ℤ, to_dword}
use bzcc_scanner.Base.CText.{codes}
use bzcc_scanner.Session.Info.{GameInfo, PlayerInfo, fitted, max_players, max_servers}
use bzcc_scanner.Session.State.{decimal}
use bzcc_scanner.Settings.Registry.{Text}
use bzcc_scanner.Control.Window.{
  Window, Env, make, Call, save_setting_dword, enable, clear, set_text, set_title, set_name, url,
  join, player_list, shell_map, host_message, server_info, main_window, prefs_window, move, show,
  activate, hide, tray_added, tray_deleted, message_box, open_url, post_quit, sort_items,
  player_status, general_status, update_player_list,
}
use bzcc_scanner.Control.Scan.{on_close, on_refresh, on_timer}
use bzcc_scanner.Control.Rename.{on_rename_dlg, on_close_rename_dlg}
use bzcc_scanner.Control.Texts.{server_info_text}
use bzcc_scanner.Control.Prefs.{flag, sort_settings, is_selected}

-- WM_APP_PREFS_DLG
unfoldable pub on_prefs_dlg : Window → Window
on_prefs_dlg w =
    if w.prefs_dlg == 0
    then w
    else make (move prefs_window ∷ show prefs_window ∷ activate prefs_window ∷ []) w

-- WM_SYSCOMMAND with SC_MINIMIZE.
unfoldable pub on_minimize : Window → Window
on_minimize w = make (hide main_window ∷ tray_added ∷ []) (record w { minimized = true })

-- WM_LBUTTONDOWN on the tray icon.
unfoldable pub on_restore : Window → Window
on_restore w =
    if w.minimized
    then make (tray_deleted ∷ show main_window ∷ activate main_window ∷ [])
        (record w { minimized = false })
    else w

-- A player of the list is selected. `cur_sel` is what ListBox_GetCurSel returns, none for LB_ERR;
-- the result is none where `pSelectedGameInfo` is NULL and a player of it is read.
unfoldable pub select_player : Option ℕ → Window → Option Window
unfolding decimal
select_player cur_sel w =
    let nobody = record w { selected_player = none } in
    elim cur_sel [
      | none ↦ some (make (enable url false ∷ []) nobody)
      | some i ↦
          if leb max_players i
          then some (
              make
                (message_box (
                    fitted 256 (
                      codes "Listbox 0-based selected player index "
                      ++ decimal i
                      ++ codes " exceeds maximum players "
                      ++ decimal max_players))
                  ∷ enable url false
                  ∷ [])
                nobody)
          else elim w.selected_game [
            | none ↦ none
            | some g ↦ some (
                make (enable set_name true ∷ player_status ∷ [])
                  (record w { selected_player = some (g, i) }))
          ]
    ]

abbrev is_same : Option ℕ → ℕ → Bool
is_same none g = false
is_same (some g') g = g == g'

-- LVN_ITEMCHANGED for the row `item`, none for -1, which carries the game `at`, none for NULL. The
-- result is none where GetGameTypeDescription reads through NULL.
unfoldable pub select_game : (item at : Option ℕ) → GameInfo → Window → Option Window
unfolding server_info_text
select_game none at g w = some w
select_game (some i) none g w = some w
select_game (some i) (some at) g w =
    if leb max_servers i
    then some w
    else if is_same w.selected_game at
    then some w
    else elim (server_info_text g) [
      | none ↦ none
      | some info ↦ some (
          make
            (clear player_list
              ∷ set_title main_window g.name
              ∷ set_text shell_map g.map
              ∷ set_text host_message g.msg
              ∷ set_text server_info info
              ∷ enable url false
              ∷ enable set_name false
              ∷ enable join true
              ∷ update_player_list
              ∷ general_status
              ∷ [])
            (record w { selected_game = some at; selected_player = none }))
    ]

-- LVN_COLUMNCLICK
unfoldable pub sort_by : ℤ → Window → Window
sort_by column w =
    let same = to_dword column == to_dword w.last_col_sort_index in
    let w1 =
      if same
      then record w { reverse_sort = not w.reverse_sort }
      else record w { reverse_sort = false; last_col_sort_index = column } in
    let w2 = if w1.remember_sort then make (sort_settings w1) w1 else w1 in
    make (sort_items ∷ []) w2

-- A click on the box of the local names.
unfoldable pub toggle_names : Window → Window
toggle_names w =
    let on = not w.use_local_names in
    let w1 =
      make (save_setting_dword (codes "USE_LOCAL_NAMES") (flag on) ∷ [])
        (record w { use_local_names = on }) in
    if is_selected w.selected_game then make (update_player_list ∷ []) w1 else w1

abbrev steam_page : Text → List Call
steam_page [] = []
steam_page (c ∷ id) =
    if c == b'S'
    then open_url (fitted 256 (codes "https://steamcommunity.com/profiles/" ++ id)) ∷ []
    else []

-- A click on the button of the profile, with the player that `pSelectedPlayerInfo` points to.
unfoldable pub open_profile : PlayerInfo → Window → Window
open_profile p w = if is_selected w.selected_player then make (steam_page p.user_id) w else w

-- The messages of WndProc. What they find in the data and in the controls comes with them; the
-- accelerators and buttons that only send another message, and the commands of the menu of the tray
-- icon, are that message.
pub data Message : Type 0 where
  prefs_dlg_opened minimized_to_tray tray_clicked refresh_clicked closed destroyed names_clicked
        join_clicked :
      Message
  rename_dlg_opened profile_clicked : PlayerInfo → Message
  rename_dlg_closed : Text → PlayerInfo → Message
  timer_fired : ℕ → Message
  player_clicked : Option ℕ → Message
  game_clicked : (item at : Option ℕ) → GameInfo → Message
  column_clicked : ℤ → Message
  size_moved : (width height : ℕ) → Message

-- WndProc
unfoldable pub wnd_proc : Env → Message → Window → Option Window
unfolding on_prefs_dlg on_minimize on_restore on_refresh on_close toggle_names on_rename_dlg
    open_profile on_close_rename_dlg on_timer select_player select_game sort_by
wnd_proc env prefs_dlg_opened w = some (on_prefs_dlg w)
wnd_proc env minimized_to_tray w = some (on_minimize w)
wnd_proc env tray_clicked w = some (on_restore w)
wnd_proc env refresh_clicked w = some (on_refresh env w)
wnd_proc env closed w = some (on_close w)
wnd_proc env destroyed w = some (make (post_quit ∷ []) w)
wnd_proc env names_clicked w = some (toggle_names w)
wnd_proc env join_clicked w = some w
wnd_proc env (rename_dlg_opened p) w = some (on_rename_dlg p w)
wnd_proc env (profile_clicked p) w = some (open_profile p w)
wnd_proc env (rename_dlg_closed text p) w = some (on_close_rename_dlg env text p w).0
wnd_proc env (timer_fired id) w = some (on_timer env id w)
wnd_proc env (player_clicked cur_sel) w = select_player cur_sel w
wnd_proc env (game_clicked item at g) w = select_game item at g w
wnd_proc env (column_clicked column) w = some (sort_by column w)
wnd_proc env (size_moved width height) w = some (record w { width = width; height = height })

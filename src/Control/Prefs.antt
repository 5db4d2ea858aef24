-- ===== src/Control/Prefs.antt =====
-- bzccscanner.c: WndProcPrefsDlg, the preferences dialog.
use bzcc_scanner.Base.{
  ℕ, Bool, true, false, Option, none, some, List, [], ◌∷◌, ◌==◌, if◌then◌else◌, not, ltb,
}
use bzcc_scanner.Base.Int.{to_dword}
use bzcc_scanner.Base.CText.{codes, atoi}
use bzcc_scanner.Session.Info.{fitted}
use bzcc_scanner.Session.State.{decimal}
use bzcc_scanner.Settings.Registry.{Text}
use bzcc_scanner.Control.Window.{
  Window, Env, make, start_timer, stop_timer, Call, save_setting_dword, save_setting_string, enable,
  set_text, host_apply, scan_time_apply, scan_time, update_player_list, general_status, hide,
  prefs_window, hostname_len, min_scan_delay,
}

-- `(DWORD)` of a BOOL.
abbrev pub flag : Bool → ℕ
flag b = if b then 1 else 0

-- What the dialog is told: a change of the fields of the host or of the time, or a click. A text
-- field comes with what it holds.
pub data PrefsAction : Type 0 where
  change_time change_host click_nicks click_sort click_size click_scan prefs_close : PrefsAction
  apply_time : Text → PrefsAction
  apply_host : (host port file : Text) → PrefsAction

abbrev pub is_selected {ℓ} : {A : Type ℓ} → Option A → Bool
is_selected none = false
is_selected (some a) = true

unfoldable pub toggle_nicks : Window → Window
toggle_nicks w =
    let on = not w.auto_nick_save in
    let w1 =
      make (save_setting_dword (codes "AUTO_CREATE_NICKS") (flag on) ∷ [])
        (record w { auto_nick_save = on }) in
    if on
    then if is_selected w.selected_player then make (update_player_list ∷ []) w1 else w1
    else w1

-- The settings of the order of the games.
abbrev pub sort_settings : Window → List Call
sort_settings w =
    save_setting_dword (codes "LAST_SORT_INDEX") (to_dword w.last_col_sort_index)
    ∷ save_setting_dword (codes "LAST_SORT_REVERSE") (flag w.reverse_sort)
    ∷ []

unfoldable pub toggle_sort : Window → Window
toggle_sort w =
    let on = not w.remember_sort in
    let w1 =
      make (save_setting_dword (codes "AUTO_SORT") (flag on) ∷ [])
        (record w { remember_sort = on }) in
    if on then make (sort_settings w1) w1 else w1

unfoldable pub toggle_size : Window → Window
toggle_size w =
    let on = not w.remember_size in
    make (save_setting_dword (codes "REMEMBER_SIZE") (flag on) ∷ [])
      (record w { remember_size = on })

unfoldable pub toggle_scan : Env → Window → Window
toggle_scan env w =
    let on = not w.auto_scan in
    let w1 =
      make (save_setting_dword (codes "AUTO_SCAN") (flag on) ∷ []) (record w { auto_scan = on }) in
    if on
    then start_timer env w1
    else if w1.timer_id == 0
    then w1
    else record (stop_timer w1) { timer_id = 0 }

-- The time that is applied, and the text that it is shown as where it was raised.
abbrev pub raise_delay : Window → Window
raise_delay w =
    if ltb w.auto_scan_delay min_scan_delay
    then make (set_text scan_time (fitted 8 (decimal min_scan_delay)) ∷ [])
        (record w { auto_scan_delay = min_scan_delay })
    else w

unfoldable pub set_delay : Env → Text → Window → Window
unfolding atoi decimal
set_delay env text w =
    let w1 = raise_delay (record w { auto_scan_delay = to_dword (atoi (fitted 8 text)) }) in
    let w2 = if w1.auto_scan then start_timer env (stop_timer w1) else w1 in
    make
      (save_setting_dword (codes "AUTO_SCAN_DELAY") w2.auto_scan_delay
        ∷ enable scan_time_apply false
        ∷ [])
      w2

unfoldable pub set_host : (host port file : Text) → Window → Window
unfolding atoi
set_host host port file w =
    let w1 = record w {
      host_name = fitted hostname_len host;
      host_port = to_dword (atoi (fitted 8 port));
      host_file = fitted hostname_len file;
    } in
    let w2 =
      make
        (save_setting_string (codes "HOST") w1.host_name
          ∷ save_setting_dword (codes "PORT") w1.host_port
          ∷ save_setting_string (codes "FILE") w1.host_file
          ∷ enable host_apply false
          ∷ [])
        w1 in
    if is_selected w.selected_player then w2 else make (general_status ∷ []) w2

-- WndProcPrefsDlg
unfoldable pub wnd_proc_prefs_dlg : Env → PrefsAction → Window → Window
unfolding toggle_nicks toggle_sort toggle_size toggle_scan set_delay set_host
wnd_proc_prefs_dlg env change_time w = make (enable scan_time_apply true ∷ []) w
wnd_proc_prefs_dlg env change_host w = make (enable host_apply true ∷ []) w
wnd_proc_prefs_dlg env click_nicks w = toggle_nicks w
wnd_proc_prefs_dlg env click_sort w = toggle_sort w
wnd_proc_prefs_dlg env click_size w = toggle_size w
wnd_proc_prefs_dlg env click_scan w = toggle_scan env w
wnd_proc_prefs_dlg env (apply_time text) w = set_delay env text w
wnd_proc_prefs_dlg env (apply_host host port file) w = set_host host port file w
wnd_proc_prefs_dlg env prefs_close w = make (hide prefs_window ∷ []) w

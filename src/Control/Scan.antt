-- ===== src/Control/Scan.antt =====
-- bzccscanner.c: BeginScan, EndScan and UpdateContextMenu, and the messages WM_TIMER,
-- WM_APP_REFRESH and WM_CLOSE of WndProc.
use bzcc_scanner.Base.{ℕ, true, false, none, List, [], ◌∷◌, ◌==◌, if◌then◌else◌, not}
use bzcc_scanner.Base.Int.{negsuc}
use bzcc_scanner.Base.CText.{codes}
use bzcc_scanner.Settings.Registry.{Text}
use bzcc_scanner.Control.Window.{
  Window, Env, Row, entry, separator, app_prefs_dlg, app_refresh, app_exit, close_handle,
  create_thread, post_quit, wait_for_thread, context_menu, general_status, enable, clear, set_text,
  set_title, main_window, refresh, join, url, set_name, player_list, game_list, host_message,
  shell_map, server_info, save_setting_dword, make, stop_timer, start_timer, idt_refresh,
}

abbrev pub default_title : Text
default_title = codes "BZCC Game Sessions"

abbrev pub button_text_scan_refresh : Text
button_text_scan_refresh = codes "&Refresh"

abbrev pub button_text_scan_stop : Text
button_text_scan_stop = codes "&Stop"

abbrev pub menu_text_prefs : Text
menu_text_prefs = codes "&Preferences"

abbrev pub menu_text_exit : Text
menu_text_exit = codes "&Exit"

-- The rows that UpdateContextMenu appends.
unfoldable pub menu_rows : Window → List Row
menu_rows w =
    entry true app_prefs_dlg menu_text_prefs
    ∷ separator
    ∷ (if w.scan_handle == 0
        then entry true app_refresh button_text_scan_refresh
        else entry w.continue_scan app_refresh button_text_scan_stop)
    ∷ separator
    ∷ entry true app_exit menu_text_exit
    ∷ []

-- UpdateContextMenu
abbrev pub update_context_menu : Window → Window
update_context_menu w = make (context_menu (menu_rows w) ∷ []) w

-- WM_CLOSE, with WM_DESTROY behind it.
abbrev pub save_size : Window → Window
save_size w =
    if w.remember_size
    then make
        (save_setting_dword (codes "WIN_WIDTH") w.width
          ∷ save_setting_dword (codes "WIN_HEIGHT") w.height
          ∷ [])
        w
    else w

unfoldable pub on_close : Window → Window
on_close w =
    if w.scan_handle == 0
    then make (post_quit ∷ []) (save_size w)
    else if w.quitting
    then make (post_quit ∷ []) (save_size (make (wait_for_thread w.scan_handle ∷ []) w))
    else record w { continue_scan = false; quitting = true }

-- The last part of EndScan.
abbrev pub rearm : Env → Window → Window
rearm env w = if w.auto_scan then start_timer env w else w

-- The first part of EndScan; the thread is at its end.
abbrev pub let_go : Window → Window
let_go w =
    let w1 = record w { running = false } in
    if w.scan_handle == 0
    then w1
    else make (close_handle w.scan_handle ∷ []) (record w1 { scan_handle = 0 })

-- EndScan, which the thread calls where its scan ends.
unfoldable pub end_scan : Env → Window → Window
unfolding on_close menu_rows
end_scan env w0 =
    let w = let_go w0 in
    if w.quitting
    then on_close w
    else rearm env (
        make (set_text refresh button_text_scan_refresh ∷ enable refresh true ∷ [])
          (update_context_menu w))

abbrev pub forget_sort : Window → Window
forget_sort w =
    if w.remember_sort then w else record w { last_col_sort_index = negsuc 0; reverse_sort = false }

-- The timer in BeginScan.
abbrev pub forget_timer : Window → Window
forget_timer w = if w.timer_id == 0 then w else record (stop_timer w) { timer_id = 0 }

-- BeginScan up to its call of CreateThread.
unfoldable pub prepare_scan : Window → Window
prepare_scan w =
    let w1 = forget_timer w in
    make
      (general_status
        ∷ clear player_list
        ∷ clear game_list
        ∷ clear host_message
        ∷ clear shell_map
        ∷ clear server_info
        ∷ set_title main_window default_title
        ∷ set_text refresh button_text_scan_stop
        ∷ enable join false
        ∷ enable url false
        ∷ enable set_name false
        ∷ [])
      (record (forget_sort
        (record w1 { continue_scan = true; selected_game = none; selected_player = none })) {
          total_player_count = 0;
        })

-- BeginScan from its assignment of `hScan` on.
unfoldable pub assign_scan : ℕ → Window → Window
unfolding menu_rows
assign_scan thread w =
    let w1 = make (create_thread ∷ []) (record w { scan_handle = thread }) in
    update_context_menu
      (if thread == 0 then make (set_text refresh button_text_scan_refresh ∷ []) w1 else w1)

-- BeginScan, when the thread that it starts has not ended before `hScan` is assigned.
unfoldable pub begin_scan : Env → Window → Window
unfolding prepare_scan assign_scan
begin_scan env w =
    assign_scan env.thread (record (prepare_scan w) { running = not (env.thread == 0) })

-- WM_APP_REFRESH
unfoldable pub on_refresh : Env → Window → Window
unfolding begin_scan menu_rows
on_refresh env w =
    if not (w.in_dlg == 0)
    then w
    else if not (w.scan_handle == 0)
    then if w.continue_scan
      then make (enable refresh false ∷ [])
          (update_context_menu (record w { continue_scan = false }))
      else w
    else begin_scan env w

-- WM_TIMER
unfoldable pub on_timer : Env → ℕ → Window → Window
unfolding on_refresh
on_timer env id w =
    if id == idt_refresh
    then if w.in_dlg == w.rename_dlg
      then record (stop_timer (record w { auto_scan_request_while_busy = true })) { timer_id = 0 }
      else on_refresh env w
    else w

-- ===== src/Control/Window.antt =====
-- bzccscanner.h: the fields of WindowControls and of RenameDlgControls that the window procedures
-- read and write.
use bzcc_scanner.Base.{
  ℕ, ◌*◌, ◌%◌, ◌^◌, Bool, true, false, Option, List, [], ◌∷◌, ◌++◌, ◌==◌, if◌then◌else◌,
}
use bzcc_scanner.Base.Int.{ℤ}
use bzcc_scanner.Settings.Registry.{Text}

abbrev pub idt_refresh : ℕ
idt_refresh = 1

abbrev pub min_scan_delay : ℕ
min_scan_delay = 1

abbrev pub hostname_len : ℕ
hostname_len = 128

-- The controls whose text or state the code changes.
pub data Widget : Type 0 where
  refresh join url set_name host_apply scan_time_apply delete_nick scan_time : Widget
  player_list game_list host_message shell_map server_info rename_input rename_message : Widget

-- A row of the menu of the tray icon: whether it is enabled, its command and its text.
pub data Command : Type 0 where
  app_prefs_dlg app_refresh app_exit : Command

pub data Row : Type 0 where
  entry : Bool → Command → Text → Row
  separator : Row

-- The windows that are shown, hidden or activated.
pub data Shown : Type 0 where
  main_window prefs_window rename_window : Shown

-- The calls that leave the program, and those of its functions that other modules model.
pub data Call : Type 0 where
  kill_timer set_timer close_handle wait_for_thread : ℕ → Call
  create_thread post_quit sort_items general_status player_status update_player_list : Call
  context_menu : List Row → Call
  enable : Widget → Bool → Call
  clear select_all limit_text : Widget → Call
  set_text : Widget → Text → Call
  enable_main : Bool → Call
  move show activate hide : Shown → Call
  set_title : Shown → Text → Call
  tray_added tray_deleted foreground : Call
  message_box : Text → Call
  open_url : Text → Call
  save_setting_dword : Text → ℕ → Call
  save_setting_string : Text → Text → Call
  ht_set save_nick : (user_id nick : Text) → Call
  ht_delete delete_nick_of : (user_id : Text) → Call

-- A HWND or HANDLE is a number, 0 for NULL. A selected game is its index in `gameinfo`, a selected
-- player that of a game and of a player in it. `rdc_submit` and `rdc_player` are `submit` and
-- `pPlayer` of `*pRdc`. The last three fields are not those of the source: whether the timer
-- IDT_REFRESH of the main window is set, whether the thread of a scan runs, and the calls made.
pub record Window : Type 0 where
  pub minimized : Bool
  pub scan_handle : ℕ
  pub continue_scan : Bool
  pub quitting : Bool
  pub in_dlg : ℕ
  pub rename_dlg : ℕ
  pub prefs_dlg : ℕ
  pub rdc_submit : Bool
  pub rdc_player : Option (ℕ × ℕ)
  pub last_col_sort_index : ℤ
  pub reverse_sort : Bool
  pub remember_sort : Bool
  pub use_local_names : Bool
  pub remember_size : Bool
  pub width : ℕ
  pub height : ℕ
  pub auto_nick_save : Bool
  pub auto_scan_request_while_busy : Bool
  pub auto_scan : Bool
  pub auto_scan_delay : ℕ
  pub timer_id : ℕ
  pub host_name : Text
  pub host_port : ℕ
  pub host_file : Text
  pub selected_game : Option ℕ
  pub selected_player : Option (ℕ × ℕ)
  pub total_player_count : ℕ
  pub armed : Bool
  pub running : Bool
  pub calls : List Call

-- What the system calls of a message return: whether SetTimer succeeds, and the handle that
-- CreateThread returns, 0 for NULL.
pub record Env : Type 0 where
  pub timer_ok : Bool
  pub thread : ℕ

abbrev pub make : List Call → Window → Window
make cs w = let before = w.calls in record w { calls = before ++ cs }

-- KillTimer of `timer_id` and SetTimer; the identifier of a timer of a window is the one given.
abbrev pub stop_timer : Window → Window
stop_timer w =
    make (kill_timer w.timer_id ∷ [])
      (record w { armed = if w.timer_id == idt_refresh then false else w.armed })

-- The period that SetTimer is given, in milliseconds: a product of two DWORDs.
unfoldable pub elapse : ℕ → ℕ
elapse delay = delay * 1000 % 2 ^ 32

abbrev pub start_timer : Env → Window → Window
start_timer env w = make (set_timer (elapse w.auto_scan_delay) ∷ []) (record w {
  timer_id = if env.timer_ok then idt_refresh else 0;
  armed = if env.timer_ok then true else w.armed;
})

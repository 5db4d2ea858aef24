-- ===== src/Control/Onward.antt =====
-- What no message undoes: the wish to quit, and a handle in `hScan` with no thread behind it.
use bzcc_scanner.Base.{ℕ, ◌≡◌, ◌≢◌, true, false, Option, none, some, arith}
use bzcc_scanner.Session.Info.{PlayerInfo, GameInfo}
use bzcc_scanner.Settings.Registry.{Text}
use bzcc_scanner.Control.Window.{Window, Env}
use bzcc_scanner.Control.Scan.{
  on_close, on_refresh, on_timer, begin_scan, end_scan, prepare_scan, assign_scan,
}
use bzcc_scanner.Control.Rename.{
  RenameAction, rename_select_all, rename_delete, rename_ok, rename_close, on_rename_dlg,
  submit_name, on_close_rename_dlg, leave_dialog,
}
use bzcc_scanner.Control.Prefs.{
  PrefsAction, apply_time, change_time, change_host, click_nicks, click_sort, click_size,
  click_scan, apply_host, prefs_close, set_delay, wnd_proc_prefs_dlg, toggle_nicks, toggle_sort,
  toggle_size, toggle_scan, set_host,
}
use bzcc_scanner.Control.Main.{select_player, select_game}

pub record IsOnward (w w' : Window) : Type 0 where
  pub quits : w.quitting ≡ true → w'.quitting ≡ true
  pub stuck :
      w.running ≡ false
      → w.scan_handle ≢ 0
      → (w'.running ≡ false) × (w'.scan_handle ≡ w.scan_handle)

pub on_close-IsOnward : (w : Window) → IsOnward w (on_close w)
unfolding on_close
on_close-IsOnward w = ground arith

pub on_refresh-IsOnward : (env : Env) (w : Window) → IsOnward w (on_refresh env w)
unfolding on_refresh begin_scan prepare_scan assign_scan
on_refresh-IsOnward env w = ground arith

pub end_scan-IsOnward : (env : Env) (w : Window) → w.running ≡ true → IsOnward w (end_scan env w)
unfolding end_scan on_close
end_scan-IsOnward env w e = ground arith

pub on_timer-IsOnward : (env : Env) (id : ℕ) (w : Window) → IsOnward w (on_timer env id w)
unfolding on_timer
on_timer-IsOnward env id w = ground (arith, on_refresh-IsOnward env w)

pub on_rename_dlg-IsOnward : (p : PlayerInfo) (w : Window) → IsOnward w (on_rename_dlg p w)
unfolding on_rename_dlg
on_rename_dlg-IsOnward p w = ground arith

pub leave_dialog-IsOnward : (a : RenameAction) (w : Window) → IsOnward w (leave_dialog a w)
unfolding leave_dialog
leave_dialog-IsOnward rename_select_all w = ground arith
leave_dialog-IsOnward rename_delete w = ground arith
leave_dialog-IsOnward rename_ok w = ground arith
leave_dialog-IsOnward rename_close w = ground arith

pub on_close_rename_dlg-IsOnward :
    (env : Env) (text : Text) (p : PlayerInfo) (w : Window)
    → IsOnward w (on_close_rename_dlg env text p w).0
unfolding on_close_rename_dlg submit_name
on_close_rename_dlg-IsOnward env text p w = ground arith

pub wnd_proc_prefs_dlg-IsOnward :
    (env : Env) (a : PrefsAction) (w : Window) → IsOnward w (wnd_proc_prefs_dlg env a w)
unfolding wnd_proc_prefs_dlg toggle_nicks toggle_sort toggle_size toggle_scan set_host set_delay
wnd_proc_prefs_dlg-IsOnward env (apply_time text) w = ground arith
wnd_proc_prefs_dlg-IsOnward env change_time w = ground arith
wnd_proc_prefs_dlg-IsOnward env change_host w = ground arith
wnd_proc_prefs_dlg-IsOnward env click_nicks w = ground arith
wnd_proc_prefs_dlg-IsOnward env click_sort w = ground arith
wnd_proc_prefs_dlg-IsOnward env click_size w = ground arith
wnd_proc_prefs_dlg-IsOnward env click_scan w = ground arith
wnd_proc_prefs_dlg-IsOnward env (apply_host host port file) w = ground arith
wnd_proc_prefs_dlg-IsOnward env prefs_close w = ground arith

pub select_player-IsOnward :
    (cur_sel : Option ℕ) (w : Window) {w' : Window}
    → select_player cur_sel w ≡ some w'
    → IsOnward w w'
unfolding select_player
select_player-IsOnward cur_sel w e = ground arith

pub select_game-IsOnward :
    (item at : Option ℕ) (g : GameInfo) (w : Window) {w' : Window}
    → select_game item at g w ≡ some w'
    → IsOnward w w'
unfolding select_game
select_game-IsOnward none at g w e = ground arith
select_game-IsOnward (some i) none g w e = ground arith
select_game-IsOnward (some i) (some at) g w e = ground arith

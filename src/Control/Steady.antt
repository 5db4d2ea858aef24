-- ===== src/Control/Steady.antt =====
-- The timer, the thread and the fields of the window agree, whatever happens.
use bzcc_scanner.Base.{
  ℕ, ◌≡◌, ◌≢◌, ◌⊎◌, inl, inr, true, false, Option, none, some, arith, [], ◌∷◌, ◌==◌, Bool-cases,
}
use bzcc_scanner.Session.Info.{PlayerInfo, GameInfo}
use bzcc_scanner.Settings.Registry.{Text}
use bzcc_scanner.Control.Window.{Window, Env, make, enable_main, activate, main_window}
use bzcc_scanner.Control.Rename.{ask_again, on_rename_dlg, submit_name, on_close_rename_dlg}
use bzcc_scanner.Control.Prefs.{
  set_delay, wnd_proc_prefs_dlg, toggle_nicks, toggle_sort, toggle_size, toggle_scan, set_host,
  PrefsAction, apply_time, change_time, change_host, click_nicks, click_sort, click_size,
  click_scan, apply_host, prefs_close,
}
use bzcc_scanner.Control.Main.{select_player, select_game}
use bzcc_scanner.Control.Scan.{
  on_close, on_refresh, on_timer, begin_scan, end_scan, prepare_scan, assign_scan,
}

-- The system calls that a scan and its timer need succeed.
pub record IsGranted (env : Env) : Type 0 where
  pub timer : env.timer_ok ≡ true
  pub thread : env.thread ≢ 0

-- `hScan` is a handle exactly while the thread runs, `timer_id` is IDT_REFRESH exactly while the timer is
-- set, a dialog that holds off a scan is the rename dialog, and with auto scan on, the next scan is on
-- its way: one runs, the timer is set, or the rename dialog is open and has to set it where it closes.
pub record IsSteady (w : Window) : Type 0 where
  pub busy : w.running ≡ true → w.scan_handle ≢ 0
  pub idle : w.running ≡ false → w.scan_handle ≡ 0
  pub ticking : w.armed ≡ true → w.timer_id ≡ 1
  pub silent : w.armed ≡ false → w.timer_id ≡ 0
  pub window : w.rename_dlg ≢ 0
  pub dialog : (w.in_dlg ≡ 0) ⊎ (w.in_dlg ≡ w.rename_dlg)
  pub asked : w.auto_scan_request_while_busy ≡ true → w.in_dlg ≢ 0
  pub waits :
      w.auto_scan ≡ true
      → w.scan_handle ≡ 0
      → w.quitting ≡ false
      → (w.armed ≡ true) ⊎ ((w.auto_scan_request_while_busy ≡ true) × (w.in_dlg ≢ 0))

pub on_close-IsSteady : (w : Window) → IsSteady w → IsSteady (on_close w)
unfolding on_close
on_close-IsSteady w h = ground arith

pub begin_scan-IsSteady :
    (env : Env) (w : Window) → IsGranted env → IsSteady w → IsSteady (begin_scan env w)
unfolding begin_scan prepare_scan assign_scan
begin_scan-IsSteady env w g h = ground arith

pub on_refresh-IsSteady :
    (env : Env) (w : Window) → IsGranted env → IsSteady w → IsSteady (on_refresh env w)
unfolding on_refresh
on_refresh-IsSteady env w g h = ground (arith, begin_scan-IsSteady env w g h)

pub end_scan-IsSteady :
    (env : Env) (w : Window) → IsGranted env → IsSteady w → IsSteady (end_scan env w)
unfolding end_scan on_close
end_scan-IsSteady env w g h = ground arith

pub on_timer-IsSteady :
    (env : Env) (id : ℕ) (w : Window) → IsGranted env → IsSteady w → IsSteady (on_timer env id w)
unfolding on_timer
on_timer-IsSteady env id w g h = ground (arith, on_refresh-IsSteady env w g h)

-- The rename dialog closes.
pub ask_again-IsSteady :
    (env : Env) (w : Window)
    → IsGranted env
    → IsSteady w
    → IsSteady (
        ask_again env
          (make (enable_main true ∷ activate main_window ∷ []) (record w { in_dlg = 0 })))
ask_again-IsSteady env w g h = ground arith

pub on_rename_dlg-IsSteady :
    (p : PlayerInfo) (w : Window) → IsSteady w → IsSteady (on_rename_dlg p w)
unfolding on_rename_dlg
on_rename_dlg-IsSteady p w h = ground arith

pub submit_name-IsSteady :
    (text : Text) (p : PlayerInfo) (w : Window) → IsSteady w → IsSteady (submit_name text p w).0
unfolding submit_name
submit_name-IsSteady text p w h = ground arith

pub on_close_rename_dlg-IsSteady :
    (env : Env) (text : Text) (p : PlayerInfo) (w : Window)
    → IsGranted env
    → IsSteady w
    → IsSteady (on_close_rename_dlg env text p w).0
unfolding on_close_rename_dlg
on_close_rename_dlg-IsSteady env text p w g h =
    let w1 = make (enable_main true ∷ activate main_window ∷ []) (record w { in_dlg = 0 }) in
    let asked = ask_again-IsSteady env w g h in
    let done = submit_name-IsSteady text p (ask_again env w1) asked in
    elim (Bool-cases (w.in_dlg == w.rename_dlg)) [ inl e ↦ rw e done | inr e ↦ rw e h ]

pub set_delay-IsSteady :
    (env : Env) (text : Text) (w : Window)
    → IsGranted env
    → IsSteady w
    → IsSteady (set_delay env text w)
unfolding set_delay
set_delay-IsSteady env text w g h = ground arith

pub wnd_proc_prefs_dlg-IsSteady :
    (env : Env) (a : PrefsAction) (w : Window)
    → IsGranted env
    → IsSteady w
    → IsSteady (wnd_proc_prefs_dlg env a w)
unfolding wnd_proc_prefs_dlg toggle_nicks toggle_sort toggle_size toggle_scan set_host
wnd_proc_prefs_dlg-IsSteady env (apply_time text) w g h = set_delay-IsSteady env text w g h
wnd_proc_prefs_dlg-IsSteady env change_time w g h = ground arith
wnd_proc_prefs_dlg-IsSteady env change_host w g h = ground arith
wnd_proc_prefs_dlg-IsSteady env click_nicks w g h = ground arith
wnd_proc_prefs_dlg-IsSteady env click_sort w g h = ground arith
wnd_proc_prefs_dlg-IsSteady env click_size w g h = ground arith
wnd_proc_prefs_dlg-IsSteady env click_scan w g h = ground arith
wnd_proc_prefs_dlg-IsSteady env (apply_host host port file) w g h = ground arith
wnd_proc_prefs_dlg-IsSteady env prefs_close w g h = ground arith

pub select_player-IsSteady :
    (cur_sel : Option ℕ) (w : Window) {w' : Window}
    → select_player cur_sel w ≡ some w'
    → IsSteady w
    → IsSteady w'
unfolding select_player
select_player-IsSteady cur_sel w e h = ground arith

pub select_game-IsSteady :
    (item at : Option ℕ) (g : GameInfo) (w : Window) {w' : Window}
    → select_game item at g w ≡ some w'
    → IsSteady w
    → IsSteady w'
unfolding select_game
select_game-IsSteady none at g w e h = ground arith
select_game-IsSteady (some i) none g w e h = ground arith
select_game-IsSteady (some i) (some at) g w e h = ground arith

-- ===== src/Control/Steps.antt =====
-- The main window as a transition system: the messages of its thread, in any order, and the end of
-- the thread of a scan.
use bzcc_scanner.Base.{◌≡◌, some, arith, subst}
use bzcc_scanner.Session.Info.{PlayerInfo, fitted, player_name_len}
use bzcc_scanner.Settings.Registry.{Text}
use bzcc_scanner.Control.Window.{Window, Env}
use bzcc_scanner.Control.Rename.{
  RenameAction, submitted, wnd_proc_ren_dlg, rename_select_all, rename_delete, rename_ok,
  rename_close, leave_dialog,
}
use bzcc_scanner.Control.Main.{
  Message, wnd_proc, prefs_dlg_opened, minimized_to_tray, tray_clicked, refresh_clicked, closed,
  destroyed, names_clicked, join_clicked, rename_dlg_opened, profile_clicked, rename_dlg_closed,
  timer_fired, player_clicked, game_clicked, column_clicked, size_moved, on_prefs_dlg, on_minimize,
  on_restore, toggle_names, open_profile, sort_by,
}
use bzcc_scanner.Control.Steady.{
  IsGranted, IsSteady, on_close-IsSteady, on_refresh-IsSteady, on_timer-IsSteady,
  on_rename_dlg-IsSteady, on_close_rename_dlg-IsSteady, select_player-IsSteady,
  select_game-IsSteady,
}
use bzcc_scanner.Control.Onward.{
  IsOnward, on_close-IsOnward, on_refresh-IsOnward, on_timer-IsOnward, on_rename_dlg-IsOnward,
  leave_dialog-IsOnward, on_close_rename_dlg-IsOnward, select_player-IsOnward, select_game-IsOnward,
}

some_injective : {A : Type 0} {a b : A} → some a ≡ some b → a ≡ b
some_injective e = cc

pub wnd_proc-IsSteady :
    (env : Env) (m : Message) (w : Window) {w' : Window}
    → IsGranted env
    → wnd_proc env m w ≡ some w'
    → IsSteady w
    → IsSteady w'
unfolding wnd_proc on_prefs_dlg on_minimize on_restore toggle_names open_profile sort_by
wnd_proc-IsSteady env prefs_dlg_opened w g e h = ground arith
wnd_proc-IsSteady env minimized_to_tray w g e h = ground arith
wnd_proc-IsSteady env tray_clicked w g e h = ground arith
wnd_proc-IsSteady env destroyed w g e h = ground arith
wnd_proc-IsSteady env names_clicked w g e h = ground arith
wnd_proc-IsSteady env join_clicked w g e h = ground arith
wnd_proc-IsSteady env (profile_clicked p) w g e h = ground arith
wnd_proc-IsSteady env (column_clicked column) w g e h = ground arith
wnd_proc-IsSteady env (size_moved width height) w g e h = ground arith
wnd_proc-IsSteady env refresh_clicked w g e h =
    subst IsSteady (some_injective e) (on_refresh-IsSteady env w g h)
wnd_proc-IsSteady env closed w g e h = subst IsSteady (some_injective e) (on_close-IsSteady w h)
wnd_proc-IsSteady env (rename_dlg_opened p) w g e h =
    subst IsSteady (some_injective e) (on_rename_dlg-IsSteady p w h)
wnd_proc-IsSteady env (rename_dlg_closed text p) w g e h =
    subst IsSteady (some_injective e) (on_close_rename_dlg-IsSteady env text p w g h)
wnd_proc-IsSteady env (timer_fired id) w g e h =
    subst IsSteady (some_injective e) (on_timer-IsSteady env id w g h)
wnd_proc-IsSteady env (player_clicked cur_sel) w g e h = select_player-IsSteady cur_sel w e h
wnd_proc-IsSteady env (game_clicked item at game) w g e h = select_game-IsSteady item at game w e h

pub wnd_proc-IsOnward :
    (env : Env) (m : Message) (w : Window) {w' : Window}
    → wnd_proc env m w ≡ some w'
    → IsOnward w w'
unfolding wnd_proc on_prefs_dlg on_minimize on_restore toggle_names open_profile sort_by
wnd_proc-IsOnward env prefs_dlg_opened w e = ground arith
wnd_proc-IsOnward env minimized_to_tray w e = ground arith
wnd_proc-IsOnward env tray_clicked w e = ground arith
wnd_proc-IsOnward env destroyed w e = ground arith
wnd_proc-IsOnward env names_clicked w e = ground arith
wnd_proc-IsOnward env join_clicked w e = ground arith
wnd_proc-IsOnward env (profile_clicked p) w e = ground arith
wnd_proc-IsOnward env (column_clicked column) w e = ground arith
wnd_proc-IsOnward env (size_moved width height) w e = ground arith
wnd_proc-IsOnward env refresh_clicked w e =
    subst (IsOnward w) (some_injective e) (on_refresh-IsOnward env w)
wnd_proc-IsOnward env closed w e = subst (IsOnward w) (some_injective e) (on_close-IsOnward w)
wnd_proc-IsOnward env (rename_dlg_opened p) w e =
    subst (IsOnward w) (some_injective e) (on_rename_dlg-IsOnward p w)
wnd_proc-IsOnward env (rename_dlg_closed text p) w e =
    subst (IsOnward w) (some_injective e) (on_close_rename_dlg-IsOnward env text p w)
wnd_proc-IsOnward env (timer_fired id) w e =
    subst (IsOnward w) (some_injective e) (on_timer-IsOnward env id w)
wnd_proc-IsOnward env (player_clicked cur_sel) w e = select_player-IsOnward cur_sel w e
wnd_proc-IsOnward env (game_clicked item at game) w e = select_game-IsOnward item at game w e

leave_dialog-IsSteady : (a : RenameAction) (w : Window) → IsSteady w → IsSteady (leave_dialog a w)
unfolding leave_dialog
leave_dialog-IsSteady rename_select_all w h = ground arith
leave_dialog-IsSteady rename_delete w h = ground arith
leave_dialog-IsSteady rename_ok w h = ground arith
leave_dialog-IsSteady rename_close w h = ground arith

pub wnd_proc_ren_dlg-IsSteady :
    (env : Env) (text : Text) (p : PlayerInfo) (a : RenameAction) (w : Window)
    → IsGranted env
    → IsSteady w
    → IsSteady (wnd_proc_ren_dlg env text p a w).0
unfolding wnd_proc_ren_dlg
wnd_proc_ren_dlg-IsSteady env text p rename_select_all w g h =
    leave_dialog-IsSteady rename_select_all w h
wnd_proc_ren_dlg-IsSteady env text p rename_delete w g h =
    on_close_rename_dlg-IsSteady env (fitted player_name_len (submitted rename_delete text)) p
      (leave_dialog rename_delete w) g (leave_dialog-IsSteady rename_delete w h)
wnd_proc_ren_dlg-IsSteady env text p rename_ok w g h =
    on_close_rename_dlg-IsSteady env (fitted player_name_len (submitted rename_ok text)) p
      (leave_dialog rename_ok w) g (leave_dialog-IsSteady rename_ok w h)
wnd_proc_ren_dlg-IsSteady env text p rename_close w g h =
    on_close_rename_dlg-IsSteady env (fitted player_name_len (submitted rename_close text)) p
      (leave_dialog rename_close w) g (leave_dialog-IsSteady rename_close w h)

pub IsOnward-trans : {u v w : Window} → IsOnward u v → IsOnward v w → IsOnward u w
IsOnward-trans p q = ground arith

pub wnd_proc_ren_dlg-IsOnward :
    (env : Env) (text : Text) (p : PlayerInfo) (a : RenameAction) (w : Window)
    → IsOnward w (wnd_proc_ren_dlg env text p a w).0
unfolding wnd_proc_ren_dlg
wnd_proc_ren_dlg-IsOnward env text p rename_select_all w = leave_dialog-IsOnward rename_select_all w
wnd_proc_ren_dlg-IsOnward env text p rename_delete w =
    IsOnward-trans (leave_dialog-IsOnward rename_delete w) (
      on_close_rename_dlg-IsOnward env (fitted player_name_len (submitted rename_delete text)) p
        (leave_dialog rename_delete w))
wnd_proc_ren_dlg-IsOnward env text p rename_ok w =
    IsOnward-trans (leave_dialog-IsOnward rename_ok w) (
      on_close_rename_dlg-IsOnward env (fitted player_name_len (submitted rename_ok text)) p
        (leave_dialog rename_ok w))
wnd_proc_ren_dlg-IsOnward env text p rename_close w =
    IsOnward-trans (leave_dialog-IsOnward rename_close w) (
      on_close_rename_dlg-IsOnward env (fitted player_name_len (submitted rename_close text)) p
        (leave_dialog rename_close w))

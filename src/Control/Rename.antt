-- ===== src/Control/Rename.antt =====
-- bzccscanner.c: the rename dialog, WndProcRenDlg, and the messages WM_APP_RENAME_DLG and
-- WM_APP_CLOSE_RENAME_DLG of WndProc.
use bzcc_scanner.Base.{Bool, true, false, none, some, List, [], ◌∷◌, ◌++◌, ◌==◌, if◌then◌else◌, not}
use bzcc_scanner.Base.CText.{codes}
use bzcc_scanner.Session.Info.{PlayerInfo, fitted, same_text, player_name_len, user_id_is_valid}
use bzcc_scanner.Settings.Registry.{Text}
use bzcc_scanner.Control.Window.{
  Window, Env, make, start_timer, enable_main, rename_window, main_window, set_title, set_text,
  rename_message, rename_input, limit_text, select_all, enable, delete_nick, move, show, activate,
  hide, ht_set, ht_delete, save_nick, delete_nick_of, message_box, update_player_list,
  player_status, Call,
}

abbrev pub default_title_rename_dlg : Text
default_title_rename_dlg = codes "Change Nickname"

abbrev pub default_title_rename_dlg_new : Text
default_title_rename_dlg_new = codes "Add Nickname"

abbrev pub is_empty : Text → Bool
is_empty [] = true
is_empty (c ∷ cs) = false

-- WM_APP_RENAME_DLG, with the player that `pSelectedPlayerInfo` points to.
unfoldable pub on_rename_dlg : PlayerInfo → Window → Window
on_rename_dlg p w = elim w.selected_player [
  | none ↦ w
  | some at ↦ elim w.selected_game [
    | none ↦ w
    | some g ↦
        if not (w.in_dlg == 0)
        then w
        else make
            (enable_main false
              ∷ set_title rename_window (
                  if is_empty p.local_name
                  then default_title_rename_dlg_new
                  else default_title_rename_dlg)
              ∷ set_text rename_message (
                  fitted 256 (
                    codes "Set nickname for "
                    ++ p.ingame_name
                    ++ codes " ("
                    ++ p.user_id
                    ++ codes ")"))
              ∷ limit_text rename_input
              ∷ set_text rename_input
                  (if is_empty p.local_name then p.ingame_name else p.local_name)
              ∷ select_all rename_input
              ∷ enable delete_nick (not (is_empty p.local_name))
              ∷ move rename_window
              ∷ show rename_window
              ∷ activate rename_window
              ∷ [])
            (record w { in_dlg = w.rename_dlg; rdc_player = some at })
  ]
]

-- What is done to the player with the text that was submitted: the player, and the calls.
pub record Renamed : Type 0 where
  pub player : PlayerInfo
  pub calls : List Call

unfoldable pub rename : Text → PlayerInfo → Renamed
unfolding user_id_is_valid
rename text p =
    if same_text text p.local_name
    then record { player = p; calls = [] }
    else if not (user_id_is_valid p.user_id)
    then record {
      player = p;
      calls = message_box (fitted 256 (codes "Invalid user ID: " ++ p.user_id ++ 10 ∷ [])) ∷ [];
    }
    else if is_empty text
    then record {
      player = record p { local_name = [] };
      calls = ht_delete p.user_id ∷ delete_nick_of p.user_id ∷ [];
    }
    else record {
      player = record p { local_name = fitted player_name_len text };
      calls = ht_set p.user_id text ∷ save_nick p.user_id text ∷ [];
    }

-- The timer in WM_APP_CLOSE_RENAME_DLG.
abbrev pub ask_again : Env → Window → Window
ask_again env w =
    if w.auto_scan_request_while_busy
    then record (if w.auto_scan then start_timer env w else w) {
      auto_scan_request_while_busy = false;
    }
    else w

-- The end of WM_APP_CLOSE_RENAME_DLG.
unfoldable pub submit_name : Text → PlayerInfo → Window → Window × PlayerInfo
unfolding rename
submit_name text p w =
    let done = rename text p in
    if w.rdc_submit
    then (
      make (done.calls ++ update_player_list ∷ player_status ∷ [])
          (record w { rdc_submit = false }),
      done.player,
    )
    else (w, p)

-- WM_APP_CLOSE_RENAME_DLG: the window, and `*pPlayer`. `text` is what Edit_GetText returns for a
-- buffer of PLAYER_NAME_LEN characters.
unfoldable pub on_close_rename_dlg : Env → Text → PlayerInfo → Window → Window × PlayerInfo
unfolding submit_name
on_close_rename_dlg env text p w =
    if not (w.in_dlg == w.rename_dlg)
    then (w, p)
    else submit_name text p (
        ask_again env
          (make (enable_main true ∷ activate main_window ∷ []) (record w { in_dlg = 0 })))

-- What WndProcRenDlg does with a message: WM_RDC_DELETE, WM_RDC_OK and WM_CLOSE, and the messages
-- of its menu and buttons, which send one of these.
pub data RenameAction : Type 0 where
  rename_select_all rename_delete rename_ok rename_close : RenameAction

-- The dialog's own part, in front of WM_APP_CLOSE_RENAME_DLG.
unfoldable pub leave_dialog : RenameAction → Window → Window
leave_dialog rename_select_all w = make (select_all rename_input ∷ []) w
leave_dialog rename_delete w =
    make (set_text rename_input [] ∷ hide rename_window ∷ []) (record w { rdc_submit = true })
leave_dialog rename_ok w = make (hide rename_window ∷ []) (record w { rdc_submit = true })
leave_dialog rename_close w = make (hide rename_window ∷ []) w

-- The text that the dialog then holds: a deletion empties it.
abbrev pub submitted : RenameAction → Text → Text
submitted rename_delete text = []
submitted _ text = text

-- WndProcRenDlg
unfoldable pub wnd_proc_ren_dlg :
    Env → Text → PlayerInfo → RenameAction → Window → Window × PlayerInfo
unfolding leave_dialog on_close_rename_dlg
wnd_proc_ren_dlg env text p rename_select_all w = (leave_dialog rename_select_all w, p)
wnd_proc_ren_dlg env text p a w =
    on_close_rename_dlg env (fitted player_name_len (submitted a text)) p (leave_dialog a w)

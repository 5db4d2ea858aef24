-- ===== src/Control/Reach.antt =====
-- What holds of every window that is reached.
use bzcc_scanner.Base.{◌≡◌, ◌≢◌, refl, true, false, some, arith, sym, ◌∙◌, List, [], ◌∷◌, ◌++◌}
use bzcc_scanner.Session.Info.{PlayerInfo}
use bzcc_scanner.Settings.Registry.{Text}
use bzcc_scanner.Control.Window.{Window, Env, Call, post_quit}
use bzcc_scanner.Control.Scan.{
  on_refresh, end_scan, on_close, save_size, let_go, begin_scan, prepare_scan, assign_scan,
}
use bzcc_scanner.Control.Startup.{first_scan}
use bzcc_scanner.Control.Rename.{RenameAction, wnd_proc_ren_dlg}
use bzcc_scanner.Control.Prefs.{PrefsAction, wnd_proc_prefs_dlg}
use bzcc_scanner.Control.Main.{Message, wnd_proc}
use bzcc_scanner.Control.Steady.{
  IsGranted, IsSteady, end_scan-IsSteady, wnd_proc_prefs_dlg-IsSteady,
}
use bzcc_scanner.Control.Onward.{IsOnward, end_scan-IsOnward, wnd_proc_prefs_dlg-IsOnward}
use bzcc_scanner.Control.Steps.{
  wnd_proc-IsSteady, wnd_proc-IsOnward, wnd_proc_ren_dlg-IsSteady, wnd_proc_ren_dlg-IsOnward,
  IsOnward-trans,
}

-- A message of one of the three windows, or the call of EndScan in the thread of a scan.
pub data Step : Window → Window → Type 0 where
  to_main :
      {w w' : Window} (env : Env) (m : Message)
      → IsGranted env
      → wnd_proc env m w ≡ some w'
      → Step w w'
  to_prefs :
      (w : Window) (env : Env) (a : PrefsAction)
      → IsGranted env
      → Step w (wnd_proc_prefs_dlg env a w)
  to_rename :
      (w : Window) (env : Env) (text : Text) (p : PlayerInfo) (a : RenameAction)
      → IsGranted env
      → Step w (wnd_proc_ren_dlg env text p a w).0
  scan_ended : (w : Window) (env : Env) → IsGranted env → w.running ≡ true → Step w (end_scan env w)

pub data Reach (s : Window) : Window → Type 0 where
  at_once : Reach s s
  after : {t u : Window} → Reach s t → Step t u → Reach s u

Step-IsSteady : {t u : Window} → Step t u → IsSteady t → IsSteady u
Step-IsSteady (to_main env m g e) h = wnd_proc-IsSteady env m _ g e h
Step-IsSteady (to_prefs t env a g) h = wnd_proc_prefs_dlg-IsSteady env a t g h
Step-IsSteady (to_rename t env text p a g) h = wnd_proc_ren_dlg-IsSteady env text p a t g h
Step-IsSteady (scan_ended t env g r) h = end_scan-IsSteady env t g h

Step-IsOnward : {t u : Window} → Step t u → IsOnward t u
Step-IsOnward (to_main env m g e) = wnd_proc-IsOnward env m _ e
Step-IsOnward (to_prefs t env a g) = wnd_proc_prefs_dlg-IsOnward env a t
Step-IsOnward (to_rename t env text p a g) = wnd_proc_ren_dlg-IsOnward env text p a t
Step-IsOnward (scan_ended t env g r) = end_scan-IsOnward env t r

Reach-IsSteady : {s t : Window} → IsSteady s → Reach s t → IsSteady t
Reach-IsSteady h at_once = h
Reach-IsSteady h (after r st) = Step-IsSteady st (Reach-IsSteady h r)

Reach-IsOnward : {s t : Window} → Reach s t → IsOnward s t
Reach-IsOnward at_once = ground arith
Reach-IsOnward (after r st) = IsOnward-trans (Reach-IsOnward r) (Step-IsOnward st)

-- The window as WinMain fills it: nothing runs, no timer is set, and the rename dialog is there, but
-- not open.
pub record IsFresh (w : Window) : Type 0 where
  pub thread : w.running ≡ false
  pub handle : w.scan_handle ≡ 0
  pub timer : w.armed ≡ false
  pub timer_id : w.timer_id ≡ 0
  pub window : w.rename_dlg ≢ 0
  pub dialog : w.in_dlg ≡ 0
  pub asked : w.auto_scan_request_while_busy ≡ false
  pub staying : w.quitting ≡ false

first_scan-IsSteady :
    (env : Env) (w : Window) → IsGranted env → IsFresh w → IsSteady (first_scan env w)
unfolding first_scan on_refresh begin_scan prepare_scan assign_scan
first_scan-IsSteady env w g f = ground arith

-- From the window that WinMain fills and its first message on, after any messages and ends of
-- scans, if SetTimer and CreateThread succeed, and no thread ends before BeginScan has assigned
-- `hScan`: the handle, the timer and the thread agree with their fields, and with auto scan on and
-- no wish to quit, a scan runs, the timer is set, or the rename dialog is open and will set it.
pub first_scan-Reach :
    (env : Env) (w : Window) {t : Window}
    → IsGranted env
    → IsFresh w
    → Reach (first_scan env w) t
    → IsSteady t
first_scan-Reach env w g f r = Reach-IsSteady (first_scan-IsSteady env w g f) r

on_close-posts :
    (w : Window) → w.scan_handle ≡ 0 → (on_close w).calls ≡ (save_size w).calls ++ post_quit ∷ []
unfolding on_close
on_close-posts w e = rw e refl

let_go-handle : (w : Window) → (let_go w).scan_handle ≡ 0
let_go-handle w = ground arith

pub let_go-quitting : (w : Window) → (let_go w).quitting ≡ w.quitting
let_go-quitting w = ground arith

end_scan-quitting :
    (env : Env) (t : Window) → t.quitting ≡ true → end_scan env t ≡ on_close (let_go t)
unfolding end_scan
end_scan-quitting env t q = rw (let_go-quitting t ∙ q) refl

end_scan-posts :
    (env : Env) (t : Window)
    → t.quitting ≡ true
    → (cs : List Call) × ((end_scan env t).calls ≡ cs ++ post_quit ∷ [])
end_scan-posts env t q = (
  (save_size (let_go t)).calls,
  rw (end_scan-quitting env t q) (on_close-posts (let_go t) (let_go-handle t)),
)

-- A WM_CLOSE while a scan runs asks the scan to stop, and the end of that scan posts the quit
-- message, whatever messages come in between.
pub on_close-Quits :
    (env : Env) (w : Window) {t : Window}
    → w.scan_handle ≢ 0
    → w.quitting ≡ false
    → Reach (on_close w) t
    → ((on_close w).continue_scan ≡ false)
      × ((cs : List Call) × ((end_scan env t).calls ≡ cs ++ post_quit ∷ []))
unfolding on_close
on_close-Quits env w h q r =
    (ground arith, end_scan-posts env _ ((Reach-IsOnward r).quits (ground arith)))

-- BeginScan when the thread that it starts calls EndScan before `hScan` is assigned.
unfoldable pub overtaken_scan : Env → Window → Window
overtaken_scan env w =
    assign_scan env.thread (end_scan env (record (prepare_scan w) { running = true }))

overtaken_scan-handle :
    (env : Env) (w : Window)
    → w.quitting ≡ false
    → ((overtaken_scan env w).running ≡ false) × ((overtaken_scan env w).scan_handle ≡ env.thread)
unfolding overtaken_scan assign_scan end_scan prepare_scan
overtaken_scan-handle env w q = ground arith

-- If the thread ends before `hScan` is assigned, the handle of the ended thread stays in `hScan`,
-- and no message ever starts a scan again.
pub overtaken_scan-Stuck :
    (env : Env) (w : Window) {t : Window}
    → env.thread ≢ 0
    → w.quitting ≡ false
    → Reach (overtaken_scan env w) t
    → (t.running ≡ false) × (t.scan_handle ≡ env.thread)
overtaken_scan-Stuck env w h q r =
    let (r0, h0) = overtaken_scan-handle env w q in
    let (r1, h1) = (Reach-IsOnward r).stuck r0 (λ e. h (sym h0 ∙ e)) in (r1, h1 ∙ h0)

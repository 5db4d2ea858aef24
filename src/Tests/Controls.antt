-- ===== src/Tests/Controls.antt =====
-- The main window at concrete inputs.
use bzcc_scanner.Base.{ℕ, ◌+◌, ◌<◌, ◌≡◌, refl, arith, true, false, none, some, List, [], ◌∷◌, ◌++◌}
use bzcc_scanner.Base.Int.{ℤ, pos, negsuc}
use bzcc_scanner.Base.CText.{codes}
use bzcc_scanner.Session.Info.{GameInfo, zero_game}
use bzcc_scanner.Session.Keys.{get_game_type_description}
use bzcc_scanner.Settings.Registry.{Text}
use bzcc_scanner.Control.Window.{Window, Env, Call, post_quit, elapse}
use bzcc_scanner.Control.Scan.{on_close, end_scan, on_refresh, begin_scan, assign_scan}
use bzcc_scanner.Control.Prefs.{wnd_proc_prefs_dlg, click_scan}
use bzcc_scanner.Control.Texts.{server_info_text, server_parts, joined, mod_lines}
use bzcc_scanner.Control.Steady.{IsGranted, IsSteady}
use bzcc_scanner.Control.Reach.{
  to_prefs, scan_ended, at_once, after, IsFresh, first_scan-Reach, on_close-Quits, overtaken_scan,
  overtaken_scan-Stuck,
}
use bzcc_scanner.Control.Startup.{first_scan}
use bzcc_scanner.Control.Rounds.{scans_of, rounds, IsWaiting, rounds-Scan}
use bzcc_scanner.Control.Compare.{compare_func, minus, opposite}
use bzcc_scanner.Control.Order.{
  IsComparing, compare_func-swap, compare_func-less, less, ping_column,
}
use bzcc_scanner.Control.Fits.{server_info_text-Whole, listed}

abbrev env : Env
env = record { timer_ok = true; thread = 264 }

env-IsGranted : IsGranted env
env-IsGranted = record { timer = refl; thread = λ e. omega (arith, e) }

-- The window in front of its first message, with auto scan on.
abbrev pub fresh : Window
fresh = record {
  minimized = false;
  scan_handle = 0;
  continue_scan = false;
  quitting = false;
  in_dlg = 0;
  rename_dlg = 77;
  prefs_dlg = 78;
  rdc_submit = false;
  rdc_player = none;
  last_col_sort_index = negsuc 0;
  reverse_sort = false;
  remember_sort = true;
  use_local_names = false;
  remember_size = true;
  width = 760;
  height = 420;
  auto_nick_save = false;
  auto_scan_request_while_busy = false;
  auto_scan = true;
  auto_scan_delay = 60;
  timer_id = 0;
  host_name = codes "a.b";
  host_port = 80;
  host_file = codes "f";
  selected_game = none;
  selected_player = none;
  total_player_count = 0;
  armed = false;
  running = false;
  calls = [];
}

fresh-IsFresh : IsFresh fresh
fresh-IsFresh = record {
  thread = refl;
  handle = refl;
  timer = refl;
  timer_id = refl;
  window = λ e. omega (arith, e);
  dialog = refl;
  asked = refl;
  staying = refl;
}

-- The first scan runs to its end, and auto scan is switched off.
abbrev later : Window
later = wnd_proc_prefs_dlg env click_scan (end_scan env (first_scan env fresh))

first_scan-Reach_example : IsSteady later
unfolding first_scan on_refresh begin_scan assign_scan
first_scan-Reach_example = first_scan-Reach env fresh env-IsGranted fresh-IsFresh (
    after (after at_once (scan_ended (first_scan env fresh) env env-IsGranted refl))
      (to_prefs (end_scan env (first_scan env fresh)) env click_scan env-IsGranted))

abbrev scanning : Window
scanning = record fresh { scan_handle = 264; running = true; continue_scan = true }

on_close-Quits_example :
    ((on_close scanning).continue_scan ≡ false)
    × ((cs : List Call) × ((end_scan env (on_close scanning)).calls ≡ cs ++ post_quit ∷ []))
on_close-Quits_example = on_close-Quits env scanning (λ e. omega (arith, e)) refl at_once

overtaken_scan-Stuck_example :
    ((overtaken_scan env fresh).running ≡ false) × ((overtaken_scan env fresh).scan_handle ≡ 264)
overtaken_scan-Stuck_example = overtaken_scan-Stuck env fresh (λ e. omega (arith, e)) refl at_once

abbrev waiting : Window
waiting = record fresh { armed = true; timer_id = 1 }

waiting-IsWaiting : IsWaiting waiting
waiting-IsWaiting = record {
  armed = refl;
  timer_id = refl;
  auto_scan = refl;
  idle = refl;
  quitting = refl;
  in_dlg = refl;
  rename_dlg = λ e. omega (arith, e);
}

rounds-Scan_example :
    IsWaiting (rounds 3 env waiting) × (scans_of (rounds 3 env waiting).calls ≡ 3 + scans_of [])
rounds-Scan_example = rounds-Scan env 3 waiting env-IsGranted waiting-IsWaiting

-- Such a delay gives a period of less than a second.
elapse_short : elapse 4294968 ≡ 704
unfolding elapse
elapse_short = refl

abbrev game_1 : GameInfo
game_1 = record zero_game {
  name = codes "A";
  server_ping = pos 30;
  gametype = pos 1;
  map = codes "m.bzn";
}

abbrev game_2 : GameInfo
game_2 = record zero_game { name = codes "B"; server_ping = negsuc 4; gametype = pos 2 }

abbrev by_length : Text → Text → ℕ
by_length [] [] = 2
by_length [] (b ∷ bs) = 1
by_length (a ∷ as_) [] = 3
by_length (a ∷ as_) (b ∷ bs) = by_length as_ bs

by_length-turns : (a b : Text) → by_length a b + by_length b a ≡ 4
by_length-turns [] [] = omega arith
by_length-turns [] (b ∷ bs) = omega arith
by_length-turns (a ∷ as_) [] = omega arith
by_length-turns (a ∷ as_) (b ∷ bs) = by_length-turns as_ bs

by_length_some : (a b : Text) → 0 < by_length a b
by_length_some [] [] = omega arith
by_length_some [] (b ∷ bs) = omega arith
by_length_some (a ∷ as_) [] = omega arith
by_length_some (a ∷ as_) (b ∷ bs) = by_length_some as_ bs

by_length-IsComparing : IsComparing by_length
by_length-IsComparing = record {
  fails = λ a b e. absurd (omega (arith, by_length_some a b, e));
  turns = λ a b h. by_length-turns a b;
}

compare_func-swap_example :
    (compare_func by_length (pos 4) false game_2 game_1 ≡ some (opposite (pos 1)))
    × (compare_func by_length (pos 4) true game_1 game_2 ≡ some (opposite (pos 1)))
unfolding compare_func
compare_func-swap_example =
    compare_func-swap by_length (pos 4) false game_1 game_2 by_length-IsComparing refl

compare_func-less_example :
    ((r : ℤ) × (compare_func by_length (pos 2) false game_1 game_2 ≡ some r)
      × (less r (pos 0) ≡ less (pos 30) (negsuc 4)))
    × ((r : ℤ) × (compare_func by_length (pos 2) true game_1 game_2 ≡ some r)
        × (less r (pos 0) ≡ less (negsuc 4) (pos 30)))
compare_func-less_example =
    compare_func-less by_length ping_column game_1 game_2 (omega arith) (omega arith)

-- A difference that does not fit an int turns the order around.
minus_wraps : less (minus (pos 2147483647) (negsuc 0)) (pos 0) ≡ true
minus_wraps = refl

server_info_text-Whole_example :
    (server_info_text game_1 ≡ some (joined (server_parts game_1 (codes "Deathmatch"))))
    × (mod_lines 0 game_1.mod_id ≡ listed game_1.mod_id)
unfolding get_game_type_description
server_info_text-Whole_example =
    server_info_text-Whole game_1 (omega arith) (omega arith) (omega arith) refl

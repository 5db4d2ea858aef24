-- ===== src/Control/Startup.antt =====
-- bzccscanner.c: the settings that WinMain loads, and the message that it sends in front of its loop.
use bzcc_scanner.Base.{ℕ, ◌-◌, ◌*◌, ◌^◌, Bool, if◌then◌else◌, not, ◌==◌, ◌++◌, replicate, length}
use bzcc_scanner.Base.Int.{of_bits}
use bzcc_scanner.Base.CText.{Bytes, codes}
use bzcc_scanner.Settings.Registry.{Text, Registry}
use bzcc_scanner.Settings.Store.{tchar_bytes, load_setting_dword, load_setting_string}
use bzcc_scanner.Control.Window.{Window, Env, hostname_len}
use bzcc_scanner.Control.Scan.{on_refresh}
use bzcc_scanner.Nicks.Update.{text_of}

-- The hardcoded defaults.
abbrev pub http_host : Text
http_host = codes "battlezone99mp.webdev.rebellion.co.uk"

abbrev pub http_file : Text
http_file = codes "lobbyServer"

-- The array of HOSTNAME_LEN characters that holds a text, behind it zeros.
abbrev pub name_buffer : Text → Bytes
name_buffer t = tchar_bytes t ++ replicate (2 * (hostname_len - length t)) 0

module _ (r : Registry) (junk : Bytes) where
  -- A DWORD that is loaded only if the flag is set.
  abbrev pub load_if : Bool → Text → ℕ → r.World → ℕ × r.World
  load_if on name default w = if on then load_setting_dword r name default junk w else (default, w)

  -- The part of WinMain headed "Settings", for the window with its defaults; `junk` is what the
  -- memory of a DWORD holds.
  unfoldable pub load_config : Window → r.World → Window × r.World
  unfolding load_setting_dword load_setting_string text_of tchar_bytes
  load_config w s =
      let (size, s1) = load_setting_dword r (codes "REMEMBER_SIZE") 0 junk s in
      let sized = not (size == 0) in
      let (wide, s2) = load_if sized (codes "WIN_WIDTH") w.width s1 in
      let (high, s3) = load_if sized (codes "WIN_HEIGHT") w.height s2 in
      let (names, s4) = load_setting_dword r (codes "USE_LOCAL_NAMES") 0 junk s3 in
      let (nicks, s5) = load_setting_dword r (codes "AUTO_CREATE_NICKS") 0 junk s4 in
      let (sort, s6) = load_setting_dword r (codes "AUTO_SORT") 1 junk s5 in
      let (scan, s7) = load_setting_dword r (codes "AUTO_SCAN") 0 junk s6 in
      let (delay, s8) = load_setting_dword r (codes "AUTO_SCAN_DELAY") 60 junk s7 in
      let (column, s9) = load_setting_dword r (codes "LAST_SORT_INDEX") (2 ^ 32 - 1) junk s8 in
      let (turned, s10) = load_setting_dword r (codes "LAST_SORT_REVERSE") 0 junk s9 in
      let host = load_setting_string r (codes "HOST") (name_buffer http_host) hostname_len s10 in
      let file =
        load_setting_string r (codes "FILE") (name_buffer http_file) hostname_len host.world in
      let (port, s11) = load_setting_dword r (codes "PORT") 80 junk file.world in
      (
        record w {
          remember_size = sized;
          width = wide;
          height = high;
          use_local_names = not (names == 0);
          auto_nick_save = not (nicks == 0);
          remember_sort = not (sort == 0);
          auto_scan = not (scan == 0);
          auto_scan_delay = delay;
          last_col_sort_index = of_bits column;
          reverse_sort = not (turned == 0);
          host_name = text_of host.out;
          host_file = text_of file.out;
          host_port = port;
        },
        s11,
      )

-- The message that WinMain sends in front of its loop.
unfoldable pub first_scan : Env → Window → Window
unfolding on_refresh
first_scan env w = if w.auto_scan then on_refresh env w else w

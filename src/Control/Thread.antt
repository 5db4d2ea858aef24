-- ===== src/Control/Thread.antt =====
-- bzccscanner.c: ScanThread, which scans a file or a server, as the settings say.
use bzcc_scanner.Base.{
  ℕ, ◌≤◌, ◌≡◌, refl, Option-cases, some, Bool-cases, inl, inr, List, [], ◌∷◌, ◌==◌, length, arith,
  if◌then◌else◌,
}
use bzcc_scanner.Base.CText.{Bytes, until_nul}
use bzcc_scanner.Base.Int.{of_bits}
use bzcc_scanner.Net.Kvi.{Kvi, startup_failed, getaddrinfo_failed, send_failed}
use bzcc_scanner.Net.Chunks.{received}
use bzcc_scanner.Net.Stream.{Read}
use bzcc_scanner.Net.Scan.{
  Opened, Send, took, send_error, Sent, all_sent, broken, sending, Connected, connected,
  not_connected, Wire, Scan, send_loop, connect_loop, request, after_send, after_connect, scan_file,
  scan_http,
}
use bzcc_scanner.Net.Safe.Runs.{status_line, parse_data_http-Completes}
use bzcc_scanner.Session.Info.{fitted}
use bzcc_scanner.Session.State.{Session, Progress, going, start_scan}
use bzcc_scanner.Session.Fields.{Library}
use bzcc_scanner.Session.Process.{process_session_info}
use bzcc_scanner.Session.Valid.{IsSession}
use bzcc_scanner.Session.Keeps.{Holds}
use bzcc_scanner.Session.Scans.{
  Ends, start_scan-IsSession, process_session_info-Preserves, conclude-Ends, give_up-Ends,
  scan_file-Ends,
}
use bzcc_scanner.Settings.Registry.{Text}
use bzcc_scanner.Control.Window.{Window, hostname_len}
use bzcc_scanner.Control.Texts.{signed}

-- What is outside: the "%ls" of snprintf, the file of a path, and the calls of a scan of a server.
pub record Outside : Type 0 where
  pub narrow : ℕ → Text → Bytes
  pub file : Text → Opened
  pub wire : (host port server_file : Bytes) → Wire

abbrev pub host_bytes : Outside → Window → Bytes
host_bytes o w = o.narrow hostname_len w.host_name

abbrev pub port_bytes : Window → Bytes
port_bytes w = fitted 8 (signed (of_bits w.host_port))

abbrev pub file_bytes : Outside → Window → Bytes
file_bytes o w = o.narrow hostname_len w.host_file

abbrev pub wire_of : Outside → Window → Wire
wire_of o w = o.wire (host_bytes o w) (port_bytes w) (file_bytes o w)

-- ScanThread; `garbage` is the content of the local `kvi` of the scan.
unfoldable pub scan_thread : Library → Outside → Kvi → Window → Session → Scan Progress
unfolding scan_file scan_http
scan_thread lib o garbage w s =
    if w.host_port == 0
    then scan_file (process_session_info lib) garbage (o.file w.host_file) (going (start_scan s))
    else scan_http (process_session_info lib) garbage (host_bytes o w) (file_bytes o w)
        (wire_of o w) (going (start_scan s))

-- On a blocking socket, `send` takes everything that it is given, or fails.
abbrev pub TakesAll : ℕ → List Send → Type 0
TakesAll len [] = ⊥
TakesAll len (took n ∷ rest) = len ≤ n
TakesAll len (send_error e ∷ rest) = Unit

-- The status line, where it ends at all, has six bytes or more in front of its first NUL.
abbrev pub HasStatusLine : List Read → Type 0
HasStatusLine reads =
    (line : Bytes) → status_line [] (received reads) ≡ some line → 6 ≤ length (until_nul line)

send_loop-TakesAll :
    (len : ℕ) (sends : List Send) → TakesAll len sends → (send_loop len 0 sends ≡ sending) → ⊥
unfolding send_loop
send_loop-TakesAll len [] never e = never
send_loop-TakesAll len (took n ∷ []) whole e = ground arith
send_loop-TakesAll len (took n ∷ took m ∷ rest) whole e = ground arith
send_loop-TakesAll len (took n ∷ send_error m ∷ rest) whole e = ground arith
send_loop-TakesAll len (send_error n ∷ rest) whole e = ground arith

module _ (lib : Library) (garbage : Kvi) (s : Session) (v : IsSession s) where
  after_send-Ends :
      (o : Sent) (reads : List Read)
      → (o ≡ sending → ⊥)
      → HasStatusLine reads
      → Ends Holds (after_send (process_session_info lib) garbage o reads (going s))
  unfolding after_send
  after_send-Ends (broken e) reads ended long = give_up-Ends lib garbage (send_failed e) s v
  after_send-Ends sending reads ended long = absurd (ended refl)
  after_send-Ends all_sent reads ended long = conclude-Ends lib _ (
      parse_data_http-Completes (process_session_info lib) Holds
        (process_session_info-Preserves lib) reads (going s) v long)

  after_connect-Ends :
      (http : Bytes) (c : Connected) (w : Wire)
      → TakesAll (length http) w.sends
      → HasStatusLine w.reads
      → Ends Holds (after_connect (process_session_info lib) garbage http c w (going s))
  unfolding after_connect
  after_connect-Ends http (not_connected m) w whole long = give_up-Ends lib garbage m s v
  after_connect-Ends http connected w whole long =
      after_send-Ends (send_loop (length http) 0 w.sends) w.reads
        (send_loop-TakesAll (length http) w.sends whole) long

  scan_http-Ends :
      (host server_file : Bytes) (w : Wire)
      → TakesAll (length (request host server_file)) w.sends
      → HasStatusLine w.reads
      → Ends Holds (scan_http (process_session_info lib) garbage host server_file w (going s))
  unfolding scan_http
  scan_http-Ends host server_file w whole long = elim (Option-cases w.startup) [
    | inl started ↦ elim (Option-cases w.lookup) [
      | inl known ↦
          rw (started, known)
            (after_connect-Ends (request host server_file) (connect_loop w.attempts) _ whole long)
      | inr (e, unknown) ↦
          rw (started, unknown) (give_up-Ends lib garbage (getaddrinfo_failed e) s v)
    ]
    | inr (e, failed) ↦ rw failed (give_up-Ends lib garbage (startup_failed e) s v)
  ]

-- ScanThread, with the settings of the window, on a session that is valid: a file may fail to open,
-- hold anything and be read in any pieces; on the way to a server each call may fail, where `send`
-- takes the whole request unless it fails, and the answer may be anything whose status line has six
-- bytes or more. The scan ends, with no access outside an array by the reader and no NULL pointer or
-- write outside an array in the callback, and leaves a valid session, unless GetGameTypeDescription
-- reads through NULL for a type of game that it does not know.
pub scan_thread-Ends :
    (lib : Library) (o : Outside) (garbage : Kvi) (w : Window) (s : Session)
    → IsSession s
    → TakesAll (length (request (host_bytes o w) (file_bytes o w))) (wire_of o w).sends
    → HasStatusLine (wire_of o w).reads
    → Ends Holds (scan_thread lib o garbage w s)
unfolding scan_thread
scan_thread-Ends lib o garbage w s v whole long = elim (Bool-cases (w.host_port == 0)) [
  | inl none_set ↦ rw none_set (scan_file-Ends lib garbage (o.file w.host_file) s v)
  | inr set ↦ rw set (
      scan_http-Ends lib garbage (start_scan s) (start_scan-IsSession s v) (host_bytes o w)
        (file_bytes o w) (wire_of o w) whole long)
]

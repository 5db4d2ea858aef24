-- ===== src/Session/Scans.antt =====
-- A scan of a file with ProcessSessionInfo as its callback.
use bzcc_scanner.Base.{refl, inl, arith, if◌then◌else◌, ◌==◌}
use bzcc_scanner.Net.Kvi.{Kvi, Message, create_file_failed, complete, error}
use bzcc_scanner.Net.Stream.{Result, returned, crashed}
use bzcc_scanner.Net.Safe.Reported.{Preserves}
use bzcc_scanner.Net.Safe.Runs.{Completes, parse_data_file-Completes}
use bzcc_scanner.Net.Scan.{
  Opened, open_failed, opened, Scan, scanned, scan_crashed, running, conclude, give_up, scan_file,
}
use bzcc_scanner.Session.State.{Session, start_scan, Progress, going, lost, untyped}
use bzcc_scanner.Session.Fields.{Library}
use bzcc_scanner.Session.Process.{process_session_info}
use bzcc_scanner.Session.Valid.{IsSession}
use bzcc_scanner.Session.Keeps.{Holds}
use bzcc_scanner.Session.Sound.{process_session_info-Holds}

pub start_scan-IsSession : (s : Session) → IsSession s → IsSession (start_scan s)
unfolding start_scan
start_scan-IsSession s v = record {
  games_length = v.games_length;
  arrays_lengths = v.arrays_lengths;
  servers_bound = omega arith;
  players_bound = omega arith;
  game_pointer = inl refl;
  player_pointer = inl refl;
}

pub process_session_info-Preserves : (lib : Library) → Preserves Holds (process_session_info lib)
unfolding process_session_info
process_session_info-Preserves lib k lost reported h = absurd h
process_session_info-Preserves lib k (untyped z) reported h = h
process_session_info-Preserves lib k (going s) reported h = process_session_info-Holds lib k s h

-- The scan has ended, and `P` holds of the callback's state.
abbrev pub Ends : (Progress → Type 0) → Scan (Progress) → Type 0
Ends P (scanned n o) = P o
Ends P scan_crashed = ⊥
Ends P running = ⊥

pub conclude-Ends :
    (lib : Library) (r : Result (Progress))
    → Completes Holds r
    → Ends Holds (conclude (process_session_info lib) r)
unfolding conclude process_session_info
conclude-Ends lib (returned n k lost) h = absurd h
conclude-Ends lib (returned n k (untyped z)) h = h
conclude-Ends lib (returned n k (going s)) h =
    process_session_info-Holds lib (record k { status = if n == 0 then complete else error }) s h
conclude-Ends lib crashed h = absurd h

pub give_up-Ends :
    (lib : Library) (k : Kvi) (m : Message) (s : Session)
    → IsSession s
    → Ends Holds (give_up (process_session_info lib) k m (going s))
unfolding give_up
give_up-Ends lib k m s v = process_session_info-Holds lib (record k { err = m; status = error }) s v

-- A scan of a file, from ScanThread's reset of the counts on to the callback's last call, whether
-- the file can be opened or not, whatever it holds and however its reads are cut: it ends, the
-- reader leaves no array and reads no element that was not written, the callback follows no NULL
-- pointer and writes no game or player outside its array, and a valid session is left, unless
-- GetGameTypeDescription reads through NULL for a type of game that it does not know.
pub scan_file-Ends :
    (lib : Library) (garbage : Kvi) (file : Opened) (s : Session)
    → IsSession s
    → Ends Holds (scan_file (process_session_info lib) garbage file (going (start_scan s)))
unfolding scan_file
scan_file-Ends lib garbage (open_failed e) s v =
    give_up-Ends lib garbage (create_file_failed e) (start_scan s) (start_scan-IsSession s v)
scan_file-Ends lib garbage (opened reads) s v = conclude-Ends lib _ (
    parse_data_file-Completes (process_session_info lib) Holds (process_session_info-Preserves lib)
      reads (going (start_scan s)) (start_scan-IsSession s v))

-- ===== src/Tests/Threads.antt =====
-- ScanThread on a server whose answer breaks off.
use bzcc_scanner.Base.{arith, [], ◌∷◌, none, length, take}
use bzcc_scanner.Net.Kvi.{zero_kvi}
use bzcc_scanner.Net.Scan.{Wire, opened, accepted, refused, took, request}
use bzcc_scanner.Session.Keeps.{Holds}
use bzcc_scanner.Session.Scans.{Ends}
use bzcc_scanner.Control.Thread.{
  Outside, scan_thread, scan_thread-Ends, TakesAll, host_bytes, file_bytes, wire_of,
}
use bzcc_scanner.Tests.Controls.{fresh}
use bzcc_scanner.Tests.Games.{library, new_session, new_session-IsSession}
use bzcc_scanner.Tests.Reader.{http_reads, http_reads-long}

abbrev answer : Wire
answer = record {
  startup = none;
  lookup = none;
  attempts = refused ∷ accepted ∷ [];
  sends = took 511 ∷ [];
  reads = http_reads;
}

abbrev outside : Outside
outside = record {
  narrow = λ size text. take size text;
  file = λ path. opened [];
  wire = λ host port server_file. answer;
}

request-sent :
    TakesAll
      (length (request (host_bytes outside fresh) (file_bytes outside fresh)))
      (wire_of outside fresh).sends
unfolding request
request-sent = omega arith

scan_thread-Ends_example : Ends Holds (scan_thread library outside zero_kvi fresh new_session)
scan_thread-Ends_example =
    scan_thread-Ends library outside zero_kvi fresh new_session new_session-IsSession request-sent
      http_reads-long

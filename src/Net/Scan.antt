-- ===== src/Net/Scan.antt =====
-- `ScanFile` and `ScanHTTP` of bzccnet.c over what the system calls return.
use bzcc_scanner.Base.{
  ℕ, true, false, Option, none, some, List, [], ◌∷◌, ◌++◌, ltb, ◌==◌, if◌then◌else◌, length, take,
}
use bzcc_scanner.Base.CText.{Bytes, codes}
use bzcc_scanner.Net.Kvi.{
  Kvi, complete, error, Message, startup_failed, getaddrinfo_failed, socket_failed, send_failed,
  connect_failed, create_file_failed,
}
use bzcc_scanner.Net.Parser.{Callback}
use bzcc_scanner.Net.Stream.{Read, Result, returned, crashed, parse_data}

-- What CreateFile returns.
pub data Opened : Type 0 where
  open_failed : ℕ → Opened
  opened : List Read → Opened

-- One address of the list that getaddrinfo made: `socket` fails, `connect` fails, or neither does.
pub data Attempt : Type 0 where
  no_socket : ℕ → Attempt
  refused : Attempt
  accepted : Attempt

pub data Connected : Type 0 where
  connected : Connected
  not_connected : Message → Connected

-- What one call of `send` returns: the bytes taken, or SOCKET_ERROR with its number.
pub data Send : Type 0 where
  took : ℕ → Send
  send_error : ℕ → Send

-- `sending` means that the loop has not ended with the calls at hand.
pub data Sent : Type 0 where
  all_sent : Sent
  broken : ℕ → Sent
  sending : Sent

-- The loop over the addresses.
unfoldable pub connect_loop : List Attempt → Connected
connect_loop [] = not_connected connect_failed
connect_loop (no_socket e ∷ rest) = not_connected (socket_failed e)
connect_loop (refused ∷ rest) = connect_loop rest
connect_loop (accepted ∷ rest) = connected

-- `for (i=0; i<len; i=send(ConnectSocket, http, len-i, 0))`: `i` is what the last call took.
unfoldable pub send_loop : (len i : ℕ) → List Send → Sent
send_loop len i [] = if ltb i len then sending else all_sent
send_loop len i (took n ∷ rest) =
    let more = send_loop len n rest in if ltb i len then more else all_sent
send_loop len i (send_error e ∷ rest) = if ltb i len then broken e else all_sent

abbrev crlf : Bytes
crlf = 13 ∷ 10 ∷ []

-- The request, cut to the 511 bytes that `http` holds.
unfoldable pub request : (host server_file : Bytes) → Bytes
request host server_file = take 511 (
    codes "GET /"
    ++ (server_file
        ++ (codes " HTTP/1.1"
            ++ (crlf
                ++ (codes "Host: "
                    ++ (host
                        ++ (crlf
                            ++ (codes "User-Agent: BZCC Scanner 1.0"
                                ++ (crlf
                                    ++ (codes "Accept-Encoding: gzip, deflate"
                                        ++ (crlf
                                            ++ (codes "Accept: */*"
                                                ++ (crlf
                                                    ++ (codes "Connection: keep-alive"
                                                        ++ (crlf ++ crlf)))))))))))))))

-- What the calls of one scan over HTTP return, in their order.
pub record Wire : Type 0 where
  pub startup : Option ℕ
  pub lookup : Option ℕ
  pub attempts : List Attempt
  pub sends : List Send
  pub reads : List Read

-- `running` means that the send loop has not ended.
pub data Scan (S : Type 0) : Type 0 where
  scanned : ℕ → S → Scan S
  scan_crashed : Scan S
  running : Scan S

module _ {S : Type 0} (callback : Callback S) where
  -- Report the failure of a system call through `kvi` and return 1.
  unfoldable pub give_up : Kvi → Message → S → Scan S
  give_up k m s = scanned 1 (callback (record k { err = m; status = error }) s).state

  -- Report the end of the parse, and return its code.
  unfoldable pub conclude : Result S → Scan S
  conclude crashed = scan_crashed
  conclude (returned n k s) =
      scanned n (callback (record k { status = if n == 0 then complete else error }) s).state

  -- `garbage` is the content of the local `kvi` before anything is written to it.
  unfoldable pub scan_file : Kvi → Opened → S → Scan S
  unfolding give_up conclude parse_data
  scan_file garbage (open_failed e) s = give_up garbage (create_file_failed e) s
  scan_file garbage (opened reads) s = conclude (parse_data callback false reads s)

  unfoldable pub after_send : Kvi → Sent → List Read → S → Scan S
  unfolding give_up conclude parse_data
  after_send garbage (broken e) reads s = give_up garbage (send_failed e) s
  after_send garbage sending reads s = running
  after_send garbage all_sent reads s = conclude (parse_data callback true reads s)

  unfoldable pub after_connect : Kvi → Bytes → Connected → Wire → S → Scan S
  unfolding give_up after_send send_loop
  after_connect garbage http (not_connected m) w s = give_up garbage m s
  after_connect garbage http connected w s =
      after_send garbage (send_loop (length http) 0 w.sends) w.reads s

  unfoldable pub scan_http : Kvi → (host server_file : Bytes) → Wire → S → Scan S
  unfolding give_up after_connect connect_loop request
  scan_http garbage host server_file w s = elim w.startup [
    | some e ↦ give_up garbage (startup_failed e) s
    | none ↦ elim w.lookup [
      | some e ↦ give_up garbage (getaddrinfo_failed e) s
      | none ↦ after_connect garbage (request host server_file) (connect_loop w.attempts) w s
    ]
  ]

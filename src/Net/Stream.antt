-- ===== src/Net/Stream.antt =====
-- `parse_data` of bzccnet.c over what its reads return, one value for each call of `recv` or
-- `ReadFile`. A list that has come to its end stands for a stream that has ended.
use bzcc_scanner.Base.{ℕ, Bool, true, false, List, [], ◌∷◌, ◌==◌, if◌then◌else◌}
use bzcc_scanner.Base.CText.{Bytes}
use bzcc_scanner.Net.Kvi.{Kvi, Message, recv_timed_out, recv_error, read_error}
use bzcc_scanner.Net.Parser.{Parser, initial, Callback, Outcome, continue, stop, fault, ◌>>=◌}
use bzcc_scanner.Net.Http.{step}

-- The bytes received, or the error number.
pub data Read : Type 0 where
  got : Bytes → Read
  failed : ℕ → Read

-- WSAETIMEDOUT
abbrev timed_out : ℕ
timed_out = 10060

-- The message that TCP_to_BRI writes. Its test `bri->received < 0` never holds of a DWORD.
unfoldable pub tcp_message : ℕ → Message
tcp_message e = if e == timed_out then recv_timed_out e else recv_error e

-- The message of TCP_to_BRI or of Read_to_BRI.
unfoldable pub read_message : Bool → ℕ → Message
unfolding tcp_message
read_message true e = tcp_message e
read_message false e = read_error e

pub data Result (S : Type 0) : Type 0 where
  returned : ℕ → Kvi → S → Result S
  crashed : Result S

module _ {S : Type 0} (callback : Callback S) where
  -- The `for` loop over one buffer.
  unfoldable pub run : Parser → Bytes → S → Outcome S
  run p [] s = continue p s
  run p (c ∷ cs) s = step callback p c s >>= λ q t. run q cs t

  -- The `while(1)` loop over the reads.
  unfoldable pub parse_loop : Bool → List Read → Parser → S → Result S
  unfolding run read_message
  parse_loop using_http [] p s = returned 0 p.kvi s
  parse_loop using_http (failed e ∷ reads) p s =
      let k = p.kvi in returned 1 (record k { err = read_message using_http e }) s
  parse_loop using_http (got [] ∷ reads) p s = returned 0 p.kvi s
  parse_loop using_http (got (c ∷ cs) ∷ reads) p s = elim (run p (c ∷ cs) s) [
    | continue q t ↦ parse_loop using_http reads q t
    | stop n k t ↦ returned n k t
    | fault ↦ crashed
  ]

  unfoldable pub parse_data : Bool → List Read → S → Result S
  unfolding parse_loop
  parse_data using_http reads s = parse_loop using_http reads (initial using_http) s

-- ===== src/Net/Sending.antt =====
-- The loop of `ScanHTTP` around `send`.
use bzcc_scanner.Base.{ℕ, ◌<◌, ◌≡◌, arith, List, [], ◌∷◌, All}
use bzcc_scanner.Net.Scan.{Send, took, send_error, sending, send_loop}

-- A call that takes fewer than `len` bytes.
abbrev pub IsShort : ℕ → Send → Type 0
IsShort len (took n) = n < len
IsShort len (send_error e) = ⊥

-- While each call of `send` takes fewer bytes than the whole request has, the loop goes on, however
-- many bytes the calls have taken together: it counts those of the last call only.
pub send_loop-IsShort :
    (len i : ℕ) (sends : List Send)
    → i < len
    → All (IsShort len) sends
    → send_loop len i sends ≡ sending
unfolding send_loop
send_loop-IsShort len i [] h short = ground arith
send_loop-IsShort len i (took n ∷ sends) h (lt, short) =
    ground (arith, send_loop-IsShort len n sends lt short)
send_loop-IsShort len i (send_error e ∷ sends) h (never, short) = absurd never

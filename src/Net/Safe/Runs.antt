-- ===== src/Net/Safe/Runs.antt =====
-- Whole parses: what they never do, and what they keep of the callback's state.
use Prim.Native.Nat.{ℕ, ◌+◌, ◌≤◌}
use bzcc_scanner.Base.{
  ltb, ◌≡◌, refl, ap, ◌∙◌, List, [], ◌∷◌, ◌++◌, Bool, true, false, ◌&&◌, Option, none, some, length,
  arith, ◌==◌, leb, if◌then◌else◌, length-append, Bool-cases, inl, inr,
}
use bzcc_scanner.Base.CText.{Bytes, until_nul}
use bzcc_scanner.Net.Kvi.{generic_buflen}
use bzcc_scanner.Net.Parser.{
  http_header, Parser, Callback, Outcome, continue, stop, fault, initial, ◌>>=◌,
}
use bzcc_scanner.Net.Http.{
  ends_in_cr, drop_last, end_status_line, append_name, step_http_header, step_mode, step,
}
use bzcc_scanner.Net.Stream.{Read, Result, returned, crashed, run, parse_data}
use bzcc_scanner.Net.Chunks.{received, ending, finish, parse_data-received}
use bzcc_scanner.Net.Safe.{IsValid, Keeps, PastStatus}
use bzcc_scanner.Net.Safe.Reported.{Preserves}
use bzcc_scanner.Net.Safe.Http.{step-Keeps}

-- The first line of the answer without its CR and LF, behind the bytes `read` of it.
unfoldable pub status_line : (read : Bytes) → Bytes → Option Bytes
unfolding ends_in_cr drop_last
status_line read [] = none
status_line read (c ∷ cs) =
    let rest = status_line (read ++ c ∷ []) cs in
    if c == 10 && ends_in_cr read then some (drop_last read) else rest

status_line-more :
    (read : Bytes) (c : ℕ) (cs : Bytes)
    → (c == 10 && ends_in_cr read) ≡ false
    → status_line read (c ∷ cs) ≡ status_line (read ++ c ∷ []) cs
unfolding status_line
status_line-more read c cs e = rw e

-- The parse returned, and `P` holds of the callback's state.
abbrev pub Completes : {S : Type 0} → (S → Type 0) → Result S → Type 0
Completes P (returned n k s) = P s
Completes P crashed = ⊥

abbrev Sound : {S : Type 0} → (S → Type 0) → Outcome S → Type 0
Sound P (continue p s) = P s
Sound P (stop n k s) = P s
Sound P fault = ⊥

initial-IsValid : (using_http : Bool) → IsValid (initial using_http)
initial-IsValid true = record {
  name_fits = omega arith;
  value_fits = refl;
  depth_fits = (refl, refl);
  flags_length = refl;
  marked = tt;
}
initial-IsValid false = record {
  name_fits = omega arith;
  value_fits = refl;
  depth_fits = refl;
  flags_length = refl;
  marked = tt;
}

module _ {S : Type 0} (callback : Callback S) (p : Parser) (c : ℕ) (s : S) where
  step-http_header : p.mode ≡ http_header → step callback p c s ≡ step_http_header p c s
  unfolding step_mode
  step-http_header m = ap (λ mode. step_mode callback mode p c s) m

module _ {S : Type 0} (p : Parser) (c : ℕ) (s : S) where
  step_http_header-end :
      (c == 10 && ends_in_cr p.name) ≡ true
      → step_http_header p c s ≡ end_status_line p (until_nul (drop_last p.name)) s
  unfolding step_http_header
  step_http_header-end e = rw e

  step_http_header-more :
      (c == 10 && ends_in_cr p.name) ≡ false → step_http_header p c s ≡ append_name p c s
  unfolding step_http_header
  step_http_header-more e = rw e

module _ {S : Type 0} (callback : Callback S) (P : S → Type 0) (keep : Preserves P callback) where
  bind-Sound :
      (cs : Bytes) (o : Outcome S)
      → Keeps P o
      → ((q : Parser) (t : S) → P t → IsValid q → PastStatus q.mode → Sound P (run callback q cs t))
      → Sound P (o >>= λ q t. run callback q cs t)
  bind-Sound cs (continue q t) k next = next q t k.2 k.0 k.1
  bind-Sound cs (stop n k t) h next = h
  bind-Sound cs fault h next = h

  run-Sound :
      (cs : Bytes) (p : Parser) (s : S)
      → P s
      → IsValid p
      → PastStatus p.mode
      → Sound P (run callback p cs s)
  unfolding run
  run-Sound [] p s ok v past = ok
  run-Sound (c ∷ cs) p s ok v past =
      bind-Sound cs (step callback p c s) (step-Keeps callback P keep s ok p c v past)
        (λ q t okt vq pastq. run-Sound cs q t okt vq pastq)

  end_status_line-Keeps :
      (p : Parser) (line : Bytes) (s : S)
      → P s
      → IsValid p
      → p.mode ≡ http_header
      → 6 ≤ length line
      → Keeps P (end_status_line p line s)
  unfolding end_status_line
  end_status_line-Keeps p line s ok v m long = ground (arith, ok)

  append_name-Sound :
      (cs : Bytes) (p : Parser) (c : ℕ) (s : S)
      → P s
      → IsValid p
      → p.mode ≡ http_header
      → ((q : Parser)
          → IsValid q
          → q.mode ≡ http_header
          → q.name ≡ p.name ++ c ∷ []
          → Sound P (run callback q cs s))
      → Sound P (append_name p c s >>= λ q t. run callback q cs t)
  unfolding append_name
  append_name-Sound cs p c s ok v m next =
      elim (Bool-cases (leb generic_buflen (length p.name + 1))) [
        | inl full ↦ rw full ok
        | inr room ↦
            let inside : ltb (length p.name) generic_buflen ≡ true = ground arith in
            rw (room, inside)
              (next (record p { name = p.name ++ c ∷ [] })
                (ground (arith, length-append p.name (c ∷ []))) m refl)
      ]

  run_status-Sound :
      (cs : Bytes) (p : Parser) (s : S)
      → P s
      → IsValid p
      → p.mode ≡ http_header
      → ((line : Bytes) → status_line p.name cs ≡ some line → 6 ≤ length (until_nul line))
      → Sound P (run callback p cs s)
  unfolding run
  run_status-Sound [] p s ok v m long = ok
  run_status-Sound (c ∷ cs) p s ok v m long =
      rw (step-http_header callback p c s m) (elim (Bool-cases (c == 10 && ends_in_cr p.name)) [
        | inl end ↦ rw (step_http_header-end p c s end) (
            bind-Sound cs (end_status_line p (until_nul (drop_last p.name)) s)
              (end_status_line-Keeps p _ s ok v m
                (long (drop_last p.name) (unfold status_line in rw end)))
              (λ q t okt vq pastq. run-Sound cs q t okt vq pastq))
        | inr more ↦ rw (step_http_header-more p c s more) (
            append_name-Sound cs p c s ok v m (λ q vq mq e.
              run_status-Sound cs q s ok vq mq
                (λ line found. long line (status_line-more p.name c cs more ∙ rw e at found))))
      ])

  finish-Completes :
      (using_http : Bool) (end : Option ℕ) (o : Outcome S)
      → Sound P o
      → Completes P (finish using_http end o)
  unfolding finish
  finish-Completes using_http none (continue p s) h = h
  finish-Completes using_http (some e) (continue p s) h = h
  finish-Completes using_http end (stop n k s) h = h
  finish-Completes using_http end fault h = h

  -- `parse_data` of a file returns, whatever the file holds: it reads and writes no array out of
  -- range and reads no element of `is_array` that was not written. A property of the callback's
  -- state that each reported call keeps, and that holds at the start, holds at the end.
  pub parse_data_file-Completes :
      (reads : List Read) (s : S) → P s → Completes P (parse_data callback false reads s)
  parse_data_file-Completes reads s ok = rw (parse_data-received callback false reads s) (
      finish-Completes false (ending reads) _
        (run-Sound (received reads) (initial false) s ok (initial-IsValid false) tt))

  -- So does `parse_data` over HTTP, for a callback that keeps the property, if the status line,
  -- where it ends at all, has six bytes or more in front of its first NUL: it returns, with no
  -- access outside an array, no read of an element that was not written, and the property kept.
  pub parse_data_http-Completes :
      (reads : List Read) (s : S)
      → P s
      → ((line : Bytes) → status_line [] (received reads) ≡ some line → 6 ≤ length (until_nul line))
      → Completes P (parse_data callback true reads s)
  parse_data_http-Completes reads s ok long = rw (parse_data-received callback true reads s) (
      finish-Completes true (ending reads) _
        (run_status-Sound (received reads) (initial true) s ok (initial-IsValid true) refl long))

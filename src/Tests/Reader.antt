-- ===== src/Tests/Reader.antt =====
-- The reader of bzccnet.c on short inputs.
use bzcc_scanner.Base.{
  ℕ, ◌+◌, ◌≤◌, ◌≡◌, refl, arith, some, none, List, [], ◌∷◌, true, false, length, All, ◌++◌, subst,
  sym, ◌∙◌,
}
use bzcc_scanner.Base.CText.{Bytes, codes, until_nul}
use bzcc_scanner.Net.Kvi.{zero_kvi}
use bzcc_scanner.Net.Parser.{Callback, initial}
use bzcc_scanner.Net.Json.{is_word_char}
use bzcc_scanner.Net.Http.{step}
use bzcc_scanner.Net.Stream.{Read, got, parse_data, run}
use bzcc_scanner.Net.Scan.{took, sending, send_loop}
use bzcc_scanner.Net.Sending.{send_loop-IsShort}
use bzcc_scanner.Net.Chunks.{received, ending, finish, parse_data-received}
use bzcc_scanner.Net.Deliver.{deliver, list_calls}
use bzcc_scanner.Net.Document.Shape.{Field, plain, text, field, players, Server, print_list}
use bzcc_scanner.Net.Document.Fits.{KeyFits, FieldFits, ServerFits}
use bzcc_scanner.Net.Document.Whole.{parse_data-print_list}
use bzcc_scanner.Net.Safe.Reported.{Preserves}
use bzcc_scanner.Net.Safe.{IsValid, Keeps}
use bzcc_scanner.Net.Safe.Http.{step-Keeps}
use bzcc_scanner.Net.Safe.Runs.{
  Completes, status_line, parse_data_file-Completes, parse_data_http-Completes,
}

some-injective : {A : Type 0} {a b : A} → some a ≡ some b → a ≡ b
some-injective e = ground arith

-- A callback that counts its calls.
abbrev counting : Callback ℕ
counting k n = record { kvi = k; state = n + 1; code = 0 }

abbrev a_field : Field
a_field = record { key = codes "n"; value = text (codes "x\"y") }

abbrev b_field : Field
b_field = record { key = codes "t"; value = plain (codes "12") }

-- Two servers, of which the first has two players.
abbrev two_servers : List Server
two_servers =
    (field a_field ∷ players (codes "pl") ((a_field ∷ b_field ∷ []) ∷ (b_field ∷ []) ∷ []) ∷ [])
    ∷ (field a_field ∷ field b_field ∷ [])
    ∷ []

abbrev two_reads : List Read
two_reads = got (print_list (codes "GET") two_servers) ∷ got [] ∷ []

a_field-fits : FieldFits a_field
a_field-fits = record {
  key_fits = record { bytes = (refl, tt); room = omega arith };
  value_fits = omega arith;
}

b_field-fits : FieldFits b_field
unfolding is_word_char
b_field-fits = record {
  key_fits = record { bytes = (refl, tt); room = omega arith };
  value_fits = ((refl, (refl, tt)), omega arith);
}

pl-fits : KeyFits (codes "pl")
pl-fits = record { bytes = (refl, (refl, tt)); room = omega arith }

first-fits :
    ServerFits
      (field a_field ∷ players (codes "pl") ((a_field ∷ b_field ∷ []) ∷ (b_field ∷ []) ∷ []) ∷ [])
first-fits =
    (a_field-fits, ((pl-fits, ((a_field-fits, (b_field-fits, tt)), ((b_field-fits, tt), tt))), tt))

two_servers-fit : All ServerFits two_servers
two_servers-fit = (first-fits, ((a_field-fits, (b_field-fits, tt)), tt))

get-fits : KeyFits (codes "GET")
get-fits = record { bytes = (refl, (refl, (refl, tt))); room = omega arith }

two_reads-received : received two_reads ≡ print_list (codes "GET") two_servers
unfolding received
two_reads-received = refl

two_reads-ending : ending two_reads ≡ none
unfolding ending
two_reads-ending = refl

parse_data-print_list_example :
    parse_data counting false two_reads 0 ≡ deliver counting (list_calls 0 two_servers) zero_kvi 0
parse_data-print_list_example =
    parse_data-print_list counting (codes "GET") two_servers two_reads 0 get-fits two_servers-fit
      two_reads-received two_reads-ending

parse_data-received_example :
    parse_data counting false two_reads 0
    ≡ finish false (ending two_reads) (run counting (initial false) (received two_reads) 0)
parse_data-received_example = parse_data-received counting false two_reads 0

abbrev AtLeastThree : ℕ → Type 0
AtLeastThree n = 3 ≤ n

counting-Preserves : Preserves AtLeastThree counting
counting-Preserves k n reported h = omega arith

three : AtLeastThree 3
three = omega arith

-- A block is closed that was never opened.
abbrev bad_reads : List Read
bad_reads = got (codes "{\"GET\":[}}") ∷ []

parse_data_file-Completes_example : Completes AtLeastThree (parse_data counting false bad_reads 3)
parse_data_file-Completes_example =
    parse_data_file-Completes counting AtLeastThree counting-Preserves bad_reads 3 three

abbrev http_text : Bytes
http_text = codes "HTTP/1.1 404 No" ++ 13 ∷ 10 ∷ []

abbrev pub http_reads : List Read
http_reads = got http_text ∷ []

http_reads-line : status_line [] (received http_reads) ≡ some (codes "HTTP/1.1 404 No")
unfolding status_line received
http_reads-line = refl

http_line-long : 6 ≤ length (until_nul (codes "HTTP/1.1 404 No"))
unfolding until_nul
http_line-long = omega arith

pub http_reads-long :
    (line : Bytes) → status_line [] (received http_reads) ≡ some line → 6 ≤ length (until_nul line)
http_reads-long line e =
    subst (λ l. 6 ≤ length (until_nul l)) (some-injective (sym http_reads-line ∙ e)) http_line-long

parse_data_http-Completes_example : Completes AtLeastThree (parse_data counting true http_reads 3)
parse_data_http-Completes_example =
    parse_data_http-Completes counting AtLeastThree counting-Preserves http_reads 3 three
      http_reads-long

initial-IsValid : IsValid (initial false)
initial-IsValid = record {
  name_fits = omega arith;
  value_fits = refl;
  depth_fits = refl;
  flags_length = refl;
  marked = tt;
}

step-Keeps_example : Keeps AtLeastThree (step counting (initial false) b'{' 3)
step-Keeps_example =
    step-Keeps counting AtLeastThree counting-Preserves 3 three (initial false) b'{' initial-IsValid
      tt

-- The second call would take the last bytes of the request.
send_loop-IsShort_example : send_loop 100 0 (took 60 ∷ took 40 ∷ []) ≡ sending
send_loop-IsShort_example =
    send_loop-IsShort 100 0 (took 60 ∷ took 40 ∷ []) (omega arith) (omega arith, (omega arith, tt))

-- ===== src/Net/Document/Shape.antt =====
-- What the lobby server sends, and the calls that `parse_data` is to make for it: a specification
-- that does not mention the state machine.
use Prim.Native.Nat.{ℕ}
use bzcc_scanner.Base.{List, [], ◌∷◌, ◌++◌, ◌==◌, if◌then◌else◌}
use bzcc_scanner.Base.CText.{Bytes}

-- A JSON value: a number or a word, or a text in quotes.
pub data Scalar : Type 0 where
  plain text : Bytes → Scalar

pub record Field : Type 0 where
  pub key : Bytes
  pub value : Scalar

-- A server object has fields, and arrays of player objects under any key.
pub data Item : Type 0 where
  field : Field → Item
  players : Bytes → List (List Field) → Item

abbrev pub Server : Type 0
Server = List Item

abbrev pub escape_byte : ℕ → Bytes → Bytes
escape_byte c rest =
    if c == b'"'
    then 92 ∷ b'"' ∷ rest
    else if c == 92
    then 92 ∷ 92 ∷ rest
    else if c == 13
    then 92 ∷ b'r' ∷ rest
    else if c == 10
    then 92 ∷ b'n' ∷ rest
    else if c == 9
    then 92 ∷ b't' ∷ rest
    else c ∷ rest

abbrev pub escape : Bytes → Bytes → Bytes
escape [] rest = rest
escape (c ∷ cs) rest = escape_byte c (escape cs rest)

-- Each printer puts its text in front of what follows.
abbrev pub print_key : Bytes → Bytes → Bytes
print_key key rest = b'"' ∷ (key ++ (b'"' ∷ b':' ∷ rest))

abbrev pub print_scalar : Scalar → Bytes → Bytes
print_scalar (plain v) rest = v ++ rest
print_scalar (text v) rest = b'"' ∷ escape v (b'"' ∷ rest)

abbrev pub print_field : Field → Bytes → Bytes
print_field f rest = print_key f.key (print_scalar f.value rest)

-- The rest of an object behind one of its fields.
abbrev pub print_more : List Field → Bytes → Bytes
print_more [] rest = b'}' ∷ rest
print_more (f ∷ fs) rest = b',' ∷ print_field f (print_more fs rest)

abbrev pub print_fields : List Field → Bytes → Bytes
print_fields [] rest = b'}' ∷ rest
print_fields (f ∷ fs) rest = print_field f (print_more fs rest)

abbrev pub print_more_players : List (List Field) → Bytes → Bytes
print_more_players [] rest = b']' ∷ rest
print_more_players (p ∷ ps) rest = b',' ∷ b'{' ∷ print_fields p (print_more_players ps rest)

abbrev pub print_players : List (List Field) → Bytes → Bytes
print_players [] rest = b']' ∷ rest
print_players (p ∷ ps) rest = b'{' ∷ print_fields p (print_more_players ps rest)

abbrev pub print_item : Item → Bytes → Bytes
print_item (field f) rest = print_field f rest
print_item (players key ps) rest = print_key key (b'[' ∷ print_players ps rest)

abbrev pub print_more_items : List Item → Bytes → Bytes
print_more_items [] rest = b'}' ∷ rest
print_more_items (i ∷ is) rest = b',' ∷ print_item i (print_more_items is rest)

abbrev pub print_server : Server → Bytes → Bytes
print_server [] rest = b'}' ∷ rest
print_server (i ∷ is) rest = print_item i (print_more_items is rest)

abbrev pub print_more_servers : List Server → Bytes → Bytes
print_more_servers [] rest = b']' ∷ rest
print_more_servers (v ∷ vs) rest = b',' ∷ b'{' ∷ print_server v (print_more_servers vs rest)

abbrev pub print_servers : List Server → Bytes → Bytes
print_servers [] rest = b']' ∷ rest
print_servers (v ∷ vs) rest = b'{' ∷ print_server v (print_more_servers vs rest)

-- `{"GET":[…]}`
abbrev pub print_list : Bytes → List Server → Bytes
print_list key vs = b'{' ∷ print_key key (b'[' ∷ print_servers vs (b'}' ∷ []))

-- ===== src/Net/Parser.antt =====
-- The local variables of `parse_data` in bzccnet.c, and what one round of its loop returns.
-- A buffer with its length is the list of the bytes in use: the bytes behind are NUL at all times,
-- since each reset clears the bytes in use.
use Prim.Native.Nat.{ℕ, ◌+◌, ◌*◌}
use bzcc_scanner.Base.{
  Bool, true, false, Option, none, some, List, [], ◌++◌, ltb, leb, ◌==◌, if◌then◌else◌, get_elem?,
  set, take, drop, replicate, length, ◌∷◌,
}
use bzcc_scanner.Base.CText.{Bytes, strncpy}
use bzcc_scanner.Net.Kvi.{
  Kvi, zero_kvi, Status, Message, max_depth, generic_buflen, json_name_len, key_str_len,
  value_str_len,
}

-- READING_HTTP_HEADER, READING_HTTP_HEADER_NAME, READING_HTTP_HEADER_VALUE, READING_JSON
pub data Mode : Type 0 where
  http_header header_name header_value json : Mode

-- EXPECT_ROOT_START and the six that follow it.
pub data JState : Type 0 where
  root_start key_name key_sep value_start read_value next root_end : JState

-- An element of `is_array` is `none` until the first write to it, as the array is not initialised.
pub record Parser : Type 0 where
  pub mode : Mode
  pub j_state : JState
  pub name : Bytes
  pub value : Bytes
  pub content_length : ℕ
  pub json_len : ℕ
  pub depth : ℕ
  pub is_array : List (Option Bool)
  pub json_name : Bytes
  pub in_quote : Bool
  pub in_escape : Bool
  pub value_complete : Bool
  pub server_slot : ℕ
  pub player_slot : ℕ
  pub kvi : Kvi

abbrev pub initial : Bool → Parser
initial using_http = record {
  mode = if using_http then http_header else json;
  j_state = root_start;
  name = [];
  value = [];
  content_length = 0;
  json_len = 0;
  depth = 0;
  is_array = replicate max_depth none;
  json_name = replicate (json_name_len * max_depth) 0;
  in_quote = false;
  in_escape = false;
  value_complete = false;
  server_slot = 0;
  player_slot = 0;
  kvi = zero_kvi;
}

-- What `ProcessDataCallback` leaves in its argument and in the data behind `pCustomData`, and what
-- it returns.
pub record Reply (S : Type 0) : Type 0 where
  pub kvi : Kvi
  pub state : S
  pub code : ℕ

abbrev pub Callback : Type 0 → Type 0
Callback S = Kvi → S → Reply S

-- `stop` is a `return` of `parse_data`; `fault` is a read or write outside an array, or a read of
-- an element that was never written.
pub data Outcome (S : Type 0) : Type 0 where
  continue : Parser → S → Outcome S
  stop : ℕ → Kvi → S → Outcome S
  fault : Outcome S

module _ {S : Type 0} where
  infixl 5 ◌>>=◌
  abbrev pub ◌>>=◌ : Outcome S → (Parser → S → Outcome S) → Outcome S
  continue p s >>= f = f p s
  stop n k s >>= f = stop n k s
  fault >>= f = fault

  -- Write the message to `pKvi->err` and return 1.
  abbrev pub fail : Parser → S → Message → Outcome S
  fail p s m = let k = p.kvi in stop 1 (record k { err = m }) s

-- `name[name_len++] = c` and `value[value_len++] = c`, each a fault behind the end of the array.
abbrev pub put_name : {S : Type 0} → Parser → ℕ → S → Outcome S
put_name p c s =
    if ltb (length p.name) generic_buflen
    then continue (record p { name = p.name ++ c ∷ [] }) s
    else fault

abbrev pub put_value : {S : Type 0} → Parser → ℕ → S → Outcome S
put_value p c s =
    if ltb (length p.value) generic_buflen
    then continue (record p { value = p.value ++ c ∷ [] }) s
    else fault

abbrev pub reset_pair : Parser → Parser
reset_pair p = record p { name = []; value = [] }

-- The assignments to `*pKvi` before a call of the callback.
abbrev pub filled : Parser → Status → Kvi
filled p st =
    let k = p.kvi in
    record k {
      status = st;
      server_index = p.server_slot;
      player_index = p.player_slot;
      key_str = strncpy p.name key_str_len;
      value_str = strncpy p.value value_str_len;
    }

-- `is_array[i]`, a fault out of range or if it was not written.
abbrev pub array_flag : List (Option Bool) → ℕ → Option Bool
array_flag flags i = elim (get_elem? flags i) [ none ↦ none | some flag ↦ flag ]

-- `is_array[depth] = flag`
unfoldable pub mark_depth : Bool → Parser → Option Parser
mark_depth flag p =
    if ltb p.depth max_depth
    then some (record p { is_array = set p.is_array p.depth (some flag) })
    else none

-- `memmove(json_name[depth], name, JSON_NAME_LEN)`: the rows of `json_name` are MAX_DEPTH bytes
-- apart, and there are JSON_NAME_LEN of them.
unfoldable pub store_name : Parser → Option Parser
store_name p =
    let start = p.depth * max_depth in
    if leb (start + json_name_len) (json_name_len * max_depth)
    then some (record p {
      json_name =
          take start p.json_name
          ++ (take json_name_len (p.name ++ replicate json_name_len 0)
              ++ drop (start + json_name_len) p.json_name);
    })
    else none

module _ {S : Type 0} (callback : Callback S) where
  unfoldable pub report : Bool → Kvi → Parser → S → Outcome S
  report player k p s =
      let r = callback (record k { is_player = player }) s in
      if r.code == 0 then continue (record p { kvi = r.kvi }) r.state else stop 1 r.kvi r.state

  -- Fill `*pKvi`, and call the callback at depth 3 (server data) and depth 5 (player data).
  unfoldable pub emit : Status → Parser → S → Outcome S
  unfolding report
  emit st p s =
      let k = filled p st in
      if p.depth == 3
      then report false k p s
      else if p.depth == 5
      then report true k p s
      else continue (record p { kvi = k }) s

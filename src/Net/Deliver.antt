-- ===== src/Net/Deliver.antt =====
-- The calls of the callback for one lobby list, and what it means to make a list of calls.
use Prim.Native.Nat.{ℕ, ◌+◌}
use bzcc_scanner.Base.{◌≡◌, Bool, true, false, List, [], ◌∷◌, ◌++◌, ◌==◌, if◌then◌else◌, length}
use bzcc_scanner.Base.CText.{Bytes, strncpy}
use bzcc_scanner.Net.Kvi.{Kvi, Status, normal, last, key_str_len, value_str_len}
use bzcc_scanner.Net.Parser.{Callback, Outcome, stop}
use bzcc_scanner.Net.Stream.{Result, returned}
use bzcc_scanner.Net.Document.Shape.{Scalar, plain, text, Field, Item, field, players, Server}

pub record Call : Type 0 where
  pub status : Status
  pub player : Bool
  pub key : Bytes
  pub value : Bytes
  pub server_index : ℕ
  pub player_index : ℕ

abbrev pub content : Scalar → Bytes
content (plain v) = v
content (text v) = v

-- Only a plain value that ends its object is marked as the last one, a quoted one is not.
abbrev pub status_of : Scalar → List Field → Status
status_of (plain v) [] = last
status_of v more = normal

module _ (player : Bool) (si pi : ℕ) where
  abbrev pub call_of : Status → Field → Call
  call_of st f = record {
    status = st;
    player = player;
    key = f.key;
    value = content f.value;
    server_index = si;
    player_index = pi;
  }

  abbrev pub object_calls : List Field → List Call
  object_calls [] = []
  object_calls (f ∷ fs) = call_of (status_of f.value fs) f ∷ object_calls fs

abbrev pub player_calls : ℕ → ℕ → List (List Field) → List Call
player_calls si pi [] = []
player_calls si pi (p ∷ ps) = object_calls true si pi p ++ player_calls si (pi + 1) ps

abbrev pub item_status : Scalar → List Item → Status
item_status (plain v) [] = last
item_status v more = normal

abbrev pub server_calls : ℕ → ℕ → List Item → List Call
server_calls si pi [] = []
server_calls si pi (field f ∷ is) =
    call_of false si pi (item_status f.value is) f ∷ server_calls si pi is
server_calls si pi (players key ps ∷ is) =
    player_calls si pi ps ++ server_calls si (pi + length ps) is

abbrev pub list_calls : ℕ → List Server → List Call
list_calls si [] = []
list_calls si (v ∷ vs) = server_calls si 0 v ++ list_calls (si + 1) vs

abbrev pub kvi_of : Call → Kvi → Kvi
kvi_of c k = record k {
  status = c.status;
  is_player = c.player;
  key_str = strncpy c.key key_str_len;
  value_str = strncpy c.value value_str_len;
  server_index = c.server_index;
  player_index = c.player_index;
}

module _ {S : Type 0} (callback : Callback S) where
  -- Make the calls in order; the first one that does not return 0 ends the parse with 1.
  unfoldable pub deliver : List Call → Kvi → S → Result S
  deliver [] k s = returned 0 k s
  deliver (c ∷ cs) k s =
      let r = callback (kvi_of c k) s in
      let more = deliver cs r.kvi r.state in if r.code == 0 then more else returned 1 r.kvi r.state

  -- `o` is what is left after the calls, as `Q` says, or the end that one of them makes.
  pub data Delivers (Q : Kvi → S → Outcome S → Type 0) (o : Outcome S)
      : List Call → Kvi → S → Type 0 where
    done : {k : Kvi} {s : S} → Q k s o → Delivers Q o [] k s
    accepted :
        {c : Call} {cs : List Call} {k : Kvi} {s : S}
        → ((callback (kvi_of c k) s).code == 0) ≡ true
        → Delivers Q o cs (callback (kvi_of c k) s).kvi (callback (kvi_of c k) s).state
        → Delivers Q o (c ∷ cs) k s
    rejected :
        {c : Call} {cs : List Call} {k : Kvi} {s : S}
        → ((callback (kvi_of c k) s).code == 0) ≡ false
        → o ≡ stop 1 (callback (kvi_of c k) s).kvi (callback (kvi_of c k) s).state
        → Delivers Q o (c ∷ cs) k s

  pub Delivers-append :
      {Q : Kvi → S → Outcome S → Type 0} {o : Outcome S} {xs : List Call} {k : Kvi} {s : S}
      (ys : List Call) (R : Kvi → S → Outcome S → Type 0)
      → Delivers Q o xs k s
      → ((j : Kvi) (t : S) → Q j t o → Delivers R o ys j t)
      → Delivers R o (xs ++ ys) k s
  Delivers-append ys R (done q) next = next _ _ q
  Delivers-append ys R (accepted e d) next = accepted e (Delivers-append ys R d next)
  Delivers-append ys R (rejected e r) next = rejected e r

-- ===== src/Session/Full.antt =====
-- A server with all sixteen players, and data behind its array of players.
use Prim.Native.Nat.{ℕ, ◌+◌, ◌≤◌}
use bzcc_scanner.Base.{
  ◌≡◌, refl, sym, ◌∙◌, arith, subst, ap, Bool-cases, false, inl, inr, List, [], ◌∷◌, ◌++◌, All,
  none, ◌==◌, length, leb, ◌||◌, ◌⊎◌,
}
use mathlib.Core.List.{append_assoc}
use bzcc_scanner.Base.CText.{Bytes}
use bzcc_scanner.Net.Kvi.{Kvi, zero_kvi, Status, normal, last, complete, error}
use bzcc_scanner.Net.Parser.{Callback}
use bzcc_scanner.Net.Stream.{Read, Result, returned, crashed, parse_data}
use bzcc_scanner.Net.Chunks.{received, ending}
use bzcc_scanner.Net.Deliver.{
  Call, call_of, item_status, kvi_of, deliver, list_calls, server_calls, player_calls,
}
use bzcc_scanner.Net.Document.Shape.{
  Scalar, plain, text, Field, Item, field, players, Server, print_list,
}
use bzcc_scanner.Net.Document.Fits.{KeyFits, ServerFits}
use bzcc_scanner.Net.Document.Whole.{parse_data-print_list}
use bzcc_scanner.Session.Info.{max_players, max_servers}
use bzcc_scanner.Session.State.{Session, Progress, going, lost, untyped}
use bzcc_scanner.Session.Fields.{Library}
use bzcc_scanner.Session.Process.{process_session_info, process_value, process_status, process_end}

-- A call that the callback refuses, whatever the state.
Refused : {S : Type 0} → Callback S → Call → Type 0
Refused {S} callback c = (k : Kvi) (s : S) → ((callback (kvi_of c k) s).code == 0) ≡ false

-- The parse has returned 1.
abbrev pub Fails : {S : Type 0} → Result S → Type 0
Fails (returned n k s) = n ≡ 1
Fails crashed = ⊥

module _ {S : Type 0} (callback : Callback S) where
  deliver-Refused :
      (c : Call) (cs ds : List Call) (k : Kvi) (s : S)
      → Refused callback c
      → Fails (deliver callback (cs ++ c ∷ ds) k s)
  unfolding deliver Refused
  deliver-Refused c [] ds k s h = rw (h k s) refl
  deliver-Refused c (b ∷ cs) ds k s h = elim (Bool-cases ((callback (kvi_of b k) s).code == 0)) [
    | inl e ↦
        rw e
          (deliver-Refused c cs ds (callback (kvi_of b k) s).kvi (callback (kvi_of b k) s).state h)
    | inr e ↦ rw e refl
  ]

process_value-outside :
    (lib : Library) (k : Kvi) (s : Session)
    → max_players ≤ k.player_index
    → ((process_value lib k s).code == 0) ≡ false
unfolding process_value
process_value-outside lib k s h = elim (Bool-cases s.continue_scan) [
  | inl e ↦ elim (Bool-cases (leb max_servers k.server_index || leb max_players k.player_index)) [
    | inl f ↦ rw e (rw f refl)
    | inr f ↦ ground arith
  ]
  | inr e ↦ rw e refl
]

process_status-refuses :
    (lib : Library) (k : Kvi) (st : Status) (s : Session)
    → (st ≡ normal) ⊎ (st ≡ last)
    → max_players ≤ k.player_index
    → ((process_status lib k st s).code == 0) ≡ false
unfolding process_status process_end
process_status-refuses lib k normal s st h = process_value-outside lib k s h
process_status-refuses lib k last s st h = process_value-outside lib k s h
process_status-refuses lib k complete s st h = refl
process_status-refuses lib k error s st h = refl

process_session_info-refuses :
    (lib : Library) (c : Call)
    → (c.status ≡ normal) ⊎ (c.status ≡ last)
    → max_players ≤ c.player_index
    → Refused (process_session_info lib) c
unfolding Refused process_session_info
process_session_info-refuses lib c st h k lost = refl
process_session_info-refuses lib c st h k (untyped z) = refl
process_session_info-refuses lib c st h k (going s) =
    process_status-refuses lib (kvi_of c k) c.status s st h

item_status-kind :
    (v : Scalar) (is : List Item) → (item_status v is ≡ normal) ⊎ (item_status v is ≡ last)
item_status-kind (plain v) [] = inr refl
item_status-kind (plain v) (i ∷ is) = inl refl
item_status-kind (text v) is = inl refl

-- One of the calls has the player index of a player beyond the array.
abbrev HasOutside : List Call → Type 0
HasOutside calls =
    (before : List Call) × (c : Call) × (after : List Call) × (calls ≡ before ++ c ∷ after)
    × ((c.status ≡ normal) ⊎ (c.status ≡ last))
    × (max_players ≤ c.player_index)

HasOutside-behind : (xs ys : List Call) → HasOutside ys → HasOutside (xs ++ ys)
HasOutside-behind xs ys (before, c, after, e, st, h) = (
  xs ++ before,
  c,
  after,
  ap (λ zs. xs ++ zs) e ∙ sym (append_assoc xs before (c ∷ after)),
  st,
  h,
)

HasOutside-front : (xs ys : List Call) → HasOutside xs → HasOutside (xs ++ ys)
HasOutside-front xs ys (before, c, after, e, st, h) =
    (before, c, after ++ ys, ap (λ zs. zs ++ ys) e ∙ append_assoc before (c ∷ after) ys, st, h)

module _ (array_key : Bytes) (ps : List (List Field)) (f : Field) (more : List Item)
    (full : max_players ≤ length ps) where
  server_calls-HasOutside :
      (si pi : ℕ) (front : List Item)
      → HasOutside (server_calls si pi (front ++ players array_key ps ∷ field f ∷ more))
  server_calls-HasOutside si pi [] = HasOutside-behind (player_calls si pi ps) _ (
    [],
    call_of false si (pi + length ps) (item_status f.value more) f,
    server_calls si (pi + length ps) more,
    refl,
    item_status-kind f.value more,
    omega arith,
  )
  server_calls-HasOutside si pi (field g ∷ front) =
      let items = front ++ players array_key ps ∷ field f ∷ more in
      HasOutside-behind (call_of false si pi (item_status g.value items) g ∷ []) _
        (server_calls-HasOutside si pi front)
  server_calls-HasOutside si pi (players key qs ∷ front) =
      HasOutside-behind (player_calls si pi qs) _
        (server_calls-HasOutside si (pi + length qs) front)

  list_calls-HasOutside :
      (si : ℕ) (us : List Server) (front : List Item) (vs : List Server)
      → HasOutside (list_calls si (us ++ (front ++ players array_key ps ∷ field f ∷ more) ∷ vs))
  list_calls-HasOutside si [] front vs =
      HasOutside-front _ (list_calls (si + 1) vs) (server_calls-HasOutside si 0 front)
  list_calls-HasOutside si (u ∷ us) front vs =
      HasOutside-behind (server_calls si 0 u) _ (list_calls-HasOutside (si + 1) us front vs)

-- The printed form of a lobby list that fits the buffers (`KeyFits`, `ServerFits`), in which some
-- server has an array of sixteen players or more that is followed by a field, is refused: the parse of
-- it from a file, in reads of any sizes up to a graceful end, returns 1. The player index of that
-- field is the number of players, which ProcessSessionInfo tests against MAX_PLAYERS for server data
-- too.
pub full_server-Fails :
    (lib : Library) (key array_key : Bytes) (ps : List (List Field)) (f : Field)
    (front more : List Item) (us vs : List Server) (reads : List Read) (s : Progress)
    → KeyFits key
    → All ServerFits (us ++ (front ++ players array_key ps ∷ field f ∷ more) ∷ vs)
    → received reads ≡ print_list key (us ++ (front ++ players array_key ps ∷ field f ∷ more) ∷ vs)
    → ending reads ≡ none
    → max_players ≤ length ps
    → Fails (parse_data (process_session_info lib) false reads s)
full_server-Fails lib key array_key ps f front more us vs reads s kf vf text_is end_is full =
    let callback = process_session_info lib in
    let list = us ++ (front ++ players array_key ps ∷ field f ∷ more) ∷ vs in
    let (before, c, after, e, st, h) =
      list_calls-HasOutside array_key ps f more full 0 us front vs in
    subst Fails
      (sym (
        parse_data-print_list callback key list reads s kf vf text_is end_is
        ∙ ap (λ calls. deliver callback calls zero_kvi s) e))
      (deliver-Refused callback c before after zero_kvi s (process_session_info-refuses lib c st h))

-- ===== src/Nicks/Update.antt =====
-- bzccscanner.c: UpdatePlayerList.
use bzcc_scanner.Base.{
  ltb, ℕ, ◌+◌, ◌*◌, Option, none, some, Bool, true, false, List, [], ◌∷◌, ◌++◌, ◌==◌, if◌then◌else◌,
  not, ◌&&◌, drop, take, length,
}
use bzcc_scanner.Base.CText.{Bytes, until_nul}
use bzcc_scanner.Crc.{calc_crc32}
use bzcc_scanner.HashTable.Memory.{Ptr, null, Heap, Exec, value, fault, ◌>>=◌, load}
use bzcc_scanner.HashTable.Table.{Table, Alloc, find_crc32, new}
use bzcc_scanner.Session.Info.{PlayerInfo, GameInfo, fitted, player_name_len}
use bzcc_scanner.Settings.Registry.{Text, Registry}
use bzcc_scanner.Settings.Store.{Loaded, tchar_bytes, load_nick, save_nick}
use bzcc_scanner.Control.Rename.{is_empty}

-- The string that stands at the front of a buffer of TCHARs: what is in front of its first NUL, or
-- the whole buffer if it has none.
unfoldable pub text_of : Bytes → Text
text_of (lo ∷ hi ∷ more) =
    let rest = text_of more in let c = lo + hi * 256 in if c == 0 then [] else c ∷ rest
text_of _ = []

-- The buffer has a NUL, so a read of its string ends inside it.
unfoldable pub is_terminated : Bytes → Bool
is_terminated (lo ∷ hi ∷ more) =
    let rest = is_terminated more in if lo + hi * 256 == 0 then true else rest
is_terminated _ = false

-- What the loop over the players works on: the table, the registry, and the bytes of `tmp`.
pub record Nicks (W : Type 0) : Type 0 where
  pub table : Table
  pub world : W
  pub tmp : Bytes

module _ (r : Registry) where
  -- A name is stored in the player and in the table.
  unfoldable pub remember :
      Alloc → Text → PlayerInfo → Nicks r.World → Heap → Exec (PlayerInfo × Nicks r.World)
  unfolding new
  remember a name p n h = new a n.table (calc_crc32 p.user_id) name h >>= λ made g.
      value (record p { local_name = name }, record n { table = made.1 }) g

  -- What is done with the result of LoadNick. To read `tmp` past its end is a fault.
  unfoldable pub use_loaded :
      Alloc
      → Bool
      → PlayerInfo
      → Nicks r.World
      → Loaded r.World
      → Heap
      → Exec (PlayerInfo × Nicks r.World)
  unfolding remember save_nick text_of is_terminated
  use_loaded a auto_nick_save p n l h =
      let n1 = record n { tmp = l.out; world = l.world } in
      let ingame = fitted player_name_len p.ingame_name in
      if l.result == 0
      then if auto_nick_save
        then remember a ingame p (record n1 { world = (save_nick r p.user_id ingame l.world).1 }) h
        else value (p, n1) h
      else if is_terminated l.out
      then remember a (fitted player_name_len (text_of l.out)) p n1 h
      else fault

  -- The table has no name for the player.
  unfoldable pub import_nick :
      Alloc → Bool → PlayerInfo → Nicks r.World → Heap → Exec (PlayerInfo × Nicks r.World)
  unfolding use_loaded load_nick
  import_nick a auto_nick_save p n h =
      use_loaded a auto_nick_save p n (load_nick r p.user_id n.tmp player_name_len n.world) h

  -- What is done with the string that was found in the table, and where there is none.
  unfoldable pub looked_up :
      Alloc → Bool → PlayerInfo → Nicks r.World → Ptr → Heap → Exec (PlayerInfo × Nicks r.World)
  unfolding load import_nick until_nul
  looked_up a auto_nick_save p n str_from_ht h =
      if str_from_ht == null
      then import_nick a auto_nick_save p n h
      else load str_from_ht h >>= λ e g.
          value (record p { local_name = fitted player_name_len (until_nul e.value) }, n) g

  -- The search in the table.
  unfoldable pub find_nick :
      ℕ → Alloc → Bool → PlayerInfo → Nicks r.World → Heap → Exec (PlayerInfo × Nicks r.World)
  unfolding find_crc32 looked_up
  find_nick fuel a auto_nick_save p n h =
      find_crc32 fuel n.table (calc_crc32 p.user_id) h >>= λ q g. looked_up a auto_nick_save p n q g

  -- The local name of one player.
  unfoldable pub resolve_nick :
      ℕ → Alloc → Bool → PlayerInfo → Nicks r.World → Heap → Exec (PlayerInfo × Nicks r.World)
  unfolding find_nick
  resolve_nick fuel a auto_nick_save p n h =
      if is_empty p.local_name && not (is_empty p.user_id)
      then find_nick fuel a auto_nick_save p n h
      else value (p, n) h

-- The row of a player in the list, with a check mark in front of a local name.
abbrev pub row_text : Bool → PlayerInfo → Text
row_text use_local_names p =
    if use_local_names && not (is_empty p.local_name)
    then fitted player_name_len (0x2713 ∷ b' ' ∷ p.local_name)
    else p.ingame_name

-- `tmp` after a row has been written: a row with a local name goes through it.
abbrev pub tmp_after : Bool → PlayerInfo → Bytes → Bytes
tmp_after use_local_names p tmp =
    if use_local_names && not (is_empty p.local_name)
    then tchar_bytes (row_text true p) ++ 0 ∷ 0 ∷ drop (2 * length (row_text true p) + 2) tmp
    else tmp

-- What the loop leaves; `shown` is what UpdatePlayerList returns.
pub record Listed (W : Type 0) : Type 0 where
  pub players : List PlayerInfo
  pub nicks : Nicks W
  pub rows : List Text
  pub shown : Bool

abbrev pub put_row : {W : Type 0} → PlayerInfo → Text → Listed W → Listed W
put_row p text l = record l {
  players = p ∷ l.players;
  rows = if l.shown then text ∷ l.rows else [];
}

-- One player of the loop: what HeapAlloc returns for it, and whether ListBox_AddString takes its row.
pub record Turn : Type 0 where
  pub alloc : Alloc
  pub added : Bool

module _ (r : Registry) (fuel : ℕ) (auto_nick_save use_local_names : Bool) (turns : ℕ → Turn) where
  -- The loop from the player `i` on.
  unfoldable pub list_players : ℕ → List PlayerInfo → Nicks r.World → Heap → Exec (Listed r.World)
  unfolding resolve_nick tchar_bytes
  list_players i [] n h = value (record { players = []; nicks = n; rows = []; shown = true }) h
  list_players i (p ∷ rest) n h =
      resolve_nick r fuel (turns i).alloc auto_nick_save p n h >>= λ found g.
      let p1 = found.0 in
      let n1 = found.1 in
      let n2 = record n1 { tmp = tmp_after use_local_names p1 n1.tmp } in
      elim (turns i).added [
        | true ↦ list_players (i + 1) rest n2 g >>= λ l g1.
            value (put_row p1 (row_text use_local_names p1) l) g1
        | false ↦ value (record { players = p1 ∷ rest; nicks = n2; rows = []; shown = false }) g
      ]

-- The first row that is selected.
unfoldable pub selected_row : List Bool → Option ℕ
selected_row [] = none
selected_row (true ∷ rows) = some 0
selected_row (false ∷ rows) = elim (selected_row rows) [ none ↦ none | some i ↦ some (i + 1) ]

-- The row that is to be selected again: the list box, `none` where it fails to count its rows, has one
-- for each player.
unfoldable pub kept_row : Option (List Bool) → GameInfo → Option ℕ
unfolding selected_row
kept_row none g = none
kept_row (some rows) g = if length rows == g.player_count then selected_row rows else none

-- UpdatePlayerList for the selected game, with the rows of the list box before it, a turn for each
-- player, and `tmp` as the stack holds it: the game, what the loop leaves, and the row that is
-- selected again. `players` has the first `player_count` ones; a count beyond the array is a fault.
unfoldable pub update_player_list :
    (r : Registry)
    → (fuel : ℕ) → (auto_nick_save use_local_names : Bool) → Option (List Bool)
    → (ℕ → Turn)
    → GameInfo
    → Nicks r.World
    → Heap
    → Exec (GameInfo × Listed r.World × Option ℕ)
unfolding list_players kept_row
update_player_list r fuel auto_nick_save use_local_names rows turns g n h =
    if ltb (length g.playerinfo) g.player_count
    then fault
    else list_players r fuel auto_nick_save use_local_names turns 0
        (take g.player_count g.playerinfo) n h
      >>= λ l h1.
          value
            (
              record g { playerinfo = l.players ++ drop g.player_count g.playerinfo },
              l,
              if l.shown then kept_row rows g else none,
            )
            h1

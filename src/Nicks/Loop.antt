-- ===== src/Nicks/Loop.antt =====
-- UpdatePlayerList as a whole.
use bzcc_scanner.Base.{
  ℕ, ◌+◌, ◌≤◌, ◌<◌, ◌≡◌, ◌⊎◌, Bool, true, false, List, [], ◌∷◌, length, Option, none, some, map,
}
use bzcc_scanner.HashTable.Memory.{Heap, Exec, value, ◌>>=◌}
use bzcc_scanner.HashTable.Cells.{Cell, IsTable}
use bzcc_scanner.Session.Info.{PlayerInfo, player_name_len}
use bzcc_scanner.Base.CText.{Bytes}
use bzcc_scanner.Settings.Store.{load_nick}
use bzcc_scanner.Nicks.Remembered.{LacksNul, nameless}
use bzcc_scanner.Settings.Registry.{Registry}
use bzcc_scanner.Nicks.Update.{Nicks, Turn, Listed, list_players, put_row, row_text, tmp_after}

-- The turns of the players from the one at `i` on.
abbrev pub turns_from : (ℕ → Turn) → ℕ → List PlayerInfo → List Turn
turns_from turns i [] = []
turns_from turns i (p ∷ ps) = turns i ∷ turns_from turns (i + 1) ps

-- What the loop leaves: the players in their order, but for their local names, and a well-formed
-- table.
pub record Done (r : Registry) (o : Exec (Listed r.World)) (todo : List PlayerInfo) (count : ℕ)
    : Type 0 where
  pub listed : Listed r.World
  pub heap : Heap
  pub cells : List Cell
  pub run : o ≡ value listed heap
  pub table : IsTable heap (listed.nicks).table cells
  pub same_players : map nameless listed.players ≡ map nameless todo
  pub entries : length cells ≤ count + length todo

-- For some player, LoadNick has found a nickname and left no NUL in `tmp`.
abbrev pub SomeLacksNul : Registry → List PlayerInfo → Type 0
SomeLacksNul r [] = ⊥
SomeLacksNul r (p ∷ ps) =
    ((tmp : Bytes) × (w : r.World) × LacksNul (load_nick r p.user_id tmp player_name_len w))
    ⊎ SomeLacksNul r ps

module _ (r : Registry) (fuel : ℕ) (auto use_local_names : Bool) (turns : ℕ → Turn) where
  -- The rest of a turn.
  abbrev after_turn :
      Bool
      → ℕ
      → PlayerInfo
      → List PlayerInfo
      → PlayerInfo × Nicks r.World
      → Heap
      → Exec (Listed r.World)
  after_turn added i p rest found g =
      let p1 = found.0 in
      let n1 = found.1 in
      let n2 = record n1 { tmp = tmp_after use_local_names p1 n1.tmp } in
      elim added [
        | true ↦ list_players r fuel auto use_local_names turns (i + 1) rest n2 g >>= λ l g1.
            value (put_row p1 (row_text use_local_names p1) l) g1
        | false ↦ value (record { players = p1 ∷ rest; nicks = n2; rows = []; shown = false }) g
      ]

-- No row, or one of `count` rows.
abbrev pub IsRow : ℕ → Option ℕ → Type 0
IsRow count none = Unit
IsRow count (some i) = i < count

-- ===== src/Tests/Nicknames.antt =====
-- The hash table of bzcchtable.c with one and with two entries.
use Prim.Native.Nat.{ℕ}
use bzcc_scanner.Base.{
  ◌≡◌, refl, arith, List, [], ◌∷◌, ◌==◌, if◌then◌else◌, some, none, true, false, replicate, ◌++◌,
}
use bzcc_scanner.Base.CText.{codes, until_nul}
use bzcc_scanner.Crc.{calc_crc32, crc_loop, crc_step, table_at}
use bzcc_scanner.HashTable.Memory.{null, Entry, Heap, value}
use bzcc_scanner.HashTable.Table.{Table, Alloc, find, set_string, delete, free_all}
use bzcc_scanner.HashTable.Table.{find_crc32, find_loop}
use bzcc_scanner.HashTable.Memory.{load}
use bzcc_scanner.Session.Info.{PlayerInfo, GameInfo, zero_player, zero_game, player_name_len}
use bzcc_scanner.Nicks.Update.{Nicks, Turn, resolve_nick, find_nick, looked_up}
use bzcc_scanner.Nicks.Remembered.{IsUsable, Resolves}
use bzcc_scanner.Settings.Store.{load_nick}
use bzcc_scanner.Nicks.Cached.{resolve_nick-Remembers, resolve_nick-Again}
use bzcc_scanner.Tests.Registry.{Values, in_memory, empty}
use bzcc_scanner.HashTable.Release.{Freed, free_all-Freed}
use bzcc_scanner.HashTable.Cells.{Cell, Holds, IsTable, lookup, assign, remove}
use bzcc_scanner.HashTable.Memory.{fault}
use bzcc_scanner.HashTable.Long.{set_string-Faults}
use bzcc_scanner.HashTable.Find.{find-lookup}
use bzcc_scanner.HashTable.Set.{set_string-assign}
use bzcc_scanner.HashTable.RoundTrip.{Stores, set_string-Stores}
use bzcc_scanner.HashTable.Unlink.{Removed, NotLast, delete-Removed}
use bzcc_scanner.HashTable.Dangling.{Dangles, delete-Dangles}

abbrev array_of : List ℕ → List ℕ
array_of s = s ++ replicate 61 0

-- The entries of the reference strings "1" and "2".
abbrev entry_1 : Entry
entry_1 = record { crc32 = 2651074707; value = array_of (codes "Ann"); next = 16 }

abbrev entry_2 : Entry
entry_2 = record { crc32 = 2470909514; value = array_of (codes "Bob"); next = null }

abbrev heap : Heap
heap a = if a == 8 then some entry_1 else if a == 16 then some entry_2 else none

abbrev cell_1 : Cell
cell_1 = record { address = 8; checksum = 2651074707; string = codes "Ann" }

abbrev cell_2 : Cell
cell_2 = record { address = 16; checksum = 2470909514; string = codes "Bob" }

abbrev table : Table
table = record { first = 8; last = 16 }

entry_1-Holds : Holds cell_1 16 entry_1
unfolding until_nul
entry_1-Holds = record {
  same_checksum = refl;
  same_next = refl;
  whole_array = refl;
  same_string = refl;
}

entry_2-Holds : Holds cell_2 null entry_2
unfolding until_nul
entry_2-Holds = record {
  same_checksum = refl;
  same_next = refl;
  whole_array = refl;
  same_string = refl;
}

table-IsTable : IsTable heap table (cell_1 ∷ cell_2 ∷ [])
table-IsTable = record {
  first_is = refl;
  last_is = refl;
  linked = (
    refl,
    (entry_1, refl, entry_1-Holds),
    (refl, refl, tt),
    (refl, (entry_2, refl, entry_2-Holds), tt, tt),
  );
}

-- What HeapAlloc returns.
abbrev fresh : Alloc
fresh = record { address = 24; content = record { crc32 = 7; value = replicate 64 9; next = 5 } }

find-lookup_example :
    find 3 table (codes "2") heap
    ≡ value (lookup (calc_crc32 (codes "2")) (cell_1 ∷ cell_2 ∷ [])) heap
find-lookup_example =
    find-lookup heap table (cell_1 ∷ cell_2 ∷ []) (codes "2") 3 table-IsTable (omega arith)

set_string-assign_example :
    (t' : Table) × (g : Heap) × (set_string 3 fresh table (codes "3") (codes "Cy") heap
      ≡ value (true, t') g)
    × IsTable g t' (assign 24 (calc_crc32 (codes "3")) (codes "Cy") (cell_1 ∷ cell_2 ∷ []))
set_string-assign_example =
    set_string-assign fresh table (codes "3") (codes "Cy") heap (cell_1 ∷ cell_2 ∷ []) 3
      table-IsTable (omega arith) (omega arith) (refl, (refl, tt)) refl
      (refl, refl, (refl, refl, tt)) refl

set_string-Stores_example :
    Stores (set_string 4 fresh table (codes "3") (codes "Cy") heap) 4 (codes "3") (codes "Cy")
set_string-Stores_example =
    set_string-Stores fresh table (codes "3") (codes "Cy") heap (cell_1 ∷ cell_2 ∷ []) 4
      table-IsTable (omega arith) (omega arith) (refl, (refl, tt)) refl
      (refl, refl, (refl, refl, tt)) refl

set_string-Faults_example : set_string 3 fresh table (codes "2") (replicate 64 65) heap ≡ fault
set_string-Faults_example =
    set_string-Faults fresh table (codes "2") (replicate 64 65) heap (cell_1 ∷ cell_2 ∷ []) 3
      table-IsTable (omega arith) refl (omega arith)

first-NotLast :
    NotLast (lookup (calc_crc32 (codes "1")) (cell_1 ∷ cell_2 ∷ [])) (cell_1 ∷ cell_2 ∷ [])
unfolding calc_crc32 crc_loop crc_step table_at
first-NotLast = refl

delete-Removed_example :
    Removed
      (delete 3 table (codes "1") heap)
      (lookup (calc_crc32 (codes "1")) (cell_1 ∷ cell_2 ∷ []))
      (remove (calc_crc32 (codes "1")) (cell_1 ∷ cell_2 ∷ []))
delete-Removed_example =
    delete-Removed table (codes "1") heap (cell_1 ∷ cell_2 ∷ []) 3 table-IsTable (omega arith)
      first-NotLast

first-differs : (2651074707 == calc_crc32 (codes "2")) ≡ false
unfolding calc_crc32 crc_loop crc_step table_at
first-differs = refl

second-found : lookup (calc_crc32 (codes "2")) (cell_2 ∷ []) ≡ 16
unfolding calc_crc32 crc_loop crc_step table_at
second-found = refl

delete-Dangles_example : Dangles (delete 3 table (codes "2") heap) table
delete-Dangles_example =
    delete-Dangles table (codes "2") heap cell_1 cell_2 [] 3 table-IsTable (omega arith)
      first-differs second-found refl

free_all-Freed_example :
    (g : Heap) × (free_all 3 table heap ≡ value (record { first = null; last = null }) g)
    × Freed heap (cell_1 ∷ cell_2 ∷ []) g
free_all-Freed_example =
    free_all-Freed heap table (cell_1 ∷ cell_2 ∷ []) 3 table-IsTable (omega arith)

-- A player with the identifier "1", and one with the identifier "3", which the table does not list.
abbrev ann : PlayerInfo
ann = record zero_player { user_id = codes "1"; ingame_name = codes "Annie" }

abbrev cyril : PlayerInfo
cyril = record zero_player { user_id = codes "3"; ingame_name = codes "Cyril" }

abbrev nicks : Nicks Values
nicks = record { table = table; world = empty; tmp = replicate 128 0 }

fresh-IsUsable : IsUsable fresh (cell_1 ∷ cell_2 ∷ [])
fresh-IsUsable = record { address = refl; unused = (refl, refl, (refl, refl, tt)); whole = refl }

resolve_nick-Remembers_example :
    Resolves in_memory fresh
      (cell_1 ∷ cell_2 ∷ [])
      cyril
      nicks
      heap
      (load_nick in_memory (codes "3") (replicate 128 0) player_name_len empty)
      (resolve_nick in_memory 3 fresh true cyril nicks heap)
resolve_nick-Remembers_example =
    resolve_nick-Remembers in_memory 3 fresh true cyril nicks heap (cell_1 ∷ cell_2 ∷ [])
      table-IsTable (omega arith) fresh-IsUsable (refl, (refl, (refl, (refl, (refl, tt))))) refl
      refl

first_search :
    resolve_nick in_memory 4 fresh false ann nicks heap
    ≡ value (record ann { local_name = codes "Ann" }, nicks) heap
unfolding resolve_nick find_nick looked_up find_crc32 find_loop load until_nul calc_crc32 crc_loop
    crc_step table_at
first_search = refl

resolve_nick-Again_example :
    let q = record ann { ingame_name = codes "Anna" } in
    resolve_nick in_memory 4 fresh true q nicks heap
    ≡ value (record q { local_name = codes "Ann" }, nicks) heap
resolve_nick-Again_example =
    resolve_nick-Again in_memory 4 fresh false ann nicks heap (cell_1 ∷ cell_2 ∷ []) in_memory fresh
      true (record ann { ingame_name = codes "Anna" }) nicks table-IsTable (omega arith)
      fresh-IsUsable (refl, (refl, (refl, (refl, (refl, tt))))) refl refl first_search refl refl
      refl refl

-- A game with one player, and what its turn gets from outside.
abbrev cyrils_game : GameInfo
cyrils_game = record zero_game { player_count = 1; playerinfo = cyril ∷ [] }

abbrev one_turn : ℕ → Turn
one_turn i = record { alloc = fresh; added = true }

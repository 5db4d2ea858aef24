-- ===== src/HashTable/Cells.antt =====
-- The abstract view of a table: the list of its entries, each with its address, its checksum and
-- the string that its array holds.
use Prim.Native.Nat.{ℕ}
use bzcc_scanner.Base.{◌≡◌, ◌∙◌, arith, true, false, List, [], ◌∷◌, Option, some, ◌==◌, length}
use bzcc_scanner.Base.CText.{until_nul}
use bzcc_scanner.HashTable.Memory.{Ptr, null, Entry, Heap, ht_max_str, write}
use bzcc_scanner.HashTable.Table.{Table}

pub record Cell : Type 0 where
  pub address : Ptr
  pub checksum : ℕ
  pub string : List ℕ

-- `e` is what memory holds of the cell.
pub record Holds (c : Cell) (q : Ptr) (e : Entry) : Type 0 where
  pub same_checksum : e.crc32 ≡ c.checksum
  pub same_next : e.next ≡ q
  pub whole_array : length e.value ≡ ht_max_str
  pub same_string : until_nul e.value ≡ c.string

-- The address of the first cell, `q` if there is none.
abbrev pub start : List Cell → Ptr → Ptr
start [] q = q
start (c ∷ cs) q = c.address

abbrev pub end_of : Ptr → List Cell → Ptr
end_of p [] = p
end_of p (c ∷ cs) = end_of c.address cs

abbrev pub Unused : Ptr → List Cell → Type 0
Unused p [] = Unit
Unused p (c ∷ cs) = ((c.address == p) ≡ false) × ((p == c.address) ≡ false) × Unused p cs

-- The cells stand in memory, each linked to the one behind it and the last one to `q`.
abbrev pub Linked : Heap → List Cell → Ptr → Type 0
Linked h [] q = Unit
Linked h (c ∷ cs) q =
    ((c.address == null) ≡ false)
    × ((e : Entry) × (h c.address ≡ some e) × Holds c (start cs q) e)
    × Unused c.address cs
    × Linked h cs q

pub record IsTable (h : Heap) (t : Table) (cells : List Cell) : Type 0 where
  pub first_is : t.first ≡ start cells null
  pub last_is : t.last ≡ end_of null cells
  pub linked : Linked h cells null

-- HT_Find_crc32 on the abstract view: the address of the first cell of the checksum.
abbrev pub lookup : ℕ → List Cell → Ptr
lookup crc [] = null
lookup crc (c ∷ cs) = elim (c.checksum == crc) [ true ↦ c.address | false ↦ lookup crc cs ]

-- HT_Set: replace the string of the first cell of the checksum, or add a cell at the end.
abbrev pub assign : Ptr → ℕ → List ℕ → List Cell → List Cell
assign p crc s [] = record { address = p; checksum = crc; string = s } ∷ []
assign p crc s (c ∷ cs) = elim (c.checksum == crc) [
  | true ↦ record c { string = s } ∷ cs
  | false ↦ c ∷ assign p crc s cs
]

-- HT_Delete: remove the first cell of the checksum.
abbrev pub remove : ℕ → List Cell → List Cell
remove crc [] = []
remove crc (c ∷ cs) = elim (c.checksum == crc) [ true ↦ cs | false ↦ c ∷ remove crc cs ]

pub write-same : (h : Heap) (p : Ptr) (e : Option Entry) → write h p e p ≡ e
unfolding write
write-same h p e = ground arith

pub write-other :
    (h : Heap) (p : Ptr) (e : Option Entry) (q : Ptr) → (q == p) ≡ false → write h p e q ≡ h q
unfolding write
write-other h p e q d = ground arith

pub Linked-write :
    (h : Heap) (p : Ptr) (e : Option Entry) (cells : List Cell) (q : Ptr)
    → Unused p cells
    → Linked h cells q
    → Linked (write h p e) cells q
Linked-write h p e [] q u l = tt
Linked-write h p e (c ∷ cs) q (d, _, u) (n, (x, at, holds), fresh, l) =
    (n, (x, write-other h p e c.address d ∙ at, holds), fresh, Linked-write h p e cs q u l)

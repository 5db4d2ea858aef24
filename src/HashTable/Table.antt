-- ===== src/HashTable/Table.antt =====
-- The operations of bzcchtable.c. A HT_Table lives outside the heap, so an operation that changes
-- one returns it. The loops take one round of fuel for each entry they look at, and one more.
use bzcc_scanner.Base.{ℕ, zero, suc, Bool, true, false, List, ◌==◌, if◌then◌else◌}
use bzcc_scanner.Crc.{calc_crc32}
use bzcc_scanner.HashTable.Memory.{
  Ptr, null, Entry, Heap, write, Exec, value, no_fuel, ◌>>=◌, load, set_next, free, copy_str,
}
use bzcc_scanner.Base.{some}

pub record Table : Type 0 where
  pub first : Ptr
  pub last : Ptr

-- What HeapAlloc returns: an address, NULL on failure, and what the memory holds.
pub record Alloc : Type 0 where
  pub address : Ptr
  pub content : Entry

unfoldable pub find_loop : ℕ → Ptr → ℕ → Heap → Exec Ptr
unfolding load
find_loop zero p crc h = no_fuel
find_loop (suc fuel) p crc h =
    if p == null
    then value null h
    else load p h >>= λ e g. elim (e.crc32 == crc) [
      | true ↦ value p g
      | false ↦ find_loop fuel e.next crc g
    ]

-- HT_Find_crc32: the entry whose `value` is returned, NULL if there is none.
unfoldable pub find_crc32 : ℕ → Table → ℕ → Heap → Exec Ptr
unfolding find_loop
find_crc32 fuel ht crc h = find_loop fuel ht.first crc h

-- HT_Find
unfoldable pub find : ℕ → Table → List ℕ → Heap → Exec Ptr
unfolding find_crc32
find fuel ht reference h = find_crc32 fuel ht (calc_crc32 reference) h

-- The end of HT_New: hang the entry behind the last one.
unfoldable pub link_entry : Table → Ptr → Heap → Exec (Bool × Table)
unfolding set_next
link_entry ht entry h =
    if ht.first == null
    then value (true, record { first = entry; last = entry }) h
    else set_next ht.last entry h >>= λ _ g. value (true, record ht { last = entry }) g

-- HT_New
unfoldable pub new : Alloc → Table → ℕ → List ℕ → Heap → Exec (Bool × Table)
unfolding link_entry copy_str set_next write
new a ht crc string h =
    if a.address == null
    then value (false, ht) h
    else let c = a.content in
      let g = write h a.address (some (record c { crc32 = crc })) in
      copy_str a.address string g >>= λ _ g1.
      set_next a.address null g1 >>= λ _ g2. link_entry ht a.address g2

-- The search of HT_Set, over the entries from `p` on.
unfoldable pub set_loop : ℕ → Alloc → Table → Ptr → ℕ → List ℕ → Heap → Exec (Bool × Table)
unfolding load copy_str new
set_loop zero a ht p crc string h = no_fuel
set_loop (suc fuel) a ht p crc string h =
    if p == null
    then new a ht crc string h
    else load p h >>= λ e g. elim (e.crc32 == crc) [
      | true ↦ copy_str p string g >>= λ _ g1. value (true, ht) g1
      | false ↦ set_loop fuel a ht e.next crc string g
    ]

-- HT_Set; the checksum that goes to `*crc32_out` is `calc_crc32 reference`.
unfoldable pub set_string : ℕ → Alloc → Table → List ℕ → List ℕ → Heap → Exec (Bool × Table)
unfolding set_loop
set_string fuel a ht reference mapped h =
    set_loop fuel a ht ht.first (calc_crc32 reference) mapped h

-- HT_Delete at the entry that was found. Where an entry in front of it takes over, the statement
-- `ht->last;` has no effect: `last` stays as it is.
unfoldable pub unlink : Table → (prev p : Ptr) → Entry → Heap → Exec Table
unfolding set_next
unlink ht prev p e h =
    if prev == null
    then if ht.last == p
      then value (record { first = null; last = null }) h
      else value (record ht { first = e.next }) h
    else set_next prev e.next h >>= λ _ g. value ht g

unfoldable pub delete_loop : ℕ → Table → (prev p : Ptr) → ℕ → Heap → Exec (Bool × Table)
unfolding load unlink free
delete_loop zero ht prev p crc h = no_fuel
delete_loop (suc fuel) ht prev p crc h =
    if p == null
    then value (false, ht) h
    else load p h >>= λ e g. elim (e.crc32 == crc) [
      | true ↦ unlink ht prev p e g >>= λ ht' g1. free p g1 >>= λ _ g2. value (true, ht') g2
      | false ↦ delete_loop fuel ht p e.next crc g
    ]

-- HT_Delete
unfoldable pub delete : ℕ → Table → List ℕ → Heap → Exec (Bool × Table)
unfolding delete_loop
delete fuel ht reference h = delete_loop fuel ht null ht.first (calc_crc32 reference) h

unfoldable pub free_loop : ℕ → Ptr → Heap → Exec (Unit {0})
unfolding load free
free_loop zero p h = no_fuel
free_loop (suc fuel) p h =
    if p == null
    then value tt h
    else load p h >>= λ e g. free p g >>= λ _ g1. free_loop fuel e.next g1

-- HT_Free
unfoldable pub free_all : ℕ → Table → Heap → Exec Table
unfolding free_loop
free_all fuel ht h =
    free_loop fuel ht.first h >>= λ _ g. value (record { first = null; last = null }) g

-- ===== src/HashTable/Memory.antt =====
-- The heap as the hash table uses it: HT_TableEntry structures at addresses.
use bzcc_scanner.Base.{ℕ, ◌+◌, Option, none, some, List, [], ◌∷◌, ltb, ◌==◌, if◌then◌else◌, set}

abbrev pub Ptr : Type 0
Ptr = ℕ

abbrev pub null : Ptr
null = 0

abbrev pub ht_max_str : ℕ
ht_max_str = 64

-- `value` is the whole array of HT_MAX_STR characters.
pub record Entry : Type 0 where
  pub crc32 : ℕ
  pub value : List ℕ
  pub next : Ptr

abbrev pub Heap : Type 0
Heap = Ptr → Option Entry

unfoldable pub write : Heap → Ptr → Option Entry → Heap
write h p e a = if a == p then e else h a

-- The end of a piece of code: a result and a heap, a fault (an access outside an array, through
-- NULL or to memory that is not allocated), or no rounds left.
pub data Exec (A : Type 0) : Type 0 where
  value : A → Heap → Exec A
  fault : Exec A
  no_fuel : Exec A

module _ {A B : Type 0} where
  infixl 5 ◌>>=◌
  abbrev pub ◌>>=◌ : Exec A → (A → Heap → Exec B) → Exec B
  value a h >>= f = f a h
  fault >>= f = fault
  no_fuel >>= f = no_fuel

-- `*p`
unfoldable pub load : Ptr → Heap → Exec Entry
load p h = if p == null then fault else elim (h p) [ none ↦ fault | some e ↦ value e h ]

-- `p->next = q`
unfoldable pub set_next : Ptr → Ptr → Heap → Exec (Unit {0})
unfolding load write
set_next p q h = load p h >>= λ e g. value tt (write g p (some (record e { next = q })))

-- `HeapFree`
unfoldable pub free : Ptr → Heap → Exec (Unit {0})
unfolding load write
free p h = load p h >>= λ e g. value tt (write g p none)

-- `value[i] = c`
abbrev pub store_char : List ℕ → ℕ → ℕ → Option (List ℕ)
store_char v i c = if ltb i ht_max_str then some (set v i c) else none

-- The loop of HT_CopyStr and the terminator behind it, from index `i` on; `none` is a write behind
-- the end of the array. The string is given without its terminator.
unfoldable pub copy_loop : List ℕ → ℕ → List ℕ → Option (List ℕ)
copy_loop v i [] = store_char v i 0
copy_loop v i (c ∷ cs) =
    let rest = copy_loop (set v i c) (i + 1) cs in
    if ltb i ht_max_str then rest else store_char v i 0

-- `HT_CopyStr(p, string)`
unfoldable pub copy_str : Ptr → List ℕ → Heap → Exec (Unit {0})
unfolding copy_loop load write
copy_str p string h = load p h >>= λ e g. elim (copy_loop e.value 0 string) [
  | none ↦ fault
  | some v ↦ value tt (write g p (some (record e { value = v })))
]

-- ===== src/HashTable/Find.antt =====
-- The searches of the table against the abstract view.
use Prim.Native.Nat.{ℕ, zero, suc, ◌<◌}
use bzcc_scanner.Base.{◌≡◌, refl, ◌∙◌, arith, ap, List, [], ◌∷◌, length}
use bzcc_scanner.Crc.{calc_crc32}
use bzcc_scanner.HashTable.Memory.{null, Heap, value, load}
use bzcc_scanner.HashTable.Table.{Table, find_loop, find_crc32, find}
use bzcc_scanner.HashTable.Cells.{Cell, start, Linked, IsTable, lookup}

find_loop-lookup :
    (h : Heap) (cells : List Cell) (crc fuel : ℕ)
    → Linked h cells null
    → length cells < fuel
    → find_loop fuel (start cells null) crc h ≡ value (lookup crc cells) h
unfolding find_loop load
find_loop-lookup h cells crc zero l enough = elim enough [ ]
find_loop-lookup h [] crc (suc fuel) l enough = refl
find_loop-lookup h (c ∷ cs) crc (suc fuel) (n, (e, at, holds), u, l) enough =
    ground
      (arith, find_loop-lookup h cs crc fuel l (omega arith), holds.same_checksum, holds.same_next)

-- HT_Find on a well-formed table, with a round of fuel for each entry and one more: it does not
-- fault, changes nothing, and returns the first entry whose checksum is that of the reference
-- string, or NULL if there is none.
pub find-lookup :
    (h : Heap) (t : Table) (cells : List Cell) (reference : List ℕ) (fuel : ℕ)
    → IsTable h t cells
    → length cells < fuel
    → find fuel t reference h ≡ value (lookup (calc_crc32 reference) cells) h
unfolding find find_crc32
find-lookup h t cells reference fuel v enough =
    ap (λ p. find_loop fuel p (calc_crc32 reference) h) v.first_is
    ∙ find_loop-lookup h cells (calc_crc32 reference) fuel v.linked enough

-- ===== src/HashTable/Long.antt =====
-- HT_CopyStr of a string that does not fit, and what HT_Set makes of it.
use Prim.Native.Nat.{ℕ, zero, suc, ◌+◌, ◌<◌, ◌≤◌}
use bzcc_scanner.Base.{
  Bool-cases, inl, inr, ◌≡◌, ◌∙◌, arith, ap, true, false, List, [], ◌∷◌, some, none, ◌==◌, length,
  set,
}
use bzcc_scanner.Crc.{calc_crc32}
use bzcc_scanner.HashTable.Memory.{
  Ptr, null, ht_max_str, Entry, Heap, value, fault, write, load, copy_loop, copy_str, ◌>>=◌,
}
use bzcc_scanner.HashTable.Table.{Table, Alloc, new, set_loop, set_string}
use bzcc_scanner.HashTable.Cells.{Cell, start, Linked, IsTable, write-same}
use bzcc_scanner.HashTable.Set.{set_loop-hit, set_loop-miss, set_loop-nil, set_string-start}

-- The terminator goes behind the array.
copy_loop-none :
    (v : List ℕ) (i : ℕ) (s : List ℕ) → ht_max_str ≤ i + length s → copy_loop v i s ≡ none
unfolding copy_loop
copy_loop-none v i [] long = ground arith
copy_loop-none v i (c ∷ s) long =
    let rest = copy_loop-none (set v i c) (i + 1) s (omega arith) in ground arith

copy_str-Faults :
    (p : Ptr) (string : List ℕ) (h : Heap) (e : Entry)
    → (p == null) ≡ false
    → h p ≡ some e
    → ht_max_str ≤ length string
    → copy_str p string h ≡ fault
unfolding copy_str load
copy_str-Faults p string h e n at long =
    let over = copy_loop-none e.value 0 string (omega arith) in ground arith

new-Faults :
    (a : Alloc) (t : Table) (crc : ℕ) (string : List ℕ) (h : Heap)
    → (a.address == null) ≡ false
    → ht_max_str ≤ length string
    → new a t crc string h ≡ fault
unfolding new
new-Faults a t crc string h n long =
    let e = record a.content { crc32 = crc } in
    let g = write h a.address (some e) in
    let over = copy_str-Faults a.address string g e n (write-same h a.address _) long in
    ground arith

set_loop-Faults :
    (a : Alloc) (t : Table) (crc : ℕ) (string : List ℕ) (h : Heap) (cells : List Cell) (fuel : ℕ)
    → Linked h cells null
    → length cells < fuel
    → (a.address == null) ≡ false
    → ht_max_str ≤ length string
    → set_loop fuel a t (start cells null) crc string h ≡ fault
set_loop-Faults a t crc string h cells zero l enough n long = elim enough [ ]
set_loop-Faults a t crc string h [] (suc fuel) l enough n long =
    set_loop-nil a t crc string h fuel ∙ new-Faults a t crc string h n long
set_loop-Faults a t crc string h (c ∷ cs) (suc fuel) (m, (e, at, holds), u, l) enough n long =
    elim (Bool-cases (c.checksum == crc)) [
      | inl same ↦
          set_loop-hit a t c.address crc string h e fuel m at
            (ap (λ k. k == crc) holds.same_checksum ∙ same)
          ∙ ap (λ o. o >>= λ _ g. value (true, t) g)
              (copy_str-Faults c.address string h e m at long)
      | inr other ↦
          set_loop-miss a t c.address crc string h e fuel m at
            (ap (λ k. k == crc) holds.same_checksum ∙ other)
          ∙ ap (λ p. set_loop fuel a t p crc string h) holds.same_next
          ∙ set_loop-Faults a t crc string h cs fuel l (omega arith) n long
    ]

-- HT_Set of a string of HT_MAX_STR characters or more writes behind the array of an entry, on every
-- well-formed table, with a round of fuel for each entry and one more, whether the reference string
-- is listed or not, unless HeapAlloc would fail.
pub set_string-Faults :
    (a : Alloc) (t : Table) (reference mapped : List ℕ) (h : Heap) (cells : List Cell) (fuel : ℕ)
    → IsTable h t cells
    → length cells < fuel
    → (a.address == null) ≡ false
    → ht_max_str ≤ length mapped
    → set_string fuel a t reference mapped h ≡ fault
set_string-Faults a t reference mapped h cells fuel v enough n long =
    set_string-start a t reference mapped h cells fuel v
    ∙ set_loop-Faults a t (calc_crc32 reference) mapped h cells fuel v.linked enough n long

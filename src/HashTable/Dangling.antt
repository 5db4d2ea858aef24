-- ===== src/HashTable/Dangling.antt =====
-- HT_Delete of the last of several entries: `last` keeps the address of the entry that was freed.
use Prim.Native.Nat.{ℕ, zero, suc, ◌<◌}
use bzcc_scanner.Base.{◌≡◌, sym, ◌∙◌, arith, ap, Bool, true, false, List, ◌∷◌, none, ◌==◌, length}
use bzcc_scanner.Crc.{calc_crc32}
use bzcc_scanner.HashTable.Memory.{
  Ptr, null, ht_max_str, Heap, Exec, value, fault, load, set_next, ◌>>=◌,
}
use bzcc_scanner.HashTable.Table.{Table, Alloc, new, delete}
use bzcc_scanner.HashTable.Cells.{Cell, IsTable, lookup}
use bzcc_scanner.HashTable.New.{new-Made, link_entry-more}
use bzcc_scanner.HashTable.Copy.{NoNul}
use bzcc_scanner.HashTable.Delete.{absent, found, delete-start}
use bzcc_scanner.HashTable.Unlink.{delete_loop-behind}

-- No run of HT_New that follows reaches its end.
pub record Dangles (o : Exec (Bool × Table)) (t : Table) : Type 0 where
  pub heap : Heap
  pub run : o ≡ value (true, t) heap
  pub new_faults :
      (a : Alloc) (crc : ℕ) (string : List ℕ)
      → (a.address == null) ≡ false
      → (t.last == a.address) ≡ false
      → length a.content.value ≡ ht_max_str
      → length string < ht_max_str
      → NoNul string
      → new a t crc string heap ≡ fault

true_ne : (null == null) ≡ false → ⊥
true_ne e = ground arith

set_next-freed : (p q : Ptr) (h : Heap) → h p ≡ none → set_next p q h ≡ fault
unfolding set_next load
set_next-freed p q h e = ground arith

new-freed :
    (t : Table) (g : Heap)
    → g t.last ≡ none
    → (t.first == null) ≡ false
    → (a : Alloc) (crc : ℕ) (string : List ℕ) → (a.address == null) ≡ false
    → (t.last == a.address) ≡ false
    → length a.content.value ≡ ht_max_str
    → length string < ht_max_str
    → NoNul string
    → new a t crc string g ≡ fault
new-freed t g freed some_first a crc string n d full short nn =
    let (g1, run, m) = new-Made a t crc string g n full short nn in
    run
    ∙ link_entry-more t a.address g1 some_first
    ∙ ap (λ o. o >>= λ _ g2. value (true, record t { last = a.address }) g2)
        (set_next-freed t.last a.address g1 (m.frame t.last d ∙ freed))

-- On a well-formed table of two entries or more, with a round of fuel for each entry and one more,
-- where the first entry of the reference string's checksum is the last of the table and not the
-- first: HT_Delete answers TRUE and leaves the table as it was, with `last` the address of the
-- entry that it freed. Each later HT_New, to which HeapAlloc gives another address, for a string
-- that fits, writes to that freed entry.
pub delete-Dangles :
    (t : Table) (reference : List ℕ) (h : Heap) (c b : Cell) (cs : List Cell) (fuel : ℕ)
    → IsTable h t (c ∷ b ∷ cs)
    → length (c ∷ b ∷ cs) < fuel
    → (c.checksum == calc_crc32 reference) ≡ false
    → lookup (calc_crc32 reference) (b ∷ cs) ≡ t.last
    → (t.last == null) ≡ false
    → Dangles (delete fuel t reference h) t
delete-Dangles t reference h c b cs zero v enough other last_one n = elim enough [ ]
delete-Dangles t reference h c b cs (suc fuel) v enough other last_one n =
    let crc = calc_crc32 reference in
    elim (delete_loop-behind t crc h c (b ∷ cs) fuel v (omega arith) other _
      (delete-start t reference h (c ∷ b ∷ cs) (suc fuel) v)) [
        | absent run none_found same ↦
            absurd (true_ne (sym (ap (λ p. p == null) (sym last_one ∙ none_found)) ∙ n))
        | found g run some_found l freed frame ↦ record {
          heap = g;
          run = run;
          new_faults =
              new-freed t g (ap g (sym last_one) ∙ freed)
                (ap (λ p. p == null) v.first_is ∙ v.linked.0);
        }
      ]

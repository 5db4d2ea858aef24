-- ===== src/HashTable/Set.antt =====
-- HT_Set against the abstract view.
use Prim.Native.Nat.{ℕ, zero, suc, ◌<◌}
use bzcc_scanner.Base.{
  Bool-cases, inl, inr, subst, ◌≡◌, refl, sym, ◌∙◌, arith, ap, Bool, true, false, List, [], ◌∷◌,
  ◌++◌, some, ◌==◌, length,
}
use bzcc_scanner.Crc.{calc_crc32}
use bzcc_scanner.HashTable.Memory.{
  Ptr, null, ht_max_str, Entry, Heap, Exec, value, write, load, copy_str, ◌>>=◌,
}
use bzcc_scanner.HashTable.Table.{Table, Alloc, new, set_loop, set_string}
use bzcc_scanner.HashTable.Cells.{
  Cell, Holds, start, end_of, Unused, Linked, IsTable, assign, write-same, write-other,
  Linked-write,
}
use bzcc_scanner.HashTable.New.{copy_str-Holds, cell_of, new-Made, link_entry-IsTable}
use bzcc_scanner.HashTable.Copy.{NoNul}

-- What the search of HT_Set comes to: it ends where HT_New is called, or it has found the entry.
data Searched (h : Heap) (q : Ptr) (cells after : List Cell) (t : Table) (d : Cell)
    (o o' : Exec (Bool × Table)) : Type 0 where
  absent : o ≡ o' → after ≡ cells ++ d ∷ [] → Searched h q cells after t d o o'
  found :
      (g : Heap)
      → o ≡ value (true, t) g
      → Linked g after q
      → start after q ≡ start cells q
      → ((p : Ptr) → end_of p after ≡ end_of p cells)
      → ((p : Ptr) → Unused p cells → (g p ≡ h p) × Unused p after)
      → Searched h q cells after t d o o'

module _ (a : Alloc) (t : Table) (p : Ptr) (crc : ℕ) (string : List ℕ) (h : Heap) (e : Entry)
    (fuel : ℕ) (n : (p == null) ≡ false) (at : h p ≡ some e) where
  pub set_loop-hit :
      (e.crc32 == crc) ≡ true
      → set_loop (suc fuel) a t p crc string h ≡ (copy_str p string h >>= λ _ g. value (true, t) g)
  unfolding set_loop load
  set_loop-hit same = ground arith

  pub set_loop-miss :
      (e.crc32 == crc) ≡ false
      → set_loop (suc fuel) a t p crc string h ≡ set_loop fuel a t e.next crc string h
  unfolding set_loop load
  set_loop-miss other = ground arith

pub set_loop-nil :
    (a : Alloc) (t : Table) (crc : ℕ) (string : List ℕ) (h : Heap) (fuel : ℕ)
    → set_loop (suc fuel) a t null crc string h ≡ new a t crc string h
unfolding set_loop
set_loop-nil a t crc string h fuel = refl

Searched-more :
    (a : Alloc) (t : Table) (crc : ℕ) (string : List ℕ) (h : Heap) (c : Cell) (cs : List Cell)
    (fuel : ℕ)
    → (c.address == null) ≡ false
    → (e : Entry) → h c.address ≡ some e
    → Holds c (start cs null) e
    → Unused c.address cs
    → (c.checksum == crc) ≡ false
    → Searched h null cs
        (assign a.address crc string cs)
        t
        (cell_of a crc string)
        (set_loop fuel a t e.next crc string h)
        (new a t crc string h)
    → Searched h null
        (c ∷ cs)
        (c ∷ assign a.address crc string cs)
        t
        (cell_of a crc string)
        (set_loop (suc fuel) a t c.address crc string h)
        (new a t crc string h)
Searched-more a t crc string h c cs fuel n e at holds u other (absent same after) =
    absent
      (set_loop-miss a t c.address crc string h e fuel n at
          (ap (λ k. k == crc) holds.same_checksum ∙ other)
        ∙ same)
      (ap (λ l. c ∷ l) after)
Searched-more a t crc string h c cs fuel n e at holds u other (found g run l first same_end frame) =
    found g
      (set_loop-miss a t c.address crc string h e fuel n at
          (ap (λ k. k == crc) holds.same_checksum ∙ other)
        ∙ run)
      (
        n,
        (
          e,
          (frame c.address u).0 ∙ at,
          record {
            same_checksum = holds.same_checksum;
            same_next = holds.same_next ∙ sym first;
            whole_array = holds.whole_array;
            same_string = holds.same_string;
          },
        ),
        (frame c.address u).1,
        l,
      )
      refl (λ p. same_end c.address) (λ p (x, y, z). ((frame p z).0, (x, y, (frame p z).1)))

set_loop-Searched :
    (a : Alloc) (t : Table) (crc : ℕ) (string : List ℕ) (h : Heap) (cells : List Cell) (fuel : ℕ)
    → Linked h cells null
    → length cells < fuel
    → length string < ht_max_str
    → NoNul string
    → Searched h null cells
        (assign a.address crc string cells)
        t
        (cell_of a crc string)
        (set_loop fuel a t (start cells null) crc string h)
        (new a t crc string h)
set_loop-Searched a t crc string h cells zero l enough short nn = elim enough [ ]
set_loop-Searched a t crc string h [] (suc fuel) l enough short nn =
    absent (set_loop-nil a t crc string h fuel) refl
set_loop-Searched a t crc string h (c ∷ cs) (suc fuel) (n, (e, at, holds), u, l) enough short nn =
    elim (Bool-cases (c.checksum == crc)) [
      | inl same ↦
          let (w, run, k1, k2, holds') =
            copy_str-Holds c.address string h e n at holds.whole_array short nn in
          rw (assign, same)
            (found (write h c.address (some w))
              (set_loop-hit a t c.address crc string h e fuel n at
                  (ap (λ k. k == crc) holds.same_checksum ∙ same)
                ∙ ap (λ o. o >>= λ _ g. value (true, t) g) run)
              (
                n,
                (
                  w,
                  write-same h c.address _,
                  record {
                    same_checksum = k1 ∙ holds.same_checksum;
                    same_next = k2 ∙ holds.same_next;
                    whole_array = holds'.whole_array;
                    same_string = holds'.same_string;
                  },
                ),
                u,
                Linked-write h c.address _ cs null u l,
              )
              refl (λ p. refl) (λ p (x, y, z). (write-other h c.address _ p y, (x, y, z))))
      | inr other ↦
          rw (assign, other)
            (Searched-more a t crc string h c cs fuel n e at holds u other (
              subst
                (λ p.
                  Searched h null cs (assign a.address crc string cs) t (cell_of a crc string)
                    (set_loop fuel a t p crc string h) (new a t crc string h))
                (sym holds.same_next)
                (set_loop-Searched a t crc string h cs fuel l (omega arith) short nn)))
    ]

pub set_string-start :
    (a : Alloc) (t : Table) (reference mapped : List ℕ) (h : Heap) (cells : List Cell) (fuel : ℕ)
    → IsTable h t cells
    → set_string fuel a t reference mapped h
      ≡ set_loop fuel a t (start cells null) (calc_crc32 reference) mapped h
unfolding set_string
set_string-start a t reference mapped h cells fuel v =
    ap (λ p. set_loop fuel a t p (calc_crc32 reference) mapped h) v.first_is

-- HT_Set on a well-formed table, with a round of fuel for each entry and one more, where the string
-- has no NUL and is shorter than the array of an entry, and HeapAlloc gives an address that is not
-- in use and memory for a whole entry: it does not fault, answers TRUE, and the table is well-
-- formed again, with the string in place of that of the first entry of the checksum or, if there is
-- none, in a new entry at the end.
pub set_string-assign :
    (a : Alloc) (t : Table) (reference mapped : List ℕ) (h : Heap) (cells : List Cell) (fuel : ℕ)
    → IsTable h t cells
    → length cells < fuel
    → length mapped < ht_max_str
    → NoNul mapped
    → (a.address == null) ≡ false
    → Unused a.address cells
    → length (a.content.value) ≡ ht_max_str
    → (t' : Table) × (g : Heap) × (set_string fuel a t reference mapped h ≡ value (true, t') g)
      × IsTable g t' (assign a.address (calc_crc32 reference) mapped cells)
set_string-assign a t reference mapped h cells fuel v enough short nn n u full =
    let crc = calc_crc32 reference in
    let start_at = set_string-start a t reference mapped h cells fuel v in
    elim (set_loop-Searched a t crc mapped h cells fuel v.linked enough short nn) [
      | absent same after ↦
          let (g, run, made) = new-Made a t crc mapped h n full short nn in
          let (t', g', run', v') = link_entry-IsTable a t crc mapped h g cells n v u made in
          (t', g', start_at ∙ same ∙ run ∙ run', subst (IsTable g' t') (sym after) v')
      | found g run l first same_end _ ↦ (
        t,
        g,
        start_at ∙ run,
        record {
          first_is = v.first_is ∙ sym first;
          last_is = v.last_is ∙ sym (same_end null);
          linked = l;
        },
      )
    ]

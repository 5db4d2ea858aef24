-- ===== src/HashTable/RoundTrip.antt =====
-- HT_Find after HT_Set.
use Prim.Native.Nat.{ℕ, suc, ◌<◌}
use bzcc_scanner.Base.{
  ◌≡◌, refl, sym, arith, subst, Bool, true, false, List, [], ◌∷◌, some, ◌==◌, length, Bool-cases,
  inl, inr,
}
use bzcc_scanner.Base.CText.{until_nul}
use bzcc_scanner.Crc.{calc_crc32}
use bzcc_scanner.HashTable.Memory.{Ptr, null, ht_max_str, Entry, Heap, Exec, value}
use bzcc_scanner.HashTable.Table.{Table, Alloc, set_string, find}
use bzcc_scanner.HashTable.Cells.{Cell, Unused, Linked, IsTable, lookup, assign}
use bzcc_scanner.HashTable.Copy.{NoNul}
use bzcc_scanner.HashTable.Find.{find-lookup}
use bzcc_scanner.HashTable.Set.{set_string-assign}

-- The entry at `p` holds the string.
pub record Shows (h : Heap) (p : Ptr) (string : List ℕ) : Type 0 where
  pub entry : Entry
  pub stored : h p ≡ some entry
  pub text : until_nul entry.value ≡ string

eq_self : (a : ℕ) → (a == a) ≡ true
eq_self a = ground arith

module _ (p : Ptr) (crc : ℕ) (string : List ℕ) (c : Cell) (cs : List Cell) where
  assign-hit :
      (c.checksum == crc) ≡ true → assign p crc string (c ∷ cs) ≡ record c { string = string } ∷ cs
  assign-hit same = rw (assign, same) refl

  assign-miss :
      (c.checksum == crc) ≡ false → assign p crc string (c ∷ cs) ≡ c ∷ assign p crc string cs
  assign-miss other = rw (assign, other) refl

assign-Shows :
    (h : Heap) (p : Ptr) (crc : ℕ) (string : List ℕ) (cells : List Cell)
    → Linked h (assign p crc string cells) null
    → Shows h (lookup crc (assign p crc string cells)) string
assign-Shows h p crc string [] (n, (e, at, holds), _, _) =
    rw (lookup, eq_self crc) record { entry = e; stored = at; text = holds.same_string }
assign-Shows h p crc string (c ∷ cs) l =
    let P : List Cell → Type 0 = λ k. Linked h k null → Shows h (lookup crc k) string in
    elim (Bool-cases (c.checksum == crc)) [
      | inl same ↦
          subst P (sym (assign-hit p crc string c cs same))
            (λ (n, (e, at, holds), _, _).
              rw (lookup, same) record { entry = e; stored = at; text = holds.same_string })
            l
      | inr other ↦
          subst P (sym (assign-miss p crc string c cs other))
            (λ (_, _, _, k). rw (lookup, other) (assign-Shows h p crc string cs k)) l
    ]

length-assign :
    (p : Ptr) (crc : ℕ) (string : List ℕ) (cells : List Cell)
    → length (assign p crc string cells) < suc (suc (length cells))
length-assign p crc string [] = omega arith
length-assign p crc string (c ∷ cs) = elim (Bool-cases (c.checksum == crc)) [
  | inl same ↦ rw (assign, same) (omega arith)
  | inr other ↦ rw (assign, other) (omega (arith, length-assign p crc string cs))
]

-- What HT_Find returns after HT_Set with the same reference string, in the heap and with the table
-- that HT_Set leaves.
pub record Stores (o : Exec (Bool × Table)) (fuel : ℕ) (reference mapped : List ℕ) : Type 0 where
  pub table : Table
  pub heap : Heap
  pub place : Ptr
  pub run : o ≡ value (true, table) heap
  pub finds : find fuel table reference heap ≡ value place heap
  pub shows : Shows heap place mapped

-- HT_Set on a well-formed table, with a round of fuel for each entry and two more, where the string
-- has no NUL and is shorter than the array of an entry, and HeapAlloc gives an address that is not
-- in use and memory for a whole entry: it answers TRUE, and HT_Find of the same reference string
-- then finds an entry whose array holds the string.
pub set_string-Stores :
    (a : Alloc) (t : Table) (reference mapped : List ℕ) (h : Heap) (cells : List Cell) (fuel : ℕ)
    → IsTable h t cells
    → suc (length cells) < fuel
    → length mapped < ht_max_str
    → NoNul mapped
    → (a.address == null) ≡ false
    → Unused a.address cells
    → length (a.content.value) ≡ ht_max_str
    → Stores (set_string fuel a t reference mapped h) fuel reference mapped
set_string-Stores a t reference mapped h cells fuel v enough short nn n u full =
    let crc = calc_crc32 reference in
    let (t', g, run, v') =
      set_string-assign a t reference mapped h cells fuel v (omega arith) short nn n u full in
    record {
      table = t';
      heap = g;
      place = lookup crc (assign a.address crc mapped cells);
      run = run;
      finds =
          find-lookup g t' (assign a.address crc mapped cells) reference fuel v'
            (omega (arith, length-assign a.address crc mapped cells));
      shows = assign-Shows g a.address crc mapped cells v'.linked;
    }

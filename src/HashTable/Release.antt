-- ===== src/HashTable/Release.antt =====
-- HT_Free against the abstract view.
use Prim.Native.Nat.{ℕ, zero, suc, ◌<◌}
use bzcc_scanner.Base.{
  ◌≡◌, refl, ap, ◌∙◌, arith, List, [], ◌∷◌, none, some, ◌==◌, length, All, false,
}
use bzcc_scanner.HashTable.Memory.{Ptr, null, Heap, Entry, value, ◌>>=◌, write, free, load}
use bzcc_scanner.HashTable.Table.{Table, free_loop, free_all}
use bzcc_scanner.HashTable.Cells.{
  Cell, start, Unused, Linked, IsTable, write-same, write-other, Linked-write,
}
use bzcc_scanner.HashTable.Delete.{free-runs}

-- The call ends with no entry of the cells left on the heap, and changes no other address.
pub record Freed (h : Heap) (cells : List Cell) (g : Heap) : Type 0 where
  pub freed : All (λ c. g c.address ≡ none) cells
  pub others : (p : Ptr) → Unused p cells → g p ≡ h p

free_loop-runs :
    (fuel : ℕ) (p : Ptr) (h : Heap) (e : Entry)
    → (p == null) ≡ false
    → h p ≡ some e
    → free_loop (suc fuel) p h ≡ (free p h >>= λ _ g. free_loop fuel e.next g)
unfolding free_loop load
free_loop-runs fuel p h e n at = ground arith

free_loop-Freed :
    (h : Heap) (cells : List Cell) (fuel : ℕ)
    → Linked h cells null
    → length cells < fuel
    → (g : Heap) × (free_loop fuel (start cells null) h ≡ value tt g) × Freed h cells g
free_loop-Freed h cells zero l enough = elim enough [ ]
free_loop-Freed h [] (suc fuel) l enough =
    (h, unfold free_loop in refl, record { freed = tt; others = λ p u. refl })
free_loop-Freed h (c ∷ cs) (suc fuel) (n, (e, at, holds), u, l) enough =
    let g1 = write h c.address none in
    let (g, run, r) =
      free_loop-Freed g1 cs fuel (Linked-write h c.address none cs null u l) (omega arith) in
    (
      g,
      free_loop-runs fuel c.address h e n at
          ∙ ap (λ o. o >>= λ _ g2. free_loop fuel e.next g2) (free-runs c.address h e n at)
          ∙ ap (λ p. free_loop fuel p g1) holds.same_next
          ∙ run,
      record {
        freed = (r.others c.address u ∙ write-same h c.address none, r.freed);
        others = λ p (x, y, z). r.others p z ∙ write-other h c.address none p y;
      },
    )

-- HT_Free on a well-formed table, with a round of fuel for each entry and one more: it does not
-- fault, frees every entry once, changes no other address, and leaves an empty table.
pub free_all-Freed :
    (h : Heap) (t : Table) (cells : List Cell) (fuel : ℕ)
    → IsTable h t cells
    → length cells < fuel
    → (g : Heap) × (free_all fuel t h ≡ value (record { first = null; last = null }) g)
      × Freed h cells g
unfolding free_all
free_all-Freed h t cells fuel v enough =
    let (g, run, r) = free_loop-Freed h cells fuel v.linked enough in
    (
      g,
      ap (λ p. free_loop fuel p h >>= λ _ g2. value (record { first = null; last = null }) g2)
            v.first_is
          ∙ ap (λ o. o >>= λ _ g2. value (record { first = null; last = null }) g2) run,
      r,
    )

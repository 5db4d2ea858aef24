-- ===== src/HashTable/Delete.antt =====
-- HT_Delete against the abstract view.
use Prim.Native.Nat.{ℕ, zero, suc, ◌<◌}
use bzcc_scanner.Base.{
  ◌≡◌, refl, sym, ◌∙◌, arith, ap, Bool-cases, inl, inr, Bool, true, false, List, [], ◌∷◌, none,
  some, ◌==◌, length,
}
use bzcc_scanner.Crc.{calc_crc32}
use bzcc_scanner.HashTable.Memory.{
  Ptr, null, Entry, Heap, Exec, value, write, load, free, set_next, ◌>>=◌,
}
use bzcc_scanner.HashTable.Table.{Table, unlink, delete_loop, delete}
use bzcc_scanner.HashTable.Cells.{
  Cell, start, end_of, Unused, Linked, IsTable, lookup, remove, write-same, write-other,
  Linked-write,
}
use bzcc_scanner.HashTable.New.{set_next-runs}

pub free-runs :
    (p : Ptr) (h : Heap) (e : Entry)
    → (p == null) ≡ false
    → h p ≡ some e
    → free p h ≡ value tt (write h p none)
unfolding free load
free-runs p h e n at = ground arith

Unused-remove :
    (p : Ptr) (crc : ℕ) (cells : List Cell) → Unused p cells → Unused p (remove crc cells)
Unused-remove p crc [] u = tt
Unused-remove p crc (c ∷ cs) (x, y, u) = elim (Bool-cases (c.checksum == crc)) [
  | inl same ↦ rw (remove, same) u
  | inr other ↦ rw (remove, other) (x, y, Unused-remove p crc cs u)
]

module _ (t : Table) (prev p : Ptr) (crc : ℕ) (h : Heap) (e : Entry) (fuel : ℕ)
    (n : (p == null) ≡ false) (at : h p ≡ some e) where
  pub delete_loop-hit :
      (e.crc32 == crc) ≡ true
      → delete_loop (suc fuel) t prev p crc h
        ≡ (unlink t prev p e h >>= λ t' g. free p g >>= λ _ g1. value (true, t') g1)
  unfolding delete_loop load
  delete_loop-hit same = ground arith

  pub delete_loop-miss :
      (e.crc32 == crc) ≡ false
      → delete_loop (suc fuel) t prev p crc h ≡ delete_loop fuel t p e.next crc h
  unfolding delete_loop load
  delete_loop-miss other = ground arith

unlink-inner :
    (t : Table) (prev p : Ptr) (e : Entry) (h : Heap)
    → (prev == null) ≡ false
    → unlink t prev p e h ≡ (set_next prev e.next h >>= λ _ g. value t g)
unfolding unlink
unlink-inner t prev p e h n = rw n refl

-- What the loop of HT_Delete comes to behind the cell `b`: nothing is found, or the entry is
-- unlinked and freed and the table is as it was.
pub data Deleted (h : Heap) (b : Cell) (cs : List Cell) (r : Ptr) (after : List Cell) (t : Table)
    (o : Exec (Bool × Table)) : Type 0 where
  absent : o ≡ value (false, t) h → r ≡ null → after ≡ cs → Deleted h b cs r after t o
  found :
      (g : Heap)
      → o ≡ value (true, t) g
      → (r == null) ≡ false
      → Linked g (b ∷ after) null
      → g r ≡ none
      → ((p : Ptr) → Unused p (b ∷ cs) → g p ≡ h p)
      → Deleted h b cs r after t o

pub delete_loop-nil :
    (t : Table) (prev : Ptr) (crc : ℕ) (h : Heap) (fuel : ℕ)
    → delete_loop (suc fuel) t prev null crc h ≡ value (false, t) h
unfolding delete_loop
delete_loop-nil t prev crc h fuel = refl

Deleted-hit :
    (t : Table) (crc : ℕ) (h : Heap) (b c : Cell) (cs : List Cell) (fuel : ℕ)
    → Linked h (b ∷ c ∷ cs) null
    → (c.checksum == crc) ≡ true
    → Deleted h b
        (c ∷ cs)
        (lookup crc (c ∷ cs))
        (remove crc (c ∷ cs))
        t
        (delete_loop (suc fuel) t b.address c.address crc h)
Deleted-hit t crc h b c cs fuel (nb, (eb, atb, hb), (x, y, ub), (n, (e, at, holds), u, l)) same =
    let g1 = write h b.address (some (record eb { next = e.next })) in
    let at1 = write-other h b.address (some (record eb { next = e.next })) c.address x ∙ at in
    rw (remove, lookup, same)
      (found (write g1 c.address none)
        (delete_loop-hit t b.address c.address crc h e fuel n at
            (ap (λ k. k == crc) holds.same_checksum ∙ same)
          ∙ ap (λ o. o >>= λ t' g. free c.address g >>= λ _ g2. value (true, t') g2)
              (unlink-inner t b.address c.address e h nb
                ∙ ap (λ o. o >>= λ _ g. value t g) (set_next-runs b.address e.next h eb nb atb))
          ∙ ap (λ o. o >>= λ _ g2. value (true, t) g2) (free-runs c.address g1 e n at1))
        n
        (
          nb,
          (
            record eb { next = e.next },
            write-other g1 c.address none b.address y ∙ write-same h b.address _,
            record {
              same_checksum = hb.same_checksum;
              same_next = holds.same_next;
              whole_array = hb.whole_array;
              same_string = hb.same_string;
            },
          ),
          ub,
          Linked-write g1 c.address none cs null u (Linked-write h b.address _ cs null ub l),
        )
        (write-same g1 c.address none)
        (λ p (bp, pb, (cp, pc, _)).
          write-other g1 c.address none p pc ∙ write-other h b.address _ p pb))

Deleted-miss :
    (t : Table) (crc : ℕ) (h : Heap) (b c : Cell) (cs : List Cell) (o o' : Exec (Bool × Table))
    → Linked h (b ∷ c ∷ cs) null
    → (c.checksum == crc) ≡ false
    → o' ≡ o
    → Deleted h c cs (lookup crc cs) (remove crc cs) t o
    → Deleted h b (c ∷ cs) (lookup crc (c ∷ cs)) (remove crc (c ∷ cs)) t o'
Deleted-miss t crc h b c cs o o' l other step (absent run none_found same) =
    rw (remove, lookup, other) (absent (step ∙ run) none_found (ap (λ k. c ∷ k) same))
Deleted-miss t crc h b c cs o o' (nb, (eb, atb, hb), (x, y, ub), _) other step
      (found g run some_found l freed frame) =
    rw (remove, lookup, other)
      (found g (step ∙ run) some_found
        (
          nb,
          (eb, frame b.address (x, y, ub) ∙ atb, hb),
          (x, y, Unused-remove b.address crc cs ub),
          l,
        )
        freed (λ p (_, _, u). frame p u))

pub delete_loop-Deleted :
    (t : Table) (crc : ℕ) (h : Heap) (b : Cell) (cs : List Cell) (fuel : ℕ)
    → Linked h (b ∷ cs) null
    → length cs < fuel
    → Deleted h b cs
        (lookup crc cs)
        (remove crc cs)
        t
        (delete_loop fuel t b.address (start cs null) crc h)
delete_loop-Deleted t crc h b cs zero l enough = elim enough [ ]
delete_loop-Deleted t crc h b [] (suc fuel) l enough =
    absent (delete_loop-nil t b.address crc h fuel) refl refl
delete_loop-Deleted t crc h b (c ∷ cs) (suc fuel) l enough =
    let (nb, _, _, (n, (e, at, holds), u, rest)) = l in
    elim (Bool-cases (c.checksum == crc)) [
      | inl same ↦ Deleted-hit t crc h b c cs fuel l same
      | inr other ↦
          Deleted-miss t crc h b c cs (delete_loop fuel t c.address (start cs null) crc h) _ l other
            (delete_loop-miss t b.address c.address crc h e fuel n at
                (ap (λ k. k == crc) holds.same_checksum ∙ other)
              ∙ ap (λ p. delete_loop fuel t c.address p crc h) holds.same_next)
            (delete_loop-Deleted t crc h c cs fuel (n, (e, at, holds), u, rest) (omega arith))
    ]

pub unlink-only :
    (t : Table) (p : Ptr) (e : Entry) (h : Heap)
    → (t.last == p) ≡ true
    → unlink t null p e h ≡ value (record { first = null; last = null }) h
unfolding unlink
unlink-only t p e h n = rw n refl

pub unlink-first :
    (t : Table) (p : Ptr) (e : Entry) (h : Heap)
    → (t.last == p) ≡ false
    → unlink t null p e h ≡ value (record t { first = e.next }) h
unfolding unlink
unlink-first t p e h n = rw n refl

pub delete-start :
    (t : Table) (reference : List ℕ) (h : Heap) (cells : List Cell) (fuel : ℕ)
    → IsTable h t cells
    → delete fuel t reference h
      ≡ delete_loop fuel t null (start cells null) (calc_crc32 reference) h
unfolding delete
delete-start t reference h cells fuel v =
    ap (λ p. delete_loop fuel t null p (calc_crc32 reference) h) v.first_is

self_ne : (a : ℕ) → (a == a) ≡ false → ⊥
self_ne a e = ground arith

pub lookup-hit :
    (crc : ℕ) (c : Cell) (cs : List Cell)
    → (c.checksum == crc) ≡ true
    → lookup crc (c ∷ cs) ≡ c.address
lookup-hit crc c cs e = rw (lookup, e) refl

pub lookup-miss :
    (crc : ℕ) (c : Cell) (cs : List Cell)
    → (c.checksum == crc) ≡ false
    → lookup crc (c ∷ cs) ≡ lookup crc cs
lookup-miss crc c cs e = rw (lookup, e) refl

-- The end stays the end, unless the last of several cells is removed.
pub end_of-remove :
    (p : Ptr) (crc : ℕ) (cells : List Cell)
    → (lookup crc cells == end_of p cells) ≡ false
    → end_of p (remove crc cells) ≡ end_of p cells
end_of-remove p crc [] d = refl
end_of-remove p crc (c ∷ []) d = elim (Bool-cases (c.checksum == crc)) [
  | inl same ↦
      absurd (self_ne c.address (sym (ap (λ a. a == c.address) (lookup-hit crc c [] same)) ∙ d))
  | inr other ↦ rw (remove, other) refl
]
end_of-remove p crc (c ∷ b ∷ cs) d = elim (Bool-cases (c.checksum == crc)) [
  | inl same ↦ rw (remove, same) refl
  | inr other ↦
      rw (remove, other)
        (end_of-remove c.address crc (b ∷ cs)
          (sym (ap (λ a. a == end_of b.address cs) (lookup-miss crc c (b ∷ cs) other)) ∙ d))
]

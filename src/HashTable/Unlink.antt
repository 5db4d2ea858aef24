-- ===== src/HashTable/Unlink.antt =====
-- What HT_Delete promises, and what it leaves in `last` when it removes the last of several
-- entries.
use Prim.Native.Nat.{ℕ, zero, suc, ◌<◌}
use bzcc_scanner.Base.{
  ◌≡◌, refl, sym, ◌∙◌, arith, ap, subst, Bool-cases, inl, inr, not, Bool, true, false, List, [],
  ◌∷◌, none, ◌==◌, length,
}
use bzcc_scanner.Crc.{calc_crc32}
use bzcc_scanner.HashTable.Memory.{Ptr, null, Heap, Exec, value, write, free, ◌>>=◌}
use bzcc_scanner.HashTable.Table.{Table, delete_loop, delete}
use bzcc_scanner.HashTable.Cells.{Cell, end_of, IsTable, lookup, remove, Linked-write}
use bzcc_scanner.HashTable.New.{Unused-end_of}
use bzcc_scanner.HashTable.Delete.{
  Deleted, absent, found, free-runs, end_of-remove, lookup-miss, unlink-only, unlink-first,
  delete-start, delete_loop-Deleted, delete_loop-nil, delete_loop-hit, delete_loop-miss,
}

eq_same : (a b : ℕ) → a ≡ b → (a == b) ≡ true
eq_same a b e = ground arith

ne_swap : (a b : ℕ) → (a == b) ≡ false → (b == a) ≡ false
ne_swap a b e = ground arith

-- The call ends; it answers whether there is an entry `r` to remove, and leaves the entries
-- `after`.
pub record Removed (o : Exec (Bool × Table)) (r : Ptr) (after : List Cell) : Type 0 where
  pub table : Table
  pub heap : Heap
  pub run : o ≡ value (not (r == null), table) heap
  pub well_formed : IsTable heap table after

answer :
    (p : Ptr) (t : Table) (h : Heap)
    → (p == null) ≡ false
    → ◌≡◌ {A = Exec (Bool × Table)} (value (true, t) h) (value (not (p == null), t) h)
answer p t h n = rw n refl

Removed-first :
    (t : Table) (crc : ℕ) (h : Heap) (c : Cell) (cs : List Cell) (fuel : ℕ)
    → IsTable h t (c ∷ cs)
    → (c.checksum == crc) ≡ true
    → Removed (delete_loop (suc fuel) t null c.address crc h) c.address cs
Removed-first t crc h c [] fuel v same =
    let (n, (e, at, holds), u, l) = v.linked in
    record {
      table = record { first = null; last = null };
      heap = write h c.address none;
      run =
          delete_loop-hit t null c.address crc h e fuel n at
            (ap (λ k. k == crc) holds.same_checksum ∙ same)
          ∙ ap (λ o. o >>= λ t' g. free c.address g >>= λ _ g2. value (true, t') g2)
              (unlink-only t c.address e h (eq_same t.last c.address v.last_is))
          ∙ ap (λ o. o >>= λ _ g2. value (true, record { first = null; last = null }) g2)
              (free-runs c.address h e n at)
          ∙ answer c.address _ _ n;
      well_formed = record { first_is = refl; last_is = refl; linked = tt };
    }
Removed-first t crc h c (b ∷ cs) fuel v same =
    let (n, (e, at, holds), u, l) = v.linked in
    let ends =
      ap (λ p. p == c.address) v.last_is
      ∙ ne_swap c.address (end_of b.address cs) (Unused-end_of c.address b cs u) in
    record {
      table = record t { first = e.next };
      heap = write h c.address none;
      run =
          delete_loop-hit t null c.address crc h e fuel n at
            (ap (λ k. k == crc) holds.same_checksum ∙ same)
          ∙ ap (λ o. o >>= λ t' g. free c.address g >>= λ _ g2. value (true, t') g2)
              (unlink-first t c.address e h ends)
          ∙ ap (λ o. o >>= λ _ g2. value (true, record t { first = e.next }) g2)
              (free-runs c.address h e n at)
          ∙ answer c.address _ _ n;
      well_formed = record {
        first_is = holds.same_next;
        last_is = v.last_is;
        linked = Linked-write h c.address none (b ∷ cs) null u l;
      };
    }

-- The list has one entry at most, or the entry to remove is not the last one.
abbrev pub NotLast : Ptr → List Cell → Type 0
NotLast r [] = Unit
NotLast r (c ∷ []) = Unit
NotLast r (c ∷ b ∷ cs) = (r == end_of b.address cs) ≡ false

pub delete_loop-behind :
    (t : Table) (crc : ℕ) (h : Heap) (c : Cell) (cs : List Cell) (fuel : ℕ)
    → IsTable h t (c ∷ cs)
    → length cs < fuel
    → (c.checksum == crc) ≡ false
    → (o : Exec (Bool × Table)) → o ≡ delete_loop (suc fuel) t null c.address crc h
    → Deleted h c cs (lookup crc cs) (remove crc cs) t o
delete_loop-behind t crc h c cs fuel v enough other o e =
    let (n, (x, at, holds), u, l) = v.linked in
    subst (Deleted h c cs (lookup crc cs) (remove crc cs) t)
      (sym (
        e
        ∙ delete_loop-miss t null c.address crc h x fuel n at
            (ap (λ k. k == crc) holds.same_checksum ∙ other)
        ∙ ap (λ p. delete_loop fuel t c.address p crc h) holds.same_next))
      (delete_loop-Deleted t crc h c cs fuel v.linked enough)

end_of-kept :
    (crc : ℕ) (c : Cell) (cs : List Cell)
    → (c.checksum == crc) ≡ false
    → NotLast (lookup crc (c ∷ cs)) (c ∷ cs)
    → end_of c.address (remove crc cs) ≡ end_of c.address cs
end_of-kept crc c [] other keep = refl
end_of-kept crc c (b ∷ cs) other keep =
    end_of-remove c.address crc (b ∷ cs)
      (sym (ap (λ a. a == end_of b.address cs) (lookup-miss crc c (b ∷ cs) other)) ∙ keep)

Deleted-Removed :
    (t : Table) (crc : ℕ) (h : Heap) (c : Cell) (cs : List Cell) (o : Exec (Bool × Table))
    → IsTable h t (c ∷ cs)
    → (c.checksum == crc) ≡ false
    → NotLast (lookup crc (c ∷ cs)) (c ∷ cs)
    → Deleted h c cs (lookup crc cs) (remove crc cs) t o
    → Removed o (lookup crc (c ∷ cs)) (remove crc (c ∷ cs))
Deleted-Removed t crc h c cs o v other keep (absent run none_found same) =
    rw (remove, lookup, other)
      record {
        table = t;
        heap = h;
        run = run ∙ ap (λ r. value (not (r == null), t) h) (sym none_found);
        well_formed = subst (λ k. IsTable h t (c ∷ k)) (sym same) v;
      }
Deleted-Removed t crc h c cs o v other keep (found g run some_found l freed frame) =
    rw (remove, lookup, other)
      record {
        table = t;
        heap = g;
        run = run ∙ answer (lookup crc cs) t g some_found;
        well_formed = record {
          first_is = v.first_is;
          last_is = v.last_is ∙ sym (end_of-kept crc c cs other keep);
          linked = l;
        };
      }

-- HT_Delete on a well-formed table, with a round of fuel for each entry and one more, unless it
-- removes the last of several entries: it does not fault, answers whether the checksum of the
-- reference string has an entry, and leaves the well-formed table of the other entries.
pub delete-Removed :
    (t : Table) (reference : List ℕ) (h : Heap) (cells : List Cell) (fuel : ℕ)
    → IsTable h t cells
    → length cells < fuel
    → NotLast (lookup (calc_crc32 reference) cells) cells
    → Removed
        (delete fuel t reference h)
        (lookup (calc_crc32 reference) cells)
        (remove (calc_crc32 reference) cells)
delete-Removed t reference h cells zero v enough keep = elim enough [ ]
delete-Removed t reference h [] (suc fuel) v enough keep = record {
  table = t;
  heap = h;
  run =
      delete-start t reference h [] (suc fuel) v
      ∙ delete_loop-nil t null (calc_crc32 reference) h fuel;
  well_formed = v;
}
delete-Removed t reference h (c ∷ cs) (suc fuel) v enough keep =
    let crc = calc_crc32 reference in
    let begin = delete-start t reference h (c ∷ cs) (suc fuel) v in
    elim (Bool-cases (c.checksum == crc)) [
      | inl same ↦
          rw (remove, lookup, same)
            (subst (λ o. Removed o c.address cs) (sym begin)
              (Removed-first t crc h c cs fuel v same))
      | inr other ↦
          Deleted-Removed t crc h c cs _ v other keep
            (delete_loop-behind t crc h c cs fuel v (omega arith) other _ begin)
    ]

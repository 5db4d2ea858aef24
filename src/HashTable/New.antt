-- ===== src/HashTable/New.antt =====
-- HT_New against the abstract view: the new entry, and the link that is set to it.
use Prim.Native.Nat.{ℕ, ◌<◌}
use bzcc_scanner.Base.{
  ◌≡◌, refl, sym, ◌∙◌, arith, ap, true, false, List, [], ◌∷◌, ◌++◌, some, ◌==◌, length,
}
use bzcc_scanner.HashTable.Memory.{
  Ptr, null, ht_max_str, Entry, Heap, value, write, load, set_next, copy_str, ◌>>=◌,
}
use bzcc_scanner.HashTable.Table.{Table, Alloc, new, link_entry}
use bzcc_scanner.HashTable.Cells.{
  Cell, Holds, end_of, Unused, Linked, IsTable, write-same, write-other, Linked-write,
}
use bzcc_scanner.HashTable.Copy.{NoNul, copy_loop-Copied}

pub set_next-runs :
    (p q : Ptr) (h : Heap) (e : Entry)
    → (p == null) ≡ false
    → h p ≡ some e
    → set_next p q h ≡ value tt (write h p (some (record e { next = q })))
unfolding set_next load
set_next-runs p q h e n at = ground arith

-- HT_CopyStr of a string that fits changes the string of the entry and nothing else.
pub copy_str-Holds :
    (p : Ptr) (string : List ℕ) (h : Heap) (e : Entry)
    → (p == null) ≡ false
    → h p ≡ some e
    → length e.value ≡ ht_max_str
    → length string < ht_max_str
    → NoNul string
    → (w : Entry) × (copy_str p string h ≡ value tt (write h p (some w)))
      × (w.crc32 ≡ e.crc32)
      × (w.next ≡ e.next)
      × Holds (record { address = p; checksum = e.crc32; string = string }) e.next w
unfolding copy_str load
copy_str-Holds p string h e n at full short nn =
    let (v, run, r) = copy_loop-Copied e.value 0 string full (omega arith) nn in
    (
      record e { value = v },
      ground arith,
      refl,
      refl,
      record {
        same_checksum = refl;
        same_next = refl;
        whole_array = r.copied_length;
        same_string = r.copied;
      },
    )

pub Unused-end_of :
    (p : Ptr) (c : Cell) (cs : List Cell) → Unused p (c ∷ cs) → (p == end_of c.address cs) ≡ false
Unused-end_of p c [] (_, d, u) = d
Unused-end_of p c (b ∷ cs) (_, _, u) = Unused-end_of p b cs u

pub Unused-append :
    (p : Ptr) (cells : List Cell) (d : Cell)
    → Unused p cells
    → (d.address == p) ≡ false
    → (p == d.address) ≡ false
    → Unused p (cells ++ d ∷ [])
Unused-append p [] d u x y = (x, y, tt)
Unused-append p (c ∷ cs) d (a, b, u) x y = (a, b, Unused-append p cs d u x y)

-- The last of the cells is linked to `q` instead.
relink :
    (c : Cell) (cs : List Cell) (p q : Ptr) (h : Heap)
    → Linked h (c ∷ cs) p
    → (g : Heap) × (set_next (end_of c.address cs) q h ≡ value tt g)
      × Linked g (c ∷ cs) q
      × ((a : Ptr) → (a == end_of c.address cs) ≡ false → g a ≡ h a)
relink c [] p q h (n, (e, at, holds), u, l) = (
  write h c.address (some (record e { next = q })),
  set_next-runs c.address q h e n at,
  (
    n,
    (
      record e { next = q },
      write-same h c.address _,
      record {
        same_checksum = holds.same_checksum;
        same_next = refl;
        whole_array = holds.whole_array;
        same_string = holds.same_string;
      },
    ),
    tt,
    tt,
  ),
  λ a d. write-other h c.address _ a d,
)
relink c (d ∷ cs) p q h (n, (e, at, holds), u, l) =
    let (g, run, l', frame) = relink d cs p q h l in
    (
      g,
      run,
      (
        n,
        (
          e,
          frame c.address (Unused-end_of c.address d cs u) ∙ at,
          record {
            same_checksum = holds.same_checksum;
            same_next = holds.same_next;
            whole_array = holds.whole_array;
            same_string = holds.same_string;
          },
        ),
        u,
        l',
      ),
      frame,
    )

pub Holds-next :
    {c : Cell} {p q : Ptr} {e : Entry} → Holds c p e → Holds c q (record e { next = q })
Holds-next holds = record {
  same_checksum = holds.same_checksum;
  same_next = refl;
  whole_array = holds.whole_array;
  same_string = holds.same_string;
}

Linked-append :
    (h : Heap) (cells : List Cell) (d : Cell)
    → Linked h cells d.address
    → Linked h (d ∷ []) null
    → Unused d.address cells
    → Linked h (cells ++ d ∷ []) null
Linked-append h [] d l end u = end
Linked-append h (c ∷ []) d (n, e, f, l) end (p, q, u) = (n, e, (q, p, f), end)
Linked-append h (c ∷ b ∷ cs) d (n, e, f, l) end (p, q, u) =
    (n, e, Unused-append c.address (b ∷ cs) d f q p, Linked-append h (b ∷ cs) d l end u)

end_of-append : (p : Ptr) (cells : List Cell) (d : Cell) → end_of p (cells ++ d ∷ []) ≡ d.address
end_of-append p [] d = refl
end_of-append p (c ∷ cs) d = end_of-append c.address cs d

abbrev pub cell_of : Alloc → ℕ → List ℕ → Cell
cell_of a crc string = record { address = a.address; checksum = crc; string = string }

-- The heap with the new entry, not yet linked to the list.
pub record Made (a : Alloc) (crc : ℕ) (string : List ℕ) (h g : Heap) : Type 0 where
  pub stored : Linked g (cell_of a crc string ∷ []) null
  pub others :
      (cells : List Cell) (q : Ptr) → Unused a.address cells → Linked h cells q → Linked g cells q
  pub frame : (p : Ptr) → (p == a.address) ≡ false → g p ≡ h p

new-fresh :
    (a : Alloc) (t : Table) (crc : ℕ) (string : List ℕ) (h : Heap)
    → (a.address == null) ≡ false
    → new a t crc string h ≡ (
        copy_str a.address string (write h a.address (some (record (a.content) { crc32 = crc })))
        >>= λ _ g. set_next a.address null g >>= λ _ g1. link_entry t a.address g1)
unfolding new
new-fresh a t crc string h n = rw n refl

pub new-Made :
    (a : Alloc) (t : Table) (crc : ℕ) (string : List ℕ) (h : Heap)
    → (a.address == null) ≡ false
    → length (a.content.value) ≡ ht_max_str
    → length string < ht_max_str
    → NoNul string
    → (g : Heap) × (new a t crc string h ≡ link_entry t a.address g) × Made a crc string h g
new-Made a t crc string h n full short nn =
    let c = a.content in
    let e = (record c { crc32 = crc }) in
    let g = write h a.address (some e) in
    let (w, run, same, _, holds) =
      copy_str-Holds a.address string g e n (write-same h a.address _) full short nn in
    let g1 = write g a.address (some w) in
    let run1 = set_next-runs a.address null g1 w n (write-same g a.address _) in
    (
      write g1 a.address (some (record w { next = null })),
      new-fresh a t crc string h n
          ∙ ap (λ o. o >>= λ _ g2. set_next a.address null g2 >>= λ _ g3. link_entry t a.address g3)
              run
          ∙ ap (λ o. o >>= λ _ g3. link_entry t a.address g3) run1,
      record {
        stored =
            (n, (record w { next = null }, write-same g1 a.address _, Holds-next holds), tt, tt);
        others = λ cells q u l.
            Linked-write g1 a.address _ cells q u
              (Linked-write g a.address _ cells q u (Linked-write h a.address _ cells q u l));
        frame = λ p d.
            write-other g1 a.address _ p d
            ∙ write-other g a.address _ p d
            ∙ write-other h a.address _ p d;
      },
    )

pub link_entry-more :
    (t : Table) (p : Ptr) (h : Heap)
    → (t.first == null) ≡ false
    → link_entry t p h ≡ (set_next t.last p h >>= λ _ g. value (true, record t { last = p }) g)
unfolding link_entry
link_entry-more t p h n = rw n refl

pub link_entry-IsTable :
    (a : Alloc) (t : Table) (crc : ℕ) (string : List ℕ) (h g : Heap) (cells : List Cell)
    → (a.address == null) ≡ false
    → IsTable h t cells
    → Unused a.address cells
    → Made a crc string h g
    → (t' : Table) × (g' : Heap) × (link_entry t a.address g ≡ value (true, t') g')
      × IsTable g' t' (cells ++ cell_of a crc string ∷ [])
unfolding link_entry
link_entry-IsTable a t crc string h g [] n v u m = (
  record { first = a.address; last = a.address },
  g,
  ground (arith, v.first_is),
  record { first_is = refl; last_is = refl; linked = m.stored },
)
link_entry-IsTable a t crc string h g (c ∷ cs) n v u m =
    let (g', run, l, frame) = relink c cs null a.address g (m.others (c ∷ cs) null u v.linked) in
    let (nn, (e, at, holds), _, _) = m.stored in
    (
      record t { last = a.address },
      g',
      link_entry-more t a.address g (ap (λ p. p == null) v.first_is ∙ v.linked.0)
          ∙ ap
              (λ p.
                set_next p a.address g >>= λ _ g2. value (true, record t { last = a.address }) g2)
              v.last_is
          ∙ ap (λ o. o >>= λ _ g2. value (true, record t { last = a.address }) g2) run,
      record {
        first_is = v.first_is;
        last_is = sym (end_of-append null (c ∷ cs) (cell_of a crc string));
        linked =
            Linked-append g' (c ∷ cs) (cell_of a crc string) l
              (nn, (e, frame a.address (Unused-end_of a.address c cs u) ∙ at, holds), tt, tt) u;
      },
    )

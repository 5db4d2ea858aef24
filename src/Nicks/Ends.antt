-- ===== src/Nicks/Ends.antt =====
-- One player of UpdatePlayerList, with the memory that HeapAlloc returns for them.
use bzcc_scanner.Base.{
  ℕ, suc, ◌≤◌, ◌<◌, ◌≡◌, refl, sym, ◌⊎◌, inl, inr, subst, Bool, true, false, List, [], ◌∷◌, ◌++◌,
  ◌==◌, length, arith, Bool-cases, All, length-append, not, ◌&&◌,
}
use bzcc_scanner.HashTable.Memory.{Heap, value, fault}
use bzcc_scanner.HashTable.Table.{Table, Alloc}
use bzcc_scanner.HashTable.Cells.{Cell, IsTable}
use bzcc_scanner.HashTable.Copy.{NoNul}
use bzcc_scanner.HashTable.New.{cell_of, Unused-append}
use bzcc_scanner.Session.Info.{PlayerInfo, player_name_len}
use bzcc_scanner.Settings.Store.{load_nick}
use bzcc_scanner.Settings.Registry.{Text, Registry}
use bzcc_scanner.Control.Rename.{is_empty}
use bzcc_scanner.Nicks.Update.{Nicks, Turn, resolve_nick}
use bzcc_scanner.Nicks.Remembered.{IsUsable, Unknown, Remembered, LacksNul, nameless}
use bzcc_scanner.Nicks.Cached.{resolve_nick-Remembers}

-- The memory that HeapAlloc returns for the players is usable, and no piece of it is another.
abbrev pub AwayFrom : Alloc → Turn → Type 0
AwayFrom a t = ((a.address == t.alloc.address) ≡ false) × ((t.alloc.address == a.address) ≡ false)

abbrev pub AllUsable : List Turn → List Cell → Type 0
AllUsable [] cells = Unit
AllUsable (t ∷ ts) cells = IsUsable t.alloc cells × All (AwayFrom t.alloc) ts × AllUsable ts cells

pub AllUsable-grown :
    (a : Alloc) (crc : ℕ) (name : Text) (ts : List Turn) (cells : List Cell)
    → All (AwayFrom a) ts
    → AllUsable ts cells
    → AllUsable ts (cells ++ cell_of a crc name ∷ [])
AllUsable-grown a crc name [] cells away u = tt
AllUsable-grown a crc name (t ∷ ts) cells ((x, y), away) (u, apart, us) = (
  record {
    address = u.address;
    unused = Unused-append t.alloc.address cells (cell_of a crc name) u.unused x y;
    whole = u.whole;
  },
  apart,
  AllUsable-grown a crc name ts cells away us,
)

-- The table after a step that may have added an entry in the memory of `a`.
pub record Grown (a : Alloc) (from : List Cell) (t : Table) (g : Heap) : Type 0 where
  pub cells : List Cell
  pub grown :
      (cells ≡ from) ⊎ ((crc : ℕ) × (name : Text) × (cells ≡ from ++ cell_of a crc name ∷ []))
  pub table : IsTable g t cells

pub Grown-usable :
    {a : Alloc} {from : List Cell} {t : Table} {g : Heap} (ts : List Turn) (s : Grown a from t g)
    → All (AwayFrom a) ts
    → AllUsable ts from
    → AllUsable ts s.cells
Grown-usable {a} {from} ts s away u = elim s.grown [
  | inl e ↦ rw e u
  | inr (crc, name, e) ↦ rw e (AllUsable-grown a crc name ts from away u)
]

pub Grown-length :
    {a : Alloc} {from : List Cell} {t : Table} {g : Heap} (s : Grown a from t g)
    → length s.cells ≤ suc (length from)
Grown-length {a} {from} s = elim s.grown [
  | inl e ↦ rw e (omega arith)
  | inr (crc, name, e) ↦ rw e (omega (arith, length-append from (cell_of a crc name ∷ [])))
]

both_of : (b c : Bool) → (b && not c) ≡ true → (b ≡ true) × (c ≡ false)
both_of b c e = ground arith

module _ (r : Registry) (fuel : ℕ) (auto : Bool) where
  resolve_nick-skips :
      (a : Alloc) (p : PlayerInfo) (n : Nicks r.World) (h : Heap)
      → (is_empty p.local_name && not (is_empty p.user_id)) ≡ false
      → resolve_nick r fuel a auto p n h ≡ value (p, n) h
  unfolding resolve_nick
  resolve_nick-skips a p n h e = rw (resolve_nick, e) refl

  resolved_table :
      {a : Alloc} {p p1 : PlayerInfo} {t0 t : Table} {h g : Heap} {cells : List Cell}
      → IsTable h t0 cells
      → Unknown t0 p p1 t h g ⊎ Remembered a cells t p1 g
      → Grown a cells t g
  resolved_table {t = t} {h = h} {cells = cells} v (inl x) = record {
    cells = cells;
    grown = inl refl;
    table =
        subst (λ k. IsTable k t cells) (sym x.same_heap)
          (subst (λ t1. IsTable h t1 cells) (sym x.same_table) v);
  }
  resolved_table v (inr s) = record { cells = s.cells; grown = s.grown; table = s.table }

  -- One player: `tmp` has been read past its end after a load, or the table may have grown.
  pub resolve_nick-Ends :
      (a : Alloc) (p : PlayerInfo) (n : Nicks r.World) (h : Heap) (cells : List Cell)
      → IsTable h n.table cells
      → length cells < fuel
      → IsUsable a cells
      → NoNul p.ingame_name
      → (LacksNul (load_nick r p.user_id n.tmp player_name_len n.world)
          × (resolve_nick r fuel a auto p n h ≡ fault))
        ⊎ ((p1 : PlayerInfo) × (n1 : Nicks r.World) × (g : Heap) × (resolve_nick r fuel a auto p n h
              ≡ value (p1, n1) g)
            × (nameless p1 ≡ nameless p)
            × Grown a cells n1.table g)
  resolve_nick-Ends a p n h cells v enough u nn =
      elim (Bool-cases (is_empty p.local_name && not (is_empty p.user_id))) [
        | inl e ↦
            let (empty, id) = both_of (is_empty p.local_name) (is_empty p.user_id) e in
            elim (resolve_nick-Remembers r fuel a auto p n h cells v enough u nn empty id) [
              | inl past ↦ inl past
              | inr (p1, n1, g, run, same, end) ↦ inr (p1, n1, g, run, same, resolved_table v end)
            ]
        | inr e ↦ inr (
          p,
          n,
          h,
          resolve_nick-skips a p n h e,
          refl,
          record { cells = cells; grown = inl refl; table = v },
        )
      ]

-- ===== src/Nicks/Remembered.antt =====
-- What UpdatePlayerList has found for a player stands in the table.
use bzcc_scanner.Base.{
  ℕ, suc, ◌≤◌, ◌<◌, ◌≡◌, refl, ap, sym, ◌∙◌, ◌⊎◌, inl, inr, subst, Bool, true, false, List, [], ◌∷◌,
  ◌++◌, ◌==◌, length, arith, Bool-cases, length-append,
}
use bzcc_scanner.Crc.{calc_crc32}
use bzcc_scanner.HashTable.Memory.{Ptr, null, Heap, Exec, value, fault, ◌>>=◌, ht_max_str}
use bzcc_scanner.HashTable.Table.{Table, Alloc}
use bzcc_scanner.HashTable.Cells.{Cell, Linked, IsTable, lookup, Unused}
use bzcc_scanner.HashTable.Copy.{NoNul}
use bzcc_scanner.HashTable.New.{new-Made, link_entry-IsTable, cell_of}
use bzcc_scanner.HashTable.RoundTrip.{Shows}
use bzcc_scanner.Session.Info.{PlayerInfo, fitted, player_name_len}
use bzcc_scanner.Settings.Registry.{Text, Registry}
use bzcc_scanner.Settings.Store.{Loaded, load_nick, save_nick}
use bzcc_scanner.Control.Rename.{is_empty}
use bzcc_scanner.Nicks.Update.{
  text_of, is_terminated, Nicks, remember, import_nick, use_loaded, find_nick, resolve_nick,
}
use bzcc_scanner.Nicks.Lookup.{
  text_of-NoNul, take-NoNul, fitted_short, fitted_again, lookup-added, find_nick-lookup,
  looked_up-known,
}

-- What the search for the nickname of a player leaves: a table of the entries `from`, and
-- perhaps one in the memory of `a`, in which the next search finds the name.
pub record Remembered (a : Alloc) (from : List Cell) (t : Table) (p : PlayerInfo) (g : Heap)
    : Type 0 where
  pub cells : List Cell
  pub grown :
      (cells ≡ from) ⊎ ((crc : ℕ) × (name : Text) × (cells ≡ from ++ cell_of a crc name ∷ []))
  pub count : length cells ≤ suc (length from)
  pub table : IsTable g t cells
  pub listed : (lookup (calc_crc32 p.user_id) cells == null) ≡ false
  pub string : Text
  pub shows : Shows g (lookup (calc_crc32 p.user_id) cells) string
  pub named : p.local_name ≡ fitted player_name_len string

pub added-Shows :
    (h : Heap) (cells : List Cell) (d : Cell) (q : Ptr)
    → Linked h (cells ++ d ∷ []) q
    → Shows h d.address d.string
added-Shows h [] d q (n, (e, at, holds), _, _) = record {
  entry = e;
  stored = at;
  text = holds.same_string;
}
added-Shows h (c ∷ cs) d q (_, _, _, l) = added-Shows h cs d q l

-- What HeapAlloc returns for a new entry is usable.
pub record IsUsable (a : Alloc) (cells : List Cell) : Type 0 where
  pub address : (a.address == null) ≡ false
  pub unused : Unused a.address cells
  pub whole : length (a.content.value) ≡ ht_max_str

pub remember-Remembered :
    (r : Registry) (a : Alloc) (name : Text) (p : PlayerInfo) (n : Nicks r.World) (h : Heap)
    (cells : List Cell)
    → IsTable h n.table cells
    → IsUsable a cells
    → length name < 64
    → NoNul name
    → lookup (calc_crc32 p.user_id) cells ≡ null
    → (t : Table) × (g : Heap) × (remember r a name p n h
        ≡ value (record p { local_name = name }, record n { table = t }) g)
      × Remembered a cells t (record p { local_name = name }) g
unfolding remember
remember-Remembered r a name p n h cells v u short nn missing =
    let crc = calc_crc32 p.user_id in
    let (g, run, made) = new-Made a n.table crc name h u.address u.whole short nn in
    let (t, g1, link, v1) =
      link_entry-IsTable a n.table crc name h g cells u.address v u.unused made in
    let there = lookup-added h cells null (cell_of a crc name) v.linked missing in
    (
      t,
      g1,
      ap (λ o. o >>= λ m g2. value (record p { local_name = name }, record n { table = m.1 }) g2)
          (run ∙ link),
      record {
        cells = cells ++ cell_of a crc name ∷ [];
        grown = inr (crc, name, refl);
        count = omega (arith, length-append cells (cell_of a crc name ∷ []));
        table = v1;
        listed = ap (λ q. q == null) there ∙ u.address;
        string = name;
        shows =
            subst (λ q. Shows g1 q name) (sym there)
              (added-Shows g1 cells (cell_of a crc name) null v1.linked);
        named = sym (fitted_again name short);
      },
    )

pub resolve_nick-start :
    (r : Registry) (fuel : ℕ) (a : Alloc) (auto : Bool) (p : PlayerInfo) (n : Nicks r.World)
    (h : Heap)
    → is_empty p.local_name ≡ true
    → is_empty p.user_id ≡ false
    → resolve_nick r fuel a auto p n h ≡ find_nick r fuel a auto p n h
unfolding resolve_nick
resolve_nick-start r fuel a auto p n h empty id = rw (resolve_nick, empty, id) refl

-- The search for a player of the same identifier.
pub Remembered-again :
    (r : Registry) (fuel : ℕ) (a0 : Alloc) (from : List Cell) (a : Alloc) (auto : Bool)
    (p q : PlayerInfo) (t : Table) (m : Nicks r.World) (g : Heap)
    → Remembered a0 from t p g
    → suc (length from) < fuel
    → q.user_id ≡ p.user_id
    → is_empty q.local_name ≡ true
    → is_empty q.user_id ≡ false
    → m.table ≡ t
    → resolve_nick r fuel a auto q m g ≡ value (record q { local_name = p.local_name }, m) g
Remembered-again r fuel a0 from a auto p q t m g s enough same empty id table =
    let at = ap (λ u. lookup (calc_crc32 u) s.cells) same in
    resolve_nick-start r fuel a auto q m g empty id
    ∙ find_nick-lookup r a auto q m g s.cells fuel
        (subst (λ t1. IsTable g t1 s.cells) (sym table) s.table) (omega (arith, s.count, enough))
    ∙ looked_up-known r a auto q m _ g s.string (ap (λ x. x == null) at ∙ s.listed)
        (subst (λ x. Shows g x s.string) (sym at) s.shows)
    ∙ ap (λ name. value (record q { local_name = name }, m) g) (sym s.named)

-- No name was found: the player and the table stay as they are.
pub record Unknown (t : Table) (p p1 : PlayerInfo) (t1 : Table) (h g : Heap) : Type 0 where
  pub same_player : p1 ≡ p
  pub same_table : t1 ≡ t
  pub same_heap : g ≡ h

-- A player apart from the local name.
abbrev pub nameless : PlayerInfo → PlayerInfo
nameless p = record p { local_name = [] }

-- LoadNick has found a nickname, and left no NUL in `tmp`.
abbrev pub LacksNul : {W : Type 0} → Loaded W → Type 0
LacksNul l = ((l.result == 0) ≡ false) × (is_terminated l.out ≡ false)

-- How the search for the nickname of `p` ends. If it calls LoadNick and that leaves no NUL in `tmp`,
-- it reads past the end of `tmp`; otherwise it leaves the player, but for the local name, and either
-- no name and the table as it was, or the name in the table.
abbrev pub Resolves :
    (r : Registry)
    → Alloc
    → List Cell
    → PlayerInfo
    → Nicks r.World
    → Heap
    → Loaded r.World
    → Exec (PlayerInfo × Nicks r.World)
    → Type 0
Resolves r a cells p n h l o =
    (LacksNul l × (o ≡ fault))
    ⊎ ((p1 : PlayerInfo) × (n1 : Nicks r.World) × (g : Heap) × (o ≡ value (p1, n1) g)
        × (nameless p1 ≡ nameless p)
        × (Unknown n.table p p1 n1.table h g ⊎ Remembered a cells n1.table p1 g))

module _ (r : Registry) (a : Alloc) (auto : Bool) (p : PlayerInfo) (n : Nicks r.World) (h : Heap)
    (cells : List Cell) (v : IsTable h n.table cells) (u : IsUsable a cells)
    (nn : NoNul p.ingame_name) where
  pub use_loaded-Resolves :
      (l : Loaded r.World)
      → lookup (calc_crc32 p.user_id) cells ≡ null
      → Resolves r a cells p n h l (use_loaded r a auto p n l h)
  unfolding use_loaded
  use_loaded-Resolves l missing =
      let n1 = record n { tmp = l.out; world = l.world } in
      let ingame = fitted player_name_len p.ingame_name in
      let n2 = record n1 { world = (save_nick r p.user_id ingame l.world).1 } in
      let loaded = fitted player_name_len (text_of l.out) in
      elim (Bool-cases (l.result == 0)) [
        | inl zero_result ↦ elim (Bool-cases auto) [
          | inl on ↦
              let (t, g, run, s) =
                remember-Remembered r a ingame p n2 h cells v u (fitted_short p.ingame_name)
                  (take-NoNul 63 p.ingame_name nn) missing in
              inr (
                record p { local_name = ingame },
                record n2 { table = t },
                g,
                rw (use_loaded, zero_result, on) run,
                refl,
                inr s,
              )
          | inr off ↦ inr (
            p,
            n1,
            h,
            rw (use_loaded, zero_result, off) refl,
            refl,
            inl (record { same_player = refl; same_table = refl; same_heap = refl }),
          )
        ]
        | inr some_result ↦ elim (Bool-cases (is_terminated l.out)) [
          | inl ends ↦
              let (t, g, run, s) =
                remember-Remembered r a loaded p n1 h cells v u (fitted_short (text_of l.out))
                  (take-NoNul 63 (text_of l.out) (text_of-NoNul l.out)) missing in
              inr (
                record p { local_name = loaded },
                record n1 { table = t },
                g,
                rw (use_loaded, some_result, ends) run,
                refl,
                inr s,
              )
          | inr past ↦ inl ((some_result, past), rw (use_loaded, some_result, past) refl)
        ]
      ]

  pub import_nick-loaded :
      import_nick r a auto p n h
      ≡ use_loaded r a auto p n (load_nick r p.user_id n.tmp player_name_len n.world) h
  unfolding import_nick
  import_nick-loaded = refl

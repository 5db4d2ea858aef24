-- ===== src/Nicks/Cached.antt =====
-- A nickname that has been found once is found again in the table.
use bzcc_scanner.Base.{
  ℕ, suc, ◌<◌, ◌≡◌, refl, ap, sym, ◌∙◌, inl, inr, subst, Bool, true, false, List, ◌==◌, length,
  arith, Bool-cases, ==_iff,
}
use bzcc_scanner.Crc.{calc_crc32}
use bzcc_scanner.HashTable.Memory.{null, Heap, Exec, value, fault}
use bzcc_scanner.HashTable.Table.{Alloc}
use bzcc_scanner.HashTable.Cells.{Cell, IsTable, lookup}
use bzcc_scanner.HashTable.Copy.{NoNul}
use bzcc_scanner.Session.Info.{PlayerInfo, fitted, player_name_len}
use bzcc_scanner.Settings.Registry.{Registry}
use bzcc_scanner.Settings.Store.{load_nick}
use bzcc_scanner.Control.Rename.{is_empty}
use bzcc_scanner.Nicks.Update.{Nicks, resolve_nick}
use bzcc_scanner.Nicks.Lookup.{lookup-Shows, find_nick-lookup, looked_up-known, looked_up-missing}
use bzcc_scanner.Nicks.Remembered.{
  Remembered, IsUsable, Resolves, resolve_nick-start, Remembered-again, use_loaded-Resolves,
  import_nick-loaded,
}

-- On a well-formed table, with fuel for its entries and one more, and with usable memory from
-- HeapAlloc, the search for the nickname of a player without one ends, whatever the registry
-- answers, in one of three ways: LoadNick finds a nickname and leaves no NUL in `tmp`, which is then
-- read past its end; or the player and the table are left as they were; or the player is left but
-- for the local name, and a well-formed table lists the identifier with that name.
pub resolve_nick-Remembers :
    (r : Registry) (fuel : ℕ) (a : Alloc) (auto : Bool) (p : PlayerInfo) (n : Nicks r.World)
    (h : Heap) (cells : List Cell)
    → IsTable h n.table cells
    → length cells < fuel
    → IsUsable a cells
    → NoNul p.ingame_name
    → is_empty p.local_name ≡ true
    → is_empty p.user_id ≡ false
    → Resolves r a cells p n h
        (load_nick r p.user_id n.tmp player_name_len n.world)
        (resolve_nick r fuel a auto p n h)
resolve_nick-Remembers r fuel a auto p n h cells v enough u nn empty id =
    let q = lookup (calc_crc32 p.user_id) cells in
    let l = load_nick r p.user_id n.tmp player_name_len n.world in
    let run =
      resolve_nick-start r fuel a auto p n h empty id
      ∙ find_nick-lookup r a auto p n h cells fuel v enough in
    elim (Bool-cases (q == null)) [
      | inl none_of ↦
          let missing : q ≡ null = (==_iff q null).0 none_of in
          subst (Resolves r a cells p n h l)
            (sym (
              run
              ∙ looked_up-missing r a auto p n q h missing
              ∙ import_nick-loaded r a auto p n h cells v u nn))
            (use_loaded-Resolves r a auto p n h cells v u nn l missing)
      | inr found ↦
          let (s, shows) = lookup-Shows h cells null (calc_crc32 p.user_id) v.linked found in
          inr (
            record p { local_name = fitted player_name_len s },
            n,
            h,
            run ∙ looked_up-known r a auto p n q h s found shows,
            refl,
            inr (record {
              cells = cells;
              grown = inl refl;
              count = omega arith;
              table = v;
              listed = found;
              string = s;
              shows = shows;
              named = refl;
            }),
          )
    ]

value_injective : {A : Type 0} {x y : A} {h g : Heap} → value x h ≡ value y g → (x ≡ y) × (h ≡ g)
value_injective e = (cc, cc)

-- If the search for the nickname of a player, on a well-formed table and with usable memory from
-- HeapAlloc, has given it a name, then the search for a player of the same identifier without a
-- name, in the heap and with the table that the first one leaves, gives it the same name and changes
-- nothing else: it uses neither the registry, which may be another by then, nor the names ingame.
pub resolve_nick-Again :
    (r : Registry) (fuel : ℕ) (a : Alloc) (auto : Bool) (p : PlayerInfo) (n : Nicks r.World)
    (h : Heap) (cells : List Cell) {p1 : PlayerInfo} {n1 : Nicks r.World} {g : Heap} (r2 : Registry)
    (b : Alloc) (auto2 : Bool) (q : PlayerInfo) (m : Nicks r2.World)
    → IsTable h n.table cells
    → suc (length cells) < fuel
    → IsUsable a cells
    → NoNul p.ingame_name
    → is_empty p.local_name ≡ true
    → is_empty p.user_id ≡ false
    → resolve_nick r fuel a auto p n h ≡ value (p1, n1) g
    → is_empty p1.local_name ≡ false
    → q.user_id ≡ p.user_id
    → is_empty q.local_name ≡ true
    → m.table ≡ n1.table
    → resolve_nick r2 fuel b auto2 q m g ≡ value (record q { local_name = p1.local_name }, m) g
resolve_nick-Again r fuel a auto p n h cells {p1} {n1} {g} r2 b auto2 q m v enough u nn empty id
      first named same blank table =
    elim (resolve_nick-Remembers r fuel a auto p n h cells v (omega arith) u nn empty id) [
      | inl (_, past) ↦
          let e : ◌≡◌ {A = Exec (PlayerInfo × Nicks r.World)} fault (value (p1, n1) g) =
            sym past ∙ first in
          cc
      | inr (p2, n2, g2, run, same2, end) ↦
          let e : ◌≡◌ {A = Exec (PlayerInfo × Nicks r.World)} (value (p2, n2) g2)
              (value (p1, n1) g) =
            sym run ∙ first in
          let (pe, ge) = value_injective e in
          let pp : p2 ≡ p1 = ap (λ x. x.0) pe in
          elim end [
            | inl unknown ↦
                let still = ap (λ x. is_empty x.local_name) (sym unknown.same_player ∙ pp) in
                let both : true ≡ false = sym empty ∙ still ∙ named in cc
            | inr s ↦
                let s1 : Remembered a cells n1.table p1 g2 =
                  subst (λ x. Remembered a cells (x.1).table x.0 g2) pe s in
                let s2 : Remembered a cells n1.table p1 g =
                  subst (λ x. Remembered a cells n1.table p1 x) ge s1 in
                Remembered-again r2 fuel a cells b auto2 p1 q n1.table m g s2 enough
                  (same ∙ sym (ap (λ x. x.user_id) same2) ∙ ap (λ x. x.user_id) pp) blank
                  (ap is_empty same ∙ id) table
          ]
    ]

-- ===== src/Nicks/Lookup.antt =====
-- The search for a nickname on a well-formed table.
use bzcc_scanner.Base.{
  ℕ, zero, suc, ◌+◌, ◌*◌, ◌<◌, ◌≡◌, refl, ap, sym, ◌∙◌, inl, inr, Bool, false, List, [], ◌∷◌, ◌++◌,
  ◌==◌, take, length, arith, Bool-cases, length-take, take_whole,
}
use bzcc_scanner.Base.CText.{Bytes}
use bzcc_scanner.Crc.{calc_crc32}
use bzcc_scanner.HashTable.Memory.{Ptr, null, Heap, value, ◌>>=◌, load, ht_max_str}
use bzcc_scanner.HashTable.Table.{Alloc, find}
use bzcc_scanner.HashTable.Cells.{Cell, Linked, IsTable, lookup}
use bzcc_scanner.HashTable.Copy.{NoNul}
use bzcc_scanner.HashTable.Find.{find-lookup}
use bzcc_scanner.HashTable.RoundTrip.{Shows}
use bzcc_scanner.Session.Info.{PlayerInfo, fitted, player_name_len}
use bzcc_scanner.Settings.Registry.{Text, Registry}
use bzcc_scanner.Nicks.Update.{text_of, Nicks, import_nick, looked_up, find_nick}

pub text_of-NoNul : (bs : Bytes) → NoNul (text_of bs)
unfolding text_of
text_of-NoNul [] = tt
text_of-NoNul (lo ∷ []) = tt
text_of-NoNul (lo ∷ hi ∷ more) = elim (Bool-cases (lo + hi * 256 == 0)) [
  | inl e ↦ rw e tt
  | inr e ↦ rw e (e, text_of-NoNul more)
]

pub take-NoNul : (n : ℕ) (s : Text) → NoNul s → NoNul (take n s)
take-NoNul zero s h = tt
take-NoNul (suc n) [] h = tt
take-NoNul (suc n) (c ∷ s) (h, hs) = (h, take-NoNul n s hs)

pub fitted_short : (s : Text) → length (fitted player_name_len s) < ht_max_str
fitted_short s = omega (arith, length-take 63 s)

pub fitted_again : (s : Text) → length s < 64 → fitted player_name_len s ≡ s
fitted_again s h = take_whole 63 s (omega arith)

pub lookup-miss :
    (c : Cell) (cs : List Cell) (crc : ℕ)
    → (c.checksum == crc) ≡ false
    → lookup crc (c ∷ cs) ≡ lookup crc cs
lookup-miss c cs crc other = rw (lookup, other) refl

pub lookup-Shows :
    (h : Heap) (cells : List Cell) (q : Ptr) (crc : ℕ)
    → Linked h cells q
    → (lookup crc cells == null) ≡ false
    → (s : Text) × Shows h (lookup crc cells) s
lookup-Shows h [] q crc l e = absurd (ground arith)
lookup-Shows h (c ∷ cs) q crc (n, (e, at, holds), u, l) found =
    elim (Bool-cases (c.checksum == crc)) [
      | inl same ↦
          (c.string, rw (lookup, same) record { entry = e; stored = at; text = holds.same_string })
      | inr other ↦
          rw (lookup, other)
            (lookup-Shows h cs q crc l
              (ap (λ p. p == null) (sym (lookup-miss c cs crc other)) ∙ found))
    ]

-- A search for the checksum of a cell that has been added behind others, none of them its own.
pub lookup-added :
    (h : Heap) (cells : List Cell) (q : Ptr) (d : Cell)
    → Linked h cells q
    → lookup d.checksum cells ≡ null
    → lookup d.checksum (cells ++ d ∷ []) ≡ d.address
lookup-added h [] q d l e = ground arith
lookup-added h (c ∷ cs) q d (n, _, _, l) e = ground (arith, lookup-added h cs q d l)

module _ (r : Registry) (a : Alloc) (auto : Bool) where
  pub find_nick-lookup :
      (p : PlayerInfo) (n : Nicks r.World) (h : Heap) (cells : List Cell) (fuel : ℕ)
      → IsTable h n.table cells
      → length cells < fuel
      → find_nick r fuel a auto p n h
        ≡ looked_up r a auto p n (lookup (calc_crc32 p.user_id) cells) h
  unfolding find_nick find
  find_nick-lookup p n h cells fuel v enough =
      ap (λ o. o >>= λ q g. looked_up r a auto p n q g)
        (find-lookup h n.table cells p.user_id fuel v enough)

  pub looked_up-known :
      (p : PlayerInfo) (n : Nicks r.World) (q : Ptr) (h : Heap) (s : Text)
      → (q == null) ≡ false
      → Shows h q s
      → looked_up r a auto p n q h ≡ value (record p { local_name = fitted player_name_len s }, n) h
  unfolding looked_up load
  looked_up-known p n q h s found shows = rw (found, shows.stored, shows.text) refl

  pub looked_up-missing :
      (p : PlayerInfo) (n : Nicks r.World) (q : Ptr) (h : Heap)
      → q ≡ null
      → looked_up r a auto p n q h ≡ import_nick r a auto p n h
  unfolding looked_up
  looked_up-missing p n q h missing = rw missing refl

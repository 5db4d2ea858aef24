-- ===== src/Net/Document/Servers.antt =====
-- The machine over the players of a server, a server, and a whole lobby list.
use Prim.Native.Nat.{ℕ, ◌+◌}
use bzcc_scanner.Base.{◌≡◌, refl, subst, List, [], All, ◌∷◌, ◌++◌, true, false, length, arith, inr}
use bzcc_scanner.Base.CText.{Bytes}
use bzcc_scanner.Net.Kvi.{Kvi}
use bzcc_scanner.Net.Parser.{key_name, value_start, next, Parser, Callback}
use bzcc_scanner.Net.Stream.{run}
use bzcc_scanner.Net.Deliver.{Call, call_of, object_calls, player_calls, item_status, Delivers}
use bzcc_scanner.Net.Document.Shape.{
  Field, Item, players, print_field, print_fields, print_item, print_players, print_more_players,
}
use bzcc_scanner.Net.Document.Tokens.{Spot, spot, At}
use bzcc_scanner.Net.Document.Emit.{Lands, byte_then}
use bzcc_scanner.Net.Document.Plain.{IsEnd}
use bzcc_scanner.Net.Document.Blocks.{
  comma, open_token, close_array_token, in_root, in_list, in_server, in_players,
}
use bzcc_scanner.Net.Document.Fits.{FieldFits, ItemFits}
use bzcc_scanner.Net.Document.Objects.{
  then_run, key_run, field_run, player_run, after_player, arrived, field_status,
}

-- Behind an array of players, the last of which has the index below `n`.
abbrev pub after_players : ℕ → ℕ → Kvi → Spot
after_players si n j = spot in_server si n j value_start false [] []

abbrev pub after_server : ℕ → Kvi → Spot
after_server si j = spot in_list (si + 1) 0 j value_start false [] []

abbrev pub after_servers : ℕ → Kvi → Spot
after_servers n j = spot in_root n 0 j value_start false [] []

module _ {S : Type 0} (callback : Callback S) where
  -- A player, and what follows it.
  one_player :
      (fs : List Field) (si pi : ℕ) (k : Kvi) (p : Parser) {y : Kvi → Spot} {more : List Call}
      → At (spot in_players si pi k value_start false [] []) p
      → All FieldFits fs
      → (tail rest : Bytes) (s : S)
      → ((j : Kvi) (t : S) (q : Parser)
          → At (after_player si pi j) q
          → Delivers callback (Lands callback y rest) (run callback q tail t) more j t)
      → Delivers callback
          (Lands callback y rest)
          (run callback p (b'{' ∷ print_fields fs tail) s)
          (object_calls true si pi fs ++ more)
          k
          s
  one_player fs si pi k p {y} {more} a h tail rest s after =
      byte_then callback _ (print_fields fs tail) s
        (open_token callback si pi k false in_players [] p a (omega arith))
        (λ q b.
          then_run callback (after_player si pi) tail more (Lands callback y rest)
            (player_run callback fs si pi k q b h tail s) after)

  players_end :
      (si pi n : ℕ) (k : Kvi) (p : Parser)
      → pi + 0 ≡ n
      → At (spot in_players si pi k value_start false [] []) p
      → (rest : Bytes) (s : S)
      → Delivers callback
          (Lands callback (after_players si n) rest)
          (run callback p (b']' ∷ rest) s)
          []
          k
          s
  players_end si pi n k p e a rest s =
      byte_then callback _ rest s
        (close_array_token callback si pi k in_server value_start p a (inr refl) (omega arith))
        (λ q b.
          arrived callback (after_players si n) k rest s q
            (subst (λ m. At (after_players si m k) q) (omega arith) b))

  players_more :
      (ps : List (List Field)) (si pi n : ℕ) (k : Kvi) (p : Parser)
      → pi + length ps ≡ n
      → At (spot in_players si pi k value_start false [] []) p
      → All (All FieldFits) ps
      → (rest : Bytes) (s : S)
      → Delivers callback
          (Lands callback (after_players si n) rest)
          (run callback p (print_more_players ps rest) s)
          (player_calls si pi ps)
          k
          s
  players_more [] si pi n k p e a h rest s = players_end si pi n k p e a rest s
  players_more (fs ∷ ps) si pi n k p e a h rest s =
      byte_then callback _ (b'{' ∷ print_fields fs (print_more_players ps rest)) s
        (comma callback si pi k true in_server value_start p a (inr refl))
        (λ q b.
          one_player fs si pi k q b h.0 (print_more_players ps rest) rest s
            (λ j t r c. players_more ps si (pi + 1) n j r (omega arith) c h.1 rest t))

  players_run :
      (ps : List (List Field)) (si pi n : ℕ) (k : Kvi) (p : Parser)
      → pi + length ps ≡ n
      → At (spot in_players si pi k value_start false [] []) p
      → All (All FieldFits) ps
      → (rest : Bytes) (s : S)
      → Delivers callback
          (Lands callback (after_players si n) rest)
          (run callback p (print_players ps rest) s)
          (player_calls si pi ps)
          k
          s
  players_run [] si pi n k p e a h rest s = players_end si pi n k p e a rest s
  players_run (fs ∷ ps) si pi n k p e a h rest s =
      one_player fs si pi k p a h.0 (print_more_players ps rest) rest s
        (λ j t r c. players_more ps si (pi + 1) n j r (omega arith) c h.1 rest t)

  -- The array of players under its key, and what follows it.
  pub players_then :
      (key : Bytes) (ps : List (List Field)) (si pi : ℕ) (k : Kvi) (p : Parser) {y : Kvi → Spot}
      {more : List Call}
      → At (spot in_server si pi k key_name false [] []) p
      → ItemFits (players key ps)
      → (tail rest : Bytes) (s : S)
      → ((j : Kvi) (t : S) (q : Parser)
          → At (after_players si (pi + length ps) j) q
          → Delivers callback (Lands callback y rest) (run callback q tail t) more j t)
      → Delivers callback
          (Lands callback y rest)
          (run callback p (print_item (players key ps) tail) s)
          (player_calls si pi ps ++ more)
          k
          s
  players_then key ps si pi k p {y} {more} a h tail rest s after =
      key_run callback in_server si pi key (Lands callback y rest) (b'[' ∷ print_players ps tail) s
        a h.0
        (λ q b.
          byte_then callback _ (print_players ps tail) s
            (open_token callback si pi k true in_server key q b (omega arith))
            (λ r c.
              then_run callback (after_players si (pi + length ps)) tail more
                (Lands callback y rest)
                (players_run ps si pi (pi + length ps) k r refl c h.1 tail s) after))

  -- A server's field and what follows it: `d` is the byte behind the field.
  pub server_field_then :
      (f : Field) (is : List Item) (d : ℕ) (si pi : ℕ) (k : Kvi) (p : Parser) {y : Kvi → Spot}
      {more : List Call}
      → At (spot in_server si pi k key_name false [] []) p
      → FieldFits f
      → IsEnd d
      → field_status f.value d ≡ item_status f.value is
      → (tail rest : Bytes) (s : S)
      → ((j : Kvi) (t : S) (q : Parser)
          → At (spot in_server si pi j next false [] []) q
          → Delivers callback (Lands callback y rest) (run callback q (d ∷ tail) t) more j t)
      → Delivers callback
          (Lands callback y rest)
          (run callback p (print_field f (d ∷ tail)) s)
          (call_of false si pi (item_status f.value is) f ∷ more)
          k
          s
  server_field_then f is d si pi k p {y} {more} a h e st tail rest s after =
      subst
        (λ st.
          Delivers callback (Lands callback y rest) (run callback p (print_field f (d ∷ tail)) s)
            (call_of false si pi st f ∷ more) k s)
        st
        (then_run callback (λ j. spot in_server si pi j next false [] []) (d ∷ tail) more
          (Lands callback y rest) (field_run callback false si pi f d k p a h e tail s) after)

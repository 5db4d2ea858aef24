-- ===== src/Net/Document/ServerList.antt =====
-- The machine over a server and over a whole lobby list.
use Prim.Native.Nat.{ℕ, ◌+◌}
use mathlib.Core.Logic.{◌⊎◌}
use bzcc_scanner.Base.{
  ◌≡◌, refl, subst, List, [], All, ◌∷◌, ◌++◌, true, false, length, arith, inl, inr,
}
use bzcc_scanner.Base.CText.{Bytes}
use bzcc_scanner.Net.Kvi.{Kvi}
use bzcc_scanner.Net.Parser.{JState, key_name, value_start, next, Parser, Callback}
use bzcc_scanner.Net.Stream.{run}
use bzcc_scanner.Net.Deliver.{Call, server_calls, list_calls, item_status, Delivers}
use bzcc_scanner.Net.Document.Shape.{
  Scalar, plain, text, Item, field, players, Server, print_item, print_more_items, print_server,
  print_servers, print_more_servers,
}
use bzcc_scanner.Net.Document.Tokens.{Spot, spot, At}
use bzcc_scanner.Net.Document.Emit.{Lands, byte_then}
use bzcc_scanner.Net.Document.Blocks.{
  comma, open_token, close_array_token, close_server, in_root, in_list, in_server,
}
use bzcc_scanner.Net.Document.Fits.{ItemFits, ServerFits}
use bzcc_scanner.Net.Document.Objects.{then_run, arrived, field_status, IsEnd-comma, IsEnd-brace}
use bzcc_scanner.Net.Document.Servers.{after_server, after_servers, players_then, server_field_then}

brace_status : (v : Scalar) → field_status v b'}' ≡ item_status v []
brace_status (plain v) = refl
brace_status (text v) = refl

comma_status :
    (v : Scalar) (i : Item) (is : List Item) → field_status v b',' ≡ item_status v (i ∷ is)
comma_status (plain v) i is = refl
comma_status (text v) i is = refl

-- Behind a field or an array.
abbrev IsBetween : JState → Type 0
IsBetween j = (j ≡ next) ⊎ (j ≡ value_start)

between_closes : (j : JState) → IsBetween j → (j ≡ next) ⊎ (j ≡ value_start) ⊎ (j ≡ key_name)
between_closes j (inl e) = inl e
between_closes j (inr e) = inr (inl e)

module _ {S : Type 0} (callback : Callback S) where
  item_run :
      (i : Item) (is : List Item) (si pi : ℕ) (k : Kvi) (p : Parser)
      → At (spot in_server si pi k key_name false [] []) p
      → ItemFits i
      → (rest : Bytes) (s : S)
      → ((n : ℕ) (st : JState) (j : Kvi) (t : S) (q : Parser)
          → IsBetween st
          → At (spot in_server si n j st false [] []) q
          → Delivers callback
              (Lands callback (after_server si) rest)
              (run callback q (print_more_items is rest) t)
              (server_calls si n is)
              j
              t)
      → Delivers callback
          (Lands callback (after_server si) rest)
          (run callback p (print_item i (print_more_items is rest)) s)
          (server_calls si pi (i ∷ is))
          k
          s
  item_run (field f) [] si pi k p a h rest s after =
      server_field_then callback f [] b'}' si pi k p a h IsEnd-brace (brace_status f.value) rest
        rest s (λ j t q b. after pi next j t q (inl refl) b)
  item_run (field f) (i ∷ is) si pi k p a h rest s after =
      server_field_then callback f (i ∷ is) b',' si pi k p a h IsEnd-comma
        (comma_status f.value i is) (print_item i (print_more_items is rest)) rest s
        (λ j t q b. after pi next j t q (inl refl) b)
  item_run (players key ps) is si pi k p a h rest s after =
      players_then callback key ps si pi k p a h (print_more_items is rest) rest s
        (λ j t q b. after (pi + length ps) value_start j t q (inr refl) b)

  items_more :
      (is : List Item) (si pi : ℕ) (st : JState) (k : Kvi) (p : Parser)
      → IsBetween st
      → At (spot in_server si pi k st false [] []) p
      → All ItemFits is
      → (rest : Bytes) (s : S)
      → Delivers callback
          (Lands callback (after_server si) rest)
          (run callback p (print_more_items is rest) s)
          (server_calls si pi is)
          k
          s
  items_more [] si pi st k p b a h rest s =
      byte_then callback _ rest s (close_server callback si pi k st p a (between_closes st b))
        (arrived callback (after_server si) k rest s)
  items_more (i ∷ is) si pi st k p b a h rest s =
      byte_then callback _ (print_item i (print_more_items is rest)) s
        (comma callback si pi k false in_list st p a b)
        (λ q c.
          item_run i is si pi k q c h.0 rest s
            (λ n st' j t r b' d. items_more is si n st' j r b' d h.1 rest t))

  server_run :
      (v : Server) (si : ℕ) (k : Kvi) (p : Parser)
      → At (spot in_server si 0 k key_name false [] []) p
      → ServerFits v
      → (rest : Bytes) (s : S)
      → Delivers callback
          (Lands callback (after_server si) rest)
          (run callback p (print_server v rest) s)
          (server_calls si 0 v)
          k
          s
  server_run [] si k p a h rest s =
      byte_then callback _ rest s (close_server callback si 0 k key_name p a (inr (inr refl)))
        (arrived callback (after_server si) k rest s)
  server_run (i ∷ is) si k p a h rest s =
      item_run i is si 0 k p a h.0 rest s
        (λ n st j t r b d. items_more is si n st j r b d h.1 rest t)

  one_server :
      (v : Server) (si : ℕ) (k : Kvi) (p : Parser) {y : Kvi → Spot} {more : List Call}
      → At (spot in_list si 0 k value_start false [] []) p
      → ServerFits v
      → (tail rest : Bytes) (s : S)
      → ((j : Kvi) (t : S) (q : Parser)
          → At (after_server si j) q
          → Delivers callback (Lands callback y rest) (run callback q tail t) more j t)
      → Delivers callback
          (Lands callback y rest)
          (run callback p (b'{' ∷ print_server v tail) s)
          (server_calls si 0 v ++ more)
          k
          s
  one_server v si k p {y} {more} a h tail rest s after =
      byte_then callback _ (print_server v tail) s
        (open_token callback si 0 k false in_list [] p a (omega arith))
        (λ q b.
          then_run callback (after_server si) tail more (Lands callback y rest)
            (server_run v si k q b h tail s) after)

  servers_end :
      (si n : ℕ) (k : Kvi) (p : Parser)
      → si + 0 ≡ n
      → At (spot in_list si 0 k value_start false [] []) p
      → (rest : Bytes) (s : S)
      → Delivers callback
          (Lands callback (after_servers n) rest)
          (run callback p (b']' ∷ rest) s)
          []
          k
          s
  servers_end si n k p e a rest s =
      byte_then callback _ rest s
        (close_array_token callback si 0 k in_root value_start p a (inr refl) (omega arith))
        (λ q b.
          arrived callback (after_servers n) k rest s q
            (subst (λ m. At (after_servers m k) q) (omega arith) b))

  servers_more :
      (vs : List Server) (si n : ℕ) (k : Kvi) (p : Parser)
      → si + length vs ≡ n
      → At (spot in_list si 0 k value_start false [] []) p
      → All ServerFits vs
      → (rest : Bytes) (s : S)
      → Delivers callback
          (Lands callback (after_servers n) rest)
          (run callback p (print_more_servers vs rest) s)
          (list_calls si vs)
          k
          s
  servers_more [] si n k p e a h rest s = servers_end si n k p e a rest s
  servers_more (v ∷ vs) si n k p e a h rest s =
      byte_then callback _ (b'{' ∷ print_server v (print_more_servers vs rest)) s
        (comma callback si 0 k true in_root value_start p a (inr refl))
        (λ q b.
          one_server v si k q b h.0 (print_more_servers vs rest) rest s
            (λ j t r c. servers_more vs (si + 1) n j r (omega arith) c h.1 rest t))

  pub servers_run :
      (vs : List Server) (si n : ℕ) (k : Kvi) (p : Parser)
      → si + length vs ≡ n
      → At (spot in_list si 0 k value_start false [] []) p
      → All ServerFits vs
      → (rest : Bytes) (s : S)
      → Delivers callback
          (Lands callback (after_servers n) rest)
          (run callback p (print_servers vs rest) s)
          (list_calls si vs)
          k
          s
  servers_run [] si n k p e a h rest s = servers_end si n k p e a rest s
  servers_run (v ∷ vs) si n k p e a h rest s =
      one_server v si k p a h.0 (print_more_servers vs rest) rest s
        (λ j t r c. servers_more vs (si + 1) n j r (omega arith) c h.1 rest t)

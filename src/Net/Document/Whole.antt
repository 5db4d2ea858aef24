-- ===== src/Net/Document/Whole.antt =====
-- `parse_data` of a whole lobby list.
use mathlib.Core.List.{append-nil}
use bzcc_scanner.Base.{
  ◌≡◌, refl, ap, subst, ◌∙◌, List, [], All, ◌∷◌, Bool, true, false, length, arith,
}
use bzcc_scanner.Base.CText.{Bytes}
use bzcc_scanner.Net.Kvi.{Kvi, zero_kvi}
use bzcc_scanner.Net.Parser.{root_start, root_end, Parser, Callback, Outcome, initial}
use bzcc_scanner.Net.Stream.{run, parse_data, returned}
use bzcc_scanner.Net.Chunks.{finish, parse_data-received}
use bzcc_scanner.Net.Deliver.{Call, list_calls, Delivers, done, accepted, rejected, deliver}
use bzcc_scanner.Net.Document.Shape.{Server, print_key, print_servers, print_list}
use bzcc_scanner.Net.Document.Tokens.{Spot, spot, At}
use bzcc_scanner.Net.Document.Emit.{Lands, byte_then}
use bzcc_scanner.Net.Document.Blocks.{open_token, close_root, open_root, in_root}
use bzcc_scanner.Net.Document.Fits.{KeyFits, ServerFits}
use bzcc_scanner.Net.Document.Objects.{then_run, key_run, arrived}
use bzcc_scanner.Net.Document.Servers.{after_servers}
use bzcc_scanner.Net.Document.ServerList.{servers_run}
use bzcc_scanner.Net.Stream.{Read}
use bzcc_scanner.Net.Chunks.{received, ending}
use bzcc_scanner.Base.{none}

module _ {S : Type 0} (callback : Callback S) where
  -- The reader at the start of a document, whatever has come before it.
  list_run :
      (key : Bytes) (vs : List Server) (k : Kvi) (p : Parser) (s : S)
      → At (spot [] 0 0 k root_start false [] []) p
      → KeyFits key
      → All ServerFits vs
      → Delivers callback
          (Lands callback (λ j. spot [] (length vs) 0 j root_end false [] []) [])
          (run callback p (print_list key vs) s)
          (list_calls 0 vs)
          k
          s
  list_run key vs k p s a f h =
      byte_then callback _ (print_key key (b'[' ∷ print_servers vs (b'}' ∷ []))) s
        (open_root callback 0 0 k p a)
        (λ q b.
          key_run callback in_root 0 0 key _ (b'[' ∷ print_servers vs (b'}' ∷ [])) s b f (λ r c.
            byte_then callback _ (print_servers vs (b'}' ∷ [])) s
              (open_token callback 0 0 k true in_root key r c (omega arith))
              (λ u d.
                subst
                  (λ calls.
                    Delivers callback
                      (Lands callback (λ j. spot [] (length vs) 0 j root_end false [] []) [])
                      (run callback u (print_servers vs (b'}' ∷ [])) s) calls k s)
                  (append-nil (list_calls 0 vs))
                  (then_run callback (after_servers (length vs)) (b'}' ∷ []) [] _
                    (servers_run callback vs 0 (length vs) k u (omega arith) d h (b'}' ∷ []) s)
                    (λ j t v e.
                      byte_then callback _ [] t (close_root callback (length vs) 0 j v e) (
                        arrived callback (λ j. spot [] (length vs) 0 j root_end false [] []) j []
                          t))))))

  deliver-Delivers :
      (y : Kvi → Spot) {o : Outcome S} {calls : List Call} {k : Kvi} {s : S} (using_http : Bool)
      → ((j : Kvi) → (y j).kvi ≡ j)
      → Delivers callback (Lands callback y []) o calls k s
      → finish using_http none o ≡ deliver callback calls k s
  unfolding deliver finish run
  deliver-Delivers y {k} {s} u h (done (q, a, e)) =
      ap (finish u none) e ∙ ap (λ j. returned 0 j s) (a.kvi ∙ h k)
  deliver-Delivers y u h (accepted e d) = rw e (deliver-Delivers y u h d)
  deliver-Delivers y u h (rejected e r) = rw e (ap (finish u none) r)

  initial-At : At (spot [] 0 0 zero_kvi root_start false [] []) (initial false)
  initial-At = ground arith

  -- For the printed form of a list of servers whose keys and texts fit the buffers (`KeyFits`,
  -- `ServerFits`), read from a file in reads of any sizes up to a graceful end, `parse_data` makes
  -- the calls of that list in order: one for each field of a server and one for each field of a
  -- player, with its key and text, its indices and its status: LAST for a plain value that ends its
  -- object, NORMAL for every other value, a quoted one that ends its object included. It returns 0,
  -- or 1 at the first call that does not return 0.
  pub parse_data-print_list :
      (key : Bytes) (vs : List Server) (reads : List Read) (s : S)
      → KeyFits key
      → All ServerFits vs
      → received reads ≡ print_list key vs
      → ending reads ≡ none
      → parse_data callback false reads s ≡ deliver callback (list_calls 0 vs) zero_kvi s
  parse_data-print_list key vs reads s f h text_is end_is =
      parse_data-received callback false reads s
      ∙ ap (λ e. finish false e (run callback (initial false) (received reads) s)) end_is
      ∙ ap (λ input. finish false none (run callback (initial false) input s)) text_is
      ∙ deliver-Delivers (λ j. spot [] (length vs) 0 j root_end false [] []) false (λ j. refl)
          (list_run key vs zero_kvi (initial false) s initial-At f h)

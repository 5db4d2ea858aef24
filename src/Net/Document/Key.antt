-- ===== src/Net/Document/Key.antt =====
-- The machine over a key name.
use Prim.Native.Nat.{ℕ, ◌+◌, ◌<◌}
use bzcc_scanner.Base.{
  ◌≡◌, List, [], All, ◌∷◌, ◌++◌, Bool, true, false, ◌||◌, length, arith, ◌==◌, length-append,
}
use bzcc_scanner.Base.CText.{Bytes}
use bzcc_scanner.Net.Kvi.{Kvi, generic_buflen}
use bzcc_scanner.Net.Parser.{JState, key_name, key_sep, value_start, Parser, Callback}
use bzcc_scanner.Net.Json.{step_key_name, step_key_sep}
use bzcc_scanner.Net.Value.{step_state}
use bzcc_scanner.Net.Document.Tokens.{Spot, spot, At, counted, Moves, move, move_then}
use mathlib.Core.List.{append-nil, append_assoc}

-- A byte that a key name may hold.
abbrev pub IsKeyByte : ℕ → Type 0
IsKeyByte c = (c == b'"' || (c == 10 || c == 13)) ≡ false

module _ {S : Type 0} (callback : Callback S) (blocks : List Bool) (si pi : ℕ) (kvi : Kvi) where
  abbrev here : JState → Bool → Bytes → Bytes → Spot
  here = spot blocks si pi kvi

  key_open :
      (p : Parser)
      → At (here key_name false [] []) p
      → Moves callback p (b'"' ∷ []) (here key_name true [] [])
  unfolding step_state step_key_name
  key_open p a =
      move callback (here key_name false [] []) (here key_name true [] []) p
        (record (counted p) { in_quote = true }) b'"' a (ground arith) (λ s. ground arith)

  key_byte :
      (name : Bytes) (c : ℕ) (p : Parser)
      → At (here key_name true name []) p
      → (c == b'"' || (c == 10 || c == 13)) ≡ false
      → length name + 1 < generic_buflen
      → Moves callback p (c ∷ []) (here key_name true (name ++ c ∷ []) [])
  unfolding step_state step_key_name
  key_byte name c p a plain room =
      move callback (here key_name true name []) (here key_name true (name ++ c ∷ []) []) p
        (record (counted p) { name = p.name ++ c ∷ [] }) c a (ground arith) (λ s. ground arith)

  key_close :
      (name : Bytes) (p : Parser)
      → At (here key_name true name []) p
      → Moves callback p (b'"' ∷ []) (here key_sep false name [])
  unfolding step_state step_key_name
  key_close name p a =
      move callback (here key_name true name []) (here key_sep false name []) p
        (record (counted p) { in_quote = false; j_state = key_sep }) b'"' a (ground arith)
        (λ s. ground arith)

  separator :
      (name : Bytes) (p : Parser)
      → At (here key_sep false name []) p
      → Moves callback p (b':' ∷ []) (here value_start false name [])
  unfolding step_state step_key_sep
  separator name p a =
      move callback (here key_sep false name []) (here value_start false name []) p
        (record (counted p) { j_state = value_start }) b':' a (ground arith) (λ s. ground arith)

  key_rest :
      (key name : Bytes) (p : Parser)
      → At (here key_name true name []) p
      → All IsKeyByte key
      → length name + length key < generic_buflen
      → Moves callback p (key ++ b'"' ∷ b':' ∷ []) (here value_start false (name ++ key) [])
  key_rest [] name p a h room =
      move_then callback _ p b'"' (b':' ∷ []) (key_close name p a)
        (λ q b. rw append-nil (separator name q b))
  key_rest (c ∷ cs) name p a h room =
      move_then callback _ p c (cs ++ b'"' ∷ b':' ∷ []) (key_byte name c p a h.0 (omega arith))
        (λ q b.
          rw (← append_assoc name (c ∷ []) cs)
            (key_rest cs (name ++ c ∷ []) q b h.1 (omega (arith, length-append name (c ∷ [])))))

  -- A key name in quotes and the colon behind it.
  pub key_token :
      (key : Bytes) (p : Parser)
      → At (here key_name false [] []) p
      → All IsKeyByte key
      → length key < generic_buflen
      → Moves callback p (b'"' ∷ (key ++ b'"' ∷ b':' ∷ [])) (here value_start false key [])
  key_token key p a h room =
      move_then callback _ p b'"' (key ++ b'"' ∷ b':' ∷ []) (key_open p a)
        (λ q b. key_rest key [] q b h (omega arith))

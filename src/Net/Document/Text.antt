-- ===== src/Net/Document/Text.antt =====
-- The machine over a text in quotes.
use Prim.Native.Nat.{ℕ, ◌+◌, ◌<◌}
use bzcc_scanner.Base.{
  ◌≡◌, refl, sym, ap, ◌∙◌, List, [], ◌∷◌, ◌++◌, Bool, true, false, ◌||◌, some, length, arith, ◌==◌,
  length-append, Bool-cases, inl, inr,
}
use bzcc_scanner.Base.CText.{Bytes}
use mathlib.Core.List.{append-nil, append_assoc}
use mathlib.Core.Logic.{◌⊎◌}
use bzcc_scanner.Net.Kvi.{Kvi, Status, normal, generic_buflen}
use bzcc_scanner.Net.Parser.{JState, value_start, read_value, next, Parser, Callback, ◌>>=◌, emit}
use bzcc_scanner.Net.Json.{step_value}
use bzcc_scanner.Net.Value.{step_state, step_read_value, unescape, end_quoted}
use bzcc_scanner.Net.Stream.{run}
use bzcc_scanner.Net.Deliver.{Call, Delivers}
use bzcc_scanner.Net.Document.Tokens.{Spot, spot, At, counted, Moves, move, run-json}
use bzcc_scanner.Net.Chunks.{>>=_assoc}
use bzcc_scanner.Net.Document.Emit.{depth_of, emits, Lands, byte_then}
use bzcc_scanner.Net.Document.Shape.{escape_byte, escape}

-- A byte is printed as it is, or as an escape that reads back as it.
escape_kind :
    (c : ℕ) (rest : Bytes)
    → ((escape_byte c rest ≡ c ∷ rest) × ((c == b'"' || (c == 10 || (c == 13 || c == 92))) ≡ false))
      ⊎ ((e : ℕ) × (escape_byte c rest ≡ 92 ∷ e ∷ rest) × (unescape e ≡ some c))
unfolding unescape
escape_kind c rest = elim (Bool-cases (c == b'"')) [
  | inl h ↦ inr (b'"', rw h, ground arith)
  | inr a ↦ elim (Bool-cases (c == 92)) [
    | inl h ↦ inr (92, rw (a, h), ground arith)
    | inr b ↦ elim (Bool-cases (c == 13)) [
      | inl h ↦ inr (b'r', rw (a, b, h), ground arith)
      | inr d ↦ elim (Bool-cases (c == 10)) [
        | inl h ↦ inr (b'n', rw (a, b, d, h), ground arith)
        | inr e ↦ elim (Bool-cases (c == 9)) [
          | inl h ↦ inr (b't', rw (a, b, d, e, h), ground arith)
          | inr f ↦ inl (rw (a, b, d, e, f), rw (a, b, d, e))
        ]
      ]
    ]
  ]
]

module _ {S : Type 0} (callback : Callback S) (blocks : List Bool) (si pi : ℕ) (player : Bool)
    (level : length blocks ≡ depth_of player) where
  abbrev here : Kvi → JState → Bool → Bytes → Bytes → Spot
  here = spot blocks si pi

  abbrev the_call : Status → Bytes → Bytes → Call
  the_call st key value = record {
    status = st;
    player = player;
    key = key;
    value = value;
    server_index = si;
    player_index = pi;
  }

  abbrev escaping : Kvi → Bytes → Bytes → Spot
  escaping k name value = let x = here k read_value true name value in record x { escaped = true }

  text_open :
      (k : Kvi) (name : Bytes) (p : Parser)
      → At (here k value_start false name []) p
      → Moves callback p (b'"' ∷ []) (here k read_value true name [])
  unfolding step_state step_value
  text_open k name p a =
      move callback (here k value_start false name []) (here k read_value true name []) p
        (record (counted p) { in_quote = true; value_complete = false; j_state = read_value }) b'"'
        a (ground arith) (λ s. ground arith)

  text_byte :
      (k : Kvi) (name value : Bytes) (c : ℕ) (p : Parser)
      → At (here k read_value true name value) p
      → (c == b'"' || (c == 10 || (c == 13 || c == 92))) ≡ false
      → length value + 1 < generic_buflen
      → Moves callback p (c ∷ []) (here k read_value true name (value ++ c ∷ []))
  unfolding step_state step_read_value
  text_byte k name value c p a plain room =
      move callback (here k read_value true name value)
        (here k read_value true name (value ++ c ∷ [])) p
        (record (counted p) { value = p.value ++ c ∷ [] }) c a (ground arith) (λ s. ground arith)

  backslash :
      (k : Kvi) (name value : Bytes) (p : Parser)
      → At (here k read_value true name value) p
      → Moves callback p (92 ∷ []) (escaping k name value)
  unfolding step_state step_read_value
  backslash k name value p a =
      move callback (here k read_value true name value) (escaping k name value) p
        (record (counted p) { in_escape = true }) 92 a (ground arith) (λ s. ground arith)

  unescaped_byte :
      (k : Kvi) (name value : Bytes) (c d : ℕ) (p : Parser)
      → At (escaping k name value) p
      → unescape c ≡ some d
      → length value + 1 < generic_buflen
      → Moves callback p (c ∷ []) (here k read_value true name (value ++ d ∷ []))
  unfolding step_state step_read_value
  unescaped_byte k name value c d p a e room =
      move callback (escaping k name value) (here k read_value true name (value ++ d ∷ [])) p
        (record (counted p) { in_escape = false; value = p.value ++ d ∷ [] }) c a (ground arith)
        (λ s. ground arith)

  text_close-step :
      (k : Kvi) (name value : Bytes) (p : Parser) (s : S)
      → At (here k read_value true name value) p
      → step_state callback read_value (counted p) b'"' s ≡ end_quoted callback (counted p) s
  unfolding step_state step_read_value
  text_close-step k name value p s a = ground arith

  text_close :
      (k : Kvi) (name value : Bytes) (p : Parser)
      → At (here k read_value true name value) p
      → (rest : Bytes) (s : S)
      → Delivers callback
          (Lands callback (λ j. here j next false [] []) rest)
          (run callback p (b'"' ∷ rest) s)
          (the_call normal name value ∷ [])
          k
          s
  unfolding step_state step_read_value end_quoted
  text_close k name value p a rest s =
      let q = record (counted p) { in_quote = false; value_complete = true } in
      emits callback player normal q s
        (λ r t. run callback (record r { name = []; value = []; j_state = next }) rest t)
        (Lands callback (λ j. here j next false [] []) rest) (omega arith)
        (sym (
          run-json callback (here k read_value true name value) p b'"' rest s a
          ∙ ap (λ o. o >>= λ r t. run callback r rest t) (text_close-step k name value p s a)
          ∙ >>=_assoc callback (emit callback normal q s) _ _))
        (ground arith) a.kvi
        (λ j t. (record q { name = []; value = []; j_state = next; kvi = j }, ground arith, refl))

  text_rest :
      (v : Bytes) (k : Kvi) (name value : Bytes) (p : Parser)
      → At (here k read_value true name value) p
      → length value + length v < generic_buflen
      → (rest : Bytes) (s : S)
      → Delivers callback
          (Lands callback (λ j. here j next false [] []) rest)
          (run callback p (escape v (b'"' ∷ rest)) s)
          (the_call normal name (value ++ v) ∷ [])
          k
          s
  text_rest [] k name value p a room rest s = rw append-nil (text_close k name value p a rest s)
  text_rest (c ∷ cs) k name value p a room rest s =
      let more = escape cs (b'"' ∷ rest) in
      let Q = Lands callback (λ j. here j next false [] []) rest in
      let after : (q : Parser)
          → At (here k read_value true name (value ++ c ∷ [])) q
          → Delivers callback Q (run callback q more s)
              (the_call normal name (value ++ c ∷ cs) ∷ []) k s =
        λ q b. rw (← append_assoc value (c ∷ []) cs) (
          text_rest cs k name (value ++ c ∷ []) q b (omega (arith, length-append value (c ∷ [])))
            rest s) in
      elim (escape_kind c more) [
        | inl (as_is, ordinary) ↦ rw as_is (
            byte_then callback Q more s (text_byte k name value c p a ordinary (omega arith)) after)
        | inr (e, pair, back) ↦ rw pair (
            byte_then callback Q (e ∷ more) s (backslash k name value p a) (λ q b.
              byte_then callback Q more s (unescaped_byte k name value e c q b back (omega arith))
                after))
      ]

  -- A text in quotes is one call, with the text before it was escaped.
  pub text_token :
      (v : Bytes) (k : Kvi) (name : Bytes) (p : Parser)
      → At (here k value_start false name []) p
      → length v < generic_buflen
      → (rest : Bytes) (s : S)
      → Delivers callback
          (Lands callback (λ j. here j next false [] []) rest)
          (run callback p (b'"' ∷ escape v (b'"' ∷ rest)) s)
          (the_call normal name v ∷ [])
          k
          s
  text_token v k name p a room rest s =
      byte_then callback _ (escape v (b'"' ∷ rest)) s (text_open k name p a)
        (λ q b. text_rest v k name [] q b (omega arith) rest s)

-- ===== src/Net/Document/Plain.antt =====
-- The machine over a plain value, up to the byte that ends it.
use Prim.Native.Nat.{ℕ, ◌+◌, ◌<◌}
use bzcc_scanner.Base.{
  ◌≡◌, sym, ap, subst, ◌∙◌, List, [], All, ◌∷◌, ◌++◌, Bool, true, false, ◌||◌, length, arith, ◌==◌,
  if◌then◌else◌, length-append, Bool-cases, ==_iff, inl, inr,
}
use bzcc_scanner.Base.CText.{Bytes}
use mathlib.Core.List.{append-nil, append_assoc}
use bzcc_scanner.Net.Kvi.{Kvi, Status, normal, last, generic_buflen}
use bzcc_scanner.Net.Parser.{JState, value_start, read_value, next, Parser, Callback, ◌>>=◌, emit}
use bzcc_scanner.Base.CText.{is_space}
use bzcc_scanner.Net.Json.{step_value, step_next, is_word_char}
use bzcc_scanner.Net.Value.{step_state, step_read_value, end_plain, end_plain}
use bzcc_scanner.Net.Stream.{run}
use bzcc_scanner.Net.Deliver.{Call, Delivers}
use bzcc_scanner.Net.Document.Tokens.{Spot, spot, At, counted, Moves, move, run-json}
use bzcc_scanner.Net.Chunks.{>>=_assoc}
use bzcc_scanner.Net.Document.Emit.{depth_of, emits, Lands, byte_then}

word_not_quote : (c : ℕ) → is_word_char c ≡ true → (c == b'"') ≡ false
unfolding is_word_char
word_not_quote c w = elim (Bool-cases (c == b'"')) [
  | inl e ↦
      let q : is_word_char b'"' ≡ true =
        subst (λ d. is_word_char d ≡ true) ((==_iff c b'"').0 e) w in
      cc q
  | inr n ↦ n
]

-- The bytes that end a plain value.
pub record IsEnd (d : ℕ) : Type 0 where
  pub no_word : is_word_char d ≡ false
  pub no_space : is_space d ≡ false
  pub ends : (d == b',' || (d == b'}' || d == b']')) ≡ true

abbrev pub end_status : ℕ → Status
end_status d = if d == b'}' then last else normal

abbrev pub IsWord : ℕ → Type 0
IsWord c = is_word_char c ≡ true

module _ {S : Type 0} (callback : Callback S) (blocks : List Bool) (si pi : ℕ) (player : Bool)
    (level : length blocks ≡ depth_of player) where
  abbrev here : Kvi → JState → Bool → Bytes → Bytes → Spot
  here = spot blocks si pi

  abbrev the_call : Status → Bytes → Bytes → Call
  the_call st key value = record {
    status = st;
    player = player;
    key = key;
    value = value;
    server_index = si;
    player_index = pi;
  }

  plain_open :
      (k : Kvi) (name : Bytes) (c : ℕ) (p : Parser)
      → At (here k value_start false name []) p
      → IsWord c
      → Moves callback p (c ∷ []) (here k read_value false name (c ∷ []))
  unfolding step_state step_value
  plain_open k name c p a w =
      move callback (here k value_start false name []) (here k read_value false name (c ∷ [])) p
        (record (counted p) {
          value_complete = false;
          value = p.value ++ c ∷ [];
          j_state = read_value;
        })
        c a (ground arith) (λ s. ground (arith, word_not_quote c w))

  plain_byte :
      (k : Kvi) (name value : Bytes) (c : ℕ) (p : Parser)
      → At (here k read_value false name value) p
      → IsWord c
      → length value + 1 < generic_buflen
      → Moves callback p (c ∷ []) (here k read_value false name (value ++ c ∷ []))
  unfolding step_state step_read_value
  plain_byte k name value c p a w room =
      move callback (here k read_value false name value)
        (here k read_value false name (value ++ c ∷ [])) p
        (record (counted p) { value = p.value ++ c ∷ [] }) c a (ground arith) (λ s. ground arith)

  plain_close-step :
      (k : Kvi) (name value : Bytes) (d : ℕ) (p : Parser) (s : S)
      → At (here k read_value false name value) p
      → IsEnd d
      → step_state callback read_value (counted p) d s ≡ end_plain callback (counted p) d s
  unfolding step_state step_read_value
  plain_close-step k name value d p s a e = ground arith

  plain_close :
      (k : Kvi) (name value : Bytes) (d : ℕ) (p : Parser)
      → At (here k read_value false name value) p
      → IsEnd d
      → (rest : Bytes) (s : S)
      → Delivers callback
          (Lands callback (λ j. here j next false [] []) (d ∷ rest))
          (run callback p (d ∷ rest) s)
          (the_call (end_status d) name value ∷ [])
          k
          s
  unfolding step_state step_read_value end_plain
  plain_close k name value d p a e rest s =
      let q = record (counted p) { value_complete = true } in
      emits callback player (end_status d) q s
        (λ r t. step_next (record r { name = []; value = []; j_state = next }) d t >>= λ u v.
          run callback u rest v)
        (Lands callback (λ j. here j next false [] []) (d ∷ rest)) (omega arith)
        (sym (
          run-json callback (here k read_value false name value) p d rest s a
          ∙ ap (λ o. o >>= λ r t. run callback r rest t) (plain_close-step k name value d p s a e)
          ∙ >>=_assoc callback (emit callback (end_status d) q s) _ _))
        (ground arith) a.kvi
        (λ j t.
          let r = record p {
            value_complete = true;
            name = [];
            value = [];
            j_state = next;
            kvi = j;
          } in
          let b : At (here j next false [] []) r = ground arith in
          (r, b, sym (run-json callback (here j next false [] []) r d rest t b)))

  plain_rest :
      (v : Bytes) (k : Kvi) (name value : Bytes) (d : ℕ) (p : Parser)
      → At (here k read_value false name value) p
      → All IsWord v
      → IsEnd d
      → length value + length v < generic_buflen
      → (rest : Bytes) (s : S)
      → Delivers callback
          (Lands callback (λ j. here j next false [] []) (d ∷ rest))
          (run callback p (v ++ d ∷ rest) s)
          (the_call (end_status d) name (value ++ v) ∷ [])
          k
          s
  plain_rest [] k name value d p a h e room rest s =
      rw append-nil (plain_close k name value d p a e rest s)
  plain_rest (c ∷ cs) k name value d p a h e room rest s =
      byte_then callback _ (cs ++ d ∷ rest) s (plain_byte k name value c p a h.0 (omega arith))
        (λ q b. rw (← append_assoc value (c ∷ []) cs) (
          plain_rest cs k name (value ++ c ∷ []) d q b h.1 e
            (omega (arith, length-append value (c ∷ []))) rest s))

  -- A plain value and the byte `d` behind it make one call, and `d` is left to EXPECT_NEXT.
  pub plain_token :
      (c : ℕ) (cs : Bytes) (k : Kvi) (name : Bytes) (d : ℕ) (p : Parser)
      → At (here k value_start false name []) p
      → All IsWord (c ∷ cs)
      → IsEnd d
      → length cs + 1 < generic_buflen
      → (rest : Bytes) (s : S)
      → Delivers callback
          (Lands callback (λ j. here j next false [] []) (d ∷ rest))
          (run callback p (c ∷ (cs ++ d ∷ rest)) s)
          (the_call (end_status d) name (c ∷ cs) ∷ [])
          k
          s
  plain_token c cs k name d p a h e room rest s =
      byte_then callback _ (cs ++ d ∷ rest) s (plain_open k name c p a h.0)
        (λ q b. plain_rest cs k name (c ∷ []) d q b h.1 e (omega arith) rest s)

-- ===== src/Net/Document/Tokens.antt =====
-- The machine over one token of a lobby list, with any `rest` behind it.
use Prim.Native.Nat.{ℕ, ◌+◌, ◌%◌, ◌^◌}
use bzcc_scanner.Base.{◌≡◌, refl, ap, ◌∙◌, List, [], ◌∷◌, ◌++◌, Bool, false, Option, some, length}
use bzcc_scanner.Base.CText.{Bytes}
use bzcc_scanner.Net.Kvi.{Kvi, max_depth}
use bzcc_scanner.Net.Parser.{json, JState, Parser, Callback, continue, ◌>>=◌}
use bzcc_scanner.Net.Value.{step_state, step_json}
use bzcc_scanner.Net.Http.{step_mode}
use bzcc_scanner.Net.Stream.{run}

-- The flags of the open blocks, the outermost first.
abbrev pub Holds : List (Option Bool) → List Bool → Type 0
Holds flags [] = Unit
Holds [] (b ∷ bs) = ⊥
Holds (x ∷ flags) (b ∷ bs) = (x ≡ some b) × Holds flags bs

-- The variables that matter between two bytes of a list.
pub record Spot : Type 0 where
  pub state : JState
  pub blocks : List Bool
  pub server : ℕ
  pub player : ℕ
  pub quoted : Bool
  pub escaped : Bool
  pub name : Bytes
  pub value : Bytes
  pub kvi : Kvi

abbrev pub spot : List Bool → ℕ → ℕ → Kvi → JState → Bool → Bytes → Bytes → Spot
spot blocks si pi kvi j quoted name value = record {
  state = j;
  blocks = blocks;
  server = si;
  player = pi;
  quoted = quoted;
  escaped = false;
  name = name;
  value = value;
  kvi = kvi;
}

pub record At (x : Spot) (p : Parser) : Type 0 where
  pub mode : p.mode ≡ json
  pub j_state : p.j_state ≡ x.state
  pub name_is : p.name ≡ x.name
  pub value_is : p.value ≡ x.value
  pub no_length : p.content_length ≡ 0
  pub depth : p.depth ≡ length x.blocks
  pub flags : Holds p.is_array x.blocks
  pub flags_length : length p.is_array ≡ max_depth
  pub quoted : p.in_quote ≡ x.quoted
  pub escaped : p.in_escape ≡ x.escaped
  pub server : p.server_slot ≡ x.server
  pub player : p.player_slot ≡ x.player
  pub kvi : p.kvi ≡ x.kvi

abbrev pub counted : Parser → Parser
counted p = record p { json_len = (p.json_len + 1) % 2 ^ 32 }

module _ {S : Type 0} (callback : Callback S) where
  -- The machine goes from `p` over `input` to the spot `y`, with no call.
  pub record Moves (p : Parser) (input : Bytes) (y : Spot) : Type 0 where
    pub to : Parser
    pub at : At y to
    pub runs : (rest : Bytes) (s : S) → run callback p (input ++ rest) s ≡ run callback to rest s

  step_json-step :
      (p : Parser) (c : ℕ) (s : S)
      → p.content_length ≡ 0
      → step_json callback p c s ≡ step_state callback p.j_state (counted p) c s
  unfolding step_json
  step_json-step p c s z = simp z

  -- One byte in JSON mode, where no length was announced.
  pub run-json :
      (x : Spot) (p : Parser) (c : ℕ) (rest : Bytes) (s : S)
      → At x p
      → run callback p (c ∷ rest) s
        ≡ (step_state callback x.state (counted p) c s >>= λ q t. run callback q rest t)
  unfolding run step_mode
  run-json x p c rest s a =
      ap (λ mode. step_mode callback mode p c s >>= λ q t. run callback q rest t) a.mode
      ∙ ap (λ o. o >>= λ q t. run callback q rest t) (step_json-step p c s a.no_length)
      ∙ ap (λ j. step_state callback j (counted p) c s >>= λ q t. run callback q rest t) a.j_state

  -- One byte that makes no call.
  pub move :
      (x y : Spot) (p q : Parser) (c : ℕ)
      → At x p
      → At y q
      → ((s : S) → step_state callback x.state (counted p) c s ≡ continue q s)
      → Moves p (c ∷ []) y
  move x y p q c a b e = record {
    to = q;
    at = b;
    runs = λ rest s. run-json x p c rest s a ∙ ap (λ o. o >>= λ r t. run callback r rest t) (e s);
  }

  pub stay : (x : Spot) (p : Parser) → At x p → Moves p [] x
  stay x p a = record { to = p; at = a; runs = λ rest s. refl }

  -- One byte, and then more bytes.
  pub move_then :
      {y : Spot} (z : Spot) (p : Parser) (c : ℕ) (cs : Bytes)
      → Moves p (c ∷ []) y
      → ((q : Parser) → At y q → Moves q cs z)
      → Moves p (c ∷ cs) z
  move_then z p c cs m after =
      let n = after m.to m.at in
      record { to = n.to; at = n.at; runs = λ rest s. m.runs (cs ++ rest) s ∙ n.runs rest s }

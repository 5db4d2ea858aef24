-- ===== src/Net/Document/Blocks.antt =====
-- The machine where blocks open and close.
use Prim.Native.Nat.{ℕ, ◌+◌, ◌-◌, ◌*◌, ◌<◌}
use mathlib.Core.Logic.{◌⊎◌}
use bzcc_scanner.Base.{
  ◌≡◌, refl, List, [], ◌∷◌, ◌++◌, Bool, true, false, Option, some, length, arith, if◌then◌else◌,
  length-append, set, length-set, take, drop, replicate,
}
use bzcc_scanner.Base.CText.{Bytes}
use bzcc_scanner.Net.Kvi.{Kvi, max_depth, json_name_len}
use bzcc_scanner.Net.Parser.{
  JState, root_start, key_name, value_start, next, root_end, Parser, Callback, array_flag,
}
use bzcc_scanner.Net.Json.{step_root_start, step_value, step_key_name}
use bzcc_scanner.Net.Value.{step_state}
use bzcc_scanner.Net.Document.Tokens.{spot, At, Holds, counted, Moves, move}

Holds-append :
    (flags : List (Option Bool)) (bs cs : List Bool) → Holds flags (bs ++ cs) → Holds flags bs
Holds-append flags [] cs h = tt
Holds-append [] (b ∷ bs) cs h = h
Holds-append (x ∷ flags) (b ∷ bs) cs h = (h.0, Holds-append flags bs cs h.1)

Holds-set :
    (flags : List (Option Bool)) (bs : List Bool) (b : Bool)
    → Holds flags bs
    → length bs < length flags
    → Holds (set flags (length bs) (some b)) (bs ++ b ∷ [])
Holds-set [] bs b h l = elim l [ ]
Holds-set (x ∷ flags) [] b h l = (refl, tt)
Holds-set (x ∷ flags) (c ∷ bs) b h l = (h.0, Holds-set flags bs b h.1 (omega arith))

array_flag-Holds :
    (flags : List (Option Bool)) (bs cs : List Bool) (b : Bool)
    → Holds flags (bs ++ b ∷ cs)
    → array_flag flags (length bs) ≡ some b
array_flag-Holds [] [] cs b h = absurd h
array_flag-Holds (x ∷ flags) [] cs b h = h.0
array_flag-Holds [] (c ∷ bs) cs b h = absurd h
array_flag-Holds (x ∷ flags) (c ∷ bs) cs b h = array_flag-Holds flags bs cs b h.1

-- The variables after `[` or `{`.
abbrev pushed : Bool → Parser → Parser
pushed array p = record p {
  is_array = set p.is_array p.depth (some array);
  json_name =
      take (p.depth * max_depth) p.json_name
      ++ (take json_name_len (p.name ++ replicate json_name_len 0)
          ++ drop (p.depth * max_depth + json_name_len) p.json_name);
  j_state = if array then value_start else key_name;
  depth = p.depth + 1;
  name = [];
}

abbrev pub opening : Bool → ℕ
opening array = if array then b'[' else b'{'

module _ {S : Type 0} (callback : Callback S) (si pi : ℕ) (k : Kvi) where
  pub open_token :
      (array : Bool) (bs : List Bool) (name : Bytes) (p : Parser)
      → At (spot bs si pi k value_start false name []) p
      → length bs < 5
      → Moves callback p
          (opening array ∷ [])
          (spot (bs ++ array ∷ []) si pi k (if array then value_start else key_name) false [] [])
  unfolding step_state step_value
  open_token true bs name p a l =
      move callback (spot bs si pi k value_start false name [])
        (spot (bs ++ true ∷ []) si pi k value_start false [] []) p (pushed true (counted p)) b'[' a
        (ground (
          arith,
          length-append bs (true ∷ []),
          Holds-set p.is_array bs true a.flags,
          length-set p.is_array p.depth (some true),
        ))
        (λ s. ground arith)
  open_token false bs name p a l =
      move callback (spot bs si pi k value_start false name [])
        (spot (bs ++ false ∷ []) si pi k key_name false [] []) p (pushed false (counted p)) b'{' a
        (ground (
          arith,
          length-append bs (false ∷ []),
          Holds-set p.is_array bs false a.flags,
          length-set p.is_array p.depth (some false),
        ))
        (λ s. ground arith)

  -- A comma behind a value or a block.
  pub comma :
      (array : Bool) (bs : List Bool) (j : JState) (p : Parser)
      → At (spot (bs ++ array ∷ []) si pi k j false [] []) p
      → (j ≡ next) ⊎ (j ≡ value_start)
      → Moves callback p
          (b',' ∷ [])
          (spot (bs ++ array ∷ []) si pi k (if array then value_start else key_name) false [] [])
  unfolding step_state step_value
  comma true bs j p a h =
      move callback (spot (bs ++ true ∷ []) si pi k j false [] [])
        (spot (bs ++ true ∷ []) si pi k value_start false [] []) p
        (record (counted p) { name = []; j_state = value_start }) b',' a (ground arith)
        (λ s.
          ground
            (arith, length-append bs (true ∷ []), array_flag-Holds p.is_array bs [] true a.flags))
  comma false bs j p a h =
      move callback (spot (bs ++ false ∷ []) si pi k j false [] [])
        (spot (bs ++ false ∷ []) si pi k key_name false [] []) p
        (record (counted p) { name = []; value = []; j_state = key_name }) b',' a (ground arith)
        (λ s.
          ground
            (arith, length-append bs (false ∷ []), array_flag-Holds p.is_array bs [] false a.flags))

  -- `]` behind the elements of an array, or with none.
  pub close_array_token :
      (bs : List Bool) (j : JState) (p : Parser)
      → At (spot (bs ++ true ∷ []) si pi k j false [] []) p
      → (j ≡ next) ⊎ (j ≡ value_start)
      → 0 < length bs
      → Moves callback p (b']' ∷ []) (spot bs si pi k value_start false [] [])
  unfolding step_state step_value
  close_array_token bs j p a h l =
      move callback (spot (bs ++ true ∷ []) si pi k j false [] [])
        (spot bs si pi k value_start false [] []) p
        (record (counted p) { depth = p.depth - 1; j_state = value_start }) b']' a
        (ground
          (arith, length-append bs (true ∷ []), Holds-append p.is_array bs (true ∷ []) a.flags))
        (λ s.
          ground
            (arith, length-append bs (true ∷ []), array_flag-Holds p.is_array bs [] true a.flags))

-- The open blocks inside the root object, the list of servers, a server, its players, a player.
abbrev pub in_root : List Bool
in_root = false ∷ []

abbrev pub in_list : List Bool
in_list = false ∷ true ∷ []

abbrev pub in_server : List Bool
in_server = false ∷ true ∷ false ∷ []

abbrev pub in_players : List Bool
in_players = false ∷ true ∷ false ∷ true ∷ []

abbrev pub in_player : List Bool
in_player = false ∷ true ∷ false ∷ true ∷ false ∷ []

-- Where a `}` may stand, outside quotes.
abbrev pub Closes : JState → Type 0
Closes j = (j ≡ next) ⊎ (j ≡ value_start) ⊎ (j ≡ key_name)

module _ {S : Type 0} (callback : Callback S) (si pi : ℕ) (k : Kvi) where
  -- `}` of a player: the next player has the next index.
  pub close_player :
      (j : JState) (p : Parser)
      → At (spot in_player si pi k j false [] []) p
      → Closes j
      → Moves callback p (b'}' ∷ []) (spot in_players si (pi + 1) k value_start false [] [])
  unfolding step_state step_value step_key_name
  close_player j p a h =
      move callback (spot in_player si pi k j false [] [])
        (spot in_players si (pi + 1) k value_start false [] []) p
        (record (counted p) { depth = 4; j_state = value_start; player_slot = p.player_slot + 1 })
        b'}' a (ground (arith, Holds-append p.is_array in_players (false ∷ []) a.flags))
        (λ s. ground (
          arith,
          array_flag-Holds p.is_array in_players [] false a.flags,
          array_flag-Holds p.is_array in_server (false ∷ []) true a.flags,
        ))

  -- `}` of a server: the next server has the next index, and its players are counted from 0.
  pub close_server :
      (j : JState) (p : Parser)
      → At (spot in_server si pi k j false [] []) p
      → Closes j
      → Moves callback p (b'}' ∷ []) (spot in_list (si + 1) 0 k value_start false [] [])
  unfolding step_state step_value step_key_name
  close_server j p a h =
      move callback (spot in_server si pi k j false [] [])
        (spot in_list (si + 1) 0 k value_start false [] []) p
        (record (counted p) {
          depth = 2;
          j_state = value_start;
          server_slot = p.server_slot + 1;
          player_slot = 0;
        })
        b'}' a (ground (arith, Holds-append p.is_array in_list (false ∷ []) a.flags))
        (λ s. ground (
          arith,
          array_flag-Holds p.is_array in_list [] false a.flags,
          array_flag-Holds p.is_array in_root (false ∷ []) true a.flags,
        ))

  -- `}` of the root object.
  pub close_root :
      (p : Parser)
      → At (spot in_root si pi k value_start false [] []) p
      → Moves callback p (b'}' ∷ []) (spot [] si pi k root_end false [] [])
  unfolding step_state step_value
  close_root p a =
      move callback (spot in_root si pi k value_start false [] [])
        (spot [] si pi k root_end false [] []) p
        (record (counted p) { depth = 0; j_state = root_end }) b'}' a (ground arith)
        (λ s. ground (arith, array_flag-Holds p.is_array [] [] false a.flags))

  -- `{` of the root object.
  pub open_root :
      (p : Parser)
      → At (spot [] si pi k root_start false [] []) p
      → Moves callback p (b'{' ∷ []) (spot in_root si pi k key_name false [] [])
  unfolding step_state step_root_start
  open_root p a =
      move callback (spot [] si pi k root_start false [] [])
        (spot in_root si pi k key_name false [] []) p
        (record (counted p) {
          is_array = set p.is_array p.depth (some false);
          depth = p.depth + 1;
          j_state = key_name;
        })
        b'{' a
        (ground
          (arith, Holds-set p.is_array [] false tt, length-set p.is_array p.depth (some false)))
        (λ s. ground arith)

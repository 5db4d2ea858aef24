-- ===== src/Session/Keys.antt =====
-- The key names of the lobby data, and GetKeyIdentifier and GetGameTypeDescription.
use bzcc_scanner.Base.{suc, Bool, false, ◌==◌, Option, none, some, ℕ, List, [], ◌∷◌, if◌then◌else◌}
use bzcc_scanner.Base.Int.{ℤ, pos, negsuc}
use bzcc_scanner.Base.CText.{Bytes, codes, same_ignoring_case}

-- KeyToIdentifier
pub record KeyToIdentifier : Type 0 where
  pub str : Bytes
  pub id : ℕ

abbrev key_row : Bytes → ℕ → KeyToIdentifier
key_row s n = record { str = s; id = n }

-- PLAYER_KEY_TO_ID
abbrev pub player_keys : List KeyToIdentifier
player_keys =
    key_row (codes "n") 1
    ∷ key_row (codes "i") 2
    ∷ key_row (codes "t") 3
    ∷ key_row (codes "k") 4
    ∷ key_row (codes "s") 5
    ∷ key_row (codes "d") 6
    ∷ key_row (codes "") 0
    ∷ []

-- SERVER_KEY_TO_ID
abbrev pub server_keys : List KeyToIdentifier
server_keys =
    key_row (codes "n") 1
    ∷ key_row (codes "m") 2
    ∷ key_row (codes "v") 3
    ∷ key_row (codes "gtm") 10
    ∷ key_row (codes "mu") 0
    ∷ key_row (codes "gt") 11
    ∷ key_row (codes "gtd") 0
    ∷ key_row (codes "pg") 14
    ∷ key_row (codes "pgm") 6
    ∷ key_row (codes "t") 0
    ∷ key_row (codes "mm") 7
    ∷ key_row (codes "pm") 5
    ∷ key_row (codes "tps") 8
    ∷ key_row (codes "si") 0
    ∷ key_row (codes "h") 4
    ∷ key_row (codes "k") 9
    ∷ key_row (codes "ti") 12
    ∷ key_row (codes "ki") 13
    ∷ key_row (codes "g") 15
    ∷ key_row (codes "") 0
    ∷ []

-- GetKeyIdentifier; the tables end with a row whose name is empty.
unfoldable pub get_key_identifier : Bytes → List KeyToIdentifier → ℕ
unfolding same_ignoring_case
get_key_identifier str [] = 0
get_key_identifier str (row ∷ rows) =
    let rest = get_key_identifier str rows in
    elim row.str [ [] ↦ 0 | c ∷ cs ↦ if same_ignoring_case (c ∷ cs) str then row.id else rest ]

-- GAMETYPES; the last row has NULL as its description.
abbrev pub game_types : List (Option Bytes)
game_types =
    some (codes "Unknown") ∷ some (codes "Deathmatch") ∷ some (codes "Strategy") ∷ none ∷ []

abbrev is_index : ℕ → ℤ → Bool
is_index i (pos n) = i == n
is_index i (negsuc n) = false

-- The loop of GetGameTypeDescription from index `i` on; `none` is a read through NULL. A row with
-- an empty description ends it with the first description.
unfoldable pub description_from : ℕ → ℤ → List (Option Bytes) → Option Bytes
description_from i id [] = none
description_from i id (none ∷ rows) = none
description_from i id (some [] ∷ rows) = some (codes "Unknown")
description_from i id (some (c ∷ cs) ∷ rows) =
    let rest = description_from (suc i) id rows in if is_index i id then some (c ∷ cs) else rest

-- GetGameTypeDescription
unfoldable pub get_game_type_description : ℤ → Option Bytes
unfolding description_from
get_game_type_description id = description_from 0 id game_types

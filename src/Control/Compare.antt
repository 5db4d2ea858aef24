-- ===== src/Control/Compare.antt =====
-- bzccscanner.c: CompareFunc, the order of the list of games.
use bzcc_scanner.Base.{
  ℕ, ◌+◌, ◌-◌, ◌%◌, ◌^◌, Bool, true, false, Option, none, some, if◌then◌else◌, ◌==◌,
}
use bzcc_scanner.Base.Int.{ℤ, pos, negsuc, of_bits, to_dword}
use bzcc_scanner.Session.Info.{GameInfo}
use bzcc_scanner.Session.Keys.{get_game_type_description}
use bzcc_scanner.Settings.Registry.{Text}

-- CompareString on two strings: 0 if it fails, otherwise CSTR_LESS_THAN (1), CSTR_EQUAL (2) or
-- CSTR_GREATER_THAN (3).
abbrev pub CompareString : Type 0
CompareString = Text → Text → ℕ

-- `a - b` and `-a` on an `int` of 32 bits.
abbrev pub minus : ℤ → ℤ → ℤ
minus a b = of_bits ((to_dword a + (2 ^ 32 - to_dword b)) % 2 ^ 32)

abbrev pub opposite : ℤ → ℤ
opposite a = minus (pos 0) a

-- `reverse ? -iResult : iResult`
abbrev pub directed : Bool → ℤ → ℤ
directed true a = opposite a
directed false a = a

-- What a column compares: two numbers, two texts, or nothing, where the names are compared.
pub data Keys : Type 0 where
  numbers : (a b : ℤ) → Keys
  texts : (a b : Text) → Keys
  by_name : Keys

abbrev is_column : ℕ → ℤ → Bool
is_column k (pos n) = n == k
is_column k (negsuc n) = false

abbrev of_bool : Bool → ℤ
of_bool true = pos 1
of_bool false = pos 0

-- The descriptions of two types of game.
abbrev described : Option Text → Option Text → Option Keys
described none b = none
described (some a) none = none
described (some a) (some b) = some (texts a b)

-- The `switch` on the column; `none` is a read through NULL in GetGameTypeDescription.
unfoldable pub sort_keys : ℤ → GameInfo → GameInfo → Option Keys
unfolding get_game_type_description
sort_keys column g h =
    if is_column 1 column
    then some (numbers (of_bool g.pwd) (of_bool h.pwd))
    else if is_column 2 column
    then some (numbers g.server_ping h.server_ping)
    else if is_column 3 column
    then some (numbers (pos g.player_count) (pos h.player_count))
    else if is_column 4 column
    then some (texts g.map h.map)
    else if is_column 5 column
    then described (get_game_type_description g.gametype) (get_game_type_description h.gametype)
    else if is_column 6 column
    then some (texts g.mod_name h.mod_name)
    else some by_name

-- The rest of CompareFunc, which never falls back to the names where the column compares something.
unfoldable pub compare_keys : CompareString → Bool → GameInfo → GameInfo → Keys → ℤ
compare_keys cs reverse g h (numbers a b) = directed reverse (minus a b)
compare_keys cs reverse g h (texts a b) =
    if cs a b == 0 then pos 0 else directed reverse (minus (pos (cs a b)) (pos 2))
compare_keys cs reverse g h by_name =
    directed reverse
      (if cs g.name h.name == 0 then pos 0 else minus (pos (cs g.name h.name)) (pos 2))

-- CompareFunc
unfoldable pub compare_func : CompareString → ℤ → Bool → GameInfo → GameInfo → Option ℤ
unfolding sort_keys compare_keys
compare_func cs column reverse g h = elim (sort_keys column g h) [
  | none ↦ none
  | some keys ↦ some (compare_keys cs reverse g h keys)
]

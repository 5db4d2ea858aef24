-- ===== src/Session/KeyLaws.antt =====
-- The types of game that GetGameTypeDescription knows.
use Prim.Native.Nat.{◌≤◌}
use bzcc_scanner.Base.{◌≡◌, refl, ◌↔◌, none, arith}
use bzcc_scanner.Base.Int.{ℤ, pos, negsuc}
use bzcc_scanner.Session.Keys.{get_game_type_description, description_from}

abbrev pub Unlisted : ℤ → Type 0
Unlisted (pos n) = 3 ≤ n
Unlisted (negsuc n) = Unit

-- GetGameTypeDescription reads through the NULL that ends its table exactly for the numbers other
-- than 0, 1 and 2.
pub get_game_type_description-Unlisted : (z : ℤ) → (get_game_type_description z ≡ none) ↔ Unlisted z
unfolding get_game_type_description description_from
get_game_type_description-Unlisted (pos n) = ((λ e. ground arith), (λ h. ground arith))
get_game_type_description-Unlisted (negsuc n) = ((λ e. tt), (λ h. refl))

-- ===== src/Session/Valid.antt =====
-- The invariant of the lists of games and players; the changes of one game or player keep it.
use Prim.Native.Nat.{ℕ, zero, suc, ◌<◌, ◌≤◌}
use bzcc_scanner.Base.{
  subst, ◌≡◌, refl, ap, sym, ◌∙◌, arith, ◌⊎◌, inl, inr, All, length, length-set, Option, none, some,
  List, [], ◌∷◌, get_elem?, set, Option-cases,
}
use bzcc_scanner.Session.Info.{PlayerInfo, GameInfo, max_servers, max_players, max_mods}
use bzcc_scanner.Session.State.{
  Session, change_game, try_change_game, change_player, change_player_at,
}

abbrev pub HasArrays : GameInfo → Type 0
HasArrays g = (length g.playerinfo ≡ max_players) × (length g.mod_id ≡ max_mods)

abbrev pub PointsToGame : Option ℕ → Type 0
PointsToGame none = ⊥
PointsToGame (some i) = i < max_servers

abbrev pub PointsToPlayer : Option (ℕ × ℕ) → Type 0
PointsToPlayer none = ⊥
PointsToPlayer (some (i, j)) = (i < max_servers) × (j < max_players)

pub record IsSession (s : Session) : Type 0 where
  pub games_length : length s.gameinfo ≡ max_servers
  pub arrays_lengths : All HasArrays s.gameinfo
  pub servers_bound : s.scan_count_servers ≤ max_servers
  pub players_bound : s.scan_count_players ≤ max_players
  pub game_pointer : (s.scan_count_servers ≡ 0) ⊎ PointsToGame s.scan_game
  pub player_pointer : (s.scan_count_players ≡ 0) ⊎ PointsToPlayer s.scan_player

pub get_elem?-lt :
    {A : Type 0} (xs : List A) (i : ℕ) → i < length xs → (x : A) × (get_elem? xs i ≡ some x)
get_elem?-lt [] i h = elim h [ ]
get_elem?-lt (x ∷ xs) zero h = (x, refl)
get_elem?-lt (x ∷ xs) (suc i) h = get_elem?-lt xs i (omega arith)

pub All-get_elem? :
    {A : Type 0} (P : A → Type 0) (xs : List A) (i : ℕ) (x : A)
    → All P xs
    → get_elem? xs i ≡ some x
    → P x
All-get_elem? P [] i x a e = ground arith
All-get_elem? P (y ∷ xs) zero x (p, a) e = ground arith
All-get_elem? P (y ∷ xs) (suc i) x (p, a) e = All-get_elem? P xs i x a e

pub All-set :
    {A : Type 0} (P : A → Type 0) (xs : List A) (i : ℕ) (x : A)
    → All P xs
    → P x
    → All P (set xs i x)
All-set P [] i x a h = tt
All-set P (y ∷ xs) zero x (p, a) h = (h, a)
All-set P (y ∷ xs) (suc i) x (p, a) h = (p, All-set P xs i x a h)

-- A change of one game keeps the invariant.
pub set_game-IsSession :
    (s : Session) (i : ℕ) (g : GameInfo)
    → IsSession s
    → HasArrays g
    → IsSession (record s { gameinfo = set s.gameinfo i g })
set_game-IsSession s i g v h = record {
  games_length = length-set s.gameinfo i g ∙ v.games_length;
  arrays_lengths = All-set HasArrays s.gameinfo i g v.arrays_lengths h;
  servers_bound = v.servers_bound;
  players_bound = v.players_bound;
  game_pointer = v.game_pointer;
  player_pointer = v.player_pointer;
}

-- Not the end of a NULL pointer: what is left is valid and its pointers and counts are as they
-- were.
pub record Same (s t : Session) : Type 0 where
  pub valid : IsSession t
  pub same_game : t.scan_game ≡ s.scan_game
  pub same_player : t.scan_player ≡ s.scan_player

abbrev pub Kept : Session → Option Session → Type 0
Kept s none = ⊥
Kept s (some t) = Same s t

module _ (s : Session) where
  change_game-runs :
      (f : GameInfo → GameInfo) (i : ℕ) (g : GameInfo)
      → s.scan_game ≡ some i
      → get_elem? s.gameinfo i ≡ some g
      → change_game f s ≡ some (record s { gameinfo = set s.gameinfo i (f g) })
  unfolding change_game
  change_game-runs f i g e at = ground arith

  try_change_game-runs :
      (f : GameInfo → Option GameInfo) (i : ℕ) (g g' : GameInfo)
      → s.scan_game ≡ some i
      → get_elem? s.gameinfo i ≡ some g
      → f g ≡ some g'
      → try_change_game f s ≡ some (record s { gameinfo = set s.gameinfo i g' })
  unfolding try_change_game
  try_change_game-runs f i g g' e at made = ground arith

  change_player_at-runs :
      (i j : ℕ) (f : PlayerInfo → PlayerInfo) (g : GameInfo) (p : PlayerInfo)
      → get_elem? s.gameinfo i ≡ some g
      → get_elem? g.playerinfo j ≡ some p
      → change_player_at i j f s
        ≡ some (record s {
          gameinfo = set s.gameinfo i (record g { playerinfo = set g.playerinfo j (f p) });
        })
  unfolding change_player_at
  change_player_at-runs i j f g p at there = ground arith

  change_player-runs :
      (f : PlayerInfo → PlayerInfo) (i j : ℕ)
      → s.scan_player ≡ some (i, j)
      → change_player f s ≡ change_player_at i j f s
  unfolding change_player
  change_player-runs f i j e =
      ap (λ o. elim o [ none ↦ none | some (a, b) ↦ change_player_at a b f s ]) e

module _ (s : Session) (v : IsSession s) where
  pub change_game-Kept :
      (f : GameInfo → GameInfo)
      → ((g : GameInfo) → HasArrays g → HasArrays (f g))
      → PointsToGame s.scan_game
      → Kept s (change_game f s)
  change_game-Kept f keep p = elim (Option-cases s.scan_game) [
    | inl e ↦ absurd (subst PointsToGame e p)
    | inr (i, e) ↦
        let (g, at) =
          get_elem?-lt s.gameinfo i
            (subst (λ n. i < n) (sym v.games_length) (subst PointsToGame e p)) in
        subst (Kept s) (sym (change_game-runs s f i g e at)) record {
          valid =
              set_game-IsSession s i (f g) v
                (keep g (All-get_elem? HasArrays s.gameinfo i g v.arrays_lengths at));
          same_game = refl;
          same_player = refl;
        }
  ]

  pub try_change_game-Kept :
      (f : GameInfo → Option GameInfo)
      → ((g : GameInfo) → HasArrays g → (g' : GameInfo) × (f g ≡ some g') × HasArrays g')
      → PointsToGame s.scan_game
      → Kept s (try_change_game f s)
  try_change_game-Kept f keep p = elim (Option-cases s.scan_game) [
    | inl e ↦ absurd (subst PointsToGame e p)
    | inr (i, e) ↦
        let (g, at) =
          get_elem?-lt s.gameinfo i
            (subst (λ n. i < n) (sym v.games_length) (subst PointsToGame e p)) in
        let (g', made, has) = keep g (All-get_elem? HasArrays s.gameinfo i g v.arrays_lengths at) in
        subst (Kept s) (sym (try_change_game-runs s f i g g' e at made))
          record { valid = set_game-IsSession s i g' v has; same_game = refl; same_player = refl }
  ]

  pub change_player_at-Kept :
      (i j : ℕ) (f : PlayerInfo → PlayerInfo)
      → i < max_servers
      → j < max_players
      → Kept s (change_player_at i j f s)
  change_player_at-Kept i j f hi hj =
      let (g, at) = get_elem?-lt s.gameinfo i (subst (λ n. i < n) (sym v.games_length) hi) in
      let full = All-get_elem? HasArrays s.gameinfo i g v.arrays_lengths at in
      let (p, there) = get_elem?-lt g.playerinfo j (subst (λ n. j < n) (sym full.0) hj) in
      subst (Kept s) (sym (change_player_at-runs s i j f g p at there)) record {
        valid =
            set_game-IsSession s i (record g { playerinfo = set g.playerinfo j (f p) }) v
              (length-set g.playerinfo j (f p) ∙ full.0, full.1);
        same_game = refl;
        same_player = refl;
      }

  pub change_player-Kept :
      (f : PlayerInfo → PlayerInfo) → PointsToPlayer s.scan_player → Kept s (change_player f s)
  change_player-Kept f p = elim (Option-cases s.scan_player) [
    | inl e ↦ absurd (subst PointsToPlayer e p)
    | inr ((i, j), e) ↦
        let (hi, hj) = subst PointsToPlayer e p in
        subst (Kept s) (sym (change_player-runs s f i j e)) (change_player_at-Kept i j f hi hj)
  ]

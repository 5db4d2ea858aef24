-- ===== src/Session/Keeps.antt =====
-- Parts of ProcessSessionInfo that keep the invariant of the lists of games and players.
use Prim.Native.Nat.{ℕ, ◌+◌, ◌<◌}
use bzcc_scanner.Base.{
  ◌≡◌, refl, ap, length, ◌∙◌, arith, ◌⊎◌, inl, inr, length-set, Option, none, some, set, false, leb,
}
use bzcc_scanner.Base.CText.{Bytes}
use bzcc_scanner.Net.Kvi.{Kvi}
use bzcc_scanner.Session.Info.{GameInfo, zero_game, max_servers, max_mods}
use bzcc_scanner.Session.Keys.{get_game_type_description}
use bzcc_scanner.Session.State.{
  game_new, game_open, sort_items, status_shown, Session, Event, say, and_then, Entered, entered,
  skipped, null_pointer, no_description, Progress, going, lost, untyped,
}
use bzcc_scanner.Session.Fields.{Library, set_mods, set_game_field}
use bzcc_scanner.Session.ModLaws.{split_raw_mod_ids_bound}
use bzcc_scanner.Session.Last.{notify_game, sorted, counted}
use bzcc_scanner.Session.Closing.{closing}
use bzcc_scanner.Session.Process.{go_on}
use bzcc_scanner.Session.Valid.{
  HasArrays, PointsToGame, PointsToPlayer, IsSession, Same, Kept, All-set,
}

abbrev pub Goes : (Session → Type 0) → Entered → Type 0
Goes P (entered s) = P s
Goes P skipped = Unit
Goes P null_pointer = ⊥
Goes P (no_description z) = get_game_type_description z ≡ none

-- The callback's state is valid, or the type of a game has no description.
abbrev pub Holds : Progress → Type 0
Holds (going s) = IsSession s
Holds lost = ⊥
Holds (untyped z) = get_game_type_description z ≡ none

pub and_then-Goes :
    (P : Session → Type 0) (s : Session) (o : Option Session) (f : Session → Entered)
    → Kept s o
    → ((t : Session) → Same s t → Goes P (f t))
    → Goes P (and_then null_pointer o f)
and_then-Goes P s none f k h = absurd k
and_then-Goes P s (some t) f k h = h t k

pub go_on-Goes :
    (P Q : Session → Type 0) (o : Entered) (f : Session → Entered)
    → Goes P o
    → ((t : Session) → P t → Goes Q (f t))
    → Goes Q (go_on o f)
go_on-Goes P Q (entered s) f k h = h s k
go_on-Goes P Q skipped f k h = tt
go_on-Goes P Q null_pointer f k h = absurd k
go_on-Goes P Q (no_description z) f k h = k

pub say-IsSession : (e : Event) (s : Session) → IsSession s → IsSession (say e s)
say-IsSession e s v = record {
  games_length = v.games_length;
  arrays_lengths = v.arrays_lengths;
  servers_bound = v.servers_bound;
  players_bound = v.players_bound;
  game_pointer = v.game_pointer;
  player_pointer = v.player_pointer;
}

pub notify_game-IsSession : (g : GameInfo) (s : Session) → IsSession s → IsSession (notify_game g s)
unfolding notify_game
notify_game-IsSession g s v =
    ground (arith, say-IsSession (game_new g) s v, say-IsSession (game_open g) s v)

pub sorted-IsSession : (s : Session) → IsSession s → IsSession (sorted s)
sorted-IsSession s v = ground (arith, say-IsSession sort_items s v)

total-IsSession :
    (n : ℕ) (s : Session) → IsSession s → IsSession (record s { total_player_count = n })
total-IsSession n s v = record {
  games_length = v.games_length;
  arrays_lengths = v.arrays_lengths;
  servers_bound = v.servers_bound;
  players_bound = v.players_bound;
  game_pointer = v.game_pointer;
  player_pointer = v.player_pointer;
}

pub counted-IsSession : (s : Session) → IsSession s → IsSession (counted s)
counted-IsSession s v = ground (
  arith,
  say-IsSession status_shown _ (total-IsSession (s.total_player_count + s.scan_count_players) s v),
)

pub closing-IsSession : (k : Kvi) (s : Session) → IsSession s → IsSession (closing k s)
unfolding closing
closing-IsSession k s v = record {
  games_length = v.games_length;
  arrays_lengths = v.arrays_lengths;
  servers_bound = v.servers_bound;
  players_bound = v.players_bound;
  game_pointer = v.game_pointer;
  player_pointer = v.player_pointer;
}

-- A change that writes outside no array.
abbrev Changed : GameInfo → Option GameInfo → Type 0
Changed g none = ⊥
Changed g (some g') = (g'.playerinfo ≡ g.playerinfo) × (length g'.mod_id ≡ length g.mod_id)

set_mods-Changed : (v : Bytes) (g : GameInfo) → HasArrays g → Changed g (set_mods v g)
unfolding set_mods
set_mods-Changed v g (e, full) =
    let (r, run, _, same) =
      split_raw_mod_ids_bound max_mods v g.mod_id (omega arith) (omega (arith, full)) in
    rw (Changed, run) (refl, same)

set_game_field-Changed :
    (lib : Library) (id : ℕ) (v : Bytes) (g : GameInfo)
    → HasArrays g
    → Changed g (set_game_field lib id v g)
unfolding set_game_field
set_game_field-Changed lib id v g a = ground (arith, set_mods-Changed v g a)

Changed-HasArrays :
    (g : GameInfo) (o : Option GameInfo)
    → HasArrays g
    → Changed g o
    → (g' : GameInfo) × (o ≡ some g') × HasArrays g'
Changed-HasArrays g none a h = absurd h
Changed-HasArrays g (some g') (e, f) (p, q) = (g', refl, (ap length p ∙ e, q ∙ f))

pub set_game_field-HasArrays :
    (lib : Library) (id : ℕ) (v : Bytes) (g : GameInfo)
    → HasArrays g
    → (g' : GameInfo) × (set_game_field lib id v g ≡ some g') × HasArrays g'
set_game_field-HasArrays lib id v g a =
    Changed-HasArrays g (set_game_field lib id v g) a (set_game_field-Changed lib id v g a)

-- In a server whose game is `scan_game`.
pub record InGame (s : Session) : Type 0 where
  pub valid : IsSession s
  pub pointer : PointsToGame s.scan_game

pub record InPlayer (s : Session) : Type 0 where
  pub in_game : InGame s
  pub player : PointsToPlayer s.scan_player

zero_game-HasArrays : HasArrays zero_game
zero_game-HasArrays = (refl, refl)

pub positive : (n i : ℕ) (P : Type 0) → (n ≡ 0) ⊎ P → leb n i ≡ false → P
positive n i P (inl z) e = ground arith
positive n i P (inr p) e = p

-- The next server.
pub started :
    (i : ℕ) (s : Session)
    → IsSession s
    → i < max_servers
    → i ≡ s.scan_count_servers
    → InGame (record s {
      scan_count_servers = s.scan_count_servers + 1;
      scan_count_players = 0;
      scan_game = some i;
      gameinfo = set s.gameinfo i zero_game;
    })
started i s v h e = record {
  valid = record {
    games_length = length-set s.gameinfo i zero_game ∙ v.games_length;
    arrays_lengths = All-set HasArrays s.gameinfo i zero_game v.arrays_lengths (refl, refl);
    servers_bound = omega arith;
    players_bound = omega arith;
    game_pointer = inr h;
    player_pointer = inl refl;
  };
  pointer = h;
}

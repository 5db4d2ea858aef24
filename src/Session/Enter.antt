-- ===== src/Session/Enter.antt =====
-- The next server or player begins: the invariant, and the pointers that are set.
use Prim.Native.Nat.{ℕ, ◌+◌, ◌<◌}
use bzcc_scanner.Base.{
  ◌≡◌, refl, sym, subst, arith, inl, inr, some, get_elem?, set, true, false, leb, Bool-cases,
}
use bzcc_scanner.Session.Info.{GameInfo, zero_player, zero_game, max_servers, max_players}
use bzcc_scanner.Session.State.{Session, and_then, change_player_at, entered, skipped, null_pointer}
use bzcc_scanner.Session.Process.{enter_server, enter_player_of}
use bzcc_scanner.Session.Valid.{PointsToGame, IsSession, Same, get_elem?-lt, change_player_at-Kept}
use bzcc_scanner.Session.Keeps.{Goes, and_then-Goes, InGame, InPlayer, positive, started}

module _ (i : ℕ) (s : Session) where
  enter_server-old : leb s.scan_count_servers i ≡ false → enter_server i s ≡ entered s
  unfolding enter_server
  enter_server-old e = rw e refl

  enter_server-skips :
      leb s.scan_count_servers i ≡ true
      → leb (s.scan_count_servers + 1) i ≡ true
      → enter_server i s ≡ skipped
  unfolding enter_server
  enter_server-skips e f = rw e (rw f refl)

  enter_server-starts :
      (g : GameInfo)
      → leb s.scan_count_servers i ≡ true
      → leb (s.scan_count_servers + 1) i ≡ false
      → get_elem? s.gameinfo i ≡ some g
      → enter_server i s
        ≡ entered (record s {
          scan_count_servers = s.scan_count_servers + 1;
          scan_count_players = 0;
          scan_game = some i;
          gameinfo = set s.gameinfo i zero_game;
        })
  unfolding enter_server
  enter_server-starts g e f at = rw e (rw f (rw at refl))

equal_index : (n i : ℕ) → leb n i ≡ true → leb (n + 1) i ≡ false → i ≡ n
equal_index n i e f = ground arith

pub enter_server-Goes :
    (i : ℕ) (s : Session) → IsSession s → i < max_servers → Goes InGame (enter_server i s)
enter_server-Goes i s v h =
    let (g, at) = get_elem?-lt s.gameinfo i (subst (λ n. i < n) (sym v.games_length) h) in
    elim (Bool-cases (leb s.scan_count_servers i)) [
      | inl e ↦ elim (Bool-cases (leb (s.scan_count_servers + 1) i)) [
        | inl f ↦ subst (Goes InGame) (sym (enter_server-skips i s e f)) tt
        | inr f ↦
            subst (Goes InGame) (sym (enter_server-starts i s g e f at))
              (started i s v h (equal_index s.scan_count_servers i e f))
      ]
      | inr e ↦
          subst (Goes InGame) (sym (enter_server-old i s e))
            record { valid = v; pointer = positive s.scan_count_servers i _ v.game_pointer e }
    ]

module _ (i j : ℕ) (s : Session) where
  enter_player_of-old : leb s.scan_count_players j ≡ false → enter_player_of i j s ≡ entered s
  unfolding enter_player_of
  enter_player_of-old e = rw e refl

  enter_player_of-skips :
      leb s.scan_count_players j ≡ true
      → leb (s.scan_count_players + 1) j ≡ true
      → enter_player_of i j s ≡ skipped
  unfolding enter_player_of
  enter_player_of-skips e f = rw e (rw f refl)

  enter_player_of-starts :
      leb s.scan_count_players j ≡ true
      → leb (s.scan_count_players + 1) j ≡ false
      → enter_player_of i j s
        ≡ and_then null_pointer (change_player_at i j (λ p. zero_player) s) (λ t.
          entered
            (record t { scan_count_players = s.scan_count_players + 1; scan_player = some (i, j) }))
  unfolding enter_player_of
  enter_player_of-starts e f = rw e (rw f refl)

next_player :
    (i j : ℕ) (s t : Session)
    → InGame s
    → i < max_servers
    → j < max_players
    → j ≡ s.scan_count_players
    → Same s t
    → InPlayer
        (record t { scan_count_players = s.scan_count_players + 1; scan_player = some (i, j) })
next_player i j s t v hi hj e same =
    let w = same.valid in
    record {
      in_game = record {
        valid = record {
          games_length = w.games_length;
          arrays_lengths = w.arrays_lengths;
          servers_bound = w.servers_bound;
          players_bound = omega arith;
          game_pointer = w.game_pointer;
          player_pointer = inr (hi, hj);
        };
        pointer = subst PointsToGame (sym same.same_game) v.pointer;
      };
      player = (hi, hj);
    }

pub enter_player_of-Goes :
    (i j : ℕ) (s : Session)
    → InGame s
    → i < max_servers
    → j < max_players
    → Goes InPlayer (enter_player_of i j s)
enter_player_of-Goes i j s v hi hj = elim (Bool-cases (leb s.scan_count_players j)) [
  | inl e ↦ elim (Bool-cases (leb (s.scan_count_players + 1) j)) [
    | inl f ↦ subst (Goes InPlayer) (sym (enter_player_of-skips i j s e f)) tt
    | inr f ↦ subst (Goes InPlayer) (sym (enter_player_of-starts i j s e f)) (
        and_then-Goes InPlayer s _ _ (change_player_at-Kept s v.valid i j (λ p. zero_player) hi hj)
          (λ t same. next_player i j s t v hi hj (equal_index s.scan_count_players j e f) same))
  ]
  | inr e ↦
      subst (Goes InPlayer) (sym (enter_player_of-old i j s e))
        record { in_game = v; player = positive s.scan_count_players j _ v.valid.player_pointer e }
]

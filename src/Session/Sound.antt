-- ===== src/Session/Sound.antt =====
-- ProcessSessionInfo keeps the invariant of the lists of games and players, and goes through no NULL
-- pointer.
use Prim.Native.Nat.{ℕ, ◌<◌}
use bzcc_scanner.Base.{
  ap, ◌≡◌, refl, sym, subst, arith, inl, inr, Option, none, some, get_elem?, Bool, true, false, leb,
  not, ◌||◌, Option-cases, Bool-cases,
}
use bzcc_scanner.Base.CText.{Bytes}
use bzcc_scanner.Net.Kvi.{
  Kvi, Status, normal, last, complete, error, Message, index_out_of_range, key_string, value_string,
}
use bzcc_scanner.Session.Info.{GameInfo, max_servers, max_players}
use bzcc_scanner.Session.Keys.{
  get_game_type_description, player_keys, server_keys, get_key_identifier,
}
use bzcc_scanner.Session.State.{
  say, row, row, Session, and_then, change_game, Entered, entered, skipped, null_pointer,
  no_description, going,
}
use bzcc_scanner.Session.Fields.{Library, set_player_field, set_game_field}
use bzcc_scanner.Session.Last.{
  counted, sorted, notify_game, count_player, end_player, name_mod, scanned_game, flush_game,
  end_server,
}
use bzcc_scanner.Session.Process.{
  enter_server, enter_player_of, player_data, server_data, reply_of, in_half, in_server,
  after_server, refuse, refuse_with, process_value, process_end, process_status,
  process_session_info,
}
use bzcc_scanner.Session.Valid.{
  PointsToGame, IsSession, Kept, get_elem?-lt, change_game-Kept, try_change_game-Kept,
  change_player-Kept,
}
use bzcc_scanner.Session.Keeps.{
  Goes, Holds, and_then-Goes, go_on-Goes, say-IsSession, notify_game-IsSession, sorted-IsSession,
  counted-IsSession, closing-IsSession, set_game_field-HasArrays, InGame, InPlayer,
}
use bzcc_scanner.Session.Enter.{enter_server-Goes, enter_player_of-Goes}

flush_game-untyped :
    (g : GameInfo) (s : Session)
    → get_game_type_description g.gametype ≡ none
    → flush_game g s ≡ no_description g.gametype
unfolding flush_game
flush_game-untyped g s e =
    ap
      (λ o. elim o [
        | none ↦ no_description g.gametype
        | some t ↦ entered (counted (sorted (notify_game g (say row s))))
      ])
      e

flush_game-typed :
    (g : GameInfo) (s : Session) (text : Bytes)
    → get_game_type_description g.gametype ≡ some text
    → flush_game g s ≡ entered (counted (sorted (notify_game g (say row s))))
unfolding flush_game
flush_game-typed g s text e =
    ap
      (λ o. elim o [
        | none ↦ no_description g.gametype
        | some t ↦ entered (counted (sorted (notify_game g (say row s))))
      ])
      e

flush_game-Goes : (g : GameInfo) (s : Session) → IsSession s → Goes IsSession (flush_game g s)
flush_game-Goes g s v = elim (Option-cases (get_game_type_description g.gametype)) [
  | inl e ↦ subst (Goes IsSession) (sym (flush_game-untyped g s e)) e
  | inr (text, e) ↦
      subst (Goes IsSession) (sym (flush_game-typed g s text e)) (
        counted-IsSession _
          (sorted-IsSession _ (notify_game-IsSession g _ (say-IsSession row s v))))
]

end_player-Kept :
    (st : Status) (s : Session) → IsSession s → PointsToGame s.scan_game → Kept s (end_player st s)
unfolding end_player
end_player-Kept last s v p = change_game-Kept s v count_player (λ g a. a) p
end_player-Kept normal s v p = record { valid = v; same_game = refl; same_player = refl }
end_player-Kept complete s v p = record { valid = v; same_game = refl; same_player = refl }
end_player-Kept error s v p = record { valid = v; same_game = refl; same_player = refl }

flushed : Session → Entered
flushed s = elim (scanned_game s) [ none ↦ null_pointer | some g ↦ flush_game g s ]

flushed-runs :
    (s : Session) (i : ℕ) (g : GameInfo)
    → s.scan_game ≡ some i
    → get_elem? s.gameinfo i ≡ some g
    → flushed s ≡ flush_game g s
unfolding flushed
flushed-runs s i g e at = ground arith

flushed-Goes : (s : Session) → IsSession s → PointsToGame s.scan_game → Goes IsSession (flushed s)
flushed-Goes s v p = elim (Option-cases s.scan_game) [
  | inl e ↦ absurd (subst PointsToGame e p)
  | inr (i, e) ↦
      let (g, at) =
        get_elem?-lt s.gameinfo i
          (subst (λ n. i < n) (sym v.games_length) (subst PointsToGame e p)) in
      subst (Goes IsSession) (sym (flushed-runs s i g e at)) (flush_game-Goes g s v)
]

end_server-Goes :
    (st : Status) (s : Session)
    → IsSession s
    → PointsToGame s.scan_game
    → Goes IsSession (end_server st s)
unfolding end_server flushed
end_server-Goes last s v p =
    and_then-Goes IsSession s (change_game name_mod s) flushed
      (change_game-Kept s v name_mod (λ g a. a) p)
      (λ t same. flushed-Goes t same.valid (subst PointsToGame (sym same.same_game) p))
end_server-Goes normal s v p = v
end_server-Goes complete s v p = v
end_server-Goes error s v p = v

to_entered :
    (s : Session) (o : Option Session) → Kept s o → Goes IsSession (and_then null_pointer o entered)
to_entered s none k = k
to_entered s (some t) k = k.valid

server_data-Goes :
    (lib : Library) (k : Kvi) (s : Session) → InGame s → Goes IsSession (server_data lib k s)
unfolding server_data
server_data-Goes lib k s v =
    let id = get_key_identifier (key_string k) server_keys in
    and_then-Goes IsSession s _ _
      (try_change_game-Kept s v.valid (set_game_field lib id (value_string k))
        (set_game_field-HasArrays lib id (value_string k)) v.pointer)
      (λ t same.
        end_server-Goes k.status t same.valid (subst PointsToGame (sym same.same_game) v.pointer))

player_data-Goes :
    (lib : Library) (k : Kvi) (i : ℕ) (s : Session)
    → InGame s
    → i < max_servers
    → k.player_index < max_players
    → Goes IsSession (player_data lib k i s)
unfolding player_data
player_data-Goes lib k i s v hi hj =
    let id = get_key_identifier (key_string k) player_keys in
    go_on-Goes InPlayer IsSession (enter_player_of i k.player_index s) _
      (enter_player_of-Goes i k.player_index s v hi hj)
      (λ t w.
        and_then-Goes IsSession t _ _
          (change_player-Kept t w.in_game.valid (set_player_field lib id (value_string k)) w.player)
          (λ u same. to_entered u (end_player k.status u) (
            end_player-Kept k.status u same.valid
              (subst PointsToGame (sym same.same_game) w.in_game.pointer))))

reply_of-Holds :
    (m : Message) (k : Kvi) (s : Session) (o : Entered)
    → IsSession s
    → Goes IsSession o
    → Holds (reply_of m k s o).state
reply_of-Holds m k s (entered t) v h = h
reply_of-Holds m k s skipped v h = v
reply_of-Holds m k s null_pointer v h = absurd h
reply_of-Holds m k s (no_description z) v h = h

in_half-Holds :
    (lib : Library) (k : Kvi) (player : Bool) (game : Option ℕ) (s : Session)
    → InGame s
    → PointsToGame game
    → k.player_index < max_players
    → Holds (in_half lib k player game s).state
unfolding in_half
in_half-Holds lib k false game s v h hj =
    reply_of-Holds _ k s _ v.valid (server_data-Goes lib k s v)
in_half-Holds lib k true none s v h hj = absurd h
in_half-Holds lib k true (some i) s v h hj =
    reply_of-Holds _ k s _ v.valid (player_data-Goes lib k i s v h hj)

after_server-Holds :
    (lib : Library) (k : Kvi) (s : Session) (o : Entered)
    → IsSession s
    → Goes InGame o
    → k.player_index < max_players
    → Holds (after_server lib k s o).state
unfolding in_server
after_server-Holds lib k s (entered t) v w hj =
    in_half-Holds lib k k.is_player t.scan_game t w w.pointer hj
after_server-Holds lib k s skipped v w hj = v
after_server-Holds lib k s null_pointer v w hj = absurd w
after_server-Holds lib k s (no_description z) v w hj = w

module _ (lib : Library) (k : Kvi) (s : Session) where
  process_value-cancelled : not s.continue_scan ≡ true → process_value lib k s ≡ refuse k s
  unfolding process_value
  process_value-cancelled e = rw e refl

  process_value-outside :
      not s.continue_scan ≡ false
      → (leb max_servers k.server_index || leb max_players k.player_index) ≡ true
      → process_value lib k s ≡ refuse_with index_out_of_range k s
  unfolding process_value
  process_value-outside e f = rw e (rw f refl)

  process_value-inside :
      not s.continue_scan ≡ false
      → (leb max_servers k.server_index || leb max_players k.player_index) ≡ false
      → process_value lib k s ≡ after_server lib k s (enter_server k.server_index s)
  unfolding process_value
  process_value-inside e f = rw e (rw f refl)

in_range :
    (i j : ℕ)
    → (leb max_servers i || leb max_players j) ≡ false
    → (i < max_servers) × (j < max_players)
in_range i j e = (ground arith, ground arith)

process_value-Holds :
    (lib : Library) (k : Kvi) (s : Session) → IsSession s → Holds (process_value lib k s).state
process_value-Holds lib k s v = elim (Bool-cases (not s.continue_scan)) [
  | inl e ↦ subst (λ r. Holds r.state) (sym (process_value-cancelled lib k s e)) v
  | inr e ↦ elim (Bool-cases (leb max_servers k.server_index || leb max_players k.player_index)) [
    | inl f ↦ subst (λ r. Holds r.state) (sym (process_value-outside lib k s e f)) v
    | inr f ↦
        let (hi, hj) = in_range k.server_index k.player_index f in
        subst (λ r. Holds r.state) (sym (process_value-inside lib k s e f))
          (after_server-Holds lib k s _ v (enter_server-Goes k.server_index s v hi) hj)
  ]
]

process_status-Holds :
    (lib : Library) (k : Kvi) (st : Status) (s : Session)
    → IsSession s
    → Holds (process_status lib k st s).state
unfolding process_status process_end
process_status-Holds lib k normal s v = process_value-Holds lib k s v
process_status-Holds lib k last s v = process_value-Holds lib k s v
process_status-Holds lib k complete s v = closing-IsSession k s v
process_status-Holds lib k error s v = closing-IsSession k s v

-- For every value that the reader reports and at the end of the scan, ProcessSessionInfo on a valid
-- session follows no NULL pointer of its own and writes no game, player or mod outside its array. It
-- leaves a valid session (128 games with arrays of 16 players and of MAX_MODS mods, counts within
-- these bounds, `scan_game` and `scan_player` set whenever their count is not zero), or
-- GetGameTypeDescription has read through NULL, for the type of a game that it does not know.
pub process_session_info-Holds :
    (lib : Library) (k : Kvi) (s : Session)
    → IsSession s
    → Holds (process_session_info lib k (going s)).state
unfolding process_session_info
process_session_info-Holds lib k s v = process_status-Holds lib k k.status s v

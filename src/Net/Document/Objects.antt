-- ===== src/Net/Document/Objects.antt =====
-- The machine over a field, a player and a list of players.
use Prim.Native.Nat.{ℕ, ◌+◌}
use mathlib.Core.List.{append_assoc}
use bzcc_scanner.Base.{
  ◌≡◌, refl, sym, subst, List, [], All, ◌∷◌, ◌++◌, Bool, true, false, length, inl, inr,
}
use bzcc_scanner.Base.CText.{Bytes, is_space}
use bzcc_scanner.Net.Json.{is_word_char}
use bzcc_scanner.Net.Kvi.{Kvi, Status, normal}
use bzcc_scanner.Net.Parser.{key_name, value_start, next, Parser, Callback, Outcome}
use bzcc_scanner.Net.Stream.{run}
use bzcc_scanner.Net.Deliver.{
  Call, call_of, object_calls, status_of, Delivers, done, Delivers-append,
}
use bzcc_scanner.Net.Document.Shape.{
  Scalar, plain, text, Field, print_key, print_scalar, print_field, print_more, print_fields,
}
use bzcc_scanner.Net.Document.Tokens.{Spot, spot, At, Moves}
use bzcc_scanner.Net.Document.Key.{key_token}
use bzcc_scanner.Net.Document.Emit.{depth_of, Lands, byte_then}
use bzcc_scanner.Net.Document.Text.{text_token}
use bzcc_scanner.Net.Document.Plain.{IsEnd, end_status, plain_token}
use bzcc_scanner.Net.Document.Blocks.{comma, close_player, in_server, in_players, in_player}
use bzcc_scanner.Net.Document.Fits.{KeyFits, FieldFits, ScalarFits}

abbrev pub field_status : Scalar → ℕ → Status
field_status (plain v) d = end_status d
field_status (text v) d = normal

pub IsEnd-comma : IsEnd b','
unfolding is_word_char is_space
IsEnd-comma = record { no_word = refl; no_space = refl; ends = refl }

pub IsEnd-brace : IsEnd b'}'
unfolding is_word_char is_space
IsEnd-brace = record { no_word = refl; no_space = refl; ends = refl }

brace_status : (v : Scalar) → field_status v b'}' ≡ status_of v []
brace_status (plain v) = refl
brace_status (text v) = refl

comma_status :
    (v : Scalar) (f : Field) (fs : List Field) → field_status v b',' ≡ status_of v (f ∷ fs)
comma_status (plain v) f fs = refl
comma_status (text v) f fs = refl

abbrev blocks_of : Bool → List Bool
blocks_of true = in_player
blocks_of false = in_server

abbrev pub after_player : ℕ → ℕ → Kvi → Spot
after_player si pi j = spot in_players si (pi + 1) j value_start false [] []

level_of : (player : Bool) → length (blocks_of player) ≡ depth_of player
level_of true = refl
level_of false = refl

module _ {S : Type 0} (callback : Callback S) where
  -- What follows the bytes in front of `mid`.
  pub then_run :
      (y : Kvi → Spot) (mid : Bytes) (more : List Call) (R : Kvi → S → Outcome S → Type 0)
      {o : Outcome S} {calls : List Call} {k : Kvi} {s : S}
      → Delivers callback (Lands callback y mid) o calls k s
      → ((j : Kvi) (t : S) (q : Parser)
          → At (y j) q
          → Delivers callback R (run callback q mid t) more j t)
      → Delivers callback R o (calls ++ more) k s
  then_run y mid more R d after =
      Delivers-append callback more R d
        (λ j t l. subst (λ o. Delivers callback R o more j t) (sym l.2) (after j t l.0 l.1))

  -- The bytes that a move takes, and what follows them.
  pub move_run :
      {x : Spot} {p : Parser} {input : Bytes} {calls : List Call} {k : Kvi}
      (R : Kvi → S → Outcome S → Type 0) (rest : Bytes) (s : S)
      → Moves callback p input x
      → ((q : Parser) → At x q → Delivers callback R (run callback q rest s) calls k s)
      → Delivers callback R (run callback p (input ++ rest) s) calls k s
  move_run {calls} {k} R rest s m after =
      subst (λ o. Delivers callback R o calls k s) (sym (m.runs rest s)) (after m.to m.at)

  pub key_run :
      (blocks : List Bool) (si pi : ℕ) (key : Bytes) {p : Parser} {calls : List Call} {k : Kvi}
      (R : Kvi → S → Outcome S → Type 0) (rest : Bytes) (s : S)
      → At (spot blocks si pi k key_name false [] []) p
      → KeyFits key
      → ((q : Parser)
          → At (spot blocks si pi k value_start false key []) q
          → Delivers callback R (run callback q rest s) calls k s)
      → Delivers callback R (run callback p (print_key key rest) s) calls k s
  key_run blocks si pi key {p} {calls} {k} R rest s a f after =
      subst (λ input. Delivers callback R (run callback p (b'"' ∷ input) s) calls k s)
        (append_assoc key (b'"' ∷ b':' ∷ []) rest)
        (move_run R rest s (key_token callback blocks si pi k key p a f.bytes f.room) after)

  scalar_run :
      (player : Bool) (si pi : ℕ) (key : Bytes) (v : Scalar) (d : ℕ) (k : Kvi) (q : Parser)
      → At (spot (blocks_of player) si pi k value_start false key []) q
      → ScalarFits v
      → IsEnd d
      → (rest : Bytes) (s : S)
      → Delivers callback
          (Lands callback (λ j. spot (blocks_of player) si pi j next false [] []) (d ∷ rest))
          (run callback q (print_scalar v (d ∷ rest)) s)
          (call_of player si pi (field_status v d) (record { key = key; value = v }) ∷ [])
          k
          s
  scalar_run player si pi key (plain []) d k q a f e rest s = absurd f
  scalar_run player si pi key (plain (c ∷ cs)) d k q a f e rest s =
      plain_token callback (blocks_of player) si pi player (level_of player) c cs k key d q a f.0 e
        f.1 rest s
  scalar_run player si pi key (text v) d k q a f e rest s =
      text_token callback (blocks_of player) si pi player (level_of player) v k key q a f (d ∷ rest)
        s

  -- A field makes its call; the byte behind it is left.
  pub field_run :
      (player : Bool) (si pi : ℕ) (f : Field) (d : ℕ) (k : Kvi) (p : Parser)
      → At (spot (blocks_of player) si pi k key_name false [] []) p
      → FieldFits f
      → IsEnd d
      → (rest : Bytes) (s : S)
      → Delivers callback
          (Lands callback (λ j. spot (blocks_of player) si pi j next false [] []) (d ∷ rest))
          (run callback p (print_field f (d ∷ rest)) s)
          (call_of player si pi (field_status f.value d) f ∷ [])
          k
          s
  field_run player si pi f d k p a fits e rest s =
      key_run (blocks_of player) si pi f.key
        (Lands callback (λ j. spot (blocks_of player) si pi j next false [] []) (d ∷ rest))
        (print_scalar f.value (d ∷ rest)) s a fits.key_fits
        (λ q b. scalar_run player si pi f.key f.value d k q b fits.value_fits e rest s)

  -- From a spot on, the run is at `y` of the `kvi` that the calls leave.
  pub arrived :
      (y : Kvi → Spot) (k : Kvi) (rest : Bytes) (s : S) (q : Parser)
      → At (y k) q
      → Delivers callback (Lands callback y rest) (run callback q rest s) [] k s
  arrived y k rest s q a = done (q, a, refl)

  -- A field, and the rest of its object behind it.
  field_then :
      (player : Bool) (si pi : ℕ) (f : Field) (fs : List Field) (k : Kvi) (p : Parser)
      {y : Kvi → Spot} {more : List Call}
      → At (spot (blocks_of player) si pi k key_name false [] []) p
      → FieldFits f
      → (rest : Bytes) (s : S)
      → ((j : Kvi) (t : S) (q : Parser)
          → At (spot (blocks_of player) si pi j next false [] []) q
          → Delivers callback
              (Lands callback y rest)
              (run callback q (print_more fs rest) t)
              more
              j
              t)
      → Delivers callback
          (Lands callback y rest)
          (run callback p (print_field f (print_more fs rest)) s)
          (call_of player si pi (status_of f.value fs) f ∷ more)
          k
          s
  field_then player si pi f [] k p {y} {more} a fits rest s after =
      subst
        (λ st.
          Delivers callback (Lands callback y rest) (run callback p (print_field f (b'}' ∷ rest)) s)
            (call_of player si pi st f ∷ more) k s)
        (brace_status f.value)
        (then_run (λ j. spot (blocks_of player) si pi j next false [] []) (b'}' ∷ rest) more
          (Lands callback y rest) (field_run player si pi f b'}' k p a fits IsEnd-brace rest s)
          after)
  field_then player si pi f (g ∷ fs) k p {y} {more} a fits rest s after =
      let tail = print_field g (print_more fs rest) in
      subst
        (λ st.
          Delivers callback (Lands callback y rest) (run callback p (print_field f (b',' ∷ tail)) s)
            (call_of player si pi st f ∷ more) k s)
        (comma_status f.value g fs)
        (then_run (λ j. spot (blocks_of player) si pi j next false [] []) (b',' ∷ tail) more
          (Lands callback y rest) (field_run player si pi f b',' k p a fits IsEnd-comma tail s)
          after)

  -- The rest of a player behind one of its fields.
  player_more :
      (fs : List Field) (si pi : ℕ) (k : Kvi) (p : Parser)
      → At (spot in_player si pi k next false [] []) p
      → All FieldFits fs
      → (rest : Bytes) (s : S)
      → Delivers callback
          (Lands callback (after_player si pi) rest)
          (run callback p (print_more fs rest) s)
          (object_calls true si pi fs)
          k
          s
  player_more [] si pi k p a h rest s =
      byte_then callback _ rest s (close_player callback si pi k next p a (inl refl))
        (arrived (after_player si pi) k rest s)
  player_more (f ∷ fs) si pi k p a h rest s =
      byte_then callback _ (print_field f (print_more fs rest)) s
        (comma callback si pi k false in_players next p a (inl refl))
        (λ q b.
          field_then true si pi f fs k q b h.0 rest s
            (λ j t r c. player_more fs si pi j r c h.1 rest t))

  -- A player behind its `{`.
  pub player_run :
      (fs : List Field) (si pi : ℕ) (k : Kvi) (p : Parser)
      → At (spot in_player si pi k key_name false [] []) p
      → All FieldFits fs
      → (rest : Bytes) (s : S)
      → Delivers callback
          (Lands callback (after_player si pi) rest)
          (run callback p (print_fields fs rest) s)
          (object_calls true si pi fs)
          k
          s
  player_run [] si pi k p a h rest s =
      byte_then callback _ rest s (close_player callback si pi k key_name p a (inr (inr refl)))
        (arrived (after_player si pi) k rest s)
  player_run (f ∷ fs) si pi k p a h rest s =
      field_then true si pi f fs k p a h.0 rest s (λ j t r c. player_more fs si pi j r c h.1 rest t)

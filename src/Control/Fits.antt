-- ===== src/Control/Fits.antt =====
-- The text of a server fits its buffer.
use bzcc_scanner.Base.{
  ℕ, zero, suc, ◌+◌, ◌-◌, ◌*◌, ◌/◌, ◌%◌, ◌≤◌, ◌<◌, ◌≡◌, refl, ap, ◌∙◌, some, List, [], ◌∷◌, ◌++◌,
  length, arith, ◌==◌, if◌then◌else◌, inl, inr, Bool-cases, length-append, take_whole,
}
use bzcc_scanner.Base.Int.{ℤ, pos, negsuc}
use bzcc_scanner.Session.Info.{GameInfo, fitted}
use bzcc_scanner.Session.Keys.{get_game_type_description, description_from}
use bzcc_scanner.Session.State.{decimal, decimal_loop}
use bzcc_scanner.Settings.Registry.{Text}
use bzcc_scanner.Control.Texts.{
  signed, crlf, mod_lines, server_text, server_info_text, server_parts, joined,
}

pub fitted_whole : (n : ℕ) (t : Text) → length t < n → fitted n t ≡ t
fitted_whole n t h = take_whole (n - 1) t (omega arith)

decimal_loop_bound :
    (fuel n : ℕ) (text : Text) → length (decimal_loop fuel n text) ≤ fuel + length text
unfolding decimal_loop
decimal_loop_bound zero n text = omega arith
decimal_loop_bound (suc fuel) n text =
    ground (arith, decimal_loop_bound fuel (n / 10) ((b'0' + n % 10) ∷ text))

decimal_bound : (n : ℕ) → length (decimal n) ≤ 10
unfolding decimal
decimal_bound n = omega (arith, decimal_loop_bound 10 n [])

signed_bound : (z : ℤ) → length (signed z) ≤ 11
unfolding signed
signed_bound (pos n) = omega (arith, decimal_bound n)
signed_bound (negsuc n) = omega (arith, decimal_bound (n + 1))

description_bound : (id : ℤ) {t : Text} → get_game_type_description id ≡ some t → length t ≤ 10
unfolding get_game_type_description description_from
description_bound id e = ground arith

-- The list of mods with no room to mind.
abbrev pub listed : List ℕ → Text
listed [] = []
listed (id ∷ ids) = if id == 0 then [] else (decimal id ++ crlf) ++ listed ids

line_bound : (id : ℕ) → length (decimal id ++ crlf) ≤ 12
line_bound id = omega (arith, length-append (decimal id) crlf, decimal_bound id)

mod_lines-listed :
    (offset : ℕ) (ids : List ℕ) → offset + 12 * length ids < 512 → mod_lines offset ids ≡ listed ids
unfolding mod_lines
mod_lines-listed offset [] h = refl
mod_lines-listed offset (id ∷ ids) h =
    let line = decimal id ++ crlf in
    let short = line_bound id in
    let uncut : fitted (512 - offset) line ≡ line =
      fitted_whole (512 - offset) line (omega arith) in
    let rest = mod_lines-listed (offset + length line) ids (omega arith) in rw (uncut, rest) refl

listed_bound : (ids : List ℕ) → length (listed ids) ≤ 12 * length ids
listed_bound [] = omega arith
listed_bound (id ∷ ids) =
    let short = line_bound id in
    let both = length-append (decimal id ++ crlf) (listed ids) in
    let rest = listed_bound ids in
    elim (Bool-cases (id == 0)) [ inl e ↦ rw e (omega arith) | inr e ↦ rw e (omega arith) ]

abbrev pub total : List Text → ℕ
total [] = 0
total (t ∷ ts) = length t + total ts

pub length-joined : (ts : List Text) → length (joined ts) ≡ total ts
length-joined [] = refl
length-joined (t ∷ ts) = omega (arith, length-append t (joined ts), length-joined ts)

server_parts_bound :
    (g : GameInfo) (t : Text)
    → length g.map ≤ 31
    → length g.version ≤ 15
    → length g.mod_id ≤ 32
    → length t ≤ 10
    → total (server_parts g t) < 1024
server_parts_bound g t map version mods described =
    let whole = mod_lines-listed 0 g.mod_id (omega arith) in
    let lines : length (mod_lines 0 g.mod_id) ≤ 384 =
      omega (arith, ap (λ s. length s) whole, listed_bound g.mod_id) in
    omega (
      arith,
      map,
      version,
      described,
      lines,
      signed_bound g.gametime,
      signed_bound g.tps,
      signed_bound g.timelimit,
      signed_bound g.killlimit,
      signed_bound g.max_ping,
    )

server_text-some :
    (g : GameInfo) {t : Text}
    → get_game_type_description g.gametype ≡ some t
    → server_text g ≡ some (joined (server_parts g t))
unfolding server_text
server_text-some g {t} e = rw (server_text, e) refl

server_info_text-some :
    (g : GameInfo) {t : Text} → server_text g ≡ some t → server_info_text g ≡ some (fitted 1024 t)
unfolding server_info_text
server_info_text-some g {t} e = rw (server_info_text, e) refl

-- For a game whose map and version are no longer than their arrays, and with a type that has a
-- description: the text of the server is shown whole, and its part on the mods is one line for
-- each identifier in front of the first 0, none of them cut.
pub server_info_text-Whole :
    (g : GameInfo) {t : Text}
    → length g.map ≤ 31
    → length g.version ≤ 15
    → length g.mod_id ≤ 32
    → get_game_type_description g.gametype ≡ some t
    → (server_info_text g ≡ some (joined (server_parts g t)))
      × (mod_lines 0 g.mod_id ≡ listed g.mod_id)
server_info_text-Whole g {t} map version mods e =
    let short = server_parts_bound g t map version mods (description_bound g.gametype e) in
    let text = joined (server_parts g t) in
    (
      server_info_text-some g (server_text-some g e)
          ∙ ap some
              (fitted_whole 1024 text (omega (arith, short, length-joined (server_parts g t)))),
      mod_lines-listed 0 g.mod_id (omega arith),
    )

-- ===== src/Control/Order.antt =====
-- CompareFunc as an order.
use bzcc_scanner.Base.{
  ℕ, ◌+◌, ◌^◌, ◌<◌, ◌≡◌, refl, ap, sym, ◌∙◌, Bool, true, false, some, if◌then◌else◌, ◌==◌, ltb,
  arith, Bool-cases, Option-cases, not, inl, inr,
}
use bzcc_scanner.Base.Int.{ℤ, pos, negsuc}
use bzcc_scanner.Session.Info.{GameInfo}
use bzcc_scanner.Settings.Registry.{Text}
use bzcc_scanner.Control.Compare.{
  CompareString, minus, opposite, directed, Keys, numbers, texts, by_name, sort_keys, compare_keys,
  compare_func,
}

-- The documented results of CompareString: it fails on both orders of two strings or on none, and
-- tells on one order the opposite of what it tells on the other.
pub record IsComparing (cs : CompareString) : Type 0 where
  pub fails : (a b : Text) → cs a b ≡ 0 → cs b a ≡ 0
  pub turns : (a b : Text) → 0 < cs a b → cs a b + cs b a ≡ 4

minus-swap : (a b : ℤ) → minus b a ≡ opposite (minus a b)
minus-swap (pos a) (pos b) = ground arith
minus-swap (pos a) (negsuc b) = ground arith
minus-swap (negsuc a) (pos b) = ground arith
minus-swap (negsuc a) (negsuc b) = ground arith

opposite-minus : (a b : ℤ) → minus a b ≡ opposite (opposite (minus a b))
opposite-minus (pos a) (pos b) = ground arith
opposite-minus (pos a) (negsuc b) = ground arith
opposite-minus (negsuc a) (pos b) = ground arith
opposite-minus (negsuc a) (negsuc b) = ground arith

abbrev swapped : Keys → Keys
swapped (numbers a b) = numbers b a
swapped (texts a b) = texts b a
swapped by_name = by_name

sort_keys-swapped :
    (column : ℤ) (g h : GameInfo) {k : Keys}
    → sort_keys column g h ≡ some k
    → sort_keys column h g ≡ some (swapped k)
unfolding sort_keys
sort_keys-swapped column g h e = ground arith

directed-opposite :
    (reverse : Bool) (a : ℤ) → directed reverse (opposite a) ≡ opposite (directed reverse a)
directed-opposite true a = refl
directed-opposite false a = refl

turned : (m n : ℕ) → m + n ≡ 4 → minus (pos n) (pos 2) ≡ opposite (minus (pos m) (pos 2))
turned m n e = ground arith

text_result : ℕ → ℤ
text_result r = if r == 0 then pos 0 else minus (pos r) (pos 2)

text_result-turns :
    (cs : CompareString) (a b : Text)
    → IsComparing cs
    → text_result (cs b a) ≡ opposite (text_result (cs a b))
unfolding text_result
text_result-turns cs a b d = elim (Bool-cases (cs a b == 0)) [
  | inl e ↦
      let none_of : cs a b ≡ 0 = ground arith in
      let nor : (cs b a == 0) ≡ true = ground (arith, d.fails a b none_of) in rw (e, nor) refl
  | inr e ↦
      let sum = d.turns a b (ground arith) in
      elim (Bool-cases (cs b a == 0)) [
        | inl z ↦ absurd (ground (arith, d.fails b a (ground arith)))
        | inr z ↦ rw (e, z) (turned (cs a b) (cs b a) sum)
      ]
]

compare_keys-texts :
    (cs : CompareString) (reverse : Bool) (g h : GameInfo) (a b : Text)
    → compare_keys cs reverse g h (texts a b) ≡ directed reverse (text_result (cs a b))
unfolding compare_keys text_result
compare_keys-texts cs true g h a b = elim (Bool-cases (cs a b == 0)) [
  | inl e ↦ rw e refl
  | inr e ↦ rw e refl
]
compare_keys-texts cs false g h a b = elim (Bool-cases (cs a b == 0)) [
  | inl e ↦ rw e refl
  | inr e ↦ rw e refl
]

compare_keys-swapped :
    (cs : CompareString) (reverse : Bool) (g h : GameInfo) (k : Keys)
    → IsComparing cs
    → compare_keys cs reverse h g (swapped k) ≡ opposite (compare_keys cs reverse g h k)
unfolding compare_keys text_result
compare_keys-swapped cs reverse g h (numbers a b) d =
    ap (directed reverse) (minus-swap a b) ∙ directed-opposite reverse (minus a b)
compare_keys-swapped cs reverse g h (texts a b) d =
    compare_keys-texts cs reverse h g b a
    ∙ ap (directed reverse) (text_result-turns cs a b d)
    ∙ directed-opposite reverse (text_result (cs a b))
    ∙ sym (ap opposite (compare_keys-texts cs reverse g h a b))
compare_keys-swapped cs reverse g h by_name d =
    ap (directed reverse) (text_result-turns cs g.name h.name d)
    ∙ directed-opposite reverse (text_result (cs g.name h.name))

opposite_twice : (cs : CompareString) (r : ℕ) → text_result r ≡ opposite (opposite (text_result r))
unfolding text_result
opposite_twice cs r = elim (Bool-cases (r == 0)) [
  | inl e ↦ rw e refl
  | inr e ↦ rw e (opposite-minus (pos r) (pos 2))
]

turn_around :
    (reverse : Bool) (x : ℤ)
    → x ≡ opposite (opposite x)
    → directed (not reverse) x ≡ opposite (directed reverse x)
turn_around true x e = e
turn_around false x e = refl

compare_keys-not :
    (cs : CompareString) (reverse : Bool) (g h : GameInfo) (k : Keys)
    → compare_keys cs (not reverse) g h k ≡ opposite (compare_keys cs reverse g h k)
unfolding compare_keys text_result
compare_keys-not cs reverse g h (numbers a b) = turn_around reverse _ (opposite-minus a b)
compare_keys-not cs reverse g h (texts a b) =
    compare_keys-texts cs (not reverse) g h a b
    ∙ turn_around reverse _ (opposite_twice cs (cs a b))
    ∙ sym (ap opposite (compare_keys-texts cs reverse g h a b))
compare_keys-not cs reverse g h by_name =
    turn_around reverse _ (opposite_twice cs (cs g.name h.name))

compare_func-some :
    (cs : CompareString) (column : ℤ) (reverse : Bool) (g h : GameInfo) {k : Keys}
    → sort_keys column g h ≡ some k
    → compare_func cs column reverse g h ≡ some (compare_keys cs reverse g h k)
unfolding compare_func
compare_func-some cs column reverse g h e = rw (compare_func, e) refl

compare_func-found :
    (cs : CompareString) (column : ℤ) (reverse : Bool) (g h : GameInfo) {r : ℤ}
    → compare_func cs column reverse g h ≡ some r
    → (k : Keys) × (sort_keys column g h ≡ some k) × (compare_keys cs reverse g h k ≡ r)
unfolding compare_func
compare_func-found cs column reverse g h e = elim (Option-cases (sort_keys column g h)) [
  | inl n ↦ absurd (ground arith)
  | inr (k, f) ↦ (k, f, ground arith)
]

-- If CompareString is as documented: where CompareFunc returns a result for two games, it returns the
-- opposite for them the other way round, and the opposite in the other direction.
pub compare_func-swap :
    (cs : CompareString) (column : ℤ) (reverse : Bool) (g h : GameInfo) {r : ℤ}
    → IsComparing cs
    → compare_func cs column reverse g h ≡ some r
    → (compare_func cs column reverse h g ≡ some (opposite r))
      × (compare_func cs column (not reverse) g h ≡ some (opposite r))
compare_func-swap cs column reverse g h d e =
    let (k, f, at) = compare_func-found cs column reverse g h e in
    (
      compare_func-some cs column reverse h g (sort_keys-swapped column g h f)
          ∙ ap some (compare_keys-swapped cs reverse g h k d ∙ ap opposite at),
      compare_func-some cs column (not reverse) g h f
          ∙ ap some (compare_keys-not cs reverse g h k ∙ ap opposite at),
    )

abbrev pub less : ℤ → ℤ → Bool
less (pos a) (pos b) = ltb a b
less (pos a) (negsuc b) = false
less (negsuc a) (pos b) = true
less (negsuc a) (negsuc b) = ltb b a

abbrev pub IsSmall : ℤ → Type 0
IsSmall (pos n) = n < 2 ^ 30
IsSmall (negsuc n) = n < 2 ^ 30

minus-less : (a b : ℤ) → IsSmall a → IsSmall b → less (minus a b) (pos 0) ≡ less a b
minus-less (pos a) (pos b) p q = ground arith
minus-less (pos a) (negsuc b) p q = ground arith
minus-less (negsuc a) (pos b) p q = ground arith
minus-less (negsuc a) (negsuc b) p q = ground arith

opposite-less : (a b : ℤ) → IsSmall a → IsSmall b → less (opposite (minus a b)) (pos 0) ≡ less b a
opposite-less a b p q = ap (λ r. less r (pos 0)) (sym (minus-swap a b)) ∙ minus-less b a q p

-- The columns of numbers: the lock, the ping and the players.
pub data NumberColumn : Type 0 where
  lock_column ping_column player_column : NumberColumn

-- Its index in the list view.
abbrev pub column_index : NumberColumn → ℤ
column_index lock_column = pos 1
column_index ping_column = pos 2
column_index player_column = pos 3

-- What the column shows of a game, as a number.
abbrev pub number_in : NumberColumn → GameInfo → ℤ
number_in lock_column g = if g.pwd then pos 1 else pos 0
number_in ping_column g = g.server_ping
number_in player_column g = pos g.player_count

sort_keys-number :
    (c : NumberColumn) (g h : GameInfo)
    → sort_keys (column_index c) g h ≡ some (numbers (number_in c g) (number_in c h))
unfolding sort_keys
sort_keys-number lock_column g h = ground arith
sort_keys-number ping_column g h = refl
sort_keys-number player_column g h = refl

-- In the columns of the lock, the ping and the players, CompareFunc returns a negative number exactly
-- if the first game's lock (1 with a password, 0 without), ping or number of players is less than the
-- second's, or greater in the reverse direction, as long as the two are below 2 ^ 30 and not below
-- -2 ^ 30.
pub compare_func-less :
    (cs : CompareString) (c : NumberColumn) (g h : GameInfo)
    → IsSmall (number_in c g)
    → IsSmall (number_in c h)
    → ((r : ℤ) × (compare_func cs (column_index c) false g h ≡ some r)
        × (less r (pos 0) ≡ less (number_in c g) (number_in c h)))
      × ((r : ℤ) × (compare_func cs (column_index c) true g h ≡ some r)
          × (less r (pos 0) ≡ less (number_in c h) (number_in c g)))
unfolding compare_keys
compare_func-less cs c g h p q =
    let a = number_in c g in
    let b = number_in c h in
    let e = sort_keys-number c g h in
    (
      (minus a b, compare_func-some cs (column_index c) false g h e, minus-less a b p q),
      (
        opposite (minus a b),
        compare_func-some cs (column_index c) true g h e,
        opposite-less a b p q,
      ),
    )

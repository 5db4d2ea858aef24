-- ===== src/Net/Safe/Json.antt =====
-- The steps of the JSON states keep the invariant.
use Prim.Native.Nat.{ℕ, ◌-◌}
use bzcc_scanner.Base.{
  ◌≡◌, [], ◌∷◌, some, Bool, true, false, arith, ◌==◌, length-append, length-set,
}
use bzcc_scanner.Net.Parser.{
  json, root_start, key_name, key_sep, value_start, next, root_end, Parser,
}
use bzcc_scanner.Net.Json.{
  step_root_start, step_root_end, close_array, close_object, count_object, skip_or_fail, next_in,
  step_next, quoted_key_name, step_key_name, step_key_sep, open_block, step_value,
}
use bzcc_scanner.Net.Safe.{IsValid, Keeps, Marked-set, Marked-le, Marked-array_flag}

module _ {S : Type 0} (P : S → Type 0) (s : S) (ok : P s) where
  pub step_root_start-Keeps :
      (p : Parser) (c : ℕ)
      → IsValid p
      → p.mode ≡ json
      → p.j_state ≡ root_start
      → Keeps P (step_root_start p c s)
  unfolding step_root_start
  step_root_start-Keeps p c v m j =
      ground (arith, Marked-set p.is_array 0 false tt, length-set p.is_array 0 (some false), ok)

  pub step_key_sep-Keeps :
      (p : Parser) (c : ℕ)
      → IsValid p
      → p.mode ≡ json
      → p.j_state ≡ key_sep
      → Keeps P (step_key_sep p c s)
  unfolding step_key_sep
  step_key_sep-Keeps p c v m j = ground (arith, ok)

  quoted_key_name-Keeps :
      (p : Parser) (c : ℕ)
      → IsValid p
      → p.mode ≡ json
      → p.j_state ≡ key_name
      → Keeps P (quoted_key_name p c s)
  unfolding quoted_key_name
  quoted_key_name-Keeps p c v m j = ground (arith, ok, length-append p.name (c ∷ []))

  pub step_root_end-Keeps :
      (p : Parser) (c : ℕ)
      → IsValid p
      → p.mode ≡ json
      → p.j_state ≡ root_end
      → Keeps P (step_root_end p c s)
  unfolding step_root_end
  step_root_end-Keeps p c v m j = ground (arith, ok)

  close_array-Keeps :
      (p : Parser) → IsValid p → p.mode ≡ json → p.j_state ≡ next → Keeps P (close_array p s)
  unfolding close_array
  close_array-Keeps p v m j = ground (
    arith,
    ok,
    Marked-array_flag p.is_array p.depth (p.depth - 1) v.marked,
    Marked-le p.is_array (p.depth - 1) p.depth v.marked,
  )

  close_object-Keeps :
      (p : Parser) → IsValid p → p.mode ≡ json → p.j_state ≡ next → Keeps P (close_object p s)
  unfolding close_object count_object
  close_object-Keeps p v m j = ground (
    arith,
    ok,
    Marked-array_flag p.is_array p.depth (p.depth - 1 - 1) v.marked,
    Marked-le p.is_array (p.depth - 1) p.depth v.marked,
  )

  skip_or_fail-Keeps :
      (p : Parser) (c : ℕ) → IsValid p → p.mode ≡ json → Keeps P (skip_or_fail p c s)
  unfolding skip_or_fail
  skip_or_fail-Keeps p c v m = ground (arith, ok)

  next_in-Keeps :
      (flag : Bool) (p : Parser) (c : ℕ)
      → IsValid p
      → p.mode ≡ json
      → p.j_state ≡ next
      → Keeps P (next_in flag p c s)
  unfolding next_in
  next_in-Keeps true p c v m j =
      ground (arith, ok, close_array-Keeps p v m j, skip_or_fail-Keeps p c v m)
  next_in-Keeps false p c v m j =
      ground (arith, ok, close_object-Keeps p v m j, skip_or_fail-Keeps p c v m)

  pub step_next-Keeps :
      (p : Parser) (c : ℕ)
      → IsValid p
      → p.mode ≡ json
      → p.j_state ≡ next
      → Keeps P (step_next p c s)
  unfolding step_next
  step_next-Keeps p c v m j = ground (
    arith,
    Marked-array_flag p.is_array p.depth (p.depth - 1) v.marked,
    next_in-Keeps true p c v m j,
    next_in-Keeps false p c v m j,
  )

  pub step_key_name-Keeps :
      (p : Parser) (c : ℕ)
      → IsValid p
      → p.mode ≡ json
      → p.j_state ≡ key_name
      → Keeps P (step_key_name p c s)
  unfolding step_key_name
  step_key_name-Keeps p c v m j =
      ground (
        arith,
        ok,
        quoted_key_name-Keeps p c v m j,
        step_next-Keeps (record p { j_state = next }) c,
      )

  open_block-Keeps :
      (array : Bool) (p : Parser)
      → IsValid p
      → p.mode ≡ json
      → p.j_state ≡ value_start
      → Keeps P (open_block array p s)
  unfolding open_block
  open_block-Keeps array p v m j = ground (
    arith,
    ok,
    Marked-set p.is_array p.depth array v.marked,
    length-set p.is_array p.depth (some array),
  )

  pub step_value-Keeps :
      (p : Parser) (c : ℕ)
      → IsValid p
      → p.mode ≡ json
      → p.j_state ≡ value_start
      → Keeps P (step_value p c s)
  unfolding step_value
  step_value-Keeps p c v m j = ground (
    arith,
    ok,
    open_block-Keeps (c == b'[') p v m j,
    step_next-Keeps (record p { j_state = next }) c,
  )

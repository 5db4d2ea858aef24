-- ===== src/Net/Safe/Value.antt =====
-- The steps inside a value keep the invariant.
use Prim.Native.Nat.{ℕ, ◌+◌, ◌%◌, ◌^◌}
use bzcc_scanner.Base.{
  ◌≡◌, refl, [], ◌∷◌, Bool, true, false, arith, ◌==◌, if◌then◌else◌, ◌⊎◌, inl, inr, length-append,
}
use bzcc_scanner.Net.Kvi.{normal, last}
use bzcc_scanner.Net.Parser.{
  json, JState, root_start, key_name, key_sep, value_start, read_value, next, root_end, Parser,
  Callback, continue,
}
use bzcc_scanner.Net.Json.{step_next}
use bzcc_scanner.Net.Value.{
  append_value, escaped_byte, end_quoted, quoted_byte, end_plain, plain_byte, step_read_value,
  step_state, step_json,
}
use bzcc_scanner.Net.Safe.{IsValid, Keeps}
use bzcc_scanner.Net.Safe.Reported.{Preserves, emit-bind-Keeps}
use bzcc_scanner.Net.Safe.Json.{
  step_root_start-Keeps, step_key_name-Keeps, step_key_sep-Keeps, step_value-Keeps, step_next-Keeps,
  step_root_end-Keeps,
}

module _ {S : Type 0} (P : S → Type 0) (s : S) (ok : P s) where
  append_value-Keeps :
      (p : Parser) (c : ℕ)
      → IsValid p
      → p.mode ≡ json
      → p.j_state ≡ read_value
      → Keeps P (append_value p c s)
  unfolding append_value
  append_value-Keeps p c v m j = ground (arith, ok, length-append p.value (c ∷ []))

  escaped_byte-Keeps :
      (p : Parser) (c : ℕ)
      → IsValid p
      → p.mode ≡ json
      → p.j_state ≡ read_value
      → Keeps P (escaped_byte p c s)
  unfolding escaped_byte append_value
  escaped_byte-Keeps p c v m j = ground (
    arith,
    ok,
    length-append p.value (c ∷ []),
    length-append p.value (13 ∷ []),
    length-append p.value (10 ∷ []),
    length-append p.value (9 ∷ []),
  )

module _ {S : Type 0} (callback : Callback S) (P : S → Type 0) (keep : Preserves P callback) (s : S)
    (ok : P s) where
  end_quoted-Keeps :
      (p : Parser)
      → IsValid p
      → p.mode ≡ json
      → p.j_state ≡ read_value
      → Keeps P (end_quoted callback p s)
  unfolding end_quoted
  end_quoted-Keeps p v m j =
      emit-bind-Keeps callback P keep normal (record p { in_quote = false; value_complete = true })
        s (λ q t. continue (record q { name = []; value = []; j_state = next }) t) (inl refl) ok
        (λ k t okt. ground (arith, okt))

  quoted_byte-Keeps :
      (p : Parser) (c : ℕ)
      → IsValid p
      → p.mode ≡ json
      → p.j_state ≡ read_value
      → Keeps P (quoted_byte callback p c s)
  unfolding quoted_byte
  quoted_byte-Keeps p c v m j =
      ground (arith, ok, end_quoted-Keeps p v m j, append_value-Keeps P s ok p c v m j)

  end_plain-Keeps :
      (p : Parser) (c : ℕ)
      → IsValid p
      → p.mode ≡ json
      → p.j_state ≡ read_value
      → Keeps P (end_plain callback p c s)
  unfolding end_plain
  end_plain-Keeps p c v m j =
      emit-bind-Keeps callback P keep (if c == b'}' then last else normal)
        (record p { value_complete = true }) s
        (λ q t. step_next (record q { name = []; value = []; j_state = next }) c t)
        (plain_status (c == b'}')) ok
        (λ k t okt.
          step_next-Keeps P t okt
            (record p { value_complete = true; name = []; value = []; j_state = next; kvi = k }) c
            (ground arith) m refl)
    where
      plain_status :
          (b : Bool)
          → ((if b then last else normal) ≡ normal) ⊎ ((if b then last else normal) ≡ last)
      plain_status true = inr refl
      plain_status false = inl refl

  plain_byte-Keeps :
      (p : Parser) (c : ℕ)
      → IsValid p
      → p.mode ≡ json
      → p.j_state ≡ read_value
      → Keeps P (plain_byte callback p c s)
  unfolding plain_byte
  plain_byte-Keeps p c v m j =
      ground (arith, ok, end_plain-Keeps p c v m j, append_value-Keeps P s ok p c v m j)

  step_read_value-Keeps :
      (p : Parser) (c : ℕ)
      → IsValid p
      → p.mode ≡ json
      → p.j_state ≡ read_value
      → Keeps P (step_read_value callback p c s)
  unfolding step_read_value
  step_read_value-Keeps p c v m j = ground (
    arith,
    quoted_byte-Keeps p c v m j,
    escaped_byte-Keeps P s ok p c v m j,
    plain_byte-Keeps p c v m j,
  )

  step_state-Keeps :
      (j : JState) (p : Parser) (c : ℕ)
      → IsValid p
      → p.mode ≡ json
      → p.j_state ≡ j
      → Keeps P (step_state callback j p c s)
  unfolding step_state
  step_state-Keeps root_start p c v m j = step_root_start-Keeps P s ok p c v m j
  step_state-Keeps key_name p c v m j = step_key_name-Keeps P s ok p c v m j
  step_state-Keeps key_sep p c v m j = step_key_sep-Keeps P s ok p c v m j
  step_state-Keeps value_start p c v m j = step_value-Keeps P s ok p c v m j
  step_state-Keeps read_value p c v m j = step_read_value-Keeps p c v m j
  step_state-Keeps next p c v m j = step_next-Keeps P s ok p c v m j
  step_state-Keeps root_end p c v m j = step_root_end-Keeps P s ok p c v m j

  pub step_json-Keeps :
      (p : Parser) (c : ℕ) → IsValid p → p.mode ≡ json → Keeps P (step_json callback p c s)
  unfolding step_json
  step_json-Keeps p c v m =
      let q = record p { json_len = (p.json_len + 1) % 2 ^ 32 } in
      ground (arith, ok, step_state-Keeps p.j_state q c (ground arith) m refl)

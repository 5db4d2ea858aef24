-- ===== src/Settings/Loads.antt =====
-- What the loads of bzccsettings.c return for what is stored.
use bzcc_scanner.Base.{
  ℕ, ◌+◌, ◌-◌, ◌*◌, ◌/◌, ◌%◌, ◌^◌, ◌≤◌, ◌<◌, ◌≡◌, refl, ◌∙◌, none, some, Option-cases, Bool-cases,
  inl, inr, arith, length, take, [], ◌∷◌, ◌++◌,
}
use bzcc_scanner.Base.CText.{Bytes, le_bytes}
use bzcc_scanner.Settings.Registry.{Text, key_read, Registry, IsDocumented}
use bzcc_scanner.Settings.Store.{tchar_bytes, dword_value, load_dword_at, load_string_at}
use bzcc_scanner.Settings.Runs.{
  reading, load_dword_at-opened, load_string_at-opened, load_dword_at-refused,
  load_string_at-refused,
}

dword_value-le_bytes : (v : ℕ) (more : Bytes) → v < 2 ^ 32 → dword_value (le_bytes v ++ more) ≡ v
unfolding dword_value
dword_value-le_bytes v more small = omega arith

dword_value-take :
    (v : ℕ) (buffer : Bytes) → v < 2 ^ 32 → take 4 buffer ≡ le_bytes v → dword_value buffer ≡ v
unfolding dword_value
dword_value-take v (a ∷ b ∷ c ∷ d ∷ more) small e = ground arith
dword_value-take v [] small e = ground arith
dword_value-take v (a ∷ []) small e = ground arith
dword_value-take v (a ∷ b ∷ []) small e = ground arith
dword_value-take v (a ∷ b ∷ c ∷ []) small e = ground arith

pub length-tchar_bytes : (t : Text) → length (tchar_bytes t) ≡ 2 * length t
unfolding tchar_bytes
length-tchar_bytes [] = refl
length-tchar_bytes (c ∷ cs) = omega (arith, length-tchar_bytes cs)

module _ (r : Registry) (d : IsDocumented r) (p n : Text) (w : r.World) where
  -- A load opens its key on what is stored.
  pub load_dword_at-stored :
      (default : ℕ) (value : Bytes) (v : ℕ) {k : r.Key}
      → (r.create_key p key_read w).0 ≡ some k
      → v < 2 ^ 32
      → d.stored w (p, n) ≡ some (le_bytes v)
      → (load_dword_at r p n default value w).0 ≡ v
  load_dword_at-stored default value v {k} e small s =
      let (ok, front, size) =
        d.query-fits n 4 value (d.create-names p key_read w e)
          (d.create-stored p key_read w (p, n) ∙ s) (omega arith) in
      rw (load_dword_at-opened r p n w e default value, ok) (dword_value-take v _ small front)

  pub load_dword_at-default :
      (default : ℕ) (value : Bytes)
      → d.stored w (p, n) ≡ none
      → (load_dword_at r p n default value w).0 ≡ default
  load_dword_at-default default value s = elim (Option-cases (r.create_key p key_read w).0) [
    | inl e ↦ rw (load_dword_at-refused r p n w e default value) refl
    | inr (k, e) ↦
        let missing =
          d.query-missing n 4 value (d.create-names p key_read w e)
            (d.create-stored p key_read w (p, n) ∙ s) in
        rw (load_dword_at-opened r p n w e default value, missing) refl
  ]

  pub load_string_at-stored :
      (out : Bytes) (out_len : ℕ) (v : Text) {k : r.Key}
      → (r.create_key p key_read w).0 ≡ some k
      → d.stored w (p, n) ≡ some (tchar_bytes v)
      → 2 * length v ≤ out_len
      → let l = load_string_at r p n out out_len w in
        (l.result ≡ (length v + (2 ^ 32 - 1)) % 2 ^ 32)
        × (take (2 * length v) l.out ≡ tchar_bytes v)
  load_string_at-stored out out_len v {k} e s fits =
      let two = length-tchar_bytes v in
      let (ok, front, size) =
        d.query-fits n out_len out (d.create-names p key_read w e)
          (d.create-stored p key_read w (p, n) ∙ s) (omega arith) in
      let chars : (r.query_value k n out_len out (reading r p n w)).size / 2 ≡ length v =
        omega arith in
      rw (load_string_at-opened r p n w e out out_len, ok) (rw chars refl, rw (← two) front)

  pub load_string_at-large :
      (out : Bytes) (out_len : ℕ) (v : Text)
      → d.stored w (p, n) ≡ some (tchar_bytes v)
      → out_len < 2 * length v
      → (load_string_at r p n out out_len w).result ≡ 0
  load_string_at-large out out_len v s large = elim (Option-cases (r.create_key p key_read w).0) [
    | inl e ↦ rw (load_string_at-refused r p n w e out out_len) refl
    | inr (k, e) ↦
        let missing =
          d.query-large n out_len out (d.create-names p key_read w e)
            (d.create-stored p key_read w (p, n) ∙ s) (omega (arith, length-tchar_bytes v)) in
        rw (load_string_at-opened r p n w e out out_len, missing) refl
  ]

  -- A load changes no value.
  pub load_dword_at-others :
      (default : ℕ) (value : Bytes) (v : Text × Text)
      → d.stored (load_dword_at r p n default value w).1 v ≡ d.stored w v
  load_dword_at-others default value v = elim (Option-cases (r.create_key p key_read w).0) [
    | inl e ↦ rw (load_dword_at-refused r p n w e default value) (d.create-stored p key_read w v)
    | inr (k, e) ↦
        let same = d.create-stored p key_read w v in
        elim (Bool-cases (r.query_value k n 4 value (reading r p n w)).ok) [
          | inl ok ↦
              rw (load_dword_at-opened r p n w e default value, ok) (d.close-stored k _ v ∙ same)
          | inr ok ↦ rw (load_dword_at-opened r p n w e default value, ok) same
        ]
  ]

  pub load_string_at-others :
      (out : Bytes) (out_len : ℕ) (v : Text × Text)
      → d.stored (load_string_at r p n out out_len w).world v ≡ d.stored w v
  load_string_at-others out out_len v = elim (Option-cases (r.create_key p key_read w).0) [
    | inl e ↦ rw (load_string_at-refused r p n w e out out_len) (d.create-stored p key_read w v)
    | inr (k, e) ↦
        let same = d.close-stored k (reading r p n w) v ∙ d.create-stored p key_read w v in
        elim (Bool-cases (r.query_value k n out_len out (reading r p n w)).ok) [
          | inl ok ↦ rw (load_string_at-opened r p n w e out out_len, ok) same
          | inr ok ↦ rw (load_string_at-opened r p n w e out out_len, ok) same
        ]
  ]

-- ===== src/Settings/Balance.antt =====
-- The handles of bzccsettings.c: what each function opens, it closes, but for one path.
use bzcc_scanner.Base.{
  ℕ, ◌≡◌, ◌+◌, Bool, Option, none, some, Bool-cases, Option-cases, inl, inr, arith, if◌then◌else◌,
}
use bzcc_scanner.Base.CText.{Bytes}
use bzcc_scanner.Settings.Registry.{Text, key_read, key_write, Registry, IsDocumented}
use bzcc_scanner.Settings.Store.{
  load_dword_at, save_dword_at, load_string_at, save_string_at, delete_at,
}
use bzcc_scanner.Settings.Runs.{
  load_dword_at-opened, save_dword_at-opened, load_string_at-opened, save_string_at-opened,
  delete_at-opened, load_dword_at-refused, save_dword_at-refused, load_string_at-refused,
  save_string_at-refused, delete_at-refused,
}

module _ (r : Registry) (d : IsDocumented r) (p n : Text) (w : r.World) where
  save_dword_at-Balanced : (v : ℕ) → d.opened (save_dword_at r p n v w).1 ≡ d.opened w
  save_dword_at-Balanced v = elim (Option-cases (r.create_key p key_write w).0) [
    | inl e ↦ rw (save_dword_at-refused r p n w e v) (d.create-failed p key_write w e)
    | inr (k, e) ↦
        rw (save_dword_at-opened r p n w e v, d.close-opened, d.set-opened)
          (omega (arith, d.create-opened p key_write w e))
  ]

  save_string_at-Balanced : (v : Text) → d.opened (save_string_at r p n v w).1 ≡ d.opened w
  save_string_at-Balanced v = elim (Option-cases (r.create_key p key_write w).0) [
    | inl e ↦ rw (save_string_at-refused r p n w e v) (d.create-failed p key_write w e)
    | inr (k, e) ↦
        rw (save_string_at-opened r p n w e v, d.close-opened, d.set-opened)
          (omega (arith, d.create-opened p key_write w e))
  ]

  delete_at-Balanced : d.opened (delete_at r p n w).1 ≡ d.opened w
  delete_at-Balanced = elim (Option-cases (r.create_key p key_write w).0) [
    | inl e ↦ rw (delete_at-refused r p n w e) (d.create-failed p key_write w e)
    | inr (k, e) ↦
        rw (delete_at-opened r p n w e, d.close-opened, d.delete-opened)
          (omega (arith, d.create-opened p key_write w e))
  ]

  load_string_at-Balanced :
      (out : Bytes) (out_len : ℕ) → d.opened (load_string_at r p n out out_len w).world ≡ d.opened w
  load_string_at-Balanced out out_len = elim (Option-cases (r.create_key p key_read w).0) [
    | inl e ↦ rw (load_string_at-refused r p n w e out out_len) (d.create-failed p key_read w e)
    | inr (k, e) ↦
        let w1 = (r.create_key p key_read w).1 in
        let back : d.opened (r.close_key k w1) ≡ d.opened w =
          omega (arith, d.close-opened k w1, d.create-opened p key_read w e) in
        elim (Bool-cases (r.query_value k n out_len out w1).ok) [
          | inl ok ↦ rw (load_string_at-opened r p n w e out out_len, ok) back
          | inr ok ↦ rw (load_string_at-opened r p n w e out out_len, ok) back
        ]
  ]

-- The handles that _LoadSettingDWORD leaves open: one if the key was opened and the query fails.
abbrev pub leaked : {K : Type 0} → Option K → (K → Bool) → ℕ
leaked none found = 0
leaked (some k) found = if found k then 0 else 1

module _ (r : Registry) (d : IsDocumented r) (p n : Text) (w : r.World) where
  load_dword_at-leaked :
      (default : ℕ) (value : Bytes)
      → let (opened, w1) = r.create_key p key_read w in
        d.opened (load_dword_at r p n default value w).1
        ≡ d.opened w + leaked opened (λ k. (r.query_value k n 4 value w1).ok)
  load_dword_at-leaked default value = elim (Option-cases (r.create_key p key_read w).0) [
    | inl e ↦
        rw (load_dword_at-refused r p n w e default value, e)
          (omega (arith, d.create-failed p key_read w e))
    | inr (k, e) ↦
        let w1 = (r.create_key p key_read w).1 in
        elim (Bool-cases (r.query_value k n 4 value w1).ok) [
          | inl ok ↦
              rw (load_dword_at-opened r p n w e default value, e, ok)
                (omega (arith, d.close-opened k w1, d.create-opened p key_read w e))
          | inr ok ↦
              rw (load_dword_at-opened r p n w e default value, e, ok)
                (omega (arith, d.create-opened p key_read w e))
        ]
  ]

  -- On a registry that behaves as documented, each of the five functions that the others of
  -- bzccsettings.c call closes the handle that it has opened, on every path but one:
  -- _LoadSettingDWORD leaves its handle open when RegQueryValueEx fails.
  pub settings-Balanced :
      (v default : ℕ) (text : Text) (value out : Bytes) (out_len : ℕ)
      → let (opened, w1) = r.create_key p key_read w in
        (d.opened (save_dword_at r p n v w).1 ≡ d.opened w)
        × (d.opened (save_string_at r p n text w).1 ≡ d.opened w)
        × (d.opened (delete_at r p n w).1 ≡ d.opened w)
        × (d.opened (load_string_at r p n out out_len w).world ≡ d.opened w)
        × (d.opened (load_dword_at r p n default value w).1
            ≡ d.opened w + leaked opened (λ k. (r.query_value k n 4 value w1).ok))
  settings-Balanced v default text value out out_len = (
    save_dword_at-Balanced r d p n w v,
    save_string_at-Balanced r d p n w text,
    delete_at-Balanced r d p n w,
    load_string_at-Balanced r d p n w out out_len,
    load_dword_at-leaked default value,
  )

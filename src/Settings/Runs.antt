-- ===== src/Settings/Runs.antt =====
-- The functions of bzccsettings.c once the result of RegCreateKeyEx is known.
use bzcc_scanner.Base.{
  ℕ, ◌+◌, ◌-◌, ◌/◌, ◌%◌, ◌^◌, ◌≡◌, refl, true, false, none, some, if◌then◌else◌,
}
use bzcc_scanner.Base.CText.{Bytes, le_bytes}
use bzcc_scanner.Settings.Registry.{Text, key_read, key_write, reg_dword, reg_sz, Registry}
use bzcc_scanner.Settings.Store.{
  tchar_bytes, dword_value, load_dword_at, save_dword_at, load_string_at, save_string_at, delete_at,
}

module _ (r : Registry) (p n : Text) (w : r.World) where
  abbrev pub reading : r.World
  reading = (r.create_key p key_read w).1

  abbrev pub writing : r.World
  writing = (r.create_key p key_write w).1

  module _ {k : r.Key} (e : (r.create_key p key_read w).0 ≡ some k) where
    pub load_dword_at-opened :
        (default : ℕ) (value : Bytes)
        → let q = r.query_value k n 4 value reading in
          load_dword_at r p n default value w
          ≡ (if q.ok then (dword_value q.buffer, r.close_key k reading) else (default, reading))
    unfolding load_dword_at dword_value
    load_dword_at-opened default value = rw (load_dword_at, e) refl

    pub load_string_at-opened :
        (out : Bytes) (out_len : ℕ)
        → let q = r.query_value k n out_len out reading in
          load_string_at r p n out out_len w ≡ (
            if q.ok
            then record {
              result = (q.size / 2 + (2 ^ 32 - 1)) % 2 ^ 32;
              out = q.buffer;
              world = r.close_key k reading;
            }
            else record { result = 0; out = q.buffer; world = r.close_key k reading })
    unfolding load_string_at
    load_string_at-opened out out_len = rw (load_string_at, e) refl

  module _ {k : r.Key} (e : (r.create_key p key_write w).0 ≡ some k) where
    pub save_dword_at-opened :
        (v : ℕ)
        → save_dword_at r p n v w
          ≡ (true, r.close_key k (r.set_value k n reg_dword (le_bytes v) writing).1)
    unfolding save_dword_at
    save_dword_at-opened v = rw (save_dword_at, e) refl

    pub save_string_at-opened :
        (v : Text)
        → let set = r.set_value k n reg_sz (tchar_bytes v) writing in
          save_string_at r p n v w ≡ (set.0, r.close_key k set.1)
    unfolding save_string_at
    save_string_at-opened v = rw (save_string_at, e) refl

    pub delete_at-opened :
        let deleted = r.delete_value k n writing in
        delete_at r p n w ≡ (deleted.0, r.close_key k deleted.1)
    unfolding delete_at
    delete_at-opened = rw (delete_at, e) refl

  module _ (e : (r.create_key p key_read w).0 ≡ none) where
    pub load_dword_at-refused :
        (default : ℕ) (value : Bytes) → load_dword_at r p n default value w ≡ (default, reading)
    unfolding load_dword_at dword_value
    load_dword_at-refused default value = rw (load_dword_at, e) refl

    pub load_string_at-refused :
        (out : Bytes) (out_len : ℕ)
        → load_string_at r p n out out_len w ≡ record { result = 0; out = out; world = reading }
    unfolding load_string_at
    load_string_at-refused out out_len = rw (load_string_at, e) refl

  module _ (e : (r.create_key p key_write w).0 ≡ none) where
    pub save_dword_at-refused : (v : ℕ) → save_dword_at r p n v w ≡ (false, writing)
    unfolding save_dword_at
    save_dword_at-refused v = rw (save_dword_at, e) refl

    pub save_string_at-refused : (v : Text) → save_string_at r p n v w ≡ (false, writing)
    unfolding save_string_at
    save_string_at-refused v = rw (save_string_at, e) refl

    pub delete_at-refused : delete_at r p n w ≡ (false, writing)
    unfolding delete_at
    delete_at-refused = rw (delete_at, e) refl

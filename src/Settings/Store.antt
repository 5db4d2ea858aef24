-- ===== src/Settings/Store.antt =====
-- bzccsettings.c. A `TCHAR` takes two bytes, the lower one first; a string is given without its
-- terminator.
use bzcc_scanner.Base.{
  ℕ, ◌+◌, ◌-◌, ◌*◌, ◌/◌, ◌%◌, ◌^◌, Bool, true, false, none, some, [], ◌∷◌, if◌then◌else◌,
}
use bzcc_scanner.Base.CText.{Bytes, codes, le_bytes}
use bzcc_scanner.Settings.Registry.{Text, key_read, key_write, reg_dword, reg_sz, Registry}

abbrev pub reg_key_setting : Text
reg_key_setting = codes "Software\\BZCC Scanner"

abbrev pub reg_key_nicks : Text
reg_key_nicks = codes "Software\\BZCC Scanner\\Known Nicks"

-- The bytes of a string.
unfoldable pub tchar_bytes : Text → Bytes
tchar_bytes [] = []
tchar_bytes (c ∷ cs) = c % 256 ∷ c / 256 % 256 ∷ tchar_bytes cs

-- The number in a `DWORD` of memory.
unfoldable pub dword_value : Bytes → ℕ
dword_value (a ∷ b ∷ c ∷ d ∷ more) = a + b * 256 + c * 65536 + d * 16777216
dword_value _ = 0

-- What a load returns, with the buffer that it leaves.
pub record Loaded (W : Type 0) : Type 0 where
  pub result : ℕ
  pub out : Bytes
  pub world : W

module _ (r : Registry) where
  -- _LoadSettingDWORD, with what is in the memory of `value`. The key stays open when the query
  -- fails.
  unfoldable pub load_dword_at : Text → Text → ℕ → Bytes → r.World → ℕ × r.World
  unfolding dword_value
  load_dword_at key_name value_name default_value value w =
      let (opened, w1) = r.create_key key_name key_read w in
      elim opened [
        | none ↦ (default_value, w1)
        | some k ↦
            let q = r.query_value k value_name 4 value w1 in
            if q.ok then (dword_value q.buffer, r.close_key k w1) else (default_value, w1)
      ]

  -- _SaveSettingDWORD
  unfoldable pub save_dword_at : Text → Text → ℕ → r.World → Bool × r.World
  save_dword_at key_name value_name v w =
      let (opened, w1) = r.create_key key_name key_write w in
      elim opened [
        | none ↦ (false, w1)
        | some k ↦
            let (ok, w2) = r.set_value k value_name reg_dword (le_bytes v) w1 in
            (true, r.close_key k w2)
      ]

  -- _LoadSettingString: `out_len` goes to RegQueryValueEx as a number of bytes.
  unfoldable pub load_string_at : Text → Text → Bytes → ℕ → r.World → Loaded r.World
  load_string_at key_name value_name out out_len w =
      let (opened, w1) = r.create_key key_name key_read w in
      elim opened [
        | none ↦ record { result = 0; out = out; world = w1 }
        | some k ↦
            let q = r.query_value k value_name out_len out w1 in
            let w2 = r.close_key k w1 in
            if q.ok
            then record {
              result = (q.size / 2 + (2 ^ 32 - 1)) % 2 ^ 32;
              out = q.buffer;
              world = w2;
            }
            else record { result = 0; out = q.buffer; world = w2 }
      ]

  -- _SaveSettingString: the terminator is not part of the data.
  unfoldable pub save_string_at : Text → Text → Text → r.World → Bool × r.World
  unfolding tchar_bytes
  save_string_at key_name value_name v w =
      let (opened, w1) = r.create_key key_name key_write w in
      elim opened [
        | none ↦ (false, w1)
        | some k ↦
            let (ok, w2) = r.set_value k value_name reg_sz (tchar_bytes v) w1 in
            (ok, r.close_key k w2)
      ]

  -- _DeleteSetting
  unfoldable pub delete_at : Text → Text → r.World → Bool × r.World
  delete_at key_name value_name w =
      let (opened, w1) = r.create_key key_name key_write w in
      elim opened [
        | none ↦ (false, w1)
        | some k ↦ let (ok, w2) = r.delete_value k value_name w1 in (ok, r.close_key k w2)
      ]

  -- LoadSettingDWORD
  unfoldable pub load_setting_dword : Text → ℕ → Bytes → r.World → ℕ × r.World
  unfolding load_dword_at
  load_setting_dword value_name default_value value w =
      load_dword_at reg_key_setting value_name default_value value w

  -- SaveSettingDWORD
  unfoldable pub save_setting_dword : Text → ℕ → r.World → Bool × r.World
  unfolding save_dword_at
  save_setting_dword value_name v w = save_dword_at reg_key_setting value_name v w

  -- LoadSettingString
  unfoldable pub load_setting_string : Text → Bytes → ℕ → r.World → Loaded r.World
  unfolding load_string_at
  load_setting_string value_name out out_len w =
      load_string_at reg_key_setting value_name out out_len w

  -- SaveSettingString
  unfoldable pub save_setting_string : Text → Text → r.World → Bool × r.World
  unfolding save_string_at
  save_setting_string value_name v w = save_string_at reg_key_setting value_name v w

  -- DeleteSetting
  unfoldable pub delete_setting : Text → r.World → Bool × r.World
  unfolding delete_at
  delete_setting value_name w = delete_at reg_key_setting value_name w

  -- LoadNick
  unfoldable pub load_nick : Text → Bytes → ℕ → r.World → Loaded r.World
  unfolding load_string_at
  load_nick user_id out out_len w = load_string_at reg_key_nicks user_id out out_len w

  -- SaveNick
  unfoldable pub save_nick : Text → Text → r.World → Bool × r.World
  unfolding save_string_at
  save_nick user_id nick w = save_string_at reg_key_nicks user_id nick w

  -- DeleteNick
  unfoldable pub delete_nick : Text → r.World → Bool × r.World
  unfolding delete_at
  delete_nick nick w = delete_at reg_key_nicks nick w

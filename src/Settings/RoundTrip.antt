-- ===== src/Settings/RoundTrip.antt =====
-- What bzccsettings.c loads after it has saved or deleted.
use bzcc_scanner.Base.{ℕ, ◌+◌, ◌-◌, ◌*◌, ◌%◌, ◌^◌, ◌≤◌, ◌<◌, ◌≡◌, true, some, length, take}
use bzcc_scanner.Base.CText.{Bytes}
use bzcc_scanner.Settings.Registry.{Text, key_read, reg_dword, Registry, IsDocumented}
use bzcc_scanner.Settings.Store.{tchar_bytes, save_dword_at, save_string_at}
use bzcc_scanner.Settings.Store.{
  load_setting_dword, save_setting_dword, load_nick, save_nick, reg_key_setting, reg_key_nicks,
}
use bzcc_scanner.Settings.Loads.{load_dword_at-stored, load_string_at-stored, load_string_at-large}
use bzcc_scanner.Settings.Saves.{save_string_at-stored, save_dword_at-stored}

-- The calls that a save and the load behind it make succeed.
pub record IsWilling (r : Registry) : Type 0 where
  pub opens : (p : Text) (w : r.World) → (k : r.Key) × ((r.create_key p key_read w).0 ≡ some k)
  pub sets :
      (k : r.Key) (n : Text) (v : Bytes) (w : r.World) → (r.set_value k n reg_dword v w).0 ≡ true

module _ (r : Registry) (d : IsDocumented r) (g : IsWilling r) where
  -- On a registry that behaves as documented and whose calls for reading a key and for storing a
  -- DWORD succeed: LoadSettingDWORD returns what SaveSettingDWORD has saved, if that returned TRUE,
  -- whatever the default and the memory of `value` are.
  pub load_setting_dword-save_setting_dword :
      (name : Text) (v default : ℕ) (value : Bytes) (w : r.World)
      → v < 2 ^ 32
      → (save_setting_dword r name v w).0 ≡ true
      → (load_setting_dword r name default value (save_setting_dword r name v w).1).0 ≡ v
  unfolding load_setting_dword save_setting_dword
  load_setting_dword-save_setting_dword name v default value w small saved =
      let w1 = (save_dword_at r reg_key_setting name v w).1 in
      let (k, e) = g.opens reg_key_setting w1 in
      load_dword_at-stored r d reg_key_setting name w1 default value v e small
        (save_dword_at-stored r d reg_key_setting name w v saved (λ k1 w2. g.sets k1 name _ w2))

  -- On such a registry, LoadNick after a SaveNick that returned TRUE, for a nickname of at most half
  -- as many characters as `out_len`: they stand in front of the buffer, and the result is one less
  -- than their number, as a DWORD: 0 for a nickname of one character, 2 ^ 32 - 1 for an empty one.
  pub load_nick-save_nick :
      (user_id nick : Text) (out : Bytes) (out_len : ℕ) (w : r.World)
      → (save_nick r user_id nick w).0 ≡ true
      → 2 * length nick ≤ out_len
      → let l = load_nick r user_id out out_len (save_nick r user_id nick w).1 in
        (l.result ≡ (length nick + (2 ^ 32 - 1)) % 2 ^ 32)
        × (take (2 * length nick) l.out ≡ tchar_bytes nick)
  unfolding load_nick save_nick
  load_nick-save_nick user_id nick out out_len w saved fits =
      let w1 = (save_string_at r reg_key_nicks user_id nick w).1 in
      let (k, e) = g.opens reg_key_nicks w1 in
      let s = save_string_at-stored r d reg_key_nicks user_id w nick saved in
      load_string_at-stored r d reg_key_nicks user_id w1 out out_len nick e s fits

module _ (r : Registry) (d : IsDocumented r) where
  -- On a registry that behaves as documented, LoadNick after a SaveNick that returned TRUE returns 0
  -- for a nickname of more than half as many characters as `out_len`.
  pub load_nick-save_nick_large :
      (user_id nick : Text) (out : Bytes) (out_len : ℕ) (w : r.World)
      → (save_nick r user_id nick w).0 ≡ true
      → out_len < 2 * length nick
      → (load_nick r user_id out out_len (save_nick r user_id nick w).1).result ≡ 0
  unfolding load_nick save_nick
  load_nick-save_nick_large user_id nick out out_len w saved large =
      load_string_at-large r d reg_key_nicks user_id _ out out_len nick
        (save_string_at-stored r d reg_key_nicks user_id w nick saved) large

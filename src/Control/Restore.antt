-- ===== src/Control/Restore.antt =====
-- What WinMain loads is what was saved.
use bzcc_scanner.Base.{
  ℕ, ◌<◌, ◌-◌, ◌^◌, ◌≡◌, ◌⊎◌, inl, inr, refl, ap, ◌∙◌, Bool, true, false, none, some, not, ◌==◌,
  arith, ◌+◌, ◌*◌, ◌/◌, ◌%◌, ◌≤◌, suc, sym, All, take, length, if◌then◌else◌, [], ◌∷◌,
}
use bzcc_scanner.Nicks.Update.{text_of}
use bzcc_scanner.Base.Int.{to_dword, of_bits}
use bzcc_scanner.Base.CText.{Bytes, codes, le_bytes}
use bzcc_scanner.Settings.Registry.{Text, Registry, IsDocumented}
use bzcc_scanner.Settings.Store.{
  tchar_bytes, reg_key_setting, load_setting_dword, load_setting_string,
}
use bzcc_scanner.Settings.Loads.{
  load_dword_at-stored, load_dword_at-default, load_dword_at-others, load_string_at-others,
  load_string_at-stored,
}
use bzcc_scanner.Settings.RoundTrip.{IsWilling}
use bzcc_scanner.Control.Window.{Window, hostname_len}
use bzcc_scanner.Control.Prefs.{flag}
use bzcc_scanner.Control.Period.{to_dword_bound}
use bzcc_scanner.Control.Startup.{load_config, load_if, name_buffer, http_host, http_file}

-- A character of a string.
abbrev pub IsChar : ℕ → Type 0
IsChar c = ((c == 0) ≡ false) × (c < 2 ^ 16)

text_of-tchar_bytes :
    (t : Text) (bs : Bytes)
    → All IsChar t
    → take (2 * length t) bs ≡ tchar_bytes t
    → take (length t) (text_of bs) ≡ t
unfolding tchar_bytes text_of
text_of-tchar_bytes [] bs a e = refl
text_of-tchar_bytes (c ∷ cs) [] a e =
    let shift : 2 * length (c ∷ cs) ≡ suc (suc (2 * length cs)) = omega arith in
    let e1 : ◌≡◌ {A = Bytes} [] (c % 256 ∷ c / 256 % 256 ∷ tchar_bytes cs) =
      ap (λ k. take k []) (sym shift) ∙ e in
    cc
text_of-tchar_bytes (c ∷ cs) (lo ∷ []) a e =
    let shift : 2 * length (c ∷ cs) ≡ suc (suc (2 * length cs)) = omega arith in
    let e1 : lo ∷ [] ≡ c % 256 ∷ c / 256 % 256 ∷ tchar_bytes cs =
      ap (λ k. take k (lo ∷ [])) (sym shift) ∙ e in
    cc
text_of-tchar_bytes (c ∷ cs) (lo ∷ hi ∷ more) ((n, small), a) e =
    let shift : 2 * length (c ∷ cs) ≡ suc (suc (2 * length cs)) = omega arith in
    let e1 : lo ∷ hi ∷ take (2 * length cs) more ≡ c % 256 ∷ c / 256 % 256 ∷ tchar_bytes cs =
      ap (λ k. take k (lo ∷ hi ∷ more)) (sym shift) ∙ e in
    let low : lo ≡ c % 256 = cc in
    let high : hi ≡ c / 256 % 256 = cc in
    let rest : take (2 * length cs) more ≡ tchar_bytes cs = cc in
    let whole : lo + hi * 256 ≡ c = omega arith in
    rw (whole, n) (ap (λ t. c ∷ t) (text_of-tchar_bytes cs more a rest))

module _ (r : Registry) (d : IsDocumented r) (g : IsWilling r) (junk : Bytes) (s : r.World) where
  -- The value of a setting is stored, or is the default and not stored.
  abbrev pub Kept : Text → ℕ → ℕ → Type 0
  Kept name default v =
      (d.stored s (reg_key_setting, name) ≡ some (le_bytes v))
      ⊎ ((d.stored s (reg_key_setting, name) ≡ none) × (default ≡ v))

  -- The text of a setting is not stored, or is stored and fits half the buffer.
  abbrev pub KeptText : Text → Text → Type 0
  KeptText name t =
      (d.stored s (reg_key_setting, name) ≡ none)
      ⊎ ((d.stored s (reg_key_setting, name) ≡ some (tchar_bytes t))
          × (2 * length t ≤ hostname_len)
          × All IsChar t)

  -- The text of a setting is not stored, or `loaded` begins with it.
  abbrev pub Begins : (name t loaded : Text) → Type 0
  Begins name t loaded = (d.stored s (reg_key_setting, name) ≡ none) ⊎ (take (length t) loaded ≡ t)

  -- The values are those of `s`.
  abbrev pub Same : r.World → Type 0
  Same s1 = (x : Text × Text) → d.stored s1 x ≡ d.stored s x

  load-Same :
      (name : Text) (default : ℕ) (s1 : r.World)
      → Same s1
      → Same (load_setting_dword r name default junk s1).1
  unfolding load_setting_dword
  load-Same name default s1 same x =
      load_dword_at-others r d reg_key_setting name s1 default junk x ∙ same x

  load_string-Same :
      (name : Text) (out : Bytes) (n : ℕ) (s1 : r.World)
      → Same s1
      → Same (load_setting_string r name out n s1).world
  unfolding load_setting_string
  load_string-Same name out n s1 same x =
      load_string_at-others r d reg_key_setting name s1 out n x ∙ same x

  load-Kept :
      (name : Text) (default v : ℕ) (s1 : r.World)
      → Same s1
      → v < 2 ^ 32
      → Kept name default v
      → (load_setting_dword r name default junk s1).0 ≡ v
  unfolding load_setting_dword
  load-Kept name default v s1 same small (inl e) =
      load_dword_at-stored r d reg_key_setting name s1 default junk v (g.opens reg_key_setting s1).1
        small (same (reg_key_setting, name) ∙ e)
  load-Kept name default v s1 same small (inr (e, eq)) =
      load_dword_at-default r d reg_key_setting name s1 default junk
        (same (reg_key_setting, name) ∙ e)
      ∙ eq

  load_if-Same :
      (on : Bool) (name : Text) (default : ℕ) (s1 : r.World)
      → Same s1
      → Same (load_if r junk on name default s1).1
  load_if-Same true name default s1 same = load-Same name default s1 same
  load_if-Same false name default s1 same = same

  load_if-Kept :
      (on : Bool) (name : Text) (default v : ℕ) (s1 : r.World)
      → Same s1
      → v < 2 ^ 32
      → Kept name default v
      → (load_if r junk on name default s1).0 ≡ (if on then v else default)
  load_if-Kept true name default v s1 same small k = load-Kept name default v s1 same small k
  load_if-Kept false name default v s1 same small k = refl

  load_string-Begins :
      (name t : Text) (out : Bytes) (s1 : r.World)
      → Same s1
      → KeptText name t
      → Begins name t (text_of (load_setting_string r name out hostname_len s1).out)
  unfolding load_setting_string
  load_string-Begins name t out s1 same (inl e) = inl e
  load_string-Begins name t out s1 same (inr (e, fits, chars)) = inr (
      text_of-tchar_bytes t _ chars
        (load_string_at-stored r d reg_key_setting name s1 out hostname_len t
          (g.opens reg_key_setting s1).1 (same (reg_key_setting, name) ∙ e) fits).1)

  load_flag :
      (name : Text) (default : ℕ) (b : Bool) (s1 : r.World)
      → Same s1
      → Kept name default (flag b)
      → not ((load_setting_dword r name default junk s1).0 == 0) ≡ b
  load_flag name default true s1 same k =
      ap (λ n. not (n == 0)) (load-Kept name default 1 s1 same (omega arith) k)
  load_flag name default false s1 same k =
      ap (λ n. not (n == 0)) (load-Kept name default 0 s1 same (omega arith) k)

  -- The settings of the window `w` are kept, with the defaults of WinMain, and of `w0` for the size.
  pub record IsKept (w0 w : Window) : Type 0 where
    pub kept_width : Kept (codes "WIN_WIDTH") w0.width w.width
    pub kept_height : Kept (codes "WIN_HEIGHT") w0.height w.height
    pub kept_host : KeptText (codes "HOST") w.host_name
    pub kept_file : KeptText (codes "FILE") w.host_file
    pub width_fits : w.width < 2 ^ 32
    pub height_fits : w.height < 2 ^ 32
    pub kept_names : Kept (codes "USE_LOCAL_NAMES") 0 (flag w.use_local_names)
    pub kept_nicks : Kept (codes "AUTO_CREATE_NICKS") 0 (flag w.auto_nick_save)
    pub kept_sort : Kept (codes "AUTO_SORT") 1 (flag w.remember_sort)
    pub kept_scan : Kept (codes "AUTO_SCAN") 0 (flag w.auto_scan)
    pub kept_delay : Kept (codes "AUTO_SCAN_DELAY") 60 w.auto_scan_delay
    pub kept_column : Kept (codes "LAST_SORT_INDEX") (2 ^ 32 - 1) (to_dword w.last_col_sort_index)
    pub kept_turned : Kept (codes "LAST_SORT_REVERSE") 0 (flag w.reverse_sort)
    pub kept_size : Kept (codes "REMEMBER_SIZE") 0 (flag w.remember_size)
    pub kept_port : Kept (codes "PORT") 80 w.host_port
    pub delay_fits : w.auto_scan_delay < 2 ^ 32
    pub port_fits : w.host_port < 2 ^ 32

  -- On a registry that behaves as documented and whose keys can be opened: WinMain loads the flags,
  -- the delay, the column and direction of the order, the port and, if the size is remembered, the
  -- width and height of the window whose settings are stored, or are the defaults and not stored; and
  -- the host and the file that it loads begin with those that are stored, if these have half as many
  -- characters as their buffers at most.
  pub load_config-Restores :
      (w0 w : Window)
      → IsKept w0 w
      → let v = (load_config r junk w0 s).0 in
        (v.use_local_names ≡ w.use_local_names)
        × (v.auto_nick_save ≡ w.auto_nick_save)
        × (v.remember_sort ≡ w.remember_sort)
        × (v.auto_scan ≡ w.auto_scan)
        × (v.auto_scan_delay ≡ w.auto_scan_delay)
        × (v.last_col_sort_index ≡ of_bits (to_dword w.last_col_sort_index))
        × (v.reverse_sort ≡ w.reverse_sort)
        × (v.remember_size ≡ w.remember_size)
        × (v.host_port ≡ w.host_port)
        × (v.width ≡ (if w.remember_size then w.width else w0.width))
        × (v.height ≡ (if w.remember_size then w.height else w0.height))
        × Begins (codes "HOST") w.host_name v.host_name
        × Begins (codes "FILE") w.host_file v.host_file
  unfolding load_config
  load_config-Restores w0 w k =
      let (size, s1) = load_setting_dword r (codes "REMEMBER_SIZE") 0 junk s in
      let e1 = load-Same (codes "REMEMBER_SIZE") 0 s (λ x. refl) in
      let sized = not (size == 0) in
      let remembered : sized ≡ w.remember_size =
        load_flag (codes "REMEMBER_SIZE") 0 w.remember_size s (λ x. refl) k.kept_size in
      let s2 = (load_if r junk sized (codes "WIN_WIDTH") w0.width s1).1 in
      let e2 = load_if-Same sized (codes "WIN_WIDTH") w0.width s1 e1 in
      let s3 = (load_if r junk sized (codes "WIN_HEIGHT") w0.height s2).1 in
      let e3 = load_if-Same sized (codes "WIN_HEIGHT") w0.height s2 e2 in
      let s4 = (load_setting_dword r (codes "USE_LOCAL_NAMES") 0 junk s3).1 in
      let e4 = load-Same (codes "USE_LOCAL_NAMES") 0 s3 e3 in
      let s5 = (load_setting_dword r (codes "AUTO_CREATE_NICKS") 0 junk s4).1 in
      let e5 = load-Same (codes "AUTO_CREATE_NICKS") 0 s4 e4 in
      let s6 = (load_setting_dword r (codes "AUTO_SORT") 1 junk s5).1 in
      let e6 = load-Same (codes "AUTO_SORT") 1 s5 e5 in
      let s7 = (load_setting_dword r (codes "AUTO_SCAN") 0 junk s6).1 in
      let e7 = load-Same (codes "AUTO_SCAN") 0 s6 e6 in
      let s8 = (load_setting_dword r (codes "AUTO_SCAN_DELAY") 60 junk s7).1 in
      let e8 = load-Same (codes "AUTO_SCAN_DELAY") 60 s7 e7 in
      let s9 = (load_setting_dword r (codes "LAST_SORT_INDEX") (2 ^ 32 - 1) junk s8).1 in
      let e9 = load-Same (codes "LAST_SORT_INDEX") (2 ^ 32 - 1) s8 e8 in
      let s10 = (load_setting_dword r (codes "LAST_SORT_REVERSE") 0 junk s9).1 in
      let e10 = load-Same (codes "LAST_SORT_REVERSE") 0 s9 e9 in
      let host = load_setting_string r (codes "HOST") (name_buffer http_host) hostname_len s10 in
      let e11 = load_string-Same (codes "HOST") (name_buffer http_host) hostname_len s10 e10 in
      let e12 =
        load_string-Same (codes "FILE") (name_buffer http_file) hostname_len (host.world) e11 in
      let file =
        load_setting_string r (codes "FILE") (name_buffer http_file) hostname_len (host.world) in
      (
        load_flag (codes "USE_LOCAL_NAMES") 0 w.use_local_names s3 e3 k.kept_names,
        load_flag (codes "AUTO_CREATE_NICKS") 0 w.auto_nick_save s4 e4 k.kept_nicks,
        load_flag (codes "AUTO_SORT") 1 w.remember_sort s5 e5 k.kept_sort,
        load_flag (codes "AUTO_SCAN") 0 w.auto_scan s6 e6 k.kept_scan,
        load-Kept (codes "AUTO_SCAN_DELAY") 60 w.auto_scan_delay s7 e7 k.delay_fits k.kept_delay,
        ap of_bits (
            load-Kept (codes "LAST_SORT_INDEX") (2 ^ 32 - 1) (to_dword w.last_col_sort_index) s8 e8
              (to_dword_bound w.last_col_sort_index) k.kept_column),
        load_flag (codes "LAST_SORT_REVERSE") 0 w.reverse_sort s9 e9 k.kept_turned,
        remembered,
        load-Kept (codes "PORT") 80 w.host_port (file.world) e12 k.port_fits k.kept_port,
        load_if-Kept sized (codes "WIN_WIDTH") w0.width w.width s1 e1 k.width_fits k.kept_width
            ∙ ap (λ on. if on then w.width else w0.width) remembered,
        load_if-Kept sized (codes "WIN_HEIGHT") w0.height w.height s2 e2 k.height_fits k.kept_height
            ∙ ap (λ on. if on then w.height else w0.height) remembered,
        load_string-Begins (codes "HOST") w.host_name (name_buffer http_host) s10 e10 k.kept_host,
        load_string-Begins (codes "FILE") w.host_file (name_buffer http_file) (host.world) e11
            k.kept_file,
      )

-- ===== src/Settings/Saves.antt =====
-- What the saves and deletes of bzccsettings.c do to the values that are stored.
use bzcc_scanner.Base.{ℕ, ◌≡◌, ◌∙◌, true, some, Option-cases, inl, inr}
use bzcc_scanner.Base.CText.{le_bytes}
use bzcc_scanner.Settings.Registry.{
  Text, Apart, key_write, reg_dword, reg_sz, Registry, IsDocumented,
}
use bzcc_scanner.Settings.Store.{tchar_bytes, save_dword_at, save_string_at, delete_at}
use bzcc_scanner.Settings.Runs.{
  save_dword_at-opened, save_string_at-opened, delete_at-opened, save_dword_at-refused,
  save_string_at-refused, delete_at-refused,
}

module _ (r : Registry) (d : IsDocumented r) (p n : Text) (w : r.World) where
  pub save_string_at-stored :
      (v : Text)
      → (save_string_at r p n v w).0 ≡ true
      → d.stored (save_string_at r p n v w).1 (p, n) ≡ some (tchar_bytes v)
  save_string_at-stored v = elim (Option-cases (r.create_key p key_write w).0) [
    | inl e ↦ rw (save_string_at-refused r p n w e v) (λ h. cc)
    | inr (k, e) ↦
        rw (save_string_at-opened r p n w e v, d.close-stored)
          (λ h. d.set-stored n reg_sz (tchar_bytes v) (d.create-names p key_write w e) h)
  ]

  pub save_dword_at-stored :
      (v : ℕ)
      → (save_dword_at r p n v w).0 ≡ true
      → ((k : r.Key) (w1 : r.World) → (r.set_value k n reg_dword (le_bytes v) w1).0 ≡ true)
      → d.stored (save_dword_at r p n v w).1 (p, n) ≡ some (le_bytes v)
  save_dword_at-stored v = elim (Option-cases (r.create_key p key_write w).0) [
    | inl e ↦ rw (save_dword_at-refused r p n w e v) (λ h sets. cc)
    | inr (k, e) ↦
        rw (save_dword_at-opened r p n w e v, d.close-stored)
          (λ h sets.
            d.set-stored n reg_dword (le_bytes v) (d.create-names p key_write w e) (sets k _))
  ]

  module _ (other : Text × Text) (apart : Apart (p, n) other) where
    -- A save or a delete leaves the values of other names and other keys as they are.
    pub save_string_at-others :
        (v : Text) → d.stored (save_string_at r p n v w).1 other ≡ d.stored w other
    save_string_at-others v = elim (Option-cases (r.create_key p key_write w).0) [
      | inl e ↦ rw (save_string_at-refused r p n w e v) (d.create-stored p key_write w other)
      | inr (k, e) ↦
          rw (save_string_at-opened r p n w e v, d.close-stored)
            (d.set-others n reg_sz (tchar_bytes v) other (d.create-names p key_write w e) apart
              ∙ d.create-stored p key_write w other)
    ]

    pub save_dword_at-others :
        (v : ℕ) → d.stored (save_dword_at r p n v w).1 other ≡ d.stored w other
    save_dword_at-others v = elim (Option-cases (r.create_key p key_write w).0) [
      | inl e ↦ rw (save_dword_at-refused r p n w e v) (d.create-stored p key_write w other)
      | inr (k, e) ↦
          rw (save_dword_at-opened r p n w e v, d.close-stored)
            (d.set-others n reg_dword (le_bytes v) other (d.create-names p key_write w e) apart
              ∙ d.create-stored p key_write w other)
    ]

    pub delete_at-others : d.stored (delete_at r p n w).1 other ≡ d.stored w other
    delete_at-others = elim (Option-cases (r.create_key p key_write w).0) [
      | inl e ↦ rw (delete_at-refused r p n w e) (d.create-stored p key_write w other)
      | inr (k, e) ↦
          rw (delete_at-opened r p n w e, d.close-stored)
            (d.delete-others n other (d.create-names p key_write w e) apart
              ∙ d.create-stored p key_write w other)
    ]

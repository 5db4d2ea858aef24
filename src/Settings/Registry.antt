-- ===== src/Settings/Registry.antt =====
-- The registry of Windows as bzccsettings.c uses it: the calls are a parameter, and what is said
-- about them is what their documentation says.
use bzcc_scanner.Base.{
  ℕ, ◌-◌, ◌≤◌, ◌<◌, ◌≡◌, suc, Bool, true, false, Option, none, some, List, ◌⊎◌, length, take,
}
use bzcc_scanner.Base.CText.{Bytes, same_ignoring_case}

abbrev pub Text : Type 0
Text = List ℕ

pub data Access : Type 0 where
  key_read key_write : Access

pub data Kind : Type 0 where
  reg_dword reg_sz : Kind

-- What RegQueryValueEx leaves: whether it returned ERROR_SUCCESS, the buffer, and `*lpcbData`.
pub record Answer : Type 0 where
  pub ok : Bool
  pub buffer : Bytes
  pub size : ℕ

-- The calls. `World` is the registry with the handles that are open, `none` for a key that was not
-- opened.
pub record Registry : Type 1 where
  pub World : Type 0
  pub Key : Type 0
  pub create_key : Text → Access → World → Option Key × World
  pub query_value : Key → Text → (size : ℕ) → (buffer : Bytes) → World → Answer
  pub set_value : Key → Text → Kind → Bytes → World → Bool × World
  pub delete_value : Key → Text → World → Bool × World
  pub close_key : Key → World → World

-- Names of keys and of values are compared without their case.
abbrev pub Apart : Text × Text → Text × Text → Type 0
Apart (p, n) (p', n') = (same_ignoring_case p p' ≡ false) ⊎ (same_ignoring_case n n' ≡ false)

-- What is documented. `stored` is the data of a value under a key, `opened` the number of handles
-- that are open, and `names` says that an open handle is one of the key.
pub record IsDocumented (r : Registry) : Type 1 where
  pub stored : r.World → Text × Text → Option Bytes
  pub opened : r.World → ℕ
  pub names : r.World → r.Key → Text → Type 0
  -- RegCreateKeyEx opens a handle of the key or none, and no value changes.
  pub create-stored :
      (p : Text) (a : Access) (w : r.World) (v : Text × Text)
      → stored (r.create_key p a w).1 v ≡ stored w v
  pub create-opened :
      (p : Text) (a : Access) (w : r.World) {k : r.Key}
      → (r.create_key p a w).0 ≡ some k
      → opened (r.create_key p a w).1 ≡ suc (opened w)
  pub create-failed :
      (p : Text) (a : Access) (w : r.World)
      → (r.create_key p a w).0 ≡ none
      → opened (r.create_key p a w).1 ≡ opened w
  pub create-names :
      (p : Text) (a : Access) (w : r.World) {k : r.Key}
      → (r.create_key p a w).0 ≡ some k
      → names (r.create_key p a w).1 k p
  -- RegQueryValueEx fails on a value that is missing or larger than the buffer, and otherwise
  -- writes the data to the front of the buffer and its size. What stands behind the data is not
  -- said: a string need not be terminated.
  pub query-missing :
      {p : Text} {k : r.Key} {w : r.World} (n : Text) (size : ℕ) (buffer : Bytes)
      → names w k p
      → stored w (p, n) ≡ none
      → (r.query_value k n size buffer w).ok ≡ false
  pub query-large :
      {p : Text} {k : r.Key} {w : r.World} (n : Text) (size : ℕ) (buffer : Bytes) {v : Bytes}
      → names w k p
      → stored w (p, n) ≡ some v
      → size < length v
      → (r.query_value k n size buffer w).ok ≡ false
  pub query-fits :
      {p : Text} {k : r.Key} {w : r.World} (n : Text) (size : ℕ) (buffer : Bytes) {v : Bytes}
      → names w k p
      → stored w (p, n) ≡ some v
      → length v ≤ size
      → let a = r.query_value k n size buffer w in
        (a.ok ≡ true) × (take (length v) a.buffer ≡ v) × (a.size ≡ length v)
  -- RegSetValueEx stores the data or changes nothing.
  pub set-stored :
      {p : Text} {k : r.Key} {w : r.World} (n : Text) (t : Kind) (v : Bytes)
      → names w k p
      → (r.set_value k n t v w).0 ≡ true
      → stored (r.set_value k n t v w).1 (p, n) ≡ some v
  pub set-others :
      {p : Text} {k : r.Key} {w : r.World} (n : Text) (t : Kind) (v : Bytes) (other : Text × Text)
      → names w k p
      → Apart (p, n) other
      → stored (r.set_value k n t v w).1 other ≡ stored w other
  pub set-failed :
      (k : r.Key) (n : Text) (t : Kind) (v : Bytes) (w : r.World) (other : Text × Text)
      → (r.set_value k n t v w).0 ≡ false
      → stored (r.set_value k n t v w).1 other ≡ stored w other
  pub set-opened :
      (k : r.Key) (n : Text) (t : Kind) (v : Bytes) (w : r.World)
      → opened (r.set_value k n t v w).1 ≡ opened w
  -- RegDeleteValue removes the value or changes nothing.
  pub delete-stored :
      {p : Text} {k : r.Key} {w : r.World} (n : Text)
      → names w k p
      → (r.delete_value k n w).0 ≡ true
      → stored (r.delete_value k n w).1 (p, n) ≡ none
  pub delete-others :
      {p : Text} {k : r.Key} {w : r.World} (n : Text) (other : Text × Text)
      → names w k p
      → Apart (p, n) other
      → stored (r.delete_value k n w).1 other ≡ stored w other
  pub delete-opened :
      (k : r.Key) (n : Text) (w : r.World) → opened (r.delete_value k n w).1 ≡ opened w
  -- RegCloseKey gives a handle back.
  pub close-stored :
      (k : r.Key) (w : r.World) (v : Text × Text) → stored (r.close_key k w) v ≡ stored w v
  pub close-opened : (k : r.Key) (w : r.World) → opened (r.close_key k w) ≡ opened w - 1

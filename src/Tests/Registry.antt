-- ===== src/Tests/Registry.antt =====
-- A registry in memory, and the theorems on bzccsettings.c at it.
use bzcc_scanner.Base.{
  ℕ, suc, ◌+◌, ◌-◌, ◌%◌, ◌^◌, ◌≤◌, ◌<◌, ◌≡◌, refl, ap, Bool, true, false, ◌&&◌, Option, none, some,
  [], ◌∷◌, ◌++◌, inl, inr, if◌then◌else◌, leb, take, drop, length, arith,
}
use bzcc_scanner.Base.CText.{Bytes, codes, same_ignoring_case}
use bzcc_scanner.Settings.Registry.{Text, Answer, Registry, IsDocumented, Apart, key_read}
use bzcc_scanner.Settings.Store.{
  load_setting_dword, save_setting_dword, load_nick, save_nick, save_dword_at, save_string_at,
  delete_at, load_string_at, load_dword_at, tchar_bytes, reg_key_setting,
}
use bzcc_scanner.Settings.RoundTrip.{
  IsWilling, load_setting_dword-save_setting_dword, load_nick-save_nick, load_nick-save_nick_large,
}
use bzcc_scanner.Settings.Balance.{settings-Balanced, leaked}

pub record Values : Type 0 where
  pub at : Text × Text → Option Bytes
  pub count : ℕ

abbrev pub same_value : Text × Text → Text × Text → Bool
same_value (p, n) (p', n') = same_ignoring_case p p' && same_ignoring_case n n'

abbrev pub query : Option Bytes → ℕ → Bytes → Answer
query none size buffer = record { ok = false; buffer = buffer; size = 0 }
query (some v) size buffer =
    if leb (length v) size
    then record { ok = true; buffer = v ++ drop (length v) buffer; size = length v }
    else record { ok = false; buffer = buffer; size = length v }

abbrev pub change : Text × Text → Option Bytes → Values → Values
change v b w = record w { at = λ other. if same_value v other then b else w.at other }

abbrev pub in_memory : Registry
in_memory = record {
  World = Values;
  Key = Text;
  create_key = λ p access w. (some p, record w { count = suc w.count });
  query_value = λ k n size buffer w. query (w.at (k, n)) size buffer;
  set_value = λ k n t v w. (true, change (k, n) (some v) w);
  delete_value = λ k n w. (true, change (k, n) none w);
  close_key = λ k w. record w { count = w.count - 1 };
}

same_ignoring_case_refl : (t : Text) → same_ignoring_case t t ≡ true
unfolding same_ignoring_case
same_ignoring_case_refl [] = refl
same_ignoring_case_refl (c ∷ cs) = ground (arith, same_ignoring_case_refl cs)

take-append : (v rest : Bytes) → take (length v) (v ++ rest) ≡ v
take-append [] rest = refl
take-append (x ∷ v) rest = ap (λ t. x ∷ t) (take-append v rest)

pub query-none :
    (o : Option Bytes) (size : ℕ) (buffer : Bytes) → o ≡ none → (query o size buffer).ok ≡ false
query-none o size buffer e = rw e refl

pub query-long :
    (o : Option Bytes) (size : ℕ) (buffer : Bytes) {v : Bytes}
    → o ≡ some v
    → size < length v
    → (query o size buffer).ok ≡ false
query-long o size buffer {v} e h = rw e (ground arith)

pub query-short :
    (o : Option Bytes) (size : ℕ) (buffer : Bytes) {v : Bytes}
    → o ≡ some v
    → length v ≤ size
    → let a = query o size buffer in
      (a.ok ≡ true) × (take (length v) a.buffer ≡ v) × (a.size ≡ length v)
query-short o size buffer {v} e h =
    let fits : leb (length v) size ≡ true = ground arith in
    rw (e, fits) (refl, take-append v (drop (length v) buffer), refl)

-- What is known of `same_ignoring_case`, and of names that are apart.
pub change-same : (v : Text × Text) (b : Option Bytes) (w : Values) → (change v b w).at v ≡ b
change-same (p, n) b w = rw (same_ignoring_case_refl p, same_ignoring_case_refl n) refl

pub change-other :
    (v other : Text × Text) (b : Option Bytes) (w : Values)
    → Apart v other
    → (change v b w).at other ≡ w.at other
change-other (p, n) (p', n') b w (inl e) = rw e refl
change-other (p, n) (p', n') b w (inr e) = ground arith

pub subst_key :
    {p k : Text} (w : Values) (n : Text) {o : Option Bytes}
    → k ≡ p
    → w.at (p, n) ≡ o
    → w.at (k, n) ≡ o
subst_key w n e h = rw e h

abbrev pub in_memory-IsDocumented : IsDocumented in_memory
in_memory-IsDocumented = record {
  stored = λ w. w.at;
  opened = λ w. w.count;
  names = λ w k p. k ≡ p;
  create-stored = λ p a w v. refl;
  create-opened = λ p a w e. refl;
  create-failed = λ p a w e. cc;
  create-names = λ p a w e. cc;
  query-missing = λ {p} {k} {w} n size buffer e h. query-none _ size buffer (subst_key w n e h);
  query-large =
      λ {p} {k} {w} n size buffer {v} e h lt. query-long _ size buffer (subst_key w n e h) lt;
  query-fits =
      λ {p} {k} {w} n size buffer {v} e h le. query-short _ size buffer (subst_key w n e h) le;
  set-stored = λ {p} {k} {w} n t v e h. rw e (change-same _ (some v) w);
  set-others = λ {p} {k} {w} n t v other e h. change-other _ other (some v) w (rw e h);
  set-failed = λ k n t v w other e. cc;
  set-opened = λ k n t v w. refl;
  delete-stored = λ {p} {k} {w} n e h. rw e (change-same _ none w);
  delete-others = λ {p} {k} {w} n other e h. change-other _ other none w (rw e h);
  delete-opened = λ k n w. refl;
  close-stored = λ k w v. refl;
  close-opened = λ k w. refl;
}

pub in_memory-IsWilling : IsWilling in_memory
in_memory-IsWilling = record { opens = λ p w. (p, refl); sets = λ k n v w. refl }

abbrev pub empty : Values
empty = record { at = λ v. none; count = 0 }

abbrev user : Text
user = codes "S76561197974548434"

load_setting_dword-save_setting_dword_example :
    (load_setting_dword in_memory
      (codes "PORT")
      80
      (1 ∷ 2 ∷ 3 ∷ 4 ∷ [])
      (save_setting_dword in_memory (codes "PORT") 61111 empty).1).0
    ≡ 61111
unfolding save_setting_dword
load_setting_dword-save_setting_dword_example =
    load_setting_dword-save_setting_dword in_memory in_memory-IsDocumented in_memory-IsWilling
      (codes "PORT") 61111 80 (1 ∷ 2 ∷ 3 ∷ 4 ∷ []) empty (omega arith) refl

load_nick-save_nick_example :
    let l =
      load_nick in_memory user (b'x' ∷ []) 64 (save_nick in_memory user (codes "Al") empty).1 in
    (l.result ≡ (2 + (2 ^ 32 - 1)) % 2 ^ 32) × (take 4 l.out ≡ tchar_bytes (codes "Al"))
unfolding save_nick
load_nick-save_nick_example =
    load_nick-save_nick in_memory in_memory-IsDocumented in_memory-IsWilling user (codes "Al")
      (b'x' ∷ []) 64 empty refl (omega arith)

load_nick-save_nick_large_example :
    (load_nick in_memory user [] 3 (save_nick in_memory user (codes "Al") empty).1).result ≡ 0
unfolding save_nick
load_nick-save_nick_large_example =
    load_nick-save_nick_large in_memory in_memory-IsDocumented user (codes "Al") [] 3 empty refl
      (omega arith)

settings-Balanced_example :
    let name = codes "HOST" in
    let (opened, w1) = in_memory.create_key reg_key_setting key_read empty in
    ((save_dword_at in_memory reg_key_setting name 7 empty).1.count ≡ 0)
    × ((save_string_at in_memory reg_key_setting name (codes "a.b") empty).1.count ≡ 0)
    × ((delete_at in_memory reg_key_setting name empty).1.count ≡ 0)
    × ((load_string_at in_memory reg_key_setting name [] 128 empty).world.count ≡ 0)
    × ((load_dword_at in_memory reg_key_setting name 1 [] empty).1.count
        ≡ 0 + leaked opened (λ k. (in_memory.query_value k name 4 [] w1).ok))
settings-Balanced_example =
    settings-Balanced in_memory in_memory-IsDocumented reg_key_setting (codes "HOST") empty 7 1
      (codes "a.b") [] [] 128

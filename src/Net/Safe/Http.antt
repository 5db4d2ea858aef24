-- ===== src/Net/Safe/Http.antt =====
-- One round of the loop in `parse_data`: it keeps the invariant, and it faults only at the end of a
-- status line of fewer than six bytes.
use Prim.Native.Nat.{ℕ}
use bzcc_scanner.Base.{◌≡◌, refl, [], ◌∷◌, arith, length-append}
use bzcc_scanner.Net.Parser.{Mode, http_header, header_name, header_value, json, Parser, Callback}
use bzcc_scanner.Net.Http.{step_header_name, step_header_value, step_mode, step}
use bzcc_scanner.Net.Safe.{IsValid, Keeps, PastStatus}
use bzcc_scanner.Net.Safe.Reported.{Preserves}
use bzcc_scanner.Net.Safe.Value.{step_json-Keeps}

module _ {S : Type 0} (P : S → Type 0) (s : S) (ok : P s) where
  step_header_name-Keeps :
      (p : Parser) (c : ℕ) → IsValid p → p.mode ≡ header_name → Keeps P (step_header_name p c s)
  unfolding step_header_name
  step_header_name-Keeps p c v m = ground (arith, ok, length-append p.name (c ∷ []))

  step_header_value-Keeps :
      (p : Parser) (c : ℕ) → IsValid p → p.mode ≡ header_value → Keeps P (step_header_value p c s)
  unfolding step_header_value
  step_header_value-Keeps p c v m = ground (arith, ok, length-append p.value (c ∷ []))

module _ {S : Type 0} (callback : Callback S) (P : S → Type 0) (keep : Preserves P callback) (s : S)
    (ok : P s) where
  -- One round of the loop of `parse_data` on valid variables, past the status line, makes no access
  -- outside an array and reads no element that was not written. It returns, or leaves the variables
  -- valid, and a property of the callback's state that each reported call keeps is kept.
  pub step-Keeps :
      (p : Parser) (c : ℕ) → IsValid p → PastStatus p.mode → Keeps P (step callback p c s)
  step-Keeps p c v past = go p.mode refl past
    where
      go : (m : Mode) → p.mode ≡ m → PastStatus m → Keeps P (step_mode callback m p c s)
      go http_header m h = absurd h
      go header_name m h = unfold step_mode in step_header_name-Keeps P s ok p c v m
      go header_value m h = unfold step_mode in step_header_value-Keeps P s ok p c v m
      go json m h = unfold step_mode in step_json-Keeps callback P keep s ok p c v m

-- ===== src/Net/Safe.antt =====
-- The invariant of the variables of `parse_data`: no buffer is full, `depth` stays within the
-- array `is_array`, and every element below `depth` has been written.
mod Flags
pub mod Json
pub mod Reported
pub mod Value
pub mod Http
pub mod Runs
pub use Flags.*
use Prim.Native.Nat.{ℕ, ◌<◌}
use bzcc_scanner.Base.{◌≡◌, List, [], Option, Bool, length}
use bzcc_scanner.Base.CText.{Bytes}
use bzcc_scanner.Net.Kvi.{generic_buflen, max_depth}
use bzcc_scanner.Net.Parser.{
  Mode, http_header, header_value, json, JState, root_start, read_value, root_end, Parser, Outcome,
  continue, stop, fault,
}

-- Only a header value and a value that is being read are not empty.
abbrev pub ValueFits : Mode → JState → Bytes → Type 0
ValueFits header_value j v = length v < generic_buflen
ValueFits json read_value v = length v < generic_buflen
ValueFits _ _ v = v ≡ []

abbrev pub DepthFits : Mode → JState → ℕ → Type 0
DepthFits json root_start d = d ≡ 0
DepthFits json root_end d = d ≡ 0
DepthFits json _ d = (0 < d) × (d < max_depth)
DepthFits _ j d = (j ≡ root_start) × (d ≡ 0)

pub record IsValid (p : Parser) : Type 0 where
  pub name_fits : length p.name < generic_buflen
  pub value_fits : ValueFits p.mode p.j_state p.value
  pub depth_fits : DepthFits p.mode p.j_state p.depth
  pub flags_length : length p.is_array ≡ max_depth
  pub marked : Marked p.is_array p.depth

-- The status line of the answer has been read, or there is none.
abbrev pub PastStatus : Mode → Type 0
PastStatus http_header = ⊥
PastStatus _ = Unit

-- No fault, and what goes on is valid; `P` holds of the state of the callback.
abbrev pub Keeps : {S : Type 0} → (S → Type 0) → Outcome S → Type 0
Keeps P (continue p s) = IsValid p × PastStatus p.mode × P s
Keeps P (stop n k s) = P s
Keeps P fault = ⊥

-- ===== src/Net/Document/Fits.antt =====
-- The lobby lists that the reader takes: no text is longer than a buffer, a key name needs no
-- escape, and a plain value is a word.
use Prim.Native.Nat.{◌+◌, ◌<◌}
use bzcc_scanner.Base.{[], ◌∷◌, All, length}
use bzcc_scanner.Base.CText.{Bytes}
use bzcc_scanner.Net.Kvi.{generic_buflen}
use bzcc_scanner.Net.Document.Shape.{Scalar, plain, text, Field, Item, field, players, Server}
use bzcc_scanner.Net.Document.Key.{IsKeyByte}
use bzcc_scanner.Net.Document.Plain.{IsWord}

pub record KeyFits (key : Bytes) : Type 0 where
  pub bytes : All IsKeyByte key
  pub room : length key < generic_buflen

abbrev pub ScalarFits : Scalar → Type 0
ScalarFits (plain []) = ⊥
ScalarFits (plain (c ∷ cs)) = All IsWord (c ∷ cs) × (length cs + 1 < generic_buflen)
ScalarFits (text v) = length v < generic_buflen

pub record FieldFits (f : Field) : Type 0 where
  pub key_fits : KeyFits f.key
  pub value_fits : ScalarFits f.value

abbrev pub ItemFits : Item → Type 0
ItemFits (field f) = FieldFits f
ItemFits (players key ps) = KeyFits key × All (All FieldFits) ps

abbrev pub ServerFits : Server → Type 0
ServerFits = All ItemFits

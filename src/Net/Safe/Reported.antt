-- ===== src/Net/Safe/Reported.antt =====
-- What the callback may rely on at a call that `parse_data` makes.
use Prim.Native.Nat.{ℕ, ◌-◌}
use bzcc_scanner.Base.{
  ◌≡◌, ◌⊎◌, Bool, true, false, arith, length, take, replicate, length-append, length-take,
  length-replicate,
}
use bzcc_scanner.Base.CText.{Bytes, strncpy, until_nul}
use bzcc_scanner.Net.Kvi.{Kvi, Status, normal, last, key_str_len, value_str_len}
use bzcc_scanner.Net.Parser.{Parser, Callback, Outcome, ◌>>=◌, emit, filled}
use bzcc_scanner.Net.Safe.{Keeps}

pub record IsReported (k : Kvi) : Type 0 where
  pub status_kind : (k.status ≡ normal) ⊎ (k.status ≡ last)
  pub key_length : length k.key_str ≡ key_str_len
  pub value_length : length k.value_str ≡ value_str_len

-- The callback keeps `P` when it is called so.
abbrev pub Preserves : {S : Type 0} → (S → Type 0) → Callback S → Type 0
Preserves {S} P callback = (k : Kvi) (s : S) → IsReported k → P s → P (callback k s).state

pub length-strncpy : (src : Bytes) (n : ℕ) → length (strncpy src n) ≡ n
unfolding strncpy
length-strncpy src n = omega (
  arith,
  length-append (take n (until_nul src)) (replicate (n - length (take n (until_nul src))) 0),
  length-replicate {A = ℕ} (n - length (take n (until_nul src))) 0,
  length-take n (until_nul src),
)

filled-IsReported :
    (p : Parser) (st : Status) (player : Bool)
    → (st ≡ normal) ⊎ (st ≡ last)
    → IsReported (let k = filled p st in record k { is_player = player })
filled-IsReported p st player h = record {
  status_kind = h;
  key_length = length-strncpy p.name key_str_len;
  value_length = length-strncpy p.value value_str_len;
}

module _ {S : Type 0} (callback : Callback S) (P : S → Type 0) (keep : Preserves P callback) where
  -- A call by `emit`, and what follows it: the variables are those before the call but for `kvi`.
  pub emit-bind-Keeps :
      (st : Status) (p : Parser) (s : S) (f : Parser → S → Outcome S)
      → (st ≡ normal) ⊎ (st ≡ last)
      → P s
      → ((k : Kvi) (t : S) → P t → Keeps P (f (record p { kvi = k }) t))
      → Keeps P (emit callback st p s >>= f)
  unfolding emit
  emit-bind-Keeps st p s f h ok next =
      let as_server = filled-IsReported p st false h in
      let as_player = filled-IsReported p st true h in
      let k = filled p st in
      let server = callback (record k { is_player = false }) s in
      let player = callback (record k { is_player = true }) s in
      ground (
        arith,
        keep _ s as_server ok,
        keep _ s as_player ok,
        next server.kvi server.state (keep _ s as_server ok),
        next player.kvi player.state (keep _ s as_player ok),
        next k s ok,
      )

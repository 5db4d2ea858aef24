-- ===== src/Net/Document/Emit.antt =====
-- A call of `emit`, and the runs that lead from one spot to another through calls.
use Prim.Native.Nat.{ℕ}
use bzcc_scanner.Base.{
  ◌≡◌, sym, subst, subst₂, List, [], ◌∷◌, Bool, true, false, ◌==◌, if◌then◌else◌, Bool-cases, inl,
  inr,
}
use bzcc_scanner.Base.CText.{Bytes}
use bzcc_scanner.Net.Kvi.{Kvi, Status}
use bzcc_scanner.Net.Parser.{Parser, Callback, Outcome, stop, ◌>>=◌, emit, report, filled}
use bzcc_scanner.Net.Stream.{run}
use bzcc_scanner.Net.Deliver.{Call, kvi_of, Delivers, done, accepted, rejected}
use bzcc_scanner.Net.Document.Tokens.{Spot, At, Moves}

-- The call that `emit` makes at `p`.
abbrev pub call_at : Bool → Status → Parser → Call
call_at player st p = record {
  status = st;
  player = player;
  key = p.name;
  value = p.value;
  server_index = p.server_slot;
  player_index = p.player_slot;
}

abbrev pub depth_of : Bool → ℕ
depth_of player = if player then 5 else 3

module _ {S : Type 0} (callback : Callback S) where
  emit-report :
      (player : Bool) (st : Status) (p : Parser) (s : S)
      → p.depth ≡ depth_of player
      → emit callback st p s ≡ report callback player (filled p st) p s
  unfolding emit
  emit-report true st p s d = rw d
  emit-report false st p s d = rw d

  report-accepted :
      (player : Bool) (k : Kvi) (p : Parser) (s : S) (f : Parser → S → Outcome S)
      → ((callback (record k { is_player = player }) s).code == 0) ≡ true
      → (report callback player k p s >>= f)
        ≡ f
            (record p { kvi = (callback (record k { is_player = player }) s).kvi })
            (callback (record k { is_player = player }) s).state
  unfolding report
  report-accepted player k p s f e = rw e

  report-rejected :
      (player : Bool) (k : Kvi) (p : Parser) (s : S) (f : Parser → S → Outcome S)
      → ((callback (record k { is_player = player }) s).code == 0) ≡ false
      → (report callback player k p s >>= f)
        ≡ stop 1
            (callback (record k { is_player = player }) s).kvi
            (callback (record k { is_player = player }) s).state
  unfolding report
  report-rejected player k p s f e = rw e

  -- The call of `emit`, and what follows it.
  emit-Delivers :
      (player : Bool) (st : Status) (p : Parser) (s : S) (f : Parser → S → Outcome S)
      (Q : Kvi → S → Outcome S → Type 0)
      → p.depth ≡ depth_of player
      → ((k : Kvi) (t : S) → Q k t (f (record p { kvi = k }) t))
      → Delivers callback Q (emit callback st p s >>= f) (call_at player st p ∷ []) p.kvi s
  emit-Delivers player st p s f Q d q =
      let r = callback (kvi_of (call_at player st p) p.kvi) s in
      rw (emit-report player st p s d) (elim (Bool-cases (r.code == 0)) [
        | inl e ↦ accepted e (
            done (
              subst (Q r.kvi r.state) (sym (report-accepted player (filled p st) p s f e))
                (q r.kvi r.state)))
        | inr e ↦ rejected e (report-rejected player (filled p st) p s f e)
      ])

  -- An outcome that comes to the call of `emit` and what follows it.
  pub emits :
      (player : Bool) (st : Status) (q : Parser) (s : S) (f : Parser → S → Outcome S)
      (Q : Kvi → S → Outcome S → Type 0) {o : Outcome S} {c : Call} {k : Kvi}
      → q.depth ≡ depth_of player
      → (emit callback st q s >>= f) ≡ o
      → call_at player st q ≡ c
      → q.kvi ≡ k
      → ((j : Kvi) (t : S) → Q j t (f (record q { kvi = j }) t))
      → Delivers callback Q o (c ∷ []) k s
  emits player st q s f Q {o} {c} {k} d eo ec ek h =
      subst₂ (λ o c. Delivers callback Q o (c ∷ []) k s) eo ec
        (subst
          (λ j. Delivers callback Q (emit callback st q s >>= f) (call_at player st q ∷ []) j s) ek
          (emit-Delivers player st q s f Q d h))

  -- The run goes on from the spot `y` of the `kvi` that the calls leave.
  abbrev pub Lands : (Kvi → Spot) → Bytes → Kvi → S → Outcome S → Type 0
  Lands y rest k t o = (q : Parser) × At (y k) q × (o ≡ run callback q rest t)

  -- A byte without a call, and what follows it.
  pub byte_then :
      {x : Spot} {p : Parser} {c : ℕ} {calls : List Call} {k : Kvi}
      (Q : Kvi → S → Outcome S → Type 0) (rest : Bytes) (s : S)
      → Moves callback p (c ∷ []) x
      → ((q : Parser) → At x q → Delivers callback Q (run callback q rest s) calls k s)
      → Delivers callback Q (run callback p (c ∷ rest) s) calls k s
  byte_then {calls} {k} Q rest s m after =
      subst (λ o. Delivers callback Q o calls k s) (sym (m.runs rest s)) (after m.to m.at)

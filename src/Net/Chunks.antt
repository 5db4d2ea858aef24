-- ===== src/Net/Chunks.antt =====
-- How the bytes of a stream are cut into reads does not matter to `parse_data`.
use bzcc_scanner.Base.{ℕ, ◌≡◌, refl, sym, ap, ◌∙◌, Bool, Option, none, some, List, [], ◌∷◌, ◌++◌}
use bzcc_scanner.Base.CText.{Bytes}
use bzcc_scanner.Net.Parser.{Parser, initial, Callback, Outcome, continue, stop, fault, ◌>>=◌}
use bzcc_scanner.Net.Http.{step}
use bzcc_scanner.Net.Stream.{
  Read, got, failed, read_message, Result, returned, crashed, run, parse_loop, parse_data,
}

-- The bytes in front of the end of the stream or of the first read that fails.
unfoldable pub received : List Read → Bytes
received [] = []
received (failed e ∷ reads) = []
received (got [] ∷ reads) = []
received (got (c ∷ cs) ∷ reads) = (c ∷ cs) ++ received reads

-- The error number of the read that ends the stream, if one does.
unfoldable pub ending : List Read → Option ℕ
ending [] = none
ending (failed e ∷ reads) = some e
ending (got [] ∷ reads) = none
ending (got (c ∷ cs) ∷ reads) = ending reads

module _ {S : Type 0} where
  at_end : Bool → Option ℕ → Parser → S → Result S
  at_end using_http none p s = returned 0 p.kvi s
  at_end using_http (some e) p s =
      let k = p.kvi in returned 1 (record k { err = read_message using_http e }) s

  -- What `parse_data` makes of its variables at the end of the bytes: 0, or 1 and the message of
  -- the read that failed.
  unfoldable pub finish : Bool → Option ℕ → Outcome S → Result S
  unfolding at_end
  finish using_http end (continue p s) = at_end using_http end p s
  finish using_http end (stop n k s) = returned n k s
  finish using_http end fault = crashed

module _ {S : Type 0} (callback : Callback S) where
  pub >>=_assoc :
      (o : Outcome S) (f g : Parser → S → Outcome S) → (o >>= f >>= g) ≡ (o >>= λ p s. f p s >>= g)
  >>=_assoc (continue p s) f g = refl
  >>=_assoc (stop n k s) f g = refl
  >>=_assoc fault f g = refl

  pub >>=_cong :
      (o : Outcome S) (f g : Parser → S → Outcome S)
      → ((p : Parser) (s : S) → f p s ≡ g p s)
      → (o >>= f) ≡ (o >>= g)
  >>=_cong (continue p s) f g h = h p s
  >>=_cong (stop n k s) f g h = refl
  >>=_cong fault f g h = refl

  pub run-append :
      (xs ys : Bytes) (p : Parser) (s : S)
      → run callback p (xs ++ ys) s ≡ (run callback p xs s >>= λ q t. run callback q ys t)
  unfolding run
  run-append [] ys p s = refl
  run-append (x ∷ xs) ys p s =
      >>=_cong (step callback p x s) _ _ (λ q t. run-append xs ys q t)
      ∙ sym (>>=_assoc (step callback p x s) _ _)

  parse_loop-finish :
      (using_http : Bool) (reads : List Read) (o : Outcome S)
      → ((p : Parser) (s : S)
          → parse_loop callback using_http reads p s
            ≡ finish using_http (ending reads) (run callback p (received reads) s))
      → elim o [
        | continue q t ↦ parse_loop callback using_http reads q t
        | stop n k t ↦ returned n k t
        | fault ↦ crashed
      ]
        ≡ finish using_http (ending reads) (o >>= λ q t. run callback q (received reads) t)
  unfolding finish
  parse_loop-finish using_http reads (continue p s) h = h p s
  parse_loop-finish using_http reads (stop n k s) h = refl
  parse_loop-finish using_http reads fault h = refl

  pub parse_loop-received :
      (using_http : Bool) (reads : List Read) (p : Parser) (s : S)
      → parse_loop callback using_http reads p s
        ≡ finish using_http (ending reads) (run callback p (received reads) s)
  unfolding parse_loop finish received ending
  parse_loop-received using_http [] p s = unfold run in refl
  parse_loop-received using_http (failed e ∷ reads) p s = unfold run in refl
  parse_loop-received using_http (got [] ∷ reads) p s = unfold run in refl
  parse_loop-received using_http (got (c ∷ cs) ∷ reads) p s =
      parse_loop-finish using_http reads (run callback p (c ∷ cs) s)
        (λ q t. parse_loop-received using_http reads q t)
      ∙ ap (finish using_http (ending reads)) (sym (run-append (c ∷ cs) (received reads) p s))

  -- What `parse_data` returns, and every call of its callback, depend only on the bytes received in
  -- front of the end of the stream and on how the stream ends, not on the sizes of the reads.
  pub parse_data-received :
      (using_http : Bool) (reads : List Read) (s : S)
      → parse_data callback using_http reads s
        ≡ finish using_http (ending reads) (run callback (initial using_http) (received reads) s)
  unfolding parse_data
  parse_data-received using_http reads s =
      parse_loop-received using_http reads (initial using_http) s

-- ===== src/Control/Rounds.antt =====
-- Auto scan: the scans that the timer starts, one after the other, and its period.
use bzcc_scanner.Base.{
  ℕ, zero, suc, ◌+◌, ◌≡◌, ◌≢◌, refl, ap, ◌∙◌, Bool, true, false, arith, List, [], ◌∷◌, ◌++◌,
  if◌then◌else◌, ◌==◌, not, none,
}
use bzcc_scanner.Control.Window.{
  Window, Env, Call, create_thread, idt_refresh, make, stop_timer, start_timer, context_menu,
  set_text, enable, refresh,
}
use bzcc_scanner.Control.Scan.{
  on_close, on_timer, on_refresh, begin_scan, end_scan, prepare_scan, assign_scan, let_go,
  menu_rows, forget_timer, forget_sort, rearm, update_context_menu, button_text_scan_refresh,
}
use bzcc_scanner.Control.Steady.{IsGranted}
use bzcc_scanner.Control.Reach.{let_go-quitting}

-- The number of threads that were created.
unfoldable pub scans_of : List Call → ℕ
scans_of [] = 0
scans_of (create_thread ∷ cs) = suc (scans_of cs)
scans_of (c ∷ cs) = scans_of cs

scans_of-append : (as_ bs : List Call) → scans_of (as_ ++ bs) ≡ scans_of as_ + scans_of bs
unfolding scans_of
scans_of-append [] bs = omega arith
scans_of-append (c ∷ cs) bs = ground (arith, scans_of-append cs bs)

-- The timer fires, and the scan that it starts comes to its end.
unfoldable pub round : Env → Window → Window
round env w = end_scan env (on_timer env idt_refresh w)

unfoldable pub rounds : ℕ → Env → Window → Window
unfolding round
rounds zero env w = w
rounds (suc n) env w = rounds n env (round env w)

-- Auto scan waits for the timer.
pub record IsWaiting (w : Window) : Type 0 where
  pub armed : w.armed ≡ true
  pub timer_id : w.timer_id ≡ 1
  pub auto_scan : w.auto_scan ≡ true
  pub idle : w.scan_handle ≡ 0
  pub quitting : w.quitting ≡ false
  pub in_dlg : w.in_dlg ≡ 0
  pub rename_dlg : w.rename_dlg ≢ 0

round-IsWaiting : (env : Env) (w : Window) → IsGranted env → IsWaiting w → IsWaiting (round env w)
unfolding round end_scan on_timer on_refresh begin_scan prepare_scan assign_scan
round-IsWaiting env w g h = ground arith

on_timer-begin_scan :
    (env : Env) (w : Window) → IsWaiting w → on_timer env idt_refresh w ≡ begin_scan env w
unfolding on_timer on_refresh
on_timer-begin_scan env w h = ground arith

scans_of-make :
    (cs : List Call) (w : Window) → scans_of (make cs w).calls ≡ scans_of w.calls + scans_of cs
scans_of-make cs w = scans_of-append w.calls cs

if-scans :
    (b : Bool) (v w : Window) (n : ℕ)
    → scans_of v.calls ≡ n
    → scans_of w.calls ≡ n
    → scans_of (if b then v else w).calls ≡ n
if-scans true v w n p q = p
if-scans false v w n p q = q

-- Calls that start no scan.
make-scans :
    (cs : List Call) (w : Window) → scans_of cs ≡ 0 → scans_of (make cs w).calls ≡ scans_of w.calls
make-scans cs w none_of = omega (arith, scans_of-make cs w)

forget_sort-calls : (w : Window) → (forget_sort w).calls ≡ w.calls
forget_sort-calls w = ground arith

prepare_scan-scans : (w : Window) → scans_of (prepare_scan w).calls ≡ scans_of w.calls
unfolding prepare_scan scans_of
prepare_scan-scans w =
    let n = scans_of w.calls in
    let w1 = record (forget_timer w) {
      continue_scan = true;
      selected_game = none;
      selected_player = none;
    } in
    let timer : scans_of w1.calls ≡ n =
      if-scans (w.timer_id == 0) w (record (stop_timer w) { timer_id = 0 }) n refl
        (make-scans _ w refl) in
    make-scans _ (record (forget_sort w1) { total_player_count = 0 }) refl
    ∙ ap scans_of (forget_sort-calls w1)
    ∙ timer

begin_scan-scans :
    (env : Env) (w : Window) → scans_of (begin_scan env w).calls ≡ suc (scans_of w.calls)
unfolding begin_scan assign_scan scans_of
begin_scan-scans env w =
    let n = scans_of w.calls in
    let v = record (prepare_scan w) { running = not (env.thread == 0) } in
    let ready : scans_of v.calls ≡ n = prepare_scan-scans w in
    let w1 = make (create_thread ∷ []) (record v { scan_handle = env.thread }) in
    let made : scans_of w1.calls ≡ suc n =
      omega (arith, scans_of-make (create_thread ∷ []) v, ready) in
    let failed = set_text refresh button_text_scan_refresh ∷ [] in
    let v2 = if env.thread == 0 then make failed w1 else w1 in
    make-scans (context_menu (menu_rows v2) ∷ []) v2 refl
    ∙ if-scans (env.thread == 0) (make failed w1) w1 (suc n) (make-scans failed w1 refl ∙ made) made

if_false-scans :
    {b : Bool} (v w : Window) → b ≡ false → scans_of (if b then v else w).calls ≡ scans_of w.calls
if_false-scans v w e = rw e refl

end_scan-scans :
    (env : Env) (w : Window)
    → w.quitting ≡ false
    → scans_of (end_scan env w).calls ≡ scans_of w.calls
unfolding end_scan scans_of
end_scan-scans env w q =
    let n = scans_of w.calls in
    let w1 = record w { running = false } in
    let gone : scans_of (let_go w).calls ≡ n =
      if-scans (w.scan_handle == 0) w1 _ n refl
        (make-scans _ (record w1 { scan_handle = 0 }) refl) in
    let shown =
      make (set_text refresh button_text_scan_refresh ∷ enable refresh true ∷ [])
        (update_context_menu (let_go w)) in
    let same : scans_of shown.calls ≡ n =
      make-scans _ (update_context_menu (let_go w)) refl ∙ make-scans _ (let_go w) refl ∙ gone in
    if_false-scans (on_close (let_go w)) (rearm env shown) (let_go-quitting w ∙ q)
    ∙ (if-scans shown.auto_scan (start_timer env shown) shown n (make-scans _ shown refl ∙ same)
        same)

begin_scan-quitting : (env : Env) (w : Window) → (begin_scan env w).quitting ≡ w.quitting
unfolding begin_scan prepare_scan assign_scan
begin_scan-quitting env w = ground arith

-- With SetTimer and CreateThread working, no dialog open and no wish to quit, auto scan goes on for
-- ever: each time that the timer fires and the scan ends, one more thread has been created, and the
-- timer is set again.
pub rounds-Scan :
    (env : Env) (n : ℕ) (w : Window)
    → IsGranted env
    → IsWaiting w
    → IsWaiting (rounds n env w) × (scans_of (rounds n env w).calls ≡ n + scans_of w.calls)
unfolding rounds
rounds-Scan env zero w g h = (h, omega arith)
rounds-Scan env (suc n) w g h =
    let still = round-IsWaiting env w g h in
    let begun = on_timer-begin_scan env w h in
    let stays : (on_timer env idt_refresh w).quitting ≡ false =
      ap (λ v. v.quitting) begun ∙ begin_scan-quitting env w ∙ h.quitting in
    let one : scans_of (round env w).calls ≡ suc (scans_of w.calls) =
      end_scan-scans env _ stays ∙ ap (λ v. scans_of v.calls) begun ∙ begin_scan-scans env w in
    let (waiting, more) = rounds-Scan env n (round env w) g still in
    (waiting, omega (arith, more, one))

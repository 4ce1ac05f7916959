-- ===== src/Handler/Written.antt =====
-- A turn of a door's thread whose write is complete leaves the connection as it was.
use door_switch_svr.Prelude.{ℕ, ◌≡◌, refl, ap, subst, Bool, false, Option, none, some, arith}
use door_switch_svr.OrderedMap.{key_ℕ, find}
use door_switch_svr.Controller.{Controller, WriteResult, run_turn}
use door_switch_svr.Controller.Written.{IsWritten, run_turn-quiet}
use door_switch_svr.Handler.{Handler, thread_turn, turn_found, report_turn, report}
use door_switch_svr.Handler.Event.{none-ne-some}

report-connected :
    (n : ℕ) (r : Controller × Bool) (h : Handler)
    → r.1 ≡ false
    → (report n r h).connected ≡ h.connected
unfolding report
report-connected n r h quiet = ground arith

module _ (n : ℕ) (result : WriteResult) (now : ℕ) (written : IsWritten result) where
  report_turn-connected :
      (c : Controller) (o : Option (Controller × Bool)) (h h' : Handler)
      → run_turn h.switch_info.type result now c ≡ o
      → report_turn n o h ≡ some h'
      → h'.connected ≡ h.connected
  unfolding report_turn
  report_turn-connected c none h h' ran e = absurd (none-ne-some e)
  report_turn-connected c (some r) h h' ran e =
      let quiet = run_turn-quiet h.switch_info.type result now c r ran written in
      subst (λ g. g.connected ≡ h.connected) {x = report n r h} {y = h'} (cc)
        (report-connected n r h quiet)

  turn_found-connected :
      (o : Option Controller) (h h' : Handler)
      → turn_found n result now o h ≡ some h'
      → h'.connected ≡ h.connected
  unfolding turn_found
  turn_found-connected none h h' e = ap (λ g. g.connected) (some-handler h' h e)
    where
      some-handler : (g h : Handler) → some h ≡ some g → g ≡ h
      some-handler g h e = cc
  turn_found-connected (some c) h h' e =
      report_turn-connected c (run_turn h.switch_info.type result now c) h h' refl e

  pub thread_turn-connected :
      (h h' : Handler) → thread_turn n result now h ≡ some h' → h'.connected ≡ h.connected
  unfolding thread_turn
  thread_turn-connected h h' e = turn_found-connected (find n h.controllers) h h' e

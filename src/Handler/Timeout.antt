-- ===== src/Handler/Timeout.antt =====
-- A command to the board, and the deadline for its reply: how it is set, and what follows when it passes.
use door_switch_svr.Prelude.{
  ℕ, ◌+◌, ◌≤◌, ◌≡◌, refl, sym, ◌∙◌, ap, subst, Bool, true, false, not, ◌||◌, Option, none, some,
  arith,
}
use door_switch_svr.OrderedMap.{key_ℕ, find, adjust}
use door_switch_svr.Controller.{Controller, WriteResult, run_turn, check_deadline}
use door_switch_svr.Controller.Kept.{turn-kept}
use door_switch_svr.Controller.Unanswered.{run_turn-arms}
use door_switch_svr.Controller.Written.{IsWritten}
use door_switch_svr.Controller.Run.{Request, turn}
use door_switch_svr.Controller.Watchdog.{never, reply_limit}
use door_switch_svr.Handler.{
  Handler, handle_rw_error, report, report_turn, turn_found, deadline_found, thread_turn,
  deadline_called,
}
use door_switch_svr.Handler.Timer.{timer_runs}
use door_switch_svr.Handler.Event.{thread_turns, checks, step, none-ne-some}
use door_switch_svr.Handler.Unanswered.{Awaits, Awaits-some, report_own}

error-retries :
    (h : Handler)
    → not h.timer_on || timer_runs h.calls ≡ true
    → ((handle_rw_error h).connected ≡ false) × (timer_runs (handle_rw_error h).calls ≡ true)
unfolding handle_rw_error
error-retries h runs = ground arith

raised-retries :
    (n : ℕ) (c : Controller) (h : Handler)
    → c.has_callback ≡ true
    → not h.timer_on || timer_runs h.calls ≡ true
    → let h' = report n (c, true) h in (h'.connected ≡ false) × (timer_runs h'.calls ≡ true)
unfolding report
raised-retries n c h callback runs =
    let h' : Handler = record h { controllers = adjust n (λ _. c) h.controllers } in
    ground (arith, error-retries h' runs)

-- The deadline passes: the switch is disconnected, and its reconnect timer runs.
pub check-retries :
    (n d now : ℕ) (h h' : Handler)
    → Awaits n d h
    → d ≤ now
    → not h.timer_on || timer_runs h.calls ≡ true
    → step (checks n now) h ≡ some h'
    → (h'.connected ≡ false) × (timer_runs h'.calls ≡ true)
unfolding step deadline_called deadline_found check_deadline
check-retries n d now h h' a late runs e =
    let (c, raised) = check_deadline now a.door in
    let is_raised : raised ≡ true = ground (arith, a.deadline) in
    let found : deadline_found n now (find n h.controllers) h ≡ report n (c, true) h =
      ap (λ o. deadline_found n now o h) a.at ∙ ap (λ b. report n (c, b) h) is_raised in
    subst (λ (g : Handler). (g.connected ≡ false) × (timer_runs g.calls ≡ true))
      {x = report n (c, true) h} {y = h'} (cc (found)) (raised-retries n c h a.callback runs)

-- A turn that sends a command, written in full, while no other is outstanding.
module _ (n : ℕ) (result : WriteResult) (now : ℕ) (q : Request) (c : Controller) (h h' : Handler)
    (at : find n h.controllers ≡ some c) (callback : c.has_callback ≡ true)
    (idle : c.watch.deadline ≡ never) (sends : (turn h.switch_info.type now c.worker).1 ≡ some q)
    (written : IsWritten result) where
  turned-Awaits :
      (o : Option (Controller × Bool))
      → run_turn h.switch_info.type result now c ≡ o
      → report_turn n o h ≡ some h'
      → Awaits n (now + reply_limit) h'
  unfolding report_turn
  turned-Awaits none made ran = absurd (none-ne-some ran)
  turned-Awaits (some r) made ran =
      let (kept, _) = turn-kept h.switch_info.type result now c r.0 r.1 made in
      Awaits-some n (now + reply_limit) _ h' ran (
        report_own n (now + reply_limit) c r h at
          (run_turn-arms h.switch_info.type result now c q r sends made written idle)
          (kept ∙ callback))

  pub turn-Awaits : step (thread_turns n result now) h ≡ some h' → Awaits n (now + reply_limit) h'
  unfolding step thread_turn turn_found
  turn-Awaits e =
      turned-Awaits (run_turn h.switch_info.type result now c) refl
        (ap (λ o. turn_found n result now o h) (sym at) ∙ e)

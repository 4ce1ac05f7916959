-- ===== src/Handler/Unanswered.antt =====
-- A door of a handler that waits for the reply of the board, under the events of the handler.
use door_switch_svr.Prelude.{
  ℕ, ◌≡◌, ◌≢◌, refl, sym, ◌∙◌, ap, subst, Bool, true, Option, none, some, arith, inl, inr,
}
use door_switch_svr.Prelude.Int.{ℤ, u16}
use native.Mathlib.Decide.{ℕ_discrete}
use door_switch_svr.OrderedMap.{key_ℕ, find, adjust}
use door_switch_svr.OrderedMap.Laws.{find-adjust_self, find-adjust_ne}
use door_switch_svr.Controller.{
  Controller, WriteResult, add_task, run_turn, read_ret, check_deadline,
}
use door_switch_svr.Controller.Kept.{turn-kept}
use door_switch_svr.Controller.Unanswered.{run_turn-due}
use door_switch_svr.Controller.Watchdog.{due}
use door_switch_svr.Handler.{
  Handler, timer_called, timer_returned, handle_rw_error, report, report_turn, turn_found,
  read_found, deadline_found, open_door, thread_turn, read_returned, deadline_called,
}
use door_switch_svr.Handler.Doors.{task_of, open_door_result, open_known-found}
use door_switch_svr.Handler.Event.{
  Event, timer_fires, timer_returns, connects, opens, thread_turns, reads, checks, step,
  none-ne-some,
}

-- The door has sent a command, and its deadline is `d`.
pub record Awaits (n d : ℕ) (h : Handler) : Type 0 where
  pub door : Controller
  pub at : find n h.controllers ≡ some door
  pub deadline : door.watch.deadline ≡ due d
  pub callback : door.has_callback ≡ true

-- No reply for the door, no call for its deadline, and no request for another door.
abbrev pub IsSilent : ℕ → Event → Type 0
IsSilent n (timer_fires error) = Unit {0}
IsSilent n timer_returns = Unit {0}
IsSilent n (thread_turns channel result now) = Unit {0}
IsSilent n (reads channel ec size) = channel ≢ n
IsSilent n (checks channel now) = channel ≢ n
IsSilent n (connects error) = ⊥
IsSilent n (opens channel close_after now) = u16 channel ≡ n

module _ (n d : ℕ) where
  same_doors : (h h' : Handler) → h'.controllers ≡ h.controllers → Awaits n d h → Awaits n d h'
  same_doors h h' same a = record {
    door = a.door;
    at = ap (find n) same ∙ a.at;
    deadline = a.deadline;
    callback = a.callback;
  }

  handle_rw_error-doors : (h : Handler) → (handle_rw_error h).controllers ≡ h.controllers
  unfolding handle_rw_error
  handle_rw_error-doors h = ground arith

  timer_called-doors :
      (error : Bool) (h : Handler) → (timer_called error h).controllers ≡ h.controllers
  unfolding timer_called
  timer_called-doors error h = ground arith

  timer_returned-doors : (h : Handler) → (timer_returned h).controllers ≡ h.controllers
  unfolding timer_returned
  timer_returned-doors h = ground arith

  report-doors :
      (channel : ℕ) (r : Controller × Bool) (h : Handler)
      → (report channel r h).controllers ≡ adjust channel (λ _. r.0) h.controllers
  unfolding report
  report-doors channel (c, raised) h = ground (
    arith,
    handle_rw_error-doors (record h { controllers = adjust channel (λ _. c) h.controllers }),
  )

  report_other :
      (channel : ℕ) (r : Controller × Bool) (h : Handler)
      → channel ≢ n
      → Awaits n d h
      → Awaits n d (report channel r h)
  report_other channel r h ne a = record {
    door = a.door;
    at =
        ap (find n) (report-doors channel r h)
        ∙ find-adjust_ne channel n (λ _. r.0) h.controllers ne
        ∙ a.at;
    deadline = a.deadline;
    callback = a.callback;
  }

  pub report_own :
      (c : Controller) (r : Controller × Bool) (h : Handler)
      → find n h.controllers ≡ some c
      → r.0.watch.deadline ≡ due d
      → r.0.has_callback ≡ true
      → Awaits n d (report n r h)
  report_own c r h at deadline callback = record {
    door = r.0;
    at = ap (find n) (report-doors n r h) ∙ find-adjust_self n (λ _. r.0) h.controllers c at;
    deadline = deadline;
    callback = callback;
  }

  pub Awaits-some : (g h' : Handler) → some g ≡ some h' → Awaits n d g → Awaits n d h'
  Awaits-some g h' e a = subst (Awaits n d) {x = g} {y = h'} (cc) a

  turn_other :
      (channel : ℕ) (o : Option (Controller × Bool)) (h h' : Handler)
      → channel ≢ n
      → report_turn channel o h ≡ some h'
      → Awaits n d h
      → Awaits n d h'
  unfolding report_turn
  turn_other channel none h h' ne e a = absurd (none-ne-some e)
  turn_other channel (some r) h h' ne e a = Awaits-some _ h' e (report_other channel r h ne a)

  turn_own :
      (result : WriteResult) (now : ℕ) (o : Option (Controller × Bool)) (h h' : Handler)
      (a : Awaits n d h)
      → run_turn h.switch_info.type result now a.door ≡ o
      → report_turn n o h ≡ some h'
      → Awaits n d h'
  unfolding report_turn
  turn_own result now none h h' a made e = absurd (none-ne-some e)
  turn_own result now (some r) h h' a made e =
      let (callback, _) = turn-kept h.switch_info.type result now a.door r.0 r.1 made in
      Awaits-some _ h' e (
        report_own a.door r h a.at
          (run_turn-due h.switch_info.type result now d a.door r made a.deadline)
          (callback ∙ a.callback))

  turn_found_other :
      (channel : ℕ) (result : WriteResult) (now : ℕ) (o : Option Controller) (h h' : Handler)
      → channel ≢ n
      → turn_found channel result now o h ≡ some h'
      → Awaits n d h
      → Awaits n d h'
  unfolding turn_found
  turn_found_other channel result now none h h' ne e a = Awaits-some h h' e a
  turn_found_other channel result now (some c) h h' ne e a =
      turn_other channel (run_turn h.switch_info.type result now c) h h' ne e a

  thread_turn-Awaits :
      (channel : ℕ) (result : WriteResult) (now : ℕ) (h h' : Handler)
      → thread_turn channel result now h ≡ some h'
      → Awaits n d h
      → Awaits n d h'
  unfolding thread_turn turn_found
  thread_turn-Awaits channel result now h h' e a = elim (ℕ_discrete channel n) [
    | yes same ↦
        let ran : thread_turn n result now h ≡ some h' =
          subst (λ i. thread_turn i result now h ≡ some h') same e in
        turn_own result now (run_turn h.switch_info.type result now a.door) h h' a refl
          (ap (λ o. turn_found n result now o h) (sym a.at) ∙ ran)
    | no ne ↦ turn_found_other channel result now (find channel h.controllers) h h' ne e a
  ]

  read_found_other :
      (channel : ℕ) (ec : Bool) (size : ℕ) (o : Option Controller) (h : Handler)
      → channel ≢ n
      → Awaits n d h
      → Awaits n d (read_found channel ec size o h)
  unfolding read_found
  read_found_other channel ec size none h ne a = a
  read_found_other channel ec size (some c) h ne a =
      report_other channel (read_ret ec size c) h ne a

  deadline_found_other :
      (channel now : ℕ) (o : Option Controller) (h : Handler)
      → channel ≢ n
      → Awaits n d h
      → Awaits n d (deadline_found channel now o h)
  unfolding deadline_found
  deadline_found_other channel now none h ne a = a
  deadline_found_other channel now (some c) h ne a =
      report_other channel (check_deadline now c) h ne a

  fires-doors :
      (error : Bool) (h h' : Handler)
      → step (timer_fires error) h ≡ some h'
      → h'.controllers ≡ h.controllers
  unfolding step
  fires-doors error h h' e = ground (arith, timer_called-doors error h)

  -- A request for the same door puts its task behind the others.
  open_door-Awaits :
      (channel close_after : ℤ) (now : ℕ) (h : Handler)
      → u16 channel ≡ n
      → Awaits n d h
      → Awaits n d (open_door channel close_after now h).0
  unfolding add_task
  open_door-Awaits channel close_after now h same a =
      elim (open_door_result channel close_after now h).1 [
        | inr kept ↦ subst (Awaits n d) (sym kept) a
        | inl on ↦
            let at : find (u16 channel) h.controllers ≡ some a.door =
              subst (λ i. find i h.controllers ≡ some a.door) (sym same) a.at in
            let h' = (open_door channel close_after now h).0 in
            let task = task_of close_after now in
            record {
              door = add_task task a.door;
              at =
                  subst (λ i. find i h'.controllers ≡ some (add_task task a.door)) same
                    (open_known-found channel close_after now h a.door on at).0;
              deadline = a.deadline;
              callback = a.callback;
            }
      ]

  pub step-Awaits :
      (e : Event) (h h' : Handler)
      → IsSilent n e
      → step e h ≡ some h'
      → Awaits n d h
      → Awaits n d h'
  unfolding step read_returned deadline_called
  step-Awaits (timer_fires error) h h' q e a = same_doors h h' (fires-doors error h h' e) a
  step-Awaits timer_returns h h' q e a =
      Awaits-some _ h' e (same_doors h (timer_returned h) (timer_returned-doors h) a)
  step-Awaits (connects error) h h' q e a = absurd q
  step-Awaits (opens channel close_after now) h h' q e a =
      Awaits-some _ h' e (open_door-Awaits channel close_after now h q a)
  step-Awaits (thread_turns channel result now) h h' q e a =
      thread_turn-Awaits channel result now h h' e a
  step-Awaits (reads channel ec size) h h' q e a =
      Awaits-some _ h' e (read_found_other channel ec size (find channel h.controllers) h q a)
  step-Awaits (checks channel now) h h' q e a =
      Awaits-some _ h' e (deadline_found_other channel now (find channel h.controllers) h q a)

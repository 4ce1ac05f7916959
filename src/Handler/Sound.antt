-- ===== src/Handler/Sound.antt =====
-- What every event keeps of the doors of a handler: a thread that runs is that of a controller set up
-- for a channel that was asked for, with the error callback in place.
use door_switch_svr.Prelude.{
  ℕ, [], ◌∷◌, ◌≡◌, refl, sym, ◌∙◌, subst, ◌⊎◌, inl, inr, Bool, true, Option, none, some, arith, All,
}
use door_switch_svr.Prelude.Int.{ℤ, u16}
use door_switch_svr.OrderedMap.{Map, key_ℕ, find, adjust}
use door_switch_svr.OrderedMap.Every.{All-find, All-insert, All-adjust, All-adjust_last}
use door_switch_svr.Param.{SwitchInfo, SwitchType}
use door_switch_svr.Controller.{
  Controller, WriteResult, new_controller, init, add_task, start, run_turn, read_ret,
  check_deadline,
}
use door_switch_svr.Controller.Run.{Notification, not_started}
use door_switch_svr.Controller.Kept.{turn-not_started, turn-kept}
use door_switch_svr.Handler.{
  new_handler, Handler, connect, timer_called, timer_returned, handle_rw_error, open_door,
  open_found, open_last, report,
}
use door_switch_svr.Handler.Doors.{task_of}
use door_switch_svr.Handler.Event.{Did, turned, read, checked, IsKeptBy, Event, opens}

module _ (Q : ℕ → Type 0) where
  -- The thread was never started, or the controller has its callback and a channel of `Q`.
  abbrev pub IsSoundDoor : Controller → Type 0
  IsSoundDoor c = (c.worker.pc ≡ not_started) ⊎ ((c.has_callback ≡ true) × Q c.channel)

  abbrev pub IsSoundEntry : ℕ × Controller → Type 0
  IsSoundEntry e = IsSoundDoor e.1

  abbrev pub IsSound : Handler → Type 0
  IsSound h = All IsSoundEntry h.controllers

  set_up-IsSoundDoor :
      (k : ℕ) (task : Notification) (c : Controller)
      → Q k
      → IsSoundDoor (add_task task (start (init k c).0))
  unfolding add_task start init
  set_up-IsSoundDoor k task c q = inr (refl, q)

  new_controller-IsSoundDoor : IsSoundDoor new_controller
  unfolding new_controller
  new_controller-IsSoundDoor = inl refl

  add_task-IsSoundDoor :
      (task : Notification) (c : Controller) → IsSoundDoor c → IsSoundDoor (add_task task c)
  unfolding add_task
  add_task-IsSoundDoor task c s = s

  run_turn-IsSoundDoor :
      (type : SwitchType) (result : WriteResult) (now : ℕ) (c c' : Controller) (raised : Bool)
      → run_turn type result now c ≡ some (c', raised)
      → IsSoundDoor c
      → IsSoundDoor c'
  run_turn-IsSoundDoor type result now c c' raised e s = elim s [
    | inl n ↦ inl (turn-not_started type result now c c' raised n e)
    | inr (callback, q) ↦
        let (same, channel) = turn-kept type result now c c' raised e in
        inr (same ∙ callback, subst Q (sym channel) q)
  ]

  read_ret-IsSoundDoor :
      (ec : Bool) (size : ℕ) (c : Controller) → IsSoundDoor c → IsSoundDoor (read_ret ec size c).0
  unfolding read_ret
  read_ret-IsSoundDoor ec size c s = s

  check_deadline-IsSoundDoor :
      (now : ℕ) (c : Controller) → IsSoundDoor c → IsSoundDoor (check_deadline now c).0
  unfolding check_deadline
  check_deadline-IsSoundDoor now c s = s

  handle_rw_error-IsSound : (h : Handler) → IsSound h → IsSound (handle_rw_error h)
  unfolding handle_rw_error
  handle_rw_error-IsSound h s = ground arith

  report-IsSound :
      (channel : ℕ) (c : Controller) (raised : Bool) (h : Handler)
      → IsSoundDoor c
      → IsSound h
      → IsSound (report channel (c, raised) h)
  unfolding report
  report-IsSound channel c raised h d s =
      let h' : Handler = record h { controllers = adjust channel (λ _. c) h.controllers } in
      let s' : IsSound h' = All-adjust IsSoundEntry channel c h.controllers d s in
      ground (arith, s', handle_rw_error-IsSound h' s')

  open_last-IsSound :
      (k : ℕ) (task : Notification) (o : Option (ℕ × Controller)) (h : Handler)
      → Q k
      → IsSound h
      → IsSound (open_last k task o h).0
  unfolding open_last
  open_last-IsSound k task none h q s = s
  open_last-IsSound k task (some (j, c)) h q s =
      let c' = add_task task (start (init k c).0) in
      let s' =
        All-adjust_last IsSoundEntry c' h.controllers (λ _. set_up-IsSoundDoor k task c q) s in
      unfold init in s'

  All-adjust_by :
      (k : ℕ) (f : Controller → Controller) (c : Controller) (m : Map ℕ Controller)
      → find k m ≡ some c
      → (IsSoundDoor c → IsSoundDoor (f c))
      → All IsSoundEntry m
      → All IsSoundEntry (adjust k f m)
  unfolding find adjust
  All-adjust_by k f c [] found g a = tt
  All-adjust_by k f c ((j, w) ∷ m) found g a = ground (arith, All-adjust_by k f c m, g)

  open_found-IsSound :
      (k : ℕ) (task : Notification) (o : Option Controller) (h : Handler)
      → find k h.controllers ≡ o
      → Q k
      → IsSound h
      → IsSound (open_found k task o h).0
  unfolding open_found
  open_found-IsSound k task none h found q s =
      open_last-IsSound k task _ _ q
        (All-insert IsSoundEntry k new_controller h.controllers new_controller-IsSoundDoor s)
  open_found-IsSound k task (some c) h found q s =
      All-adjust_by k (add_task task) c h.controllers found (add_task-IsSoundDoor task c) s

  open_door-IsSound :
      (channel close_after : ℤ) (now : ℕ) (h : Handler)
      → Q (u16 channel)
      → IsSound h
      → IsSound (open_door channel close_after now h).0
  unfolding open_door
  open_door-IsSound channel close_after now h q s = ground (
    arith,
    open_found-IsSound (u16 channel) (task_of close_after now) (find (u16 channel) h.controllers) h
        refl q s,
  )

  connect-IsSound : (error : Bool) (h : Handler) → IsSound h → IsSound (connect error h).0
  unfolding connect
  connect-IsSound error h s = ground arith

  Did-IsSoundDoor :
      (h : Handler) (c : Controller) (r : Controller × Bool)
      → Did h c r
      → IsSoundDoor c
      → IsSoundDoor r.0
  Did-IsSoundDoor h c _ (turned result now r e) s =
      run_turn-IsSoundDoor h.switch_info.type result now c r.0 r.1 e s
  Did-IsSoundDoor h c _ (read ec size) s = read_ret-IsSoundDoor ec size c s
  Did-IsSoundDoor h c _ (checked now) s = check_deadline-IsSoundDoor now c s

  -- A request must be for a channel of `Q`.
  abbrev pub IsFair : Event → Type 0
  IsFair (opens channel close_after now) = Q (u16 channel)
  IsFair _ = Unit {0}

  timer_called-IsSound : (error : Bool) (h : Handler) → IsSound h → IsSound (timer_called error h)
  unfolding timer_called
  timer_called-IsSound error h s = ground arith

  timer_returned-IsSound : (h : Handler) → IsSound h → IsSound (timer_returned h)
  unfolding timer_returned
  timer_returned-IsSound h s = ground arith

  pub new_handler-IsSound : (info : SwitchInfo) → IsSound (new_handler info)
  unfolding new_handler
  new_handler-IsSound info = tt

  pub own-IsSound : IsKeptBy IsFair IsSound
  own-IsSound = record {
    fires = λ error h runs idle s. timer_called-IsSound error h s;
    returns = timer_returned-IsSound;
    connects = λ error h f s. connect-IsSound error h s;
    opens = open_door-IsSound;
    reports = λ channel c r h found did s.
        report-IsSound channel r.0 r.1 h
          (Did-IsSoundDoor h c r did (All-find IsSoundEntry channel c h.controllers found s)) s;
  }

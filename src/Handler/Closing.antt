-- ===== src/Handler/Closing.antt =====
-- `close()` of a handler with a door that is open: the socket is closed before the doors' threads end.
use door_switch_svr.Prelude.{ℕ, ◌≤◌, [], ◌∷◌, ◌≡◌, refl, ◌∙◌, ap, true, false, some, map, arith}
use door_switch_svr.OrderedMap.{Map, key_ℕ, find}
use door_switch_svr.Param.{SwitchType}
use door_switch_svr.Controller.{Controller, WriteResult, run_turn}
use door_switch_svr.Controller
use door_switch_svr.Controller.Defined.{run_turn-failed}
use door_switch_svr.Controller.Run.{Worker, Request, closing, overflows, turn}
use door_switch_svr.Controller.Run
use door_switch_svr.Controller.Run.Schedule.{is_sleeping}
use door_switch_svr.Handler.{
  Handler, close, thread_turn, turn_found, report_turn, report, handle_rw_error, timer_returned,
  end_call, after_reconnect,
}
use door_switch_svr.Handler.Timer.{timer_runs, is_socket_open}

find-close :
    (k : ℕ) (c : Controller) (m : Map ℕ Controller)
    → find k m ≡ some c
    → find k (map (λ e. (e.0, Controller.close e.1)) m) ≡ some (Controller.close c)
unfolding find
find-close k c [] at = cc
find-close k c ((j, d) ∷ m) at = ground (arith, find-close k c m)

-- A door that sleeps when it is told to stop closes its relay when it wakes.
wakes_closing :
    (type : SwitchType) (now : ℕ) (w : Worker)
    → is_sleeping w.pc ≡ true
    → (turn type now (Run.close w)).1 ≡ some closing
unfolding turn Run.close
wakes_closing type now w asleep = ground arith

-- Nothing is subtracted at the end of a sleep.
asleep-calm : (now : ℕ) (w : Worker) → is_sleeping w.pc ≡ true → overflows now (Run.close w) ≡ false
unfolding overflows Run.close
asleep-calm now w asleep = ground arith

raises_timer :
    (k : ℕ) (c : Controller) (h : Handler)
    → c.has_callback ≡ true
    → h.timer_on ≡ false
    → timer_runs (report k (c, true) h).calls ≡ true
unfolding report handle_rw_error
raises_timer k c h callback off = ground arith

close_stops :
    (h : Handler)
    → (timer_runs (close h).calls ≡ false) × (h.timer_on ≡ false → (close h).timer_on ≡ false)
unfolding close
close_stops h = (refl, λ off. ground arith)

-- The socket is closed, whether a call of the timer was under way or not.
close-socket : (h : Handler) → is_socket_open (close h).calls ≡ false
unfolding close timer_returned end_call after_reconnect
close-socket h = ground arith

turn_found-close :
    (k : ℕ) (c : Controller) (h : Handler) (now : ℕ) (result : WriteResult)
    → is_sleeping c.worker.pc ≡ true
    → 1 ≤ c.channel
    → c.channel ≤ 15
    → result.error ≡ true
    → let c' = record c { worker = (turn h.switch_info.type now (Run.close c.worker)).0 } in
      turn_found k result now (some (Controller.close c)) h ≡ some (report k (c', true) h)
unfolding turn_found report_turn Controller.close
turn_found-close k c h now result asleep l u error = rw (
    run_turn-failed h.switch_info.type result now (Controller.close c) closing
      (asleep-calm now c.worker asleep) l u (wakes_closing h.switch_info.type now c.worker asleep)
      error)

-- The turn of the thread that wakes.
closed_turn :
    (k : ℕ) (c : Controller) (h : Handler) (now : ℕ) (result : WriteResult)
    → find k h.controllers ≡ some c
    → is_sleeping c.worker.pc ≡ true
    → c.has_callback ≡ true
    → 1 ≤ c.channel
    → c.channel ≤ 15
    → h.timer_on ≡ false
    → result.error ≡ true
    → (h' : Handler) × (thread_turn k result now (close h) ≡ some h') × (timer_runs h'.calls ≡ true)
unfolding close thread_turn
closed_turn k c h now result at asleep callback l u off error =
    let closed = close h in
    let c' : Controller = record c {
      worker = (turn closed.switch_info.type now (Run.close c.worker)).0;
    } in
    (
      report k (c', true) closed,
      ap (λ o. turn_found k result now o closed) (find-close k c h.controllers at)
          ∙ turn_found-close k c closed now result asleep l u error,
      raises_timer k c' closed callback ((close_stops h).1 off),
    )

-- The code leaves an open door open when the server ends: `close()` closes the socket before the
-- threads of the doors end. If the thread of a door with a channel from 1 to 15 sleeps at that
-- time, then the socket is closed when it wakes, and it tries to close the relay. A write to a closed
-- socket fails; so the command is not sent, and this error starts the reconnect timer again, which
-- `close()` has just stopped, if `m_isTimerOn` was not set.
pub close_loses_closing :
    (k : ℕ) (c : Controller) (h : Handler) (now : ℕ) (result : WriteResult)
    → find k h.controllers ≡ some c
    → is_sleeping c.worker.pc ≡ true
    → c.has_callback ≡ true
    → 1 ≤ c.channel
    → c.channel ≤ 15
    → h.timer_on ≡ false
    → (is_socket_open (close h).calls ≡ false → result.error ≡ true)
    → let closed = close h in
      (timer_runs closed.calls ≡ false)
      × (is_socket_open closed.calls ≡ false)
      × ((turn h.switch_info.type now (Run.close c.worker)).1 ≡ some closing)
      × (result.error ≡ true)
      × ((h' : Handler) × (thread_turn k result now closed ≡ some h')
          × (timer_runs h'.calls ≡ true))
close_loses_closing k c h now result at asleep callback l u off fails =
    let error = fails (close-socket h) in
    (
      (close_stops h).0,
      close-socket h,
      wakes_closing h.switch_info.type now c.worker asleep,
      error,
      closed_turn k c h now result at asleep callback l u off error,
    )

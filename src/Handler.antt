-- ===== src/Handler.antt =====
-- src/DoorSwitchHandler.h and .cpp: the handler of one switch board. It owns the connection, the
-- reconnect timer and the controllers of the doors, which report errors back to it. Calls of the
-- socket, the io service and the timer are recorded, newest first; the result of a connect is an
-- argument. Times are microseconds.
pub mod Timer
pub mod Backoff
pub mod Event
pub mod Recovery
pub mod Race
pub mod Doors
pub mod NewDoor
pub mod InOrder
pub mod Kept
pub mod Sound
pub mod Alive
pub mod Closing
pub mod Defined
pub mod Written
pub mod Unanswered
pub mod Timeout
mod Tests
use door_switch_svr.Prelude.{
  ℕ, suc, ◌+◌, ◌*◌, List, [], ◌∷◌, Bool, true, false, not, ◌&&◌, Option, none, some, ltb, map,
  if◌then◌else◌,
}
use door_switch_svr.Prelude.Int.{ℤ, u16}
use door_switch_svr.OrderedMap.{Map, key_ℕ, find, insert, adjust, last, adjust_last}
use door_switch_svr.Param.{
  SwitchInfo, ErrCode, err_ok, err_channel_not_initialized, err_switch_not_conn, is_ok, s2ms,
  reconn_start_interval, reconn_start_period_interval, reconn_max_period_interval,
}
use door_switch_svr.Controller.{
  Controller, WriteResult, new_controller, init, add_task, start, run_turn, read_ret,
  check_deadline,
}
use door_switch_svr.Controller
use door_switch_svr.Controller.Run.{Notification}
use Timer.{
  Call, socket_connect, socket_close, timer_stop, timer_set_period, timer_start, timer_restart,
  io_run, io_stop, io_join, timer_new,
}

pub record Handler : Type 0 where
  pub controllers : Map ℕ Controller
  pub interval : ℕ
  pub timer_on : Bool
  pub connected : Bool
  pub switch_info : SwitchInfo
  pub calls : List Call
  -- A call of `onReconnTimer` that has come back from `reconnect()` and goes on with this result.
  pub in_timer : Option Bool

unfoldable pub new_handler : SwitchInfo → Handler
new_handler info = record {
  controllers = [];
  interval = reconn_start_period_interval;
  timer_on = false;
  connected = false;
  switch_info = info;
  calls = io_run ∷ timer_new reconn_start_interval reconn_start_period_interval ∷ [];
  in_timer = none;
}

abbrev pub is_connect : Handler → Bool
is_connect h = h.connected

unfoldable pub reconnect : Bool → Handler → Handler × Bool
reconnect error h =
    let h' =
      if error
      then record h { calls = socket_close ∷ socket_connect ∷ h.calls; connected = false }
      else record h { calls = socket_connect ∷ h.calls; connected = true } in
    (h', h'.connected)

-- The part of `onReconnTimer` behind the call of `reconnect()`.
unfoldable pub after_reconnect : Bool → Handler → Handler
after_reconnect true h = record h {
  calls = timer_restart 0 ∷ h.calls;
  interval = reconn_start_period_interval;
  timer_on = false;
}
after_reconnect false h =
    let interval =
      if ltb (h.interval * reconn_start_period_interval) (reconn_max_period_interval + 1)
      then h.interval * reconn_start_period_interval
      else h.interval in
    record h { interval = interval; calls = timer_set_period (interval * s2ms) ∷ h.calls }

end_call : Option Bool → Handler → Handler
unfolding after_reconnect
end_call none h = h
end_call (some reached) h = record (after_reconnect reached h) { in_timer = none }

-- `onReconnTimer` up to the return of `reconnect()`, and from there on: another thread may act in
-- between.
unfoldable pub timer_called : Bool → Handler → Handler
unfolding reconnect
timer_called error h =
    let (h', reached) = reconnect error h in record h' { in_timer = some reached }

unfoldable pub timer_returned : Handler → Handler
unfolding end_call
timer_returned h = end_call h.in_timer h

unfoldable pub on_reconn_timer : Bool → Handler → Handler
unfolding timer_called timer_returned
on_reconn_timer error h = timer_returned (timer_called error h)

-- `stop()` of the timer waits for the end of a call of `onReconnTimer`.
unfoldable pub start_reconnect_timer : Handler → Handler
unfolding timer_returned
start_reconnect_timer h =
    let h' =
      timer_returned (record h { timer_on = true; interval = reconn_start_period_interval }) in
    record h' {
      calls = timer_start ∷ timer_set_period (h'.interval * s2ms) ∷ timer_stop ∷ h'.calls;
    }

unfoldable pub connect : Bool → Handler → Handler × Bool
unfolding reconnect start_reconnect_timer
connect error h =
    let (h', reached) = reconnect error h in
    let h'' = if reached then h' else start_reconnect_timer h' in (h'', h''.connected)

unfoldable pub handle_rw_error : Handler → Handler
unfolding start_reconnect_timer
handle_rw_error h =
    let h' = record h { connected = false } in
    if h'.timer_on
    then h'
    else start_reconnect_timer (record h' { calls = socket_close ∷ h'.calls })

-- `close()`, the joins of the doors' threads aside; `stop()` of the timer waits as above.
unfoldable pub close : Handler → Handler
unfolding Controller.close timer_returned
close h =
    let h' = timer_returned (record h { calls = io_stop ∷ socket_close ∷ h.calls }) in
    record h' {
      calls = io_join ∷ timer_stop ∷ h'.calls;
      controllers = map (λ e. (e.0, Controller.close e.1)) h.controllers;
    }

-- The controller that `crbegin()` names is set up for the channel.
open_last : ℕ → Notification → Option (ℕ × Controller) → Handler → Handler × ErrCode
open_last channel task none h = (h, err_channel_not_initialized)
open_last channel task (some (key, c)) h =
    let (c', res) = init channel c in
    if not (is_ok res)
    then (
      record h { controllers = adjust_last (λ _. c') h.controllers },
      err_channel_not_initialized,
    )
    else (
      record h { controllers = adjust_last (λ _. add_task task (start c')) h.controllers },
      err_ok,
    )

open_found : ℕ → Notification → Option Controller → Handler → Handler × ErrCode
unfolding open_last
open_found channel task none h =
    let h' = record h { controllers = insert channel new_controller h.controllers } in
    open_last channel task (last h'.controllers) h'
open_found channel task (some c) h =
    (record h { controllers = adjust channel (add_task task) h.controllers }, err_ok)

-- `channel` is a `short`, the keys of the map are `unsigned short`.
unfoldable pub open_door : ℤ → ℤ → ℕ → Handler → Handler × ErrCode
unfolding open_found
open_door channel close_after_ms now h =
    let task : Notification = record { close_after_ms = close_after_ms; started = now } in
    if h.connected
    then open_found (u16 channel) task (find (u16 channel) h.controllers) h
    else (h, err_switch_not_conn)

-- What a controller did, put back, with the error callback that `Init` bound.
pub report : ℕ → Controller × Bool → Handler → Handler
unfolding handle_rw_error
report channel (c, raised) h =
    let h' = record h { controllers = adjust channel (λ _. c) h.controllers } in
    if raised && c.has_callback then handle_rw_error h' else h'

-- What the controller of a channel did, if the channel has one.
report_turn : ℕ → Option (Controller × Bool) → Handler → Option Handler
unfolding report
report_turn channel none h = none
report_turn channel (some r) h = some (report channel r h)

turn_found : ℕ → WriteResult → ℕ → Option Controller → Handler → Option Handler
unfolding report_turn
turn_found channel result now none h = some h
turn_found channel result now (some c) h =
    report_turn channel (run_turn h.switch_info.type result now c) h

-- A turn of the thread of a channel; `none` is undefined behaviour in the making of a command.
unfoldable pub thread_turn : ℕ → WriteResult → ℕ → Handler → Option Handler
unfolding turn_found
thread_turn channel result now h = turn_found channel result now (find channel h.controllers) h

read_found : ℕ → Bool → ℕ → Option Controller → Handler → Handler
unfolding report
read_found channel ec read_size none h = h
read_found channel ec read_size (some c) h = report channel (read_ret ec read_size c) h

unfoldable pub read_returned : ℕ → Bool → ℕ → Handler → Handler
unfolding read_found
read_returned channel ec read_size h =
    read_found channel ec read_size (find channel h.controllers) h

deadline_found : ℕ → ℕ → Option Controller → Handler → Handler
unfolding report
deadline_found channel now none h = h
deadline_found channel now (some c) h = report channel (check_deadline now c) h

unfoldable pub deadline_called : ℕ → ℕ → Handler → Handler
unfolding deadline_found
deadline_called channel now h = deadline_found channel now (find channel h.controllers) h

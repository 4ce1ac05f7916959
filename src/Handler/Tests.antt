-- ===== src/Handler/Tests.antt =====
-- The theorems on a switch's handler at concrete values.
use Prim.Native.Nat.{min}
use door_switch_svr.Prelude.{
  ◌*◌, ◌^◌, ◌≡◌, refl, ℕ, inl, inr, List, [], ◌∷◌, ◌++◌, true, false, not, ◌||◌, none, some, arith,
}
use door_switch_svr.Prelude.Int.{ℤ, pos}
use door_switch_svr.OrderedMap.{key_ℕ, find, last, insert, adjust}
use door_switch_svr.Param.{text, SwitchInfo, direct_control_switch, err_ok}
use door_switch_svr.Controller.{Controller, new_controller}
use door_switch_svr.Handler.{
  Handler, new_handler, start_reconnect_timer, connect, timer_called, timer_returned,
  on_reconn_timer, handle_rw_error, open_door, deadline_called, read_returned,
}
use door_switch_svr.Handler.Timer.{
  timer_runs, next_wait, is_socket_open, timer_start, timer_set_period,
}
use door_switch_svr.Handler.Backoff.{fail_times, backoff_doubles}
use door_switch_svr.Handler.Event.{Event, timer_fires, timer_returns, reads, checks, step, is_some}
use door_switch_svr.Handler.Recovery.{run, disconnected_retries, any_disturbs, has_ended, same}
use door_switch_svr.Handler.Race.{open_all, error_in_reconnect_is_lost}
use door_switch_svr.Handler.Doors.{task_of}
use door_switch_svr.Controller.{WriteResult}
use door_switch_svr.Controller.Watchdog.{never}
use door_switch_svr.Controller.Run.{sleeping_direct, closing, turn, new_worker}
use door_switch_svr.Controller.Run
use door_switch_svr.Handler.Closing.{close_loses_closing}
use door_switch_svr.Handler.{close, thread_turn}
use door_switch_svr.Handler.InOrder.{AreInOrder, tasks_at, requests_queue}
use door_switch_svr.Handler.NewDoor.{open_lower_door}

abbrev board : SwitchInfo
board = record {
  oid = text "a";
  ip = text "10.0.0.7";
  channels = 8;
  port = 6000;
  type = direct_control_switch;
}

-- A connected handler whose door 5 has a controller.
abbrev with_door : Handler
with_door = record {
  controllers = (5, new_controller) ∷ [];
  interval = 2;
  timer_on = false;
  connected = true;
  switch_info = board;
  calls = [];
  in_timer = none;
}

-- The same handler with its connection lost.
abbrev without_connection : Handler
without_connection = record with_door {
  timer_on = true;
  connected = false;
  calls = timer_start ∷ timer_set_period 2000 ∷ [];
}

backoff_doubles_example :
    let h = start_reconnect_timer (new_handler board) in
    (next_wait h.calls ≡ some 256) × (next_wait (fail_times 3 h).calls ≡ some (1000 * 2 ^ min 4 8))
unfolding new_handler
backoff_doubles_example = backoff_doubles 2 (new_handler board) refl refl

abbrev first : Handler
first = (connect true (new_handler board)).0

abbrev some_events : List Event
some_events =
    timer_fires true
    ∷ timer_returns
    ∷ timer_fires false
    ∷ reads 5 true 0
    ∷ timer_returns
    ∷ checks 5 7
    ∷ []

abbrev after_events : Handler
after_events = on_reconn_timer false (on_reconn_timer true first)

disconnected_retries_example :
    (not after_events.timer_on || timer_runs after_events.calls ≡ true)
    × (after_events.connected || (timer_runs after_events.calls || has_ended after_events.calls)
        ≡ true)
    × (any_disturbs some_events first || same (timer_runs after_events.calls) after_events.timer_on
        ≡ true)
    × (any_disturbs some_events first
          || (is_some after_events.in_timer
              || same after_events.timer_on (not after_events.connected))
        ≡ true)
unfolding run step on_reconn_timer deadline_called find read_returned connect new_handler
disconnected_retries_example = disconnected_retries true board some_events after_events refl

error_in_reconnect_is_lost_example :
    let h =
      open_all
        ((pos 5, pos 3000, 9) ∷ [])
        (timer_returned (handle_rw_error (timer_called false without_connection))) in
    (h.connected ≡ false) × (h.timer_on ≡ false) × (timer_runs h.calls ≡ false)
error_in_reconnect_is_lost_example =
    error_in_reconnect_is_lost without_connection ((pos 5, pos 3000, 9) ∷ []) refl

open_lower_door_example :
    let (h, result) = open_door (pos 2) (pos 3000) 9 with_door in
    (result ≡ err_ok)
    × (find 2 h.controllers ≡ some new_controller)
    × ((c : Controller) × (find 5 h.controllers ≡ some c)
        × (c.channel ≡ 2)
        × (c.worker.tasks ≡ new_controller.worker.tasks ++ (task_of (pos 3000) 9 ∷ []))
        × (c.watch.deadline ≡ never))
unfolding find last
open_lower_door_example =
    open_lower_door (pos 2) (pos 3000) 9 5 new_controller with_door refl (tt, tt) refl refl
      (omega arith)

-- Door 5 has a controller; door 6 is new, and is asked for again.
abbrev three_requests : List (ℤ × ℤ × ℕ)
three_requests = (pos 5, pos 3000, 9) ∷ (pos 6, pos 4000, 10) ∷ (pos 6, pos 5000, 11) ∷ []

three-AreInOrder : AreInOrder three_requests with_door
unfolding find insert adjust
three-AreInOrder = (inl (λ e. cc), (inr (refl, tt), (inl (λ e. cc), tt)))

requests_queue_example :
    tasks_at 6 (open_all three_requests with_door)
    ≡ task_of (pos 4000) 10 ∷ task_of (pos 5000) 11 ∷ []
unfolding find
requests_queue_example = requests_queue three_requests with_door 6 refl (tt, tt) three-AreInOrder

-- Door 5 is open: its thread sleeps for three seconds.
abbrev asleep : Controller
asleep = record new_controller {
  channel = 5;
  has_callback = true;
  worker = record new_worker { pc = sleeping_direct (pos 3000) };
}

abbrev with_open_door : Handler
with_open_door = record with_door { controllers = (5, asleep) ∷ [] }

abbrev not_written : WriteResult
not_written = record { error = true; len = 0 }

close_loses_closing_example :
    let closed = close with_open_door in
    (timer_runs closed.calls ≡ false)
    × (is_socket_open closed.calls ≡ false)
    × ((turn direct_control_switch 7 (Run.close asleep.worker)).1 ≡ some closing)
    × (not_written.error ≡ true)
    × ((h : Handler) × (thread_turn 5 not_written 7 closed ≡ some h) × (timer_runs h.calls ≡ true))
unfolding find
close_loses_closing_example =
    close_loses_closing 5 asleep with_open_door 7 not_written refl refl refl (omega arith)
      (omega arith) refl (λ closed. refl)

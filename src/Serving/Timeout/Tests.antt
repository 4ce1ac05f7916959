-- ===== src/Serving/Timeout/Tests.antt =====
-- A board that does not answer, at concrete values.
use door_switch_svr.Prelude.{◌≡◌, ◌≢◌, refl, sym, inr, List, [], ◌∷◌, some, arith, true, false}
use door_switch_svr.OrderedMap.{
  key_ℕ, key_text, compare_text, find, insert, last, adjust, adjust_last,
}
use door_switch_svr.OrderedMap.Laws.{lt-ne}
use door_switch_svr.Prelude.Int.{pos, i16}
use door_switch_svr.Svr.{delivered}
use door_switch_svr.Mqtt.{on_message}
use door_switch_svr.Param.{text}
use door_switch_svr.Controller.{Controller, new_controller, init, add_task, start, run_turn}
use door_switch_svr.Controller.Command.{make_open_command, make_close_command}
use door_switch_svr.Controller.Run.{opening}
use door_switch_svr.Handler.{Handler, new_handler, connect, open_door, thread_turn, deadline_called}
use door_switch_svr.Handler.Event.{Event, thread_turns, opens, step}
use door_switch_svr.Engine.{create_switch_handler}
use door_switch_svr.Serving.{
  asks_of, Server, act_on, new_server, hear, act, Reach, begins, later, hears,
}
use door_switch_svr.Serving.Turns.{run_door, Reach-run_door}
use door_switch_svr.Serving.Elsewhere.{Amid, ends, own_acts, own_hears, other_hears}
use door_switch_svr.Handler.Event.{checks}
use door_switch_svr.Handler.Timer.{timer_runs}
use door_switch_svr.Serving.Timeout.{unanswered_command_retries}
use door_switch_svr.Serving.Sample.{
  message, other_message, around, request, asked, heard, get, board, config, parser, written,
  config-IsTable,
}

-- The door's thread has its first task before it; it opens the door, and no reply comes.
abbrev ready : Server
ready = get heard (run_door (text "b") 3 ((written, 10) ∷ []) heard)

abbrev sent_one : Server
sent_one = get ready (act_on (text "b") (thread_turns 3 written 11) ready)

-- The door is asked for again, its thread closes it, and switch c is asked for.
abbrev asked_again : Server
asked_again = hear parser config (delivered (record around { now = 20 }) message) sent_one

abbrev closed : Server
closed = get asked_again (act_on (text "b") (thread_turns 3 written 3011) asked_again)

abbrev waited : Server
waited = hear parser config (delivered (record around { now = 3012 }) other_message) closed

abbrev timed_out : Server
timed_out = get waited (act_on (text "b") (checks 3 30000011) waited)

abbrev handler : Handler
handler = get (new_handler board) (find (text "b") ready.engine.handlers)

abbrev asked_handler : Handler
asked_handler = get (new_handler board) (find (text "b") sent_one.engine.handlers)

abbrev events : List Event
events = opens (i16 (pos 3)) (pos 3) 20 ∷ thread_turns 3 written 3011 ∷ []

c_ne_b : text "c" ≢ text "b"
unfolding compare_text
c_ne_b = λ e. lt-ne (text "b") (text "c") refl (sym e)

abbrev door : Controller
door = get new_controller (find 3 handler.controllers)

ready_runs : run_door (text "b") 3 ((written, 10) ∷ []) heard ≡ some ready
unfolding hear act find insert last adjust adjust_last compare_text new_server create_switch_handler
    open_door connect new_handler step thread_turn run_turn init add_task start new_controller
    make_open_command make_close_command run_door act_on deadline_called
ready_runs = refl

sends_one : act_on (text "b") (thread_turns 3 written 11) ready ≡ some sent_one
unfolding hear act find insert last adjust adjust_last compare_text new_server create_switch_handler
    open_door connect new_handler step thread_turn run_turn init add_task start new_controller
    make_open_command make_close_command run_door act_on deadline_called
sends_one = refl

silent_events : Amid parser config (text "b") events sent_one waited
unfolding hear act find insert last adjust adjust_last compare_text new_server create_switch_handler
    open_door connect new_handler step thread_turn run_turn init add_task start new_controller
    make_open_command make_close_command run_door act_on deadline_called asks_of on_message
silent_events =
    own_hears (record around { now = 20 }) message (text "b") request board 3 asked_handler refl
      asked refl refl
      (own_acts (thread_turns 3 written 3011) refl refl (
        other_hears (delivered (record around { now = 3012 }) other_message)
          ((inr (refl, tt), c_ne_b), tt) ends))

times_out : act_on (text "b") (checks 3 30000011) waited ≡ some timed_out
unfolding hear act find insert last adjust adjust_last compare_text new_server create_switch_handler
    open_door connect new_handler step thread_turn run_turn init add_task start new_controller
    make_open_command make_close_command run_door act_on deadline_called
times_out = refl

ready-Reach : Reach parser config ready
ready-Reach =
    Reach-run_door parser config (text "b") 3 ((written, 10) ∷ []) heard ready
      (later begins (hears _)) ready_runs

unanswered_command_retries_example :
    (h : Handler) × (find (text "b") timed_out.engine.handlers ≡ some h)
    × (h.connected ≡ false)
    × (timer_runs h.calls ≡ true)
unfolding hear act find insert last adjust adjust_last compare_text new_server create_switch_handler
    open_door connect new_handler step thread_turn run_turn init add_task start new_controller
    make_open_command make_close_command run_door act_on deadline_called
unanswered_command_retries_example =
    unanswered_command_retries parser config (text "b") 3 written 11 30000011 opening handler door
      events ready sent_one waited timed_out config-IsTable ready-Reach refl refl refl refl
      (refl, omega arith) sends_one (refl, (tt, tt)) silent_events (omega arith) times_out

-- ===== src/Serving/Service/Tests.antt =====
-- Two messages for a door, with messages for a second switch and a turn of its thread in between.
use door_switch_svr.Prelude.{◌≡◌, ◌≢◌, refl, sym, [], inl, inr, arith, ℕ}
use door_switch_svr.OrderedMap.{
  key_ℕ, key_text, compare_text, find, insert, last, adjust, adjust_last,
}
use door_switch_svr.OrderedMap.Laws.{lt-ne}
use door_switch_svr.Param.{Text, text}
use door_switch_svr.Controller.{new_controller, init, add_task, start, run_turn}
use door_switch_svr.Controller.Command.{make_open_command, make_close_command}
use door_switch_svr.Handler.{new_handler, connect, open_door, thread_turn}
use door_switch_svr.Handler.Event.{thread_turns, step, none-ne-some}
use door_switch_svr.Engine.{new_engine, create_switch_handler}
use door_switch_svr.Mqtt.{on_message}
use door_switch_svr.Svr.{delivered}
use door_switch_svr.Serving.{Server, act_on, asks_of, new_server, hear, act, Reach, begins}
use door_switch_svr.Serving.Again.{IsServing}
use door_switch_svr.Serving.Round.{IsRound}
use door_switch_svr.Serving.Rounds.{cycles}
use door_switch_svr.Serving.First.{all_turns}
use door_switch_svr.Serving.Apart.{sent_to}
use door_switch_svr.Serving.Elsewhere.{Amid, ends, own_acts, other_acts, other_hears}
use door_switch_svr.Serving.Amid.{turn_events, task_turns}
use door_switch_svr.Serving.Service.{Service, done, asked, every_message_opens}
use door_switch_svr.Serving.Sample.{
  message, other_message, board, config, parser, around, written, config-IsTable, fresh, first,
  second, first-IsRound, second-IsRound, get,
}

abbrev turned : Text → ℕ → Server → Server
turned k now s = get s (act_on k (thread_turns 3 written now) s)

abbrev asked_other : ℕ → Server → Server
asked_other now = hear parser config (delivered (record around { now = now }) other_message)

c_ne_b : text "c" ≢ text "b"
unfolding compare_text
c_ne_b = λ e. lt-ne (text "b") (text "c") refl (sym e)

-- The first message for door 3 of switch b: behind the first two turns of its thread comes a message for switch c,
-- whose thread has a turn before the third.
abbrev s1 : Server
s1 =
    turned (text "b") 11
      (turned (text "b") 10 (hear parser config (delivered around message) fresh))

abbrev s2 : Server
s2 = turned (text "c") 13 (asked_other 12 s1)

abbrev s3 : Server
s3 = turned (text "b") 3012 (turned (text "b") 3011 s2)

first-Amid :
    Amid parser config
      (text "b")
      (turn_events 3 (all_turns written 10 first.turns))
      (hear parser config (delivered around message) fresh)
      s3
unfolding hear act find insert last adjust adjust_last compare_text new_server create_switch_handler
    open_door connect new_handler step thread_turn run_turn init add_task start new_controller
    make_open_command make_close_command act_on asks_of on_message
first-Amid = own_acts (thread_turns 3 written 10) refl refl (
    own_acts (thread_turns 3 written 11) refl refl (
      other_hears (delivered (record around { now = 12 }) other_message)
        ((inr (refl, tt), c_ne_b), tt)
        (other_acts (text "c") (thread_turns 3 written 13) c_ne_b refl refl (
          own_acts (thread_turns 3 written 3011) refl refl
            (own_acts (thread_turns 3 written 3012) refl refl ends)))))

-- Between the messages, switch c is asked again; behind the second message its thread has a turn.
abbrev s4 : Server
s4 = asked_other 4000000 s3

abbrev heard_again : Server
heard_again = hear parser config (delivered second.env message) s4

abbrev s5 : Server
s5 =
    turned (text "b") 5003001 (
      turned (text "b") 5003000 (turned (text "c") 5002000 (turned (text "b") 5000001 heard_again)))

between : Amid parser config (text "b") [] s3 s4
unfolding hear act find insert last adjust adjust_last compare_text new_server create_switch_handler
    open_door connect new_handler step thread_turn run_turn init add_task start new_controller
    make_open_command make_close_command act_on asks_of on_message
between =
    other_hears (delivered (record around { now = 4000000 }) other_message)
      ((inl (λ e. none-ne-some (sym e)), c_ne_b), tt) ends

second-Amid : Amid parser config (text "b") (turn_events 3 (task_turns second.turns)) heard_again s5
unfolding hear act find insert last adjust adjust_last compare_text new_server create_switch_handler
    open_door connect new_handler step thread_turn run_turn init add_task start new_controller
    make_open_command make_close_command act_on asks_of on_message
second-Amid = own_acts (thread_turns 3 written 5000001) refl refl (
    other_acts (text "c") (thread_turns 3 written 5002000) c_ne_b refl refl (
      own_acts (thread_turns 3 written 5003000) refl refl
        (own_acts (thread_turns 3 written 5003001) refl refl ends)))

s4-IsRound : IsRound parser config s4.proxy board 3 second
unfolding hear act find insert last adjust adjust_last compare_text new_server create_switch_handler
    open_door connect new_handler step thread_turn run_turn init add_task start new_controller
    make_open_command make_close_command act_on asks_of on_message
s4-IsRound = second-IsRound

service : Service parser config board 3 1 s3 s5
service = asked second between s4-IsRound second-Amid (done ends)

every_message_opens_example :
    (sent_to (text "b") s5.sent ≡ cycles (text "b") 3 2 [])
    × IsServing (text "b") 3 board.type s5
    × Reach parser config s5
unfolding new_server new_engine find
every_message_opens_example =
    every_message_opens parser config board 3 (omega arith) config-IsTable fresh first first-IsRound
      written 10 1 s3 s5 begins (refl, omega arith) refl refl refl tt first-Amid service

-- ===== src/Serving/Tests.antt =====
-- The theorems on the whole server at concrete values: a message for door 3 of switch b, and two turns of
-- the thread of that door, the second of which sends the opening command.
use door_switch_svr.Prelude.{
  ◌≡◌, refl, sym, subst, inl, inr, ◌⊎◌, [], ◌∷◌, true, false, Option, none, some, arith, All,
}
use door_switch_svr.Prelude.Int.{pos}
use door_switch_svr.OrderedMap.{
  key_ℕ, key_text, compare_text, find, insert, last, adjust, adjust_last,
}
use door_switch_svr.OrderedMap.Laws.{lt-ne}
use door_switch_svr.Param.{Text, text}
use door_switch_svr.Controller.{Controller, run_turn, init, add_task, start, new_controller}
use door_switch_svr.Controller.Command.{make_open_command}
use door_switch_svr.Controller.Run.{overflows, turn, opening}
use door_switch_svr.Handler.{Handler, new_handler, connect, open_door, thread_turn}
use door_switch_svr.Handler.Event.{thread_turns, step}
use door_switch_svr.Engine.{read_request, new_engine, create_switch_handler}
use door_switch_svr.Mqtt.{on_message}
use door_switch_svr.Svr.{delivered}
use door_switch_svr.Serving.{
  asks_of, Sent, Server, new_server, hear, act, Reach, begins, later, hears, acts,
}
use door_switch_svr.Serving.Safe.{WasAsked, IsDoorOf}
use door_switch_svr.Serving.Routed.{
  OrderedReach, ordered_begins, ordered_hears, ordered_acts, WasAskedFor, commands_routed,
}
use door_switch_svr.Serving.Boards.{
  arriving, relays_of, last_opens, relays_follow, unasked_stays_closed, unasked_door_stays_closed,
}
use door_switch_svr.Serving.Safety.{commands_asked, Retries, handlers_retry, commands_are_defined}
use door_switch_svr.Serving.Sample.{board, config, parser, around, written, config-IsTable}

abbrev heard : Server
heard =
    hear parser config
      (delivered around (record { topic = text "seeta_switch_open"; payload = some (text "b") }))
      (new_server config)

abbrev h0 : Handler
h0 = (open_door (pos 3) (pos 3) 9 (connect false (new_handler board)).0).0

abbrev after : Handler → Option Handler → Handler
after h none = h
after h (some h') = h'

abbrev h1 : Handler
h1 = after h0 (thread_turn 3 written 10 h0)

abbrev h2 : Handler
h2 = after h1 (thread_turn 3 written 11 h1)

heard-found : find (text "b") heard.engine.handlers ≡ some h0
unfolding hear act find insert last adjust adjust_last compare_text new_server create_switch_handler
    open_door connect new_handler step thread_turn run_turn init add_task start new_controller
heard-found = refl

first_turn : step (thread_turns 3 written 10) h0 ≡ some h1
unfolding hear act find insert last adjust adjust_last compare_text new_server create_switch_handler
    open_door connect new_handler step thread_turn run_turn init add_task start new_controller
first_turn = refl

abbrev once : Server
once = act (text "b") (thread_turns 3 written 10) h0 h1 heard

abbrev acted : Server
acted = act (text "b") (thread_turns 3 written 11) h1 h2 once

once-found : find (text "b") once.engine.handlers ≡ some h1
unfolding hear act find insert last adjust adjust_last compare_text new_server create_switch_handler
    open_door connect new_handler step thread_turn run_turn init add_task start new_controller
once-found = refl

second_turn : step (thread_turns 3 written 11) h1 ≡ some h2
unfolding hear act find insert last adjust adjust_last compare_text new_server create_switch_handler
    open_door connect new_handler step thread_turn run_turn init add_task start new_controller
    make_open_command
second_turn = refl

acted-Reach : Reach parser config acted
acted-Reach =
    let at_once : Reach parser config once =
      later (later begins (hears _))
        (acts (text "b") (thread_turns 3 written 10) refl heard-found first_turn) in
    later at_once (acts (text "b") (thread_turns 3 written 11) refl once-found second_turn)

-- The message was for a switch above all that have a handler: there is none.
acted-OrderedReach : OrderedReach parser config acted
unfolding new_server new_engine asks_of on_message compare_text read_request find
acted-OrderedReach =
    let at_heard : OrderedReach parser config heard = ordered_hears _ ordered_begins (inr tt, tt) in
    let at_once : OrderedReach parser config once =
      ordered_acts (text "b") (thread_turns 3 written 10) at_heard refl heard-found first_turn in
    ordered_acts (text "b") (thread_turns 3 written 11) at_once refl once-found second_turn

asked_doors : acted.asked ≡ (text "b", 3) ∷ []
unfolding hear act find compare_text new_server
asked_doors = refl

acted-found : find (text "b") acted.engine.handlers ≡ some h2
unfolding hear act find insert last adjust adjust_last compare_text new_server create_switch_handler
    open_door connect new_handler step thread_turn run_turn init add_task start new_controller
acted-found = refl

-- The command is among those sent.
opening_sent : acted.sent ≡ record { switch_id = text "b"; request = opening; channel = 3 } ∷ []
unfolding hear act find insert last adjust adjust_last compare_text new_server create_switch_handler
    open_door connect new_handler step thread_turn run_turn init add_task start new_controller
opening_sent = refl

commands_asked_example :
    All
      (λ (x : Sent). WasAsked acted.asked x.channel × ((k : Text) × IsDoorOf config (k, x.channel)))
      acted.sent
commands_asked_example = commands_asked parser config config-IsTable acted acted-Reach

handlers_retry_example :
    (find (text "b") config.map_oid_switch_info ≡ some h2.switch_info) × Retries h2
handlers_retry_example =
    handlers_retry parser config config-IsTable acted acted-Reach (text "b") h2 acted-found

abbrev door : Option Controller → Controller
door none = new_controller
door (some c) = c

abbrev c2 : Controller
c2 = door (find 3 h2.controllers)

door-found : find 3 h2.controllers ≡ some c2
unfolding hear act find insert last adjust adjust_last compare_text new_server create_switch_handler
    open_door connect new_handler step thread_turn run_turn init add_task start new_controller
    make_open_command
door-found = refl

c2-calm : overflows 12 c2.worker ≡ false
unfolding hear act find insert last adjust adjust_last compare_text new_server create_switch_handler
    open_door connect new_handler step thread_turn run_turn init add_task start new_controller
    make_open_command overflows
c2-calm = refl

commands_are_defined_example :
    ((h' : Handler) × (thread_turn 3 written 12 h2 ≡ some h'))
    × (((turn h2.switch_info.type 12 c2.worker).1 ≡ none) ⊎ (c2.has_callback ≡ true))
commands_are_defined_example =
    commands_are_defined parser config config-IsTable acted acted-Reach
      (omega arith, (omega arith, tt)) (text "b") h2 3 12 acted-found written c2 door-found c2-calm

commands_routed_example :
    All (λ (x : Sent). WasAskedFor acted.asked x.switch_id x.channel) acted.sent
commands_routed_example = commands_routed parser config acted config-IsTable acted-OrderedReach

relays_follow_example :
    relays_of (text "b") (arriving (true ∷ []) acted.sent) 3
    ≡ last_opens (text "b") 3 (arriving (true ∷ []) acted.sent)
relays_follow_example =
    relays_follow parser config config-IsTable acted acted-Reach (omega arith, (omega arith, tt))
      (true ∷ []) (text "b") 3 (omega arith) (omega arith)

-- The relay of door 3 is open.
relay_open : last_opens (text "b") 3 acted.sent ≡ true
unfolding compare_text
relay_open = rw opening_sent

unasked_4 : ¬ WasAsked acted.asked 4
unasked_4 = subst (λ asked. ¬ WasAsked asked 4) (sym asked_doors) (λ w. ground arith)

unasked_stays_closed_example : relays_of (text "b") (arriving (true ∷ []) acted.sent) 4 ≡ false
unasked_stays_closed_example =
    unasked_stays_closed parser config config-IsTable acted acted-Reach
      (omega arith, (omega arith, tt)) (true ∷ []) (text "b") 4 (omega arith) (omega arith)
      unasked_4

unasked_c : ¬ WasAskedFor acted.asked (text "c") 3
unfolding compare_text
unasked_c =
    subst (λ asked. ¬ WasAskedFor asked (text "c") 3) (sym asked_doors)
      (λ w. elim w [ inl q ↦ lt-ne (text "b") (text "c") refl q.0 | inr v ↦ elim v [ ] ])

unasked_door_stays_closed_example : relays_of (text "c") (arriving (true ∷ []) acted.sent) 3 ≡ false
unasked_door_stays_closed_example =
    unasked_door_stays_closed parser config acted config-IsTable acted-OrderedReach
      (omega arith, (omega arith, tt)) (true ∷ []) (text "c") 3 (omega arith) (omega arith)
      unasked_c

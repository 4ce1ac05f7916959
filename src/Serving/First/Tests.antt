-- ===== src/Serving/First/Tests.antt =====
-- A first message and one more, in turn, at concrete values.
use door_switch_svr.Prelude.{◌≡◌, refl, [], ◌∷◌, some, arith}
use door_switch_svr.OrderedMap.{key_text, find}
use door_switch_svr.Param.{text}
use door_switch_svr.Engine.{new_engine}
use door_switch_svr.Svr.{delivered}
use door_switch_svr.Serving.{Server, new_server, hear, Reach, begins}
use door_switch_svr.Serving.Turns.{and_then, run_door}
use door_switch_svr.Serving.Again.{IsServing}
use door_switch_svr.Serving.Rounds.{serve_rounds, cycles}
use door_switch_svr.Serving.First.{all_turns, messages_open_from_first}
use door_switch_svr.Serving.Sample.{
  message, board, config, parser, around, written, config-IsTable, fresh, first, second,
  first-IsRound, second-IsRound,
}

messages_open_from_first_example :
    (s : Server) × (and_then (serve_rounds parser config (text "b") 3 (second ∷ [])) (
        run_door
          (text "b")
          3
          (all_turns written 10 first.turns)
          (hear parser config (delivered around message) fresh))
      ≡ some s)
    × (s.sent ≡ cycles (text "b") 3 2 [])
    × IsServing (text "b") 3 board.type s
    × Reach parser config s
unfolding new_server new_engine find
messages_open_from_first_example =
    messages_open_from_first parser config board 3 (omega arith) config-IsTable fresh begins first
      first-IsRound written (refl, omega arith) 10 refl refl refl tt (second ∷ [])
      (second-IsRound, tt)

-- ===== src/Serving/Opens/Tests.antt =====
-- The first message for a switch at concrete values.
use door_switch_svr.Prelude.{◌≡◌, refl, [], ◌∷◌, some, arith}
use door_switch_svr.OrderedMap.{key_ℕ, key_text, compare_text, find}
use door_switch_svr.Param.{text, direct_control_switch}
use door_switch_svr.Controller.Run.{opening}
use door_switch_svr.Engine.{new_engine}
use door_switch_svr.Mqtt.{on_message}
use door_switch_svr.Svr.{delivered}
use door_switch_svr.Serving.{Server, new_server, hear, Reach, begins}
use door_switch_svr.Controller.Run.{Worker, closing}
use door_switch_svr.Controller.Run.Deadline.{SleepsUntil}
use door_switch_svr.Serving.Turns.{HasDoor, run_door}
use door_switch_svr.Serving.Opens.{command_to, message_opens_door}
use door_switch_svr.Serving.Sample.{
  message, request, asked, board, config, parser, around, written, config-IsTable,
}

message_opens_door_example :
    let s = new_server config in
    let heard = hear parser config (delivered around message) s in
    (s1 : Server) × (s2 : Server) × (w : Worker) × (run_door
        (text "b")
        3
        ((written, 10) ∷ (written, 11) ∷ [])
        heard
      ≡ some s1)
    × HasDoor (text "b") 3 3 direct_control_switch w s1
    × SleepsUntil 3009 11 w.pc
    × (s1.sent ≡ command_to (text "b") 3 opening ∷ [])
    × (run_door (text "b") 3 ((written, 3011) ∷ []) s1 ≡ some s2)
    × (s2.sent ≡ command_to (text "b") 3 closing ∷ command_to (text "b") 3 opening ∷ [])
    × Reach parser config s2
unfolding new_server new_engine on_message compare_text find
message_opens_door_example =
    message_opens_door parser config config-IsTable (new_server config) begins around message
      (text "b") refl request board 3 asked refl refl refl tt written written written 10 11 3011 3
      (omega arith) refl (omega arith) (omega arith) (omega arith)

-- ===== src/Engine/Known.antt =====
-- A message for a switch that has a handler.
use door_switch_svr.Prelude.{ℕ, ◌≡◌, sym, ◌≢◌, some, arith, if◌then◌else◌}
use door_switch_svr.Prelude.Int.{pos, i16}
use door_switch_svr.OrderedMap.{key_ℕ, key_text, find}
use door_switch_svr.OrderedMap.Laws.{find-adjust_self, find-adjust_ne}
use door_switch_svr.Param.{Text, SwitchInfo, SvrCfg, err_switch_not_conn}
use door_switch_svr.Poco.{Json}
use door_switch_svr.Handler.{Handler, open_door}
use door_switch_svr.Handler.Doors.{open_door_result}
use door_switch_svr.Engine.{
  OpenDoorRequest, Engine, opened, failed, Surroundings, open_on, reply_of, with_handler,
  on_recv_mqtt_message,
}
use door_switch_svr.Engine.Request.{Asks, recv-with_handler}

module _ (json : Json) (cfg : SvrCfg) (env : Surroundings) (message : Text) (req : OpenDoorRequest)
    (info : SwitchInfo) (c : ℕ) (asks : Asks json cfg message req info c) (e : Engine) where
  pub recv-known :
      (h : Handler)
      → find req.switch_id e.handlers ≡ some h
      → find req.switch_id (on_recv_mqtt_message json cfg env message e).0.handlers
        ≡ some (open_door (i16 req.channel) req.close_after env.now h).0
  unfolding with_handler open_on
  recv-known h known =
      rw (recv-with_handler json cfg env message req info c asks e, known, with_handler)
        (find-adjust_self req.switch_id _ e.handlers h known)

  -- If a message asks for a channel that its switch has in the configuration (`Asks`), and the
  -- engine has a handler for that switch, then this handler alone answers: it takes the request to
  -- its door, with success, or refuses it because the switch is not connected, and the handler of
  -- any other switch is what it was.
  pub known_switch :
      (h : Handler) (other : Text)
      → find req.switch_id e.handlers ≡ some h
      → req.switch_id ≢ other
      → let (e', reply) = on_recv_mqtt_message json cfg env message e in
        (reply ≡ (if h.connected then opened else failed err_switch_not_conn))
        × (find req.switch_id e'.handlers
            ≡ some (open_door (i16 (pos c)) req.close_after env.now h).0)
        × (find other e'.handlers ≡ find other e.handlers)
  unfolding with_handler open_on reply_of
  known_switch h other known ne =
      let (result, _) = open_door_result (i16 (pos c)) req.close_after env.now h in
      let answer : (if h.connected then opened else failed err_switch_not_conn)
          ≡ reply_of (open_door (i16 (pos c)) req.close_after env.now h).1 =
        ground (arith, result) in
      rw (recv-with_handler json cfg env message req info c asks e, known, with_handler, asks.asked)
        (
          sym answer,
          find-adjust_self req.switch_id _ e.handlers h known,
          find-adjust_ne req.switch_id other _ e.handlers ne,
        )

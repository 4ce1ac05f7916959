-- ===== src/StreamNode.antt =====
-- testsuite/SeetaMockStreamNode/src: the program that stands in for the senders of requests. A node
-- publishes one request for ever; its calls are listed in the order they are made. The MQTT client
-- records its calls, newest first.
pub mod Stoi
pub mod Program
pub mod Request
pub mod Starts
pub mod Opens
mod Tests
use door_switch_svr.Prelude.{ℕ, zero, suc, ◌/◌, List, [], ◌∷◌, Bool, false}
use door_switch_svr.Prelude.Int.{ℤ, pos, negsuc, u16}
use door_switch_svr.Param.{Text, text, s2ms}
use door_switch_svr.Poco.{Json, JsonWriter}
use door_switch_svr.Mqtt.{c_str}

pub record CmdParam : Type 0 where
  pub mosq_ip : Text
  pub mosq_port : ℕ
  pub test_file_path : Text
  pub mosq_topic : Text

pub data ProxyCall : Type 0 where
  connect : Text → ℤ → ProxyCall
  lib_init lib_cleanup loop_start disconnect loop_stop : ProxyCall
  subscribe : Text → ℕ → ProxyCall

unfoldable pub new_proxy : Text → ℤ → List ProxyCall → List ProxyCall
new_proxy host port calls = loop_start ∷ connect host port ∷ calls

unfoldable pub destroy : List ProxyCall → List ProxyCall
destroy calls = loop_stop ∷ disconnect ∷ calls

unfoldable pub on_connect : ℤ → List ProxyCall → List ProxyCall
on_connect (pos zero) calls = subscribe (text "root") 2 ∷ calls
on_connect (pos (suc n)) calls = calls
on_connect (negsuc n) calls = calls

pub record Node : Type 0 where
  pub switch_id : Text
  pub channel : ℕ
  pub close_after_ms : ℕ
  pub interval_ms : ℕ
  pub param : CmdParam

-- The numbers, of type `int` at the call, become `unsigned short`.
unfoldable pub new_node : Text → ℤ → ℤ → ℤ → CmdParam → Node
new_node switch_id channel close_after_ms interval_ms param = record {
  switch_id = switch_id;
  channel = u16 channel;
  close_after_ms = u16 close_after_ms;
  interval_ms = u16 interval_ms;
  param = param;
}

-- `publish(nullptr, topic, length, payload, qos, retain)` and `sleep(seconds)`.
pub data NodeCall : Type 0 where
  publish : Text → List ℕ → ℕ → Bool → NodeCall
  sleep : ℕ → NodeCall

module _ (json : Json) (writer : JsonWriter json) where
  -- The object that is sent, and its text.
  unfoldable pub root_obj : Node → json.Object
  root_obj n = writer.set_int (text "close") (pos n.close_after_ms) (
      writer.set_int (text "channel") (pos n.channel)
        (writer.set_string (text "switch_id") n.switch_id writer.empty))

  unfoldable pub message : Node → Text
  unfolding root_obj
  message n = writer.stringify (root_obj n)

  -- The calls of `k` passes of the loop, which has no end.
  unfoldable pub run : ℕ → Node → List NodeCall
  unfolding message
  run zero n = []
  run (suc k) n =
      publish (c_str n.param.mosq_topic) (message n) 0 false
      ∷ sleep (n.interval_ms / s2ms)
      ∷ run k n

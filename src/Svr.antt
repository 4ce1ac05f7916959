-- ===== src/Svr.antt =====
-- src/DoorSwitchSvr.h and .cpp: the server application. The configuration of Poco::Util and the
-- MongoDB client are parameters.
pub mod Config
pub mod Load
pub mod Main
pub mod Served
mod Tests
use door_switch_svr.Prelude.{ℕ, List, [], ◌∷◌, Bool, true, false, Option, none, some, if◌then◌else◌}
use door_switch_svr.Prelude.Int.{ℤ}
use door_switch_svr.Param.{Text, SvrCfg}
use door_switch_svr.Poco.{Json}
use door_switch_svr.Handler.{Handler}
use door_switch_svr.Engine.{Engine, Surroundings, new_engine, on_recv_mqtt_message}
use door_switch_svr.Engine
use door_switch_svr.Mqtt.{MosquittoMessage, Proxy, new_proxy, on_connect, on_message}
use door_switch_svr.Mqtt
use Config.{Configuration, ExitCode, exit_ok, is_exit_ok, parse_configuration}
use Load.{Mongo, load_switch_setting}

-- What mosquitto's thread calls: the answer to a connect, with its code, and a message.
pub data BrokerEvent : Type 0 where
  connected : ℤ → BrokerEvent
  delivered : Surroundings → MosquittoMessage → BrokerEvent

-- The callback that `main` binds: the engine's handler, for a message that the proxy lets through.
unfoldable pub deliver : Json → SvrCfg → Surroundings → Option Text → Engine → Engine
unfolding on_recv_mqtt_message
deliver json cfg env none e = e
deliver json cfg env (some payload) e = (on_recv_mqtt_message json cfg env payload e).0

unfoldable pub receive : Json → SvrCfg → BrokerEvent → Proxy × Engine → Proxy × Engine
unfolding on_connect on_message deliver
receive json cfg (connected rc) (p, e) = (on_connect rc p, e)
receive json cfg (delivered env message) (p, e) = (p, deliver json cfg env (on_message message p) e)

-- ===== src/Svr/Main.antt =====
-- src/DoorSwitchSvr.cpp, main: from the start of the server to its end, with all that happens to it in
-- between.
use door_switch_svr.Prelude.{
  ℕ, List, [], ◌∷◌, ◌≡◌, Bool, true, false, Option, none, some, if◌then◌else◌,
}
use door_switch_svr.Param.{Text, SvrCfg}
use door_switch_svr.Poco.{Json}
use door_switch_svr.Handler.{Handler}
use door_switch_svr.Handler.Event.{Event}
use door_switch_svr.Engine.{Engine, Reply, address_thrown, on_recv_mqtt_message}
use door_switch_svr.Engine
use door_switch_svr.Mqtt.{Proxy, on_message}
use door_switch_svr.Mqtt
use door_switch_svr.Svr.{BrokerEvent, connected, delivered}
use door_switch_svr.Svr.Config.{Configuration, ExitCode, exit_ok, is_exit_ok, parse_configuration}
use door_switch_svr.Svr.Load.{Mongo, load_switch_setting}
use door_switch_svr.Serving.{Server, new_server, hear, act_on, is_own}

-- What happens while the server waits for the request to terminate: a call of mosquitto's thread, or an
-- event of the handler of a switch.
pub data Happening : Type 0 where
  hears : BrokerEvent → Happening
  acts : Text → (event : Event) → is_own event ≡ true → Happening

-- Whether an exception leaves the callback of mosquitto: nothing catches it, and the process ends.
is_uncaught : Reply → Bool
is_uncaught address_thrown = true
is_uncaught _ = false

pub ends_process : Json → SvrCfg → BrokerEvent → Server → Bool
unfolding is_uncaught on_message on_recv_mqtt_message
ends_process json cfg (connected rc) s = false
ends_process json cfg (delivered env message) s = elim (on_message message s.proxy) [
  | none ↦ false
  | some payload ↦ is_uncaught (on_recv_mqtt_message json cfg env payload s.engine).1
]

-- `none`: an exception that nothing catches, or undefined behaviour.
unfoldable pub serve_one : Json → SvrCfg → Happening → Server → Option Server
unfolding hear act_on ends_process
serve_one json cfg (hears event) s =
    if ends_process json cfg event s then none else some (hear json cfg event s)
serve_one json cfg (acts k event own) s = act_on k event s

unfoldable pub serve_all : Json → SvrCfg → List Happening → Server → Option Server
unfolding serve_one
serve_all json cfg [] s = some s
serve_all json cfg (x ∷ xs) s = elim (serve_one json cfg x s) [
  | none ↦ none
  | some s' ↦ serve_all json cfg xs s'
]

-- What a run of the server leaves: its exit code, its configuration, and, if it served, the proxy and
-- the handlers as their destructors leave them.
pub record Ended : Type 0 where
  pub code : ExitCode
  pub config : SvrCfg
  pub served : Option (Proxy × List Handler)

-- The end of the scope of the engine and the proxy, up to the joins of the doors' threads: the proxy is
-- destroyed first.
unfoldable pub end_of : SvrCfg → Option Server → Option Ended
unfolding Engine.destroy Mqtt.destroy
end_of cfg none = none
end_of cfg (some s) = some (record {
  code = exit_ok;
  config = cfg;
  served = some (Mqtt.destroy s.proxy, (Engine.destroy s.engine).0);
})

-- The scope of the engine and the proxy, up to the end of `waitForTerminationRequest`.
unfoldable pub serve : Json → List Happening → SvrCfg → Option Ended
unfolding end_of serve_all new_server
serve json xs cfg = end_of cfg (serve_all json cfg xs (new_server cfg))

unfoldable pub after_load : Json → List Happening → ExitCode → SvrCfg × Bool → Option Ended
unfolding serve
after_load json xs res (cfg, loaded) =
    if loaded then serve json xs cfg else some (record { code = res; config = cfg; served = none })

-- `none`: the cursor of the database did not end within the fuel, or an exception that nothing catches,
-- or undefined behaviour.
unfoldable pub main :
    Configuration → (mongo : Mongo) → Json → List Happening → ℕ → SvrCfg → Option Ended
unfolding parse_configuration load_switch_setting after_load
main configuration mongo json xs fuel cfg =
    let (cfg', res) = parse_configuration configuration cfg in
    if is_exit_ok res
    then elim (load_switch_setting mongo fuel cfg') [
      | none ↦ none
      | some loaded ↦ after_load json xs res loaded
    ]
    else some (record { code = res; config = cfg'; served = none })
